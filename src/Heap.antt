-- ===== src/Heap.antt =====
-- src/heaputils.c: the binary min-heap that both deadline heaps use, over the comparison and the
-- exchange that the caller passes as function pointers.
pub mod Order
pub mod Up
pub mod Down
use io_engine.Base.{
  ℕ, zero, suc, ◌+◌, ◌-◌, ◌*◌, ◌/◌, Bool, not, ◌&&◌, ltb, leb, ◌==◌, if◌then◌else◌,
}

-- What the routines get: the array's size, `lt` and `swap`, both on indices into the array.
-- The state may hold more than the array, since an exchange can also write elsewhere.
pub record HeapOps (S : Type 0) : Type 0 where
  pub nelems : S → ℕ
  pub lt : S → ℕ → ℕ → Bool
  pub swap : S → ℕ → ℕ → S

unfoldable pub up : ℕ → ℕ
up idx = (idx - 1) / 2

unfoldable pub left : ℕ → ℕ
left idx = 2 * idx + 1

module _ {S : Type 0} (h : HeapOps S) where
  -- One round for each level; `idx` falls in each, so that `idx` rounds are enough.
  sift_up_loop : ℕ → S → ℕ → S
  unfolding up
  sift_up_loop zero s idx = s
  sift_up_loop (suc fuel) s idx =
      let rest = sift_up_loop fuel (h.swap s (up idx) idx) (up idx) in
      if idx == 0 then s else if h.lt s idx (up idx) then rest else s

  -- `heap_sift_up_idx`; `curr_elem` is always the element at `idx`.
  unfoldable pub sift_up : S → ℕ → S
  unfolding sift_up_loop
  sift_up s idx = sift_up_loop idx s idx

  -- The index of the least of `idx` and its children, the earlier one where they are equal.
  unfoldable pub min_idx : S → ℕ → ℕ
  unfolding left
  min_idx s idx =
      let l = left idx in
      let m = if h.lt s l idx then l else idx in
      if leb (h.nelems s) l
      then idx
      else if ltb (l + 1) (h.nelems s) && h.lt s (l + 1) m
      then l + 1
      else m

  -- `idx` grows in each round, so that `nelems` rounds are enough.
  sift_down_loop : ℕ → S → ℕ → S
  unfolding min_idx
  sift_down_loop zero s idx = s
  sift_down_loop (suc fuel) s idx =
      let m = min_idx s idx in
      let rest = sift_down_loop fuel (h.swap s m idx) m in if m == idx then s else rest

  -- `heap_sift_down_idx`
  unfoldable pub sift_down : S → ℕ → S
  unfolding sift_down_loop
  sift_down s idx = sift_down_loop (h.nelems s) s idx
