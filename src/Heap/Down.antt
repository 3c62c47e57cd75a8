-- ===== src/Heap/Down.antt =====
-- `heap_sift_down_idx` mends a heap in which one element may be too early in the array.
use io_engine.Base.{
  ℕ, zero, suc, ◌+◌, ◌*◌, ◌≤◌, ◌<◌, ◌≡◌, refl, ◌⊎◌, ◌≢◌, arith, ◌==◌, Bool-cases, inl, inr,
}
use io_engine.Base.Int.{◌≤ℤ◌, ◌<ℤ◌}
use io_engine.Heap.{HeapOps, up, left, min_idx, sift_down_loop, sift_down}
use io_engine.Heap.Order.{HeapLaws, Sifted, Sifted-step}

module _ {S : Type 0} (h : HeapOps S) (laws : HeapLaws h) where
  -- Only the element at `idx` may be later than its children.
  pub record DownInv (s : S) (idx : ℕ) : Type 0 where
    pub edges : (c : ℕ) → 0 < c → c < h.nelems s → up c ≢ idx → laws.key s (up c) ≤ℤ laws.key s c
    pub bridge :
        (c : ℕ)
        → 0 < c
        → c < h.nelems s
        → up c ≡ idx
        → 0 < idx
        → laws.key s (up idx) ≤ℤ laws.key s c

  child : (c idx : ℕ) → 0 < c → up c ≡ idx → (c ≡ 2 * idx + 1) ⊎ (c ≡ 2 * idx + 1 + 1)
  unfolding up
  child c idx p e = elim (Bool-cases (c == (2 * idx + 1))) [
    | inl h ↦ inl (ground arith)
    | inr h ↦ inr (ground arith)
  ]

  -- What `min_idx` finds.
  record IsMin (s : S) (idx m : ℕ) : Type 0 where
    inside : m < h.nelems s
    place : (m ≡ idx) ⊎ ((up m ≡ idx) × (idx < m) × (laws.key s m <ℤ laws.key s idx))
    least : (c : ℕ) → 0 < c → c < h.nelems s → up c ≡ idx → laws.key s m ≤ℤ laws.key s c

  min_idx-IsMin : (s : S) (idx : ℕ) → idx < h.nelems s → IsMin s idx (min_idx h s idx)
  unfolding min_idx left up
  min_idx-IsMin s idx p =
      let l = 2 * idx + 1 in
      let e1 = laws.lt-key s l idx in
      let e2 = laws.lt-key s (l + 1) l in
      let e3 = laws.lt-key s (l + 1) idx in
      record {
        inside = ground arith;
        place = ground (arith, e1, e2, e3);
        least = λ c a b t.
            let side : (c ≡ l) ⊎ (c ≡ l + 1) = child c idx a t in ground (arith, e1, e2, e3, side);
      }

  swap-DownInv :
      (s : S) (idx m : ℕ)
      → laws.Good s
      → DownInv s idx
      → IsMin s idx m
      → idx < h.nelems s
      → m ≢ idx
      → DownInv (h.swap s m idx) m
  unfolding up
  swap-DownInv s idx m g v w p d =
      let size = laws.nelems-swap s m idx g w.inside p in
      let at = laws.key-swap s m idx g w.inside p in
      record {
        edges = λ c a b r. ground (arith, size, at c, at (up c), v.edges c, v.bridge m, w.least c);
        bridge = λ c a b r t. ground (arith, size, at c, at (up m), v.edges c);
      }

  sift_down_loop_lem :
      (fuel : ℕ) (s : S) (idx : ℕ)
      → h.nelems s ≤ fuel + idx
      → idx < h.nelems s
      → laws.Good s
      → DownInv s idx
      → Sifted h laws s (sift_down_loop h fuel s idx)
  unfolding sift_down_loop
  sift_down_loop_lem zero s idx f p g v = absurd (omega arith)
  sift_down_loop_lem (suc fuel) s idx f p g v =
      let m = min_idx h s idx in
      let w = min_idx-IsMin s idx p in
      elim (Bool-cases (m == idx)) [
        | inl stay ↦ rw stay (record {
          ordered = λ c a b. ground (arith, v.edges c a b, w.least c a b);
          good = g;
          same_size = refl;
        })
        | inr go ↦
            let ne : m ≢ idx = ground arith in
            let size = laws.nelems-swap s m idx g w.inside p in
            rw go (
              Sifted-step h laws size (
                sift_down_loop_lem fuel (h.swap s m idx) m (ground arith) (ground arith)
                  (laws.swap-Good s m idx g w.inside p) (swap-DownInv s idx m g v w p ne)))
      ]

  -- Sifting down restores the heap order.
  pub sift_down_lem :
      (s : S) (idx : ℕ)
      → idx < h.nelems s
      → laws.Good s
      → DownInv s idx
      → Sifted h laws s (sift_down h s idx)
  unfolding sift_down
  sift_down_lem s idx p g v = sift_down_loop_lem (h.nelems s) s idx (omega arith) p g v

  sift_down_loop_keeps :
      (P : S → Type 0)
      → ((s : S) (i j : ℕ) → laws.Good s → i < h.nelems s → j < h.nelems s → P s → P (h.swap s i j))
      → (fuel : ℕ) (s : S) (idx : ℕ) → laws.Good s
      → idx < h.nelems s
      → P s
      → P (sift_down_loop h fuel s idx)
  unfolding sift_down_loop
  sift_down_loop_keeps P keep zero s idx g p k = k
  sift_down_loop_keeps P keep (suc fuel) s idx g p k =
      let m = min_idx h s idx in
      let w = min_idx-IsMin s idx p in
      ground (
        arith,
        k,
        sift_down_loop_keeps P keep fuel (h.swap s m idx) m (laws.swap-Good s m idx g w.inside p)
            (rw (laws.nelems-swap s m idx g w.inside p) w.inside) (keep s m idx g w.inside p k),
      )

  -- What every exchange keeps, sifting down keeps.
  pub sift_down_keeps :
      (P : S → Type 0)
      → ((s : S) (i j : ℕ) → laws.Good s → i < h.nelems s → j < h.nelems s → P s → P (h.swap s i j))
      → (s : S) (idx : ℕ) → laws.Good s
      → idx < h.nelems s
      → P s
      → P (sift_down h s idx)
  unfolding sift_down
  sift_down_keeps P keep s idx = sift_down_loop_keeps P keep (h.nelems s) s idx
