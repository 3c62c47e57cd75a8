-- ===== src/Heap/Order.antt =====
-- What the sift routines need of the caller's comparison and exchange, and the heap order.
use io_engine.Base.{ℕ, zero, suc, ◌<◌, ◌≡◌, ◌∙◌, arith, ◌==◌, if◌then◌else◌}
use io_engine.Base.Int.{ℤ, ◌≤ℤ◌, ltb_ℤ}
use io_engine.Heap.{HeapOps, up}

-- `Good` is the caller's own invariant, which an exchange keeps.
pub record HeapLaws {S : Type 0} (h : HeapOps S) : Type 1 where
  pub Good : S → Type 0
  pub key : S → ℕ → ℤ
  pub lt-key : (s : S) (i j : ℕ) → h.lt s i j ≡ ltb_ℤ (key s i) (key s j)
  pub nelems-swap :
      (s : S) (i j : ℕ)
      → Good s
      → i < h.nelems s
      → j < h.nelems s
      → h.nelems (h.swap s i j) ≡ h.nelems s
  pub key-swap :
      (s : S) (i j : ℕ)
      → Good s
      → i < h.nelems s
      → j < h.nelems s
      → (c : ℕ)
      → key (h.swap s i j) c ≡ (if j == c then key s i else if i == c then key s j else key s c)
  pub swap-Good : (s : S) (i j : ℕ) → Good s → i < h.nelems s → j < h.nelems s → Good (h.swap s i j)

module _ {S : Type 0} (h : HeapOps S) (laws : HeapLaws h) where
  -- No element has an earlier deadline than its parent.
  abbrev pub IsHeap : S → Type 0
  IsHeap s = (c : ℕ) → 0 < c → c < h.nelems s → laws.key s (up c) ≤ℤ laws.key s c

  root_least_below :
      (k : ℕ) (s : S) (i : ℕ) → IsHeap s → i < k → i < h.nelems s → laws.key s 0 ≤ℤ laws.key s i
  unfolding up
  root_least_below zero s i v p q = absurd (omega arith)
  root_least_below (suc k) s zero v p q = omega arith
  root_least_below (suc k) s (suc i) v p q =
      omega (arith, v (suc i), root_least_below k s (up (suc i)) v (omega arith) (omega arith))

  -- The root of a heap has the earliest deadline.
  pub root_least : (s : S) (i : ℕ) → IsHeap s → i < h.nelems s → laws.key s 0 ≤ℤ laws.key s i
  root_least s i v p = root_least_below (suc i) s i v (omega arith) p

  -- `t` is in order, sound, and of the size of `s`.
  pub record Sifted (s t : S) : Type 0 where
    pub ordered : IsHeap t
    pub good : laws.Good t
    pub same_size : h.nelems t ≡ h.nelems s

  pub Sifted-step : {s s' t : S} → h.nelems s' ≡ h.nelems s → Sifted s' t → Sifted s t
  Sifted-step e v = record { ordered = v.ordered; good = v.good; same_size = v.same_size ∙ e }
