-- ===== src/Heap/Up.antt =====
-- `heap_sift_up_idx` mends a heap in which one element may be too late in the array.
use io_engine.Base.{ℕ, zero, suc, ◌≤◌, ◌<◌, ◌≡◌, refl, ◌⊎◌, ◌≢◌, arith, ◌==◌, Bool-cases, inl, inr}
use io_engine.Base.Int.{◌≤ℤ◌, ◌<ℤ◌}
use io_engine.Heap.{HeapOps, up, sift_up_loop, sift_up}
use io_engine.Heap.Order.{HeapLaws, Sifted, Sifted-step}

module _ {S : Type 0} (h : HeapOps S) (laws : HeapLaws h) where
  -- Only the element at `idx` may be earlier than its parent.
  pub record UpInv (s : S) (idx : ℕ) : Type 0 where
    pub inside : idx < h.nelems s
    pub edges : (c : ℕ) → 0 < c → c < h.nelems s → c ≢ idx → laws.key s (up c) ≤ℤ laws.key s c
    pub bridge :
        (c : ℕ)
        → 0 < c
        → c < h.nelems s
        → up c ≡ idx
        → 0 < idx
        → laws.key s (up idx) ≤ℤ laws.key s c

  swap-UpInv :
      (s : S) (idx : ℕ)
      → laws.Good s
      → UpInv s idx
      → 0 < idx
      → laws.key s idx <ℤ laws.key s (up idx)
      → UpInv (h.swap s (up idx) idx) (up idx)
  unfolding up
  swap-UpInv s idx g v p lt =
      let size = laws.nelems-swap s (up idx) idx g (omega arith) v.inside in
      let at = laws.key-swap s (up idx) idx g (omega arith) v.inside in
      record {
        inside = omega arith;
        edges = λ c p q r. ground (arith, at c, at (up c), v.edges c, v.bridge c);
        bridge = λ c p q r t.
            ground
              (arith, at c, at (up c), at (up (up idx)), v.edges c, v.edges (up idx), v.bridge c);
      }

  settled :
      (s : S) (idx : ℕ)
      → laws.Good s
      → UpInv s idx
      → ((idx ≡ 0) ⊎ (laws.key s (up idx) ≤ℤ laws.key s idx))
      → Sifted h laws s s
  settled s idx g v d = record {
    ordered = λ c p q. ground (arith, d, v.edges c p q);
    good = g;
    same_size = refl;
  }

  sift_up_loop_lem :
      (fuel : ℕ) (s : S) (idx : ℕ)
      → idx ≤ fuel
      → laws.Good s
      → UpInv s idx
      → Sifted h laws s (sift_up_loop h fuel s idx)
  unfolding sift_up_loop up
  sift_up_loop_lem zero s idx f g v = settled s idx g v (inl (omega arith))
  sift_up_loop_lem (suc fuel) s idx f g v = elim (Bool-cases (idx == 0)) [
    | inl root ↦ rw root (settled s idx g v (inl (ground arith)))
    | inr below ↦ elim (Bool-cases (h.lt s idx (up idx))) [
      | inl earlier ↦
          let p : 0 < idx = ground arith in
          let inside : up idx < h.nelems s = omega (arith, v.inside) in
          rw (below, earlier)
            (Sifted-step h laws (laws.nelems-swap s (up idx) idx g inside v.inside) (
              sift_up_loop_lem fuel (h.swap s (up idx) idx) (up idx) (ground arith)
                (laws.swap-Good s (up idx) idx g inside v.inside)
                (swap-UpInv s idx g v p (ground (arith, laws.lt-key s idx (up idx))))))
      | inr later ↦
          rw (below, later) (settled s idx g v (inr (ground (arith, laws.lt-key s idx (up idx)))))
    ]
  ]

  -- Sifting up restores the heap order, whatever the element's place was.
  pub sift_up_lem :
      (s : S) (idx : ℕ) → laws.Good s → UpInv s idx → Sifted h laws s (sift_up h s idx)
  unfolding sift_up
  sift_up_lem s idx g v = sift_up_loop_lem idx s idx (omega arith) g v

  -- What every exchange keeps, sifting up keeps.
  sift_up_loop_keeps :
      (P : S → Type 0)
      → ((s : S) (i j : ℕ) → laws.Good s → i < h.nelems s → j < h.nelems s → P s → P (h.swap s i j))
      → (fuel : ℕ) (s : S) (idx : ℕ) → laws.Good s
      → idx < h.nelems s
      → P s
      → P (sift_up_loop h fuel s idx)
  unfolding sift_up_loop up
  sift_up_loop_keeps P keep zero s idx g p k = k
  sift_up_loop_keeps P keep (suc fuel) s idx g p k =
      let inside : up idx < h.nelems s = omega arith in
      ground (
        arith,
        k,
        sift_up_loop_keeps P keep fuel (h.swap s (up idx) idx) (up idx)
            (laws.swap-Good s (up idx) idx g inside p)
            (rw (laws.nelems-swap s (up idx) idx g inside p) inside)
            (keep s (up idx) idx g inside p k),
      )

  pub sift_up_keeps :
      (P : S → Type 0)
      → ((s : S) (i j : ℕ) → laws.Good s → i < h.nelems s → j < h.nelems s → P s → P (h.swap s i j))
      → (s : S) (idx : ℕ) → laws.Good s
      → idx < h.nelems s
      → P s
      → P (sift_up h s idx)
  unfolding sift_up
  sift_up_keeps P keep s idx = sift_up_loop_keeps P keep idx s idx
