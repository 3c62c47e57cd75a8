-- ===== src/Base/Exchange.antt =====
-- The exchange of two list entries, as the heaps' swap functions make it.
use mathlib.Core.List.{Perm}
use mathlib.Core.List.Perm
use io_engine.Base.Lists.{length, get_or, set, length-set, get_or-set}
use io_engine.Base.Tests.{◌==◌, if◌then◌else◌}
use Prim.Native.Nat.{ℕ, zero, suc, ◌<◌}
use mathlib.Core.Path.{◌≡◌, ◌∙◌}
use mathlib.Core.List.{List, [], ◌∷◌}
use native.Mathlib.Omega.{arith}

module _ {A : Type 0} (d : A) where
  abbrev pub exchange : List A → ℕ → ℕ → List A
  exchange xs i j = set (set xs i (get_or xs j d)) j (get_or xs i d)

  -- Writing `v` over an entry, with the old entry put back in front.
  pub set-Perm :
      (xs : List A) (i : ℕ) (v : A) → i < length xs → Perm (get_or xs i d ∷ set xs i v) (v ∷ xs)
  set-Perm [] i v p = absurd (omega arith)
  set-Perm (x ∷ xs) zero v p = Perm.swap v x xs
  set-Perm (x ∷ xs) (suc i) v p =
      Perm.trans (Perm.swap x (get_or xs i d) (set xs i v))
        (Perm.trans (Perm.cons x (set-Perm xs i v (omega arith))) (Perm.swap v x xs))

  module _ (xs : List A) (i j : ℕ) (p : i < length xs) (q : j < length xs) where
    pub length-exchange : length (exchange xs i j) ≡ length xs
    length-exchange =
        length-set (set xs i (get_or xs j d)) j (get_or xs i d) ∙ length-set xs i (get_or xs j d)

    pub get_or-exchange :
        (c : ℕ)
        → get_or (exchange xs i j) c d
          ≡ (if j == c then get_or xs i d else if i == c then get_or xs j d else get_or xs c d)
    get_or-exchange c = rw (
      get_or-set (set xs i (get_or xs j d)) j c (get_or xs i d) d
          (rw (length-set xs i (get_or xs j d)) q),
      get_or-set xs i c (get_or xs j d) d p,
    )

    pub exchange-Perm : Perm (exchange xs i j) xs
    exchange-Perm =
        let ys = set xs i (get_or xs j d) in
        let same : get_or ys j d ≡ get_or xs j d =
          ground (arith, get_or-set xs i j (get_or xs j d) d p) in
        let second =
          rw same at (set-Perm ys j (get_or xs i d) (rw (length-set xs i (get_or xs j d)) q)) in
        Perm.cons_inv (Perm.trans second (set-Perm xs i (get_or xs j d) p))
