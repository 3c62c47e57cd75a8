-- ===== src/Rbtree/Fix/Red.antt =====
-- The loop of `fix_insert` of src/rbtree.c comes to a red node whose subtrees are in order.
use io_engine.Base.{ℕ, ◌≡◌, inl, inr, sym, ◌∙◌, ap, refl, subst, Bool, true}
use io_engine.Base.Int.{ℤ}
use io_engine.Types.{Ptr}
use io_engine.Rbtree.Store.{Dir, left, right}
use io_engine.Rbtree.Shape.{Shape, Inside}
use io_engine.Rbtree.Rotate.Subtree.{fork, Inside-fork}
use io_engine.Rbtree.Spine.{root_of}
use io_engine.Rbtree.Balance.{IsBlack, IsRb, fork-red}
use io_engine.Rbtree.Fix.Query.{root_of-fork}

-- The first node of `s` is the red node at `x`, and its subtrees, seen from either side, are black
-- at the top and keep the rules.
pub record IsRedRoot (c : Ptr → Bool) (s : Shape) (x : Ptr) (k : ℤ) (h : ℕ) : Type 0 where
  pub red : c x ≡ true
  pub seen :
      (d : Dir)
      → (s1 : Shape) × (s2 : Shape) × (s ≡ fork d s1 x k s2)
        × IsBlack c s1
        × IsBlack c s2
        × IsRb c s1 h
        × IsRb c s2 h

pub fork-IsRedRoot :
    (c : Ptr → Bool) (d : Dir) (s1 : Shape) (x : Ptr) (k : ℤ) (s2 : Shape) (h : ℕ)
    → c x ≡ true
    → IsBlack c s1
    → IsBlack c s2
    → IsRb c s1 h
    → IsRb c s2 h
    → IsRedRoot c (fork d s1 x k s2) x k h
unfolding fork
fork-IsRedRoot c left s1 x k s2 h red b1 b2 i1 i2 = record { red = red; seen = λ e. seen_left e }
  where
    seen_left :
        (e : Dir)
        → (r1 : Shape) × (r2 : Shape) × (fork left s1 x k s2 ≡ fork e r1 x k r2)
          × IsBlack c r1
          × IsBlack c r2
          × IsRb c r1 h
          × IsRb c r2 h
    seen_left left = (s1, s2, refl, b1, b2, i1, i2)
    seen_left right = (s2, s1, refl, b2, b1, i2, i1)
fork-IsRedRoot c right s1 x k s2 h red b1 b2 i1 i2 = record { red = red; seen = λ e. seen_right e }
  where
    seen_right :
        (e : Dir)
        → (r1 : Shape) × (r2 : Shape) × (fork right s1 x k s2 ≡ fork e r1 x k r2)
          × IsBlack c r1
          × IsBlack c r2
          × IsRb c r1 h
          × IsRb c r2 h
    seen_right left = (s2, s1, refl, b2, b1, i2, i1)
    seen_right right = (s1, s2, refl, b1, b2, i1, i2)

module _ (c : Ptr → Bool) (s : Shape) (x : Ptr) (k : ℤ) (h : ℕ) (r : IsRedRoot c s x k h) where
  pub IsRedRoot-root_of : root_of s ≡ x
  IsRedRoot-root_of =
      let (s1, s2, e, b1, b2, i1, i2) = r.seen left in ap root_of e ∙ root_of-fork left s1 x k s2

  pub IsRedRoot-Inside : Inside x s
  IsRedRoot-Inside =
      let (s1, s2, e, b1, b2, i1, i2) = r.seen left in
      subst (λ z. Inside x z) (sym e) (Inside-fork left x s1 x k s2 (inr (inl refl)))

  pub IsRedRoot-IsRb : IsRb c s h
  IsRedRoot-IsRb =
      let (s1, s2, e, b1, b2, i1, i2) = r.seen left in
      subst (λ z. IsRb c z h) (sym e) (fork-red c left s1 x k s2 h r.red b1 b2 i1 i2)
