-- ===== src/Rbtree/Descent.antt =====
-- The way that the search of `rb_probe` of src/rbtree.c takes to a new node, seen from below.
use io_engine.Base.{
  ℕ, suc, ◌≡◌, ◌≤◌, ◌+◌, ◌⊎◌, inl, inr, sym, ◌∙◌, ap, refl, subst, Bool, true, false, Bool-cases,
  arith, if◌then◌else◌,
}
use io_engine.Base.Int.{ℤ, ltb_ℤ}
use io_engine.Types.{Ptr}
use io_engine.Rbtree.Store.{Dir, left, right, link}
use io_engine.Rbtree.Shape.{Shape, leaf, node, height}
use io_engine.Rbtree.Grow.{insert, Hole}
use io_engine.Rbtree.Rotate.Subtree.{fork}
use io_engine.Rbtree.Spine.{Spine, under, plug, parent_of, place_of, length}
use io_engine.Rbtree.Balance.{IsBlack, IsRb, Inner, RbSpine}

-- The way up from the place where the descriptor belongs.
unfoldable pub descend : ℤ → Shape → Spine → Spine
descend fd leaf π = π
descend fd (node l a k r) π =
    let to_left = descend fd l (under left a k r π) in
    let to_right = descend fd r (under right a k l π) in if ltb_ℤ k fd then to_right else to_left

pub plug-descend :
    (fd : ℤ) (x : Ptr) (s : Shape) (π : Spine)
    → plug (descend fd s π) (node leaf x fd leaf) ≡ plug π (insert fd x s)
unfolding descend insert plug fork
plug-descend fd x leaf π = refl
plug-descend fd x (node l a k r) π = elim (Bool-cases (ltb_ℤ k fd)) [
  | inl c ↦ rw c (plug-descend fd x r (under right a k l π))
  | inr c ↦ rw c (plug-descend fd x l (under left a k r π))
]

pub length-descend :
    (fd : ℤ) (s : Shape) (π : Spine) → length (descend fd s π) ≤ length π + height s
unfolding descend length height
length-descend fd leaf π = omega arith
length-descend fd (node l a k r) π = elim (Bool-cases (ltb_ℤ k fd)) [
  | inl c ↦ (let below = length-descend fd r (under right a k l π) in ground (arith, below, c))
  | inr c ↦ (let below = length-descend fd l (under left a k r π) in ground (arith, below, c))
]

-- It begins at the pointer that the search answers.
pub descend-Hole :
    (fd : ℤ) (s : Shape) (π : Spine) (q : Ptr) (d : Dir)
    → Hole fd s q d
    → (parent_of (descend fd s π) ≡ q) × (place_of (descend fd s π) ≡ link q d)
unfolding descend Hole parent_of place_of
descend-Hole fd leaf π q d h = absurd h
descend-Hole fd (node l a k r) π q d (inl (c, inl (qa, dr, rl))) =
    rw c (rw rl (sym qa, ap (λ z. link z right) (sym qa) ∙ ap (λ z. link q z) (sym dr)))
descend-Hole fd (node l a k r) π q d (inl (c, inr h)) =
    rw c (descend-Hole fd r (under right a k l π) q d h)
descend-Hole fd (node l a k r) π q d (inr (c, inl (qa, dl, ll))) =
    rw c (rw ll (sym qa, ap (λ z. link z left) (sym qa) ∙ ap (λ z. link q z) (sym dl)))
descend-Hole fd (node l a k r) π q d (inr (c, inr h)) =
    rw c (descend-Hole fd l (under left a k r π) q d h)

under_RbSpine :
    (c : Ptr → Bool) (d : Dir) (a : Ptr) (k : ℤ) (s r : Shape) (π : Spine) (h : ℕ)
    → ((c a ≡ true) × IsBlack c s × IsBlack c r × IsRb c s h × IsRb c r h)
      ⊎ ((c a ≡ false) × (g : ℕ) × (h ≡ suc g) × IsRb c s g × IsRb c r g)
    → RbSpine c π h
    → (c a ≡ false) ⊎ Inner c π
    → (g : ℕ) × RbSpine c (under d a k r π) g
      × IsRb c s g
      × (IsBlack c s ⊎ Inner c (under d a k r π))
unfolding RbSpine Inner
under_RbSpine c d a k s r π h (inl (e, bs, br, is, ir)) sp (inl black) =
    absurd (ground (arith, e, black))
under_RbSpine c d a k s r π h (inl (e, bs, br, is, ir)) sp (inr inner) =
    (h, inl (e, br, ir, inner, sp), is, inl bs)
under_RbSpine c d a k s r π h (inr (e, g, hg, is, ir)) sp free =
    (g, inr (e, ir, subst (λ z. RbSpine c π z) hg sp), is, inr e)

-- The rules hold on it, for a subtree without black nodes.
pub descend-RbSpine :
    (c : Ptr → Bool) (fd : ℤ) (s : Shape) (π : Spine) (h : ℕ)
    → IsRb c s h
    → RbSpine c π h
    → IsBlack c s ⊎ Inner c π
    → RbSpine c (descend fd s π) 0
unfolding descend IsRb IsBlack
descend-RbSpine c fd leaf π h i sp free = subst (λ z. RbSpine c π z) i sp
descend-RbSpine c fd (node l a k r) π h i sp free = elim (Bool-cases (ltb_ℤ k fd)) [
  | inl e ↦
      let (g, sp', is, free') = under_RbSpine c right a k r l π h (swap i) sp free in
      rw e (descend-RbSpine c fd r (under right a k l π) g is sp' free')
  | inr e ↦
      let (g, sp', is, free') = under_RbSpine c left a k l r π h i sp free in
      rw e (descend-RbSpine c fd l (under left a k r π) g is sp' free')
]
  where
    swap :
        IsRb c (node l a k r) h
        → ((c a ≡ true) × IsBlack c r × IsBlack c l × IsRb c r h × IsRb c l h)
          ⊎ ((c a ≡ false) × (g : ℕ) × (h ≡ suc g) × IsRb c r g × IsRb c l g)
    swap (inl (e, bl, br, il, ir)) = inl (e, br, bl, ir, il)
    swap (inr (e, g, hg, il, ir)) = inr (e, g, hg, ir, il)
