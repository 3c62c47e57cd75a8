-- ===== src/Rbtree/Mend/Finish.antt =====
-- The end of `fix_delete` of src/rbtree.c, and the branch that goes up.
use io_engine.Base.{
  ℕ, suc, ◌≡◌, ◌≢◌, inl, inr, sym, ◌∙◌, ap, refl, subst, Bool, true, false, Bool-cases, some, arith,
  ◌==◌,
}
use io_engine.Base.Int.{ℤ}
use io_engine.Types.{Ptr, null}
use io_engine.Rbtree.Store.{Tree, Dir, left, right}
use io_engine.Rbtree.Extract.{finish_delete}
use io_engine.Rbtree.Shape.{Shape, leaf, node, Holds, IsOrdered, Inside}
use io_engine.Rbtree.Frame.{IsOrdered-IsTree}
use io_engine.Rbtree.Steps.{IsSound}
use io_engine.Rbtree.Rotate.Subtree.{fork}
use io_engine.Rbtree.Spine.{Spine, top, plug, root_of, unplug-Holds, unplug-IsTree}
use io_engine.Rbtree.Balance.{red_at, IsBlack, IsRb, RbSpine, IsBlack-cong, IsRb-cong, RbSpine-cong}
use io_engine.Rbtree.Paint.{set_black-Painted}
use io_engine.Rbtree.Fix.Query.{root-IsBlack, blacken}
use io_engine.Rbtree.Fix.Recolour.{red_at-null, root_of-Inside}
use io_engine.Rbtree.Mend.{finish_null, finish_node}
use io_engine.Rbtree.Mend.Sibling.{root-IsSound}
use io_engine.Rbtree.Mend.Colours.{Mended, plug-Mended}

-- The first node of a subtree is null or a node of the store.
pub plug-IsSound :
    (t : Tree) (π : Spine) (s : Shape)
    → Holds t.cells t.root null (plug π s)
    → IsSound t (root_of s)
plug-IsSound t π s h =
    let (p, up, hπ, hs) = unplug-Holds t.cells t.root π s h in root-IsSound t s p up hs

pub red-nonnull : (t : Tree) (p : Ptr) → red_at t.cells p ≡ true → p ≢ null
red-nonnull t p e z = (let nn = red_at-null t.cells in ground (arith, ap (red_at t.cells) z, nn, e))

module _ (t : Tree) (π : Spine) (s : Shape) (h : ℕ) (hold : Holds t.cells t.root null (plug π s))
    (ord : IsOrdered (plug π s)) (rules : IsRb (red_at t.cells) s h) where
  -- A red node is painted black.
  pub finish_red :
      red_at t.cells (root_of s) ≡ true
      → RbSpine (red_at t.cells) π (suc h)
      → (u : Tree) × (finish_delete (root_of s) t ≡ some (tt, u)) × Mended u (plug π s)
  finish_red red sp =
      let nz = red-nonnull t (root_of s) red in
      elim (plug-IsSound t π s hold) [
        | inl z ↦ absurd (nz z)
        | inr (z, n, c) ↦
            let (u, e, p) = set_black-Painted t (root_of s) n nz c in
            let (ts, apart, tπ) =
              unplug-IsTree π s (IsOrdered-IsTree t.cells (plug π s) t.root null hold ord) in
            let at_root : red_at u.cells (root_of s) ≡ false =
              ground (arith, p.painted (root_of s)) in
            let keep : (q : Ptr) → q ≢ root_of s → red_at u.cells q ≡ red_at t.cells q =
              λ q ne. ground (arith, p.painted q, ne) in
            let (rb, black) =
              blacken (red_at t.cells) (red_at u.cells) s h ts (red_at-null t.cells) red at_root
                (λ q i ne. keep q ne) rules in
            let inside = root_of-Inside s (root_of s) refl nz in
            (
              u,
              finish_node (root_of s) t nz ∙ e,
              plug-Mended u π s (plug π s) (suc h) (p.keeps (plug π s) hold) ord refl
                  (RbSpine-cong (red_at t.cells) (red_at u.cells) π (suc h)
                    (λ q i. keep q (λ w. apart q (subst (λ v. Inside v s) (sym w) inside) i)) sp)
                  rb (inl black),
            )
      ]

module _ (t : Tree) (s : Shape) (h : ℕ) (hold : Holds t.cells t.root null s) (ord : IsOrdered s)
    (rules : IsRb (red_at t.cells) s h) where
  -- The root of the tree is black.
  pub finish_root :
      red_at t.cells (root_of s) ≡ false
      → (u : Tree) × (finish_delete (root_of s) t ≡ some (tt, u)) × Mended u s
  unfolding RbSpine plug
  finish_root black = elim (plug-IsSound t top s hold) [
    | inl z ↦ (
      t,
      ap (λ w. finish_delete w t) z ∙ finish_null t,
      plug-Mended t top s s h hold ord refl tt rules (inl (root-IsBlack (red_at t.cells) s black)),
    )
    | inr (nz, n, c) ↦
        let (u, e, p) = set_black-Painted t (root_of s) n nz c in
        let keep : (q : Ptr) → red_at u.cells q ≡ red_at t.cells q = λ q.
          elim (Bool-cases (q == root_of s)) [
            | inl i ↦
                (let qr : q ≡ root_of s = ground arith in
                  ground (arith, p.painted q, ap (red_at t.cells) qr ∙ black))
            | inr i ↦ ground (arith, p.painted q, i)
          ] in
        (
          u,
          finish_node (root_of s) t nz ∙ e,
          plug-Mended u top s s h (p.keeps s hold) ord refl tt
              (IsRb-cong (red_at t.cells) (red_at u.cells) s h (λ q i. keep q) rules)
              (inl (
                IsBlack-cong (red_at t.cells) (red_at u.cells) s (λ q i. keep q)
                  (root-IsBlack (red_at t.cells) s black))),
        )
  ]

-- A subtree that is not empty, seen from either side.
pub red_fork :
    (c : Ptr → Bool) (d : Dir) (s : Shape) (h : ℕ)
    → c null ≡ false
    → IsRb c s h
    → c (root_of s) ≡ true
    → (s1 : Shape) × (x : Ptr) × (k : ℤ) × (s2 : Shape) × (s ≡ fork d s1 x k s2)
      × (c x ≡ true)
      × IsBlack c s1
      × IsBlack c s2
      × IsRb c s1 h
      × IsRb c s2 h
unfolding IsRb fork root_of
red_fork c d leaf h nn i red = absurd (ground (arith, nn, red))
red_fork c left (node l a k r) h nn (inl (e, bl, br, il, ir)) red =
    (l, a, k, r, refl, e, bl, br, il, ir)
red_fork c right (node l a k r) h nn (inl (e, bl, br, il, ir)) red =
    (r, a, k, l, refl, e, br, bl, ir, il)
red_fork c d (node l a k r) h nn (inr i) red =
    absurd (let black = i.0 in ground (arith, black, red))

pub black_fork :
    (c : Ptr → Bool) (d : Dir) (s : Shape) (h : ℕ)
    → IsRb c s (suc h)
    → c (root_of s) ≡ false
    → (s1 : Shape) × (x : Ptr) × (k : ℤ) × (s2 : Shape) × (s ≡ fork d s1 x k s2)
      × (c x ≡ false)
      × IsRb c s1 h
      × IsRb c s2 h
unfolding IsRb fork root_of
black_fork c d leaf h i black = absurd (ground (arith, i))
black_fork c d (node l a k r) h (inl i) black = absurd (let red = i.0 in ground (arith, red, black))
black_fork c left (node l a k r) h (inr (e, g, hg, il, ir)) black =
    (let gh : g ≡ h = omega arith in
      (l, a, k, r, refl, e, subst (λ z. IsRb c l z) gh il, subst (λ z. IsRb c r z) gh ir))
black_fork c right (node l a k r) h (inr (e, g, hg, il, ir)) black =
    (let gh : g ≡ h = omega arith in
      (r, a, k, l, refl, e, subst (λ z. IsRb c r z) gh ir, subst (λ z. IsRb c l z) gh il))
