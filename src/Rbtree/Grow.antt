-- ===== src/Rbtree/Grow.antt =====
-- A new node in the tree, at the place that `rb_probe` of src/rbtree.c finds.
use io_engine.Base.{
  ℕ, zero, suc, ◌≡◌, ◌≢◌, ◌<◌, ◌⊎◌, inl, inr, sym, ◌∙◌, ap, refl, subst, true, false, Option, some,
  arith, Bool-cases, if◌then◌else◌,
}
use io_engine.Base.Int.{ℤ, ltb_ℤ, ◌==ℤ◌}
use io_engine.Types.{Ptr, null}
use io_engine.Rbtree.Node.{RbNode}
use io_engine.Rbtree.Store.{
  Tree, Dir, left, right, to_dir, child, with_child, Place, root_ref, link, read_place,
}
use io_engine.Rbtree.Insert.{rb_probe, rb_probe_loop}
use io_engine.Rbtree.Shape.{Shape, leaf, node, Holds, Has, IsOrdered, Inside, IsTree, height}
use io_engine.Rbtree.Frame.{Holds-others}
use io_engine.Rbtree.Search.{step_null, step_down, read-link, height-below}

-- The tree with a new node for a descriptor that it does not have.
unfoldable pub insert : ℤ → Ptr → Shape → Shape
insert fd x leaf = node leaf x fd leaf
insert fd x (node l a k r) =
    let l' = insert fd x l in
    let r' = insert fd x r in if ltb_ℤ k fd then node l a k r' else node l' a k r

-- The child pointer of `q` on the side `d` is null, and is where the descriptor belongs.
unfoldable pub Hole : ℤ → Shape → Ptr → Dir → Type 0
Hole fd leaf q d = ⊥
Hole fd (node l a k r) q d =
    ((ltb_ℤ k fd ≡ true) × (((q ≡ a) × (d ≡ right) × (r ≡ leaf)) ⊎ Hole fd r q d))
    ⊎ ((ltb_ℤ k fd ≡ false) × (((q ≡ a) × (d ≡ left) × (l ≡ leaf)) ⊎ Hole fd l q d))

pub Hole-Inside : (fd : ℤ) (s : Shape) (q : Ptr) (d : Dir) → Hole fd s q d → Inside q s
unfolding Hole Inside
Hole-Inside fd leaf q d h = absurd h
Hole-Inside fd (node l a k r) q d (inl (c, inl (e, f, g))) = inr (inl e)
Hole-Inside fd (node l a k r) q d (inl (c, inr h)) = inr (inr (Hole-Inside fd r q d h))
Hole-Inside fd (node l a k r) q d (inr (c, inl (e, f, g))) = inr (inl e)
Hole-Inside fd (node l a k r) q d (inr (c, inr h)) = inl (Hole-Inside fd l q d h)

Has-insert : (fd : ℤ) (x : Ptr) (s : Shape) (k : ℤ) → Has k (insert fd x s) → (k ≡ fd) ⊎ Has k s
unfolding Has insert
Has-insert fd x leaf j h = ground arith
Has-insert fd x (node l a k r) j h = ground (arith, Has-insert fd x l j, Has-insert fd x r j)

-- The order is kept.
pub IsOrdered-insert :
    (fd : ℤ) (x : Ptr) (s : Shape) → IsOrdered s → (Has fd s → ⊥) → IsOrdered (insert fd x s)
unfolding IsOrdered Has insert
IsOrdered-insert fd x leaf o h = (tt, tt, (λ k i. absurd i), λ k i. absurd i)
IsOrdered-insert fd x (node l a k r) (ol, or, lo, hi) h = elim (Bool-cases (ltb_ℤ k fd)) [
  | inl c ↦ rw c (
    ol,
    IsOrdered-insert fd x r or (λ i. h (inr (inr i))),
    lo,
    λ j i. elim (Has-insert fd x r j i) [ inl e ↦ ground arith | inr i' ↦ hi j i' ],
  )
  | inr c ↦ rw c (
    IsOrdered-insert fd x l ol (λ i. h (inl i)),
    or,
    (λ j i. elim (Has-insert fd x l j i) [
      | inl e ↦ (let ne : (k ≡ fd → ⊥) = λ z. h (inr (inl (sym z))) in ground arith)
      | inr i' ↦ lo j i'
    ]),
    hi,
  )
]

-- The search for a descriptor that has no node ends where it began, if the tree is empty, and
-- else in the null child pointer where the descriptor belongs.
loop-Hole :
    (t : Tree) (fd : ℤ) (s : Shape) (fuel : ℕ) (place : Place) (parent p up : Ptr)
    → read_place place t ≡ some (p, t)
    → Holds t.cells p up s
    → (Has fd s → ⊥)
    → height s < fuel
    → ((s ≡ leaf) × (rb_probe_loop fuel place parent fd t ≡ some ((place, parent), t)))
      ⊎ ((q : Ptr) × (d : Dir) × (rb_probe_loop fuel place parent fd t ≡ some ((link q d, q), t))
          × Hole fd s q d)
unfolding Holds Has Hole child to_dir
loop-Hole t fd s zero place parent p up e h out b = absurd (omega arith)
loop-Hole t fd leaf (suc fuel) place parent p up e h out b =
    inl (refl, step_null t fd fuel place parent (e ∙ ap (λ q. some (q, t)) h))
loop-Hole t fd (node l a k r) (suc fuel) place parent p up e (pa, nz, n, c, np, nk, hl, hr) out b =
    let c' : t.cells p ≡ some n = ap t.cells pa ∙ c in
    let z : p ≢ null = λ i. nz (sym pa ∙ i) in
    let differs : (n.fd ==ℤ fd) ≡ false =
      (let ne : k ≡ fd → ⊥ = λ i. out (inr (inl (sym i))) in ground arith) in
    elim (Bool-cases (ltb_ℤ n.fd fd)) [
      | inl less ↦
          let step = step_down t fd fuel place parent p n true e z c' differs less in
          let less' : ltb_ℤ k fd ≡ true = ap (λ j. ltb_ℤ j fd) (sym nk) ∙ less in
          elim (loop-Hole t fd r fuel (link p right) p n.right a (read-link t fd p n right c') hr
            (λ i. out (inr (inr i))) (height-below l r a k fuel b).1) [
              | inl (f, e') ↦ inr (p, right, step ∙ e', inl (less', inl (pa, refl, f)))
              | inr (q, d, e', h) ↦ inr (q, d, step ∙ e', inl (less', inr h))
            ]
      | inr more ↦
          let step = step_down t fd fuel place parent p n false e z c' differs more in
          let more' : ltb_ℤ k fd ≡ false = ap (λ j. ltb_ℤ j fd) (sym nk) ∙ more in
          elim (loop-Hole t fd l fuel (link p left) p n.left a (read-link t fd p n left c') hl
            (λ i. out (inl i)) (height-below l r a k fuel b).0) [
              | inl (f, e') ↦ inr (p, left, step ∙ e', inr (more', inl (pa, refl, f)))
              | inr (q, d, e', h) ↦ inr (q, d, step ∙ e', inr (more', inr h))
            ]
    ]

-- `after` is the store once a new node, at `x`, is the child of `q` on the side `d`.
pub record Linked (fd : ℤ) (x q : Ptr) (d : Dir) (cells after : Ptr → Option RbNode) : Type 0 where
  pub new : RbNode
  pub stored : after x ≡ some new
  pub its_fd : new.fd ≡ fd
  pub its_parent : new.parent ≡ q
  pub no_left : new.left ≡ null
  pub no_right : new.right ≡ null
  pub nonnull : x ≢ null
  pub linked : (n : RbNode) → cells q ≡ some n → after q ≡ some (with_child d x n)
  pub others : (w : Ptr) → w ≢ q → w ≢ x → after w ≡ cells w

module _ (fd : ℤ) (x q : Ptr) (d : Dir) (cells after : Ptr → Option RbNode)
    (k : Linked fd x q d cells after) where
  new-Holds : Holds after x q (node leaf x fd leaf)
  unfolding Holds
  new-Holds = (refl, k.nonnull, k.new, k.stored, k.its_parent, k.its_fd, k.no_left, k.no_right)

  new_below : (a : Ptr) → q ≡ a → Holds after x a (insert fd x leaf)
  unfolding insert
  new_below a e = subst (λ z. Holds after x z (node leaf x fd leaf)) e new-Holds

  untouched :
      (s : Shape) (p up : Ptr)
      → Holds cells p up s
      → (Inside q s → ⊥)
      → (Inside x s → ⊥)
      → Holds after p up s
  untouched s p up h nq nx = Holds-others cells after s p up h λ w i.
      k.others w (λ e. nq (subst (λ z. Inside z s) e i)) (λ e. nx (subst (λ z. Inside z s) e i))

  pub Holds-insert :
      (s : Shape) (p up : Ptr)
      → Holds cells p up s
      → IsTree s
      → (Inside x s → ⊥)
      → Hole fd s q d
      → Holds after p up (insert fd x s)
  unfolding Holds IsTree Inside Hole insert with_child
  Holds-insert leaf p up h tr nx hole = absurd hole
  Holds-insert (node l a j r) p up (pa, nz, n, c, np, nk, hl, hr) (al, ar, lr, tl, tr) nx
        (inl (less, inl (qa, dr, rl))) =
      rw less (
        pa,
        nz,
        with_child right x n,
        ap after (sym qa) ∙ k.linked n (ap cells qa ∙ c) ∙ ap (λ e. some (with_child e x n)) dr,
        np,
        nk,
        untouched l n.left a hl (λ i. al (subst (λ z. Inside z l) qa i)) (λ i. nx (inl i)),
        subst (λ z. Holds after x a (insert fd x z)) (sym rl) (new_below a qa),
      )
  Holds-insert (node l a j r) p up (pa, nz, n, c, np, nk, hl, hr) (al, ar, lr, tl, tr) nx
        (inl (less, inr hole)) =
      rw less (
        pa,
        nz,
        n,
        k.others a (λ e. ar (subst (λ z. Inside z r) (sym e) (Hole-Inside fd r q d hole)))
              (λ e. nx (inr (inl (sym e))))
            ∙ c,
        np,
        nk,
        untouched l n.left a hl (λ i. lr q i (Hole-Inside fd r q d hole)) (λ i. nx (inl i)),
        Holds-insert r n.right a hr tr (λ i. nx (inr (inr i))) hole,
      )
  Holds-insert (node l a j r) p up (pa, nz, n, c, np, nk, hl, hr) (al, ar, lr, tl, tr) nx
        (inr (more, inl (qa, dl, ll))) =
      rw more (
        pa,
        nz,
        with_child left x n,
        ap after (sym qa) ∙ k.linked n (ap cells qa ∙ c) ∙ ap (λ e. some (with_child e x n)) dl,
        np,
        nk,
        subst (λ z. Holds after x a (insert fd x z)) (sym ll) (new_below a qa),
        untouched r n.right a hr (λ i. ar (subst (λ z. Inside z r) qa i)) (λ i. nx (inr (inr i))),
      )
  Holds-insert (node l a j r) p up (pa, nz, n, c, np, nk, hl, hr) (al, ar, lr, tl, tr) nx
        (inr (more, inr hole)) =
      rw more (
        pa,
        nz,
        n,
        k.others a (λ e. al (subst (λ z. Inside z l) (sym e) (Hole-Inside fd l q d hole)))
              (λ e. nx (inr (inl (sym e))))
            ∙ c,
        np,
        nk,
        Holds-insert l n.left a hl tl (λ i. nx (inl i)) hole,
        untouched r n.right a hr (λ i. lr q (Hole-Inside fd l q d hole) i) (λ i. nx (inr (inr i))),
      )

-- `rb_probe` from the root, for a descriptor that has no node, with fuel above the height: in an
-- empty tree it answers the root and no parent, and else the null child pointer where the
-- descriptor belongs and the node that it is in.
pub rb_probe-Hole :
    (t : Tree) (fd : ℤ) (s : Shape) (fuel : ℕ)
    → Holds t.cells t.root null s
    → (Has fd s → ⊥)
    → height s < fuel
    → ((s ≡ leaf) × (rb_probe fuel root_ref fd t ≡ some ((root_ref, null), t)))
      ⊎ ((q : Ptr) × (d : Dir) × (rb_probe fuel root_ref fd t ≡ some ((link q d, q), t))
          × Hole fd s q d)
unfolding rb_probe read_place
rb_probe-Hole t fd s fuel h out b = loop-Hole t fd s fuel root_ref null t.root null refl h out b
