-- ===== src/Rbtree/Rotate/Colours.antt =====
-- A rotation changes no colour.
use io_engine.Base.{
  ◌≡◌, ◌≢◌, sym, ◌∙◌, ap, refl, inl, inr, Bool, false, Bool-cases, Option, none, some, arith, ◌==◌,
}
use io_engine.Types.{Ptr, null}
use io_engine.Rbtree.Node.{RbNode}
use io_engine.Rbtree.Store.{Tree, Dir, left, right, flip, child, with_child}
use io_engine.Rbtree.Rotate.{CanRotate, Rotated}

abbrev pub red_of : Option RbNode → Bool
red_of none = false
red_of (some n) = n.red

pub with_child_red : (d : Dir) (x : Ptr) (n : RbNode) → (with_child d x n).red ≡ n.red
unfolding with_child
with_child_red left x n = refl
with_child_red right x n = refl

pub Rotated-red_of :
    (t : Tree) (x : Ptr) (d : Dir) (n c : RbNode)
    → CanRotate t x d n c
    → (u : Tree) → Rotated x d n c t u
    → (q : Ptr) → q ≢ null
    → red_of (u.cells q) ≡ red_of (t.cells q)
Rotated-red_of t x d n c k u w q nz = elim (Bool-cases (q == x)) [
  | inl e ↦
      let qx : q ≡ x = ground arith in
      ap red_of (ap u.cells qx ∙ w.below)
      ∙ with_child_red (flip d) (child c d) n
      ∙ sym (ap red_of (ap t.cells qx ∙ k.at_x))
  | inr nx ↦ elim (Bool-cases (q == child n (flip d))) [
    | inl e ↦
        let qy : q ≡ child n (flip d) = ground arith in
        ap red_of (ap u.cells qy ∙ w.top)
        ∙ with_child_red d x (record c { parent = n.parent })
        ∙ sym (ap red_of (ap t.cells qy ∙ k.at_top))
    | inr ny ↦ elim (Bool-cases (q == child c d)) [
      | inl e ↦
          let qg : q ≡ child c d = ground arith in
          let gz : child c d ≢ null = λ z. nz (qg ∙ z) in
          elim k.moved_sound [
            | inl z ↦ absurd (gz z)
            | inr (gz', m, s) ↦
                ap red_of (ap u.cells qg ∙ w.moved m gz s) ∙ sym (ap red_of (ap t.cells qg ∙ s))
          ]
      | inr ng ↦ elim (Bool-cases (q == n.parent)) [
        | inl e ↦
            let qp : q ≡ n.parent = ground arith in
            let pz : n.parent ≢ null = λ z. nz (qp ∙ z) in
            elim k.parent-IsSound [
              | inl z ↦ absurd (pz z)
              | inr (pz', m, s) ↦
                  ap red_of (ap u.cells qp ∙ w.linked m pz s)
                  ∙ with_child_red _ _ m
                  ∙ sym (ap red_of (ap t.cells qp ∙ s))
            ]
        | inr np ↦ ap red_of (
            w.others q (λ i. ground arith) (λ i. ground arith) (λ i. ground arith)
              (λ i. ground arith))
      ]
    ]
  ]
]
