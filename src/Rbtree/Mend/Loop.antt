-- ===== src/Rbtree/Mend/Loop.antt =====
-- The loop of `fix_delete` of src/rbtree.c.
use io_engine.Base.{
  ℕ, zero, suc, ◌≡◌, ◌<◌, ◌⊎◌, inl, inr, sym, ◌∙◌, ap, refl, subst, true, false, Bool-cases, some,
  arith,
}
use io_engine.Base.Int.{ℤ}
use io_engine.Types.{Ptr, null}
use io_engine.Rbtree.Store.{Tree, Dir}
use io_engine.Rbtree.Extract.{fix_delete}
use io_engine.Rbtree.Shape.{Shape, Holds, IsOrdered}
use io_engine.Rbtree.Rotate.Subtree.{fork}
use io_engine.Rbtree.Spine.{Spine, top, under, plug, parent_of, root_of, length}
use io_engine.Rbtree.Balance.{red_at, IsRb, RbSpine}
use io_engine.Rbtree.Fix.Query.{root_of-fork}
use io_engine.Rbtree.Fix.Recolour.{red_at-null}
use io_engine.Rbtree.Mend.{mend_red, mend_root}
use io_engine.Rbtree.Mend.Colours.{Mended}
use io_engine.Rbtree.Mend.Far.{Lacking}
use io_engine.Rbtree.Mend.Finish.{red_fork, black_fork, finish_red, finish_root, plug-IsSound}
use io_engine.Rbtree.Mend.Black.{is_red-answer}
use io_engine.Rbtree.Mend.Up.{black_sibling}
use io_engine.Rbtree.Mend.Turn.{root-IsBlack-red, red_sibling}

-- What the loop has at each round: a subtree that lacks a black node.
record Deficit (t : Tree) (π : Spine) (s : Shape) (h : ℕ) : Type 0 where
  holds : Holds t.cells t.root null (plug π s)
  ordered : IsOrdered (plug π s)
  rules : IsRb (red_at t.cells) s h
  spine : RbSpine (red_at t.cells) π (suc h)

module _ (t : Tree) (d : Dir) (a : Ptr) (k : ℤ) (r : Shape) (π : Spine) (s : Shape) (h : ℕ) where
  abbrev round_tree : Shape
  round_tree = plug (under d a k r π) s

  -- A round that ends the loop within three, or one level up.
  abbrev Rounds : ℕ → Type 0
  Rounds fuel =
      ((u : Tree) × (fix_delete (suc (suc (suc fuel))) (root_of s) a t ≡ some (tt, u))
        × Mended u round_tree)
      ⊎ ((t1 : Tree) × (fix_delete (suc (suc (suc fuel))) (root_of s) a t
            ≡ fix_delete (suc (suc fuel)) a (parent_of π) t1)
          × Deficit t1 π (fork d s a k r) (suc h))

  red_round :
      (fuel : ℕ)
      → Deficit t (under d a k r π) s h
      → red_at t.cells (root_of s) ≡ false
      → red_at t.cells (root_of r) ≡ true
      → red_at t.cells a ≡ false
      → IsRb (red_at t.cells) r (suc h)
      → RbSpine (red_at t.cells) π (suc (suc h))
      → Rounds fuel
  unfolding plug
  red_round fuel f black_s red_r black_a ir sp =
      let (rn, b, kb, rf, e, red_b, bn, bf, in', if') =
        red_fork (red_at t.cells) d r (suc h) (red_at-null t.cells) ir red_r in
      inl (
        subst
          (λ z.
            (u : Tree) × (fix_delete (suc (suc (suc fuel))) (root_of s) a t ≡ some (tt, u))
            × Mended u (plug π (fork d s a k z)))
          (sym e)
          (red_sibling t π d s a k rn b kb rf fuel h
            (subst (λ z. Holds t.cells t.root null (plug π (fork d s a k z))) e f.holds)
            (subst (λ z. IsOrdered (plug π (fork d s a k z))) e f.ordered) black_s red_b f.rules in'
            bn if' sp))

  black_round :
      (fuel : ℕ)
      → Deficit t (under d a k r π) s h
      → red_at t.cells (root_of s) ≡ false
      → red_at t.cells (root_of r) ≡ false
      → IsRb (red_at t.cells) r (suc h)
      → Lacking (red_at t.cells) a π h
      → Rounds fuel
  unfolding plug
  black_round fuel f black_s black_r ir lack =
      let (rn, b, kb, rf, e, black_b, in', if') = black_fork (red_at t.cells) d r h ir black_r in
      subst
        (λ z.
          ((u : Tree) × (fix_delete (suc (suc (suc fuel))) (root_of s) a t ≡ some (tt, u))
            × Mended u (plug π (fork d s a k z)))
          ⊎ ((t1 : Tree) × (fix_delete (suc (suc (suc fuel))) (root_of s) a t
                ≡ fix_delete (suc (suc fuel)) a (parent_of π) t1)
              × Deficit t1 π (fork d s a k z) (suc h)))
        (sym e)
        (let hold = subst (λ z. Holds t.cells t.root null (plug π (fork d s a k z))) e f.holds in
          let ord = subst (λ z. IsOrdered (plug π (fork d s a k z))) e f.ordered in
          elim (black_sibling t π d s a k rn b kb rf h hold ord black_s black_b f.rules in' if'
            (suc fuel) lack) [
              | inl ends ↦ inl ends
              | inr (black_a, up) ↦
                  let (t1, step, h1, r1, sp1) = up in
                  inr (
                    t1,
                    step (suc (suc fuel)),
                    record { holds = h1; ordered = ord; rules = r1; spine = sp1 },
                  )
            ])

  round :
      (fuel : ℕ)
      → Deficit t (under d a k r π) s h
      → red_at t.cells (root_of s) ≡ false
      → Rounds fuel
  unfolding RbSpine
  round fuel f black_s = elim f.spine [
    | inl (red_a, br, ir, inner, sp) ↦
        black_round fuel f black_s (root-IsBlack-red (red_at t.cells) r (red_at-null t.cells) br) ir
          (inl (red_a, inner, sp))
    | inr (black_a, ir, sp) ↦ elim (Bool-cases (red_at t.cells (root_of r))) [
      | inl red_r ↦ red_round fuel f black_s red_r black_a ir sp
      | inr black_r ↦ black_round fuel f black_s black_r ir (inr (black_a, sp))
    ]
  ]

red_end :
    (fuel : ℕ) (t : Tree) (π : Spine) (s : Shape) (h : ℕ)
    → Deficit t π s h
    → red_at t.cells (root_of s) ≡ true
    → (u : Tree) × (fix_delete (suc (suc fuel)) (root_of s) (parent_of π) t ≡ some (tt, u))
      × Mended u (plug π s)
red_end fuel t π s h f red =
    let (u, e, mended) = finish_red t π s h f.holds f.ordered f.rules red f.spine in
    (
      u,
      mend_red (suc fuel) (root_of s) (parent_of π) t
            (is_red-answer t (root_of s) (root_of s) true (plug-IsSound t π s f.holds) refl red)
          ∙ e,
      mended,
    )

loop-Mended :
    (fuel : ℕ) (t : Tree) (π : Spine) (s : Shape) (h : ℕ)
    → length π < fuel
    → Deficit t π s h
    → (u : Tree) × (fix_delete (suc (suc fuel)) (root_of s) (parent_of π) t ≡ some (tt, u))
      × Mended u (plug π s)
unfolding length parent_of plug
loop-Mended zero t π s h b f = absurd (omega arith)
loop-Mended (suc fuel) t top s h b f = elim (Bool-cases (red_at t.cells (root_of s))) [
  | inl red ↦ red_end (suc fuel) t top s h f red
  | inr black ↦
      let (u, e, mended) = finish_root t s h f.holds f.ordered f.rules black in
      (
        u,
        mend_root (suc (suc fuel)) (root_of s) t (
              is_red-answer t (root_of s) (root_of s) false (plug-IsSound t top s f.holds) refl
                black)
            ∙ e,
        mended,
      )
]
loop-Mended (suc fuel) t (under d a k r π) s h b f =
    elim (Bool-cases (red_at t.cells (root_of s))) [
      | inl red ↦ red_end (suc fuel) t (under d a k r π) s h f red
      | inr black ↦ elim (round t d a k r π s h fuel f black) [
        | inl ends ↦ ends
        | inr (t1, step, f1) ↦
            let (u, e, mended) = loop-Mended fuel t1 π (fork d s a k r) (suc h) (omega arith) f1 in
            (
              u,
              step
                  ∙ ap (λ z. fix_delete (suc (suc fuel)) z (parent_of π) t1)
                      (sym (root_of-fork d s a k r))
                  ∙ e,
              mended,
            )
      ]
    ]

-- `fix_delete` of a subtree that lacks a black node, with fuel for two rounds more than the distance
-- to the root, ends with a tree by the rules, with a black root and the same nodes in order.
pub fix_delete-Mended :
    (fuel : ℕ) (t : Tree) (π : Spine) (s : Shape) (h : ℕ)
    → suc (suc (length π)) < fuel
    → Holds t.cells t.root null (plug π s)
    → IsOrdered (plug π s)
    → IsRb (red_at t.cells) s h
    → RbSpine (red_at t.cells) π (suc h)
    → (u : Tree) × (fix_delete fuel (root_of s) (parent_of π) t ≡ some (tt, u))
      × Mended u (plug π s)
fix_delete-Mended zero t π s h b hold ord i sp = absurd (omega arith)
fix_delete-Mended (suc zero) t π s h b hold ord i sp = absurd (omega arith)
fix_delete-Mended (suc (suc fuel)) t π s h b hold ord i sp =
    loop-Mended fuel t π s h (omega arith)
      (record { holds = hold; ordered = ord; rules = i; spine = sp })
