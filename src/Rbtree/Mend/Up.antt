-- ===== src/Rbtree/Mend/Up.antt =====
-- A round of `fix_delete` of src/rbtree.c with a black sibling whose children are black.
use io_engine.Base.{
  ℕ, suc, ◌≡◌, ◌≢◌, ◌⊎◌, inl, inr, ◌∙◌, refl, subst, Bool, true, false, Bool-cases, arith,
}
use io_engine.Base.Int.{ℤ}
use io_engine.Types.{Ptr, null}
use io_engine.Rbtree.Store.{Tree, Dir, flip, child}
use io_engine.Rbtree.Extract.{fix_delete}
use io_engine.Rbtree.Shape.{Shape, Holds, IsOrdered, Inside}
use io_engine.Rbtree.Frame.{IsOrdered-IsTree}
use io_engine.Rbtree.Steps.{load-step}
use io_engine.Rbtree.Rotate.Subtree.{fork, Inside-fork, IsTree-fork}
use io_engine.Rbtree.Spine.{Spine, plug, parent_of, root_of, OnSpine, unplug-IsTree}
use io_engine.Rbtree.Balance.{
  red_at, IsRb, RbSpine, fork-IsBlack, fork-red, IsBlack-cong, IsRb-cong, RbSpine-cong,
}
use io_engine.Rbtree.Paint.{Painted, set_red-Painted, set_black-Painted}
use io_engine.Rbtree.Fix.Query.{root-IsBlack, plug-get_parent}
use io_engine.Rbtree.Mend.{mend_up, mend_red, finish_node}
use io_engine.Rbtree.Mend.Sibling.{plug-Sibling}
use io_engine.Rbtree.Mend.Colours.{plug-Mended}
use io_engine.Rbtree.Mend.Far.{Lacking}
use io_engine.Rbtree.Mend.Black.{Ends, GoesUp, repaint, is_red-answer, far_Ends, near_Ends}

module _ (t : Tree) (π : Spine) (d : Dir) (s : Shape) (a : Ptr) (k : ℤ) (rn : Shape) (b : Ptr)
    (kb : ℤ) (rf : Shape) (h : ℕ)
    (hold : Holds t.cells t.root null (plug π (fork d s a k (fork d rn b kb rf))))
    (ord : IsOrdered (plug π (fork d s a k (fork d rn b kb rf))))
    (black_s : red_at t.cells (root_of s) ≡ false) (black_b : red_at t.cells b ≡ false)
    (is : IsRb (red_at t.cells) s h) (irn : IsRb (red_at t.cells) rn h)
    (irf : IsRb (red_at t.cells) rf h) where
  abbrev around : Shape
  around = fork d s a k (fork d rn b kb rf)

  up_steps :
      red_at t.cells (root_of rf) ≡ false
      → red_at t.cells (root_of rn) ≡ false
      → (t1 : Tree) × ((fuel : ℕ)
          → fix_delete (suc fuel) (root_of s) a t ≡ fix_delete fuel a (parent_of π) t1)
        × Painted b true t t1
  up_steps black_f black_n =
      let (n, m, sib) = plug-Sibling t π d s a k rn b kb rf hold ord in
      let (t1, e1, p1) = set_red-Painted t b m sib.b_nonnull sib.at_b in
      let (nz, up, n1, c1) =
        plug-get_parent t1 π d s a k (fork d rn b kb rf) (p1.keeps (plug π around) hold) in
      (
        t1,
        (λ fuel.
            mend_up fuel (root_of s) a b d t n
              (is_red-answer t (root_of s) (root_of s) false sib.self_sound refl black_s)
              sib.nonnull (load-step t a n sib.at_a) sib.side sib.other m
              (is_red-answer t b b false (inr (sib.b_nonnull, m, sib.at_b)) refl black_b)
              (load-step t b m sib.at_b) (parent_of π) t1
              (is_red-answer t (root_of rf) (child m (flip d)) false sib.far_sound sib.far black_f)
              (is_red-answer t (root_of rn) (child m d) false sib.near_sound sib.near black_n) e1
              up),
        p1,
      )

  -- The sibling's subtree, with a red node.
  sibling_rules :
      (c' : Ptr → Bool)
      → red_at t.cells (root_of rf) ≡ false
      → red_at t.cells (root_of rn) ≡ false
      → c' b ≡ true
      → ((q : Ptr) → Inside q rn → c' q ≡ red_at t.cells q)
      → ((q : Ptr) → Inside q rf → c' q ≡ red_at t.cells q)
      → IsRb c' (fork d rn b kb rf) h
  sibling_rules c' black_f black_n red keep_n keep_f =
      fork-red c' d rn b kb rf h red
        (IsBlack-cong (red_at t.cells) c' rn keep_n (root-IsBlack (red_at t.cells) rn black_n))
        (IsBlack-cong (red_at t.cells) c' rf keep_f (root-IsBlack (red_at t.cells) rf black_f))
        (IsRb-cong (red_at t.cells) c' rn h keep_n irn)
        (IsRb-cong (red_at t.cells) c' rf h keep_f irf)

  up_black :
      red_at t.cells (root_of rf) ≡ false
      → red_at t.cells (root_of rn) ≡ false
      → red_at t.cells a ≡ false
      → RbSpine (red_at t.cells) π (suc (suc h))
      → GoesUp t π d s a k rn b kb rf h
  up_black black_f black_n black_a sp =
      let (t1, e, p) = up_steps black_f black_n in
      let (red, same_a, keep_s, keep_n, keep_f, keep_up) =
        repaint t π d s a k rn b kb rf h t1 ord hold p in
      let c' = red_at t1.cells in
      let (rules, top) =
        fork-IsBlack c' d s a k (fork d rn b kb rf) h (same_a ∙ black_a)
          (IsRb-cong (red_at t.cells) c' s h keep_s is)
          (sibling_rules c' black_f black_n red keep_n keep_f) in
      (
        t1,
        e,
        p.keeps (plug π around) hold,
        rules,
        RbSpine-cong (red_at t.cells) c' π (suc (suc h)) keep_up sp,
      )

  up_red :
      (fuel : ℕ)
      → red_at t.cells (root_of rf) ≡ false
      → red_at t.cells (root_of rn) ≡ false
      → red_at t.cells a ≡ true
      → RbSpine (red_at t.cells) π (suc h)
      → Ends t π d s a k rn b kb rf h fuel
  up_red fuel black_f black_n red_a sp =
      let (t1, e, p) = up_steps black_f black_n in
      let (red, same_a, keep_s, keep_n, keep_f, keep_up) =
        repaint t π d s a k rn b kb rf h t1 ord hold p in
      let h1 = p.keeps (plug π around) hold in
      let (n, m, sib) = plug-Sibling t1 π d s a k rn b kb rf h1 ord in
      let (u, e', p') = set_black-Painted t1 a n sib.nonnull sib.at_a in
      let c' = red_at u.cells in
      let (tf, apart, tπ) =
        unplug-IsTree π around (IsOrdered-IsTree t.cells (plug π around) t.root null hold ord) in
      let (a_s, ar, sr, ts, tr) = IsTree-fork d s a k (fork d rn b kb rf) tf in
      let keep : (q : Ptr) → q ≢ a → c' q ≡ red_at t1.cells q =
        λ q ne. ground (arith, p'.painted q, ne) in
      let in_r = λ (q : Ptr) (i : Inside q rn ⊎ ((q ≡ b) ⊎ Inside q rf)) (z : q ≡ a).
        ar (subst (λ w. Inside w (fork d rn b kb rf)) z (Inside-fork d q rn b kb rf i)) in
      let low =
        sibling_rules c' black_f black_n (keep b (in_r b (inr (inl refl))) ∙ red)
          (λ q i. keep q (in_r q (inl i)) ∙ keep_n q i)
          (λ q i. keep q (in_r q (inr (inr i))) ∙ keep_f q i) in
      let (rules, top) =
        fork-IsBlack c' d s a k (fork d rn b kb rf) h (ground (arith, p'.painted a))
          (IsRb-cong (red_at t.cells) c' s h
            (λ q i. keep q (λ z. a_s (subst (λ w. Inside w s) z i)) ∙ keep_s q i) is)
          low in
      let out = λ (q : Ptr) (i : OnSpine q π) (z : q ≡ a).
        apart a (Inside-fork d a s a k (fork d rn b kb rf) (inr (inl refl)))
          (subst (λ w. OnSpine w π) z i) in
      (
        u,
        e (suc fuel)
            ∙ mend_red fuel a (parent_of π) t1
                (is_red-answer t1 a a true (inr (sib.nonnull, n, sib.at_a)) refl (same_a ∙ red_a))
            ∙ finish_node a t1 sib.nonnull
            ∙ e',
        plug-Mended u π around (plug π around) (suc h) (p'.keeps (plug π around) h1) ord refl
            (RbSpine-cong (red_at t.cells) c' π (suc h) (λ q i. keep q (out q i) ∙ keep_up q i) sp)
            rules (inl top),
      )

  -- A round with a black sibling: the loop ends with it or the next, or, below a black node, goes on
  -- one level up.
  pub black_sibling :
      (fuel : ℕ)
      → Lacking (red_at t.cells) a π h
      → Ends t π d s a k rn b kb rf h fuel
        ⊎ ((red_at t.cells a ≡ false) × GoesUp t π d s a k rn b kb rf h)
  black_sibling fuel lack = elim (Bool-cases (red_at t.cells (root_of rf))) [
    | inl red ↦
        inl (far_Ends t π d s a k rn b kb rf h hold ord black_s black_b is irn irf lack fuel red)
    | inr black_f ↦ elim (Bool-cases (red_at t.cells (root_of rn))) [
      | inl red ↦ inl (
          near_Ends t π d s a k rn b kb rf h hold ord black_s black_b is irn irf lack fuel black_f
            red)
      | inr black_n ↦ elim lack [
        | inl (red_a, inner, sp) ↦ inl (up_red fuel black_f black_n red_a sp)
        | inr (black_a, sp) ↦ inr (black_a, up_black black_f black_n black_a sp)
      ]
    ]
  ]
