-- ===== src/Rbtree/Mend/Black.antt =====
-- A round of `fix_delete` of src/rbtree.c with a black sibling.
use io_engine.Base.{
  ℕ, suc, ◌≡◌, ◌≢◌, inl, inr, sym, ◌∙◌, ap, refl, subst, Bool, true, false, some, arith,
}
use io_engine.Base.Int.{ℤ}
use io_engine.Types.{Ptr, null}
use io_engine.Rbtree.Store.{Tree, Dir, flip, child, is_red}
use io_engine.Rbtree.Extract.{fix_delete}
use io_engine.Rbtree.Shape.{Shape, Holds, IsOrdered, Inside}
use io_engine.Rbtree.Frame.{IsOrdered-IsTree}
use io_engine.Rbtree.Steps.{IsSound, load-step}
use io_engine.Rbtree.Rotate.Subtree.{fork, Inside-fork, IsTree-fork}
use io_engine.Rbtree.Spine.{Spine, plug, parent_of, root_of, OnSpine, unplug-IsTree}
use io_engine.Rbtree.Balance.{red_at, IsRb, RbSpine}
use io_engine.Rbtree.Paint.{Painted, is_red-red_at}
use io_engine.Rbtree.Fix.Query.{root-IsBlack}
use io_engine.Rbtree.Fix.Recolour.{red_at-null}
use io_engine.Rbtree.Mend.{mend_far, mend_near}
use io_engine.Rbtree.Mend.Sibling.{plug-Sibling}
use io_engine.Rbtree.Mend.Colours.{Mended}
use io_engine.Rbtree.Mend.Far.{Lacking, far_Mended}
use io_engine.Rbtree.Mend.Near.{near_Mended}
use io_engine.Rbtree.Mend.Finish.{red_fork}

pub is_red-answer :
    (t : Tree) (p q : Ptr) (b : Bool)
    → IsSound t p
    → q ≡ p
    → red_at t.cells p ≡ b
    → is_red q t ≡ some (b, t)
is_red-answer t p q b s e c = ap (λ z. is_red z t) e ∙ is_red-red_at t p s ∙ ap (λ z. some (z, t)) c

module _ (t : Tree) (π : Spine) (d : Dir) (s : Shape) (a : Ptr) (k : ℤ) (rn : Shape) (b : Ptr)
    (kb : ℤ) (rf : Shape) (h : ℕ) where
  abbrev pub here : Shape
  here = fork d s a k (fork d rn b kb rf)

  abbrev pub whole : Shape
  whole = plug π here

  -- The loop ends with this round or the next.
  abbrev pub Ends : ℕ → Type 0
  Ends fuel =
      (u : Tree) × (fix_delete (suc (suc fuel)) (root_of s) a t ≡ some (tt, u)) × Mended u whole

  -- The loop goes on one level up, where the whole subtree lacks a black node.
  abbrev pub GoesUp : Type 0
  GoesUp =
      (t1 : Tree) × ((fuel : ℕ)
        → fix_delete (suc fuel) (root_of s) a t ≡ fix_delete fuel a (parent_of π) t1)
      × Holds t1.cells t1.root null whole
      × IsRb (red_at t1.cells) here (suc h)
      × RbSpine (red_at t1.cells) π (suc (suc h))

  -- The sibling is painted red.
  pub repaint :
      (t1 : Tree)
      → IsOrdered whole
      → Holds t.cells t.root null whole
      → Painted b true t t1
      → (red_at t1.cells b ≡ true)
        × (red_at t1.cells a ≡ red_at t.cells a)
        × ((q : Ptr) → Inside q s → red_at t1.cells q ≡ red_at t.cells q)
        × ((q : Ptr) → Inside q rn → red_at t1.cells q ≡ red_at t.cells q)
        × ((q : Ptr) → Inside q rf → red_at t1.cells q ≡ red_at t.cells q)
        × ((q : Ptr) → OnSpine q π → red_at t1.cells q ≡ red_at t.cells q)
  repaint t1 ord hold p =
      let r = fork d rn b kb rf in
      let (tf, apart, tπ) =
        unplug-IsTree π here (IsOrdered-IsTree t.cells whole t.root null hold ord) in
      let (a_s, ar, sr, ts, tr) = IsTree-fork d s a k r tf in
      let (bn, bf, nf, tn, tf') = IsTree-fork d rn b kb rf tr in
      let in_r = Inside-fork d b rn b kb rf (inr (inl refl)) in
      let keep : (q : Ptr) → q ≢ b → red_at t1.cells q ≡ red_at t.cells q =
        λ q ne. ground (arith, p.painted q, ne) in
      (
        ground (arith, p.painted b),
        keep a (λ z. ar (subst (λ w. Inside w r) (sym z) in_r)),
        (λ q i. keep q (λ z. sr q i (subst (λ w. Inside w r) (sym z) in_r))),
        (λ q i. keep q (λ z. bn (subst (λ w. Inside w rn) z i))),
        (λ q i. keep q (λ z. bf (subst (λ w. Inside w rf) z i))),
        (λ q i. keep q (λ z.
            apart q (subst (λ w. Inside w here) (sym z) (Inside-fork d b s a k r (inr (inr in_r))))
              i)),
      )

  module _ (hold : Holds t.cells t.root null whole) (ord : IsOrdered whole)
      (black_s : red_at t.cells (root_of s) ≡ false) (black_b : red_at t.cells b ≡ false)
      (is : IsRb (red_at t.cells) s h) (irn : IsRb (red_at t.cells) rn h)
      (irf : IsRb (red_at t.cells) rf h) (lack : Lacking (red_at t.cells) a π h) where
    pub far_Ends : (fuel : ℕ) → red_at t.cells (root_of rf) ≡ true → Ends fuel
    far_Ends fuel red =
        let (n, m, sib) = plug-Sibling t π d s a k rn b kb rf hold ord in
        let (u, e, mended) =
          far_Mended t π d s a k rn b kb rf h hold ord is irn irf black_b red lack in
        (
          u,
          mend_far (suc fuel) (root_of s) a b d t n
                (is_red-answer t (root_of s) (root_of s) false sib.self_sound refl black_s)
                sib.nonnull (load-step t a n sib.at_a) sib.side sib.other m
                (is_red-answer t b b false (inr (sib.b_nonnull, m, sib.at_b)) refl black_b)
                (load-step t b m sib.at_b)
                (is_red-answer t (root_of rf) (child m (flip d)) true sib.far_sound sib.far red)
              ∙ e,
          mended,
        )

    pub near_Ends :
        (fuel : ℕ)
        → red_at t.cells (root_of rf) ≡ false
        → red_at t.cells (root_of rn) ≡ true
        → Ends fuel
    near_Ends fuel black red =
        let (n, m, sib) = plug-Sibling t π d s a k rn b kb rf hold ord in
        let (r1, x, kx, r2, e, rx, b1, b2, i1, i2) =
          red_fork (red_at t.cells) d rn h (red_at-null t.cells) irn red in
        let (u, e', mended) =
          near_Mended t π d s a k r1 x kx r2 b kb rf h
            (subst (λ z. Holds t.cells t.root null (plug π (fork d s a k (fork d z b kb rf)))) e
              hold)
            (subst (λ z. IsOrdered (plug π (fork d s a k (fork d z b kb rf)))) e ord) rx is i1 i2 b2
            irf (root-IsBlack (red_at t.cells) rf black) lack in
        (
          u,
          mend_near (suc fuel) (root_of s) a b d t n
                (is_red-answer t (root_of s) (root_of s) false sib.self_sound refl black_s)
                sib.nonnull (load-step t a n sib.at_a) sib.side sib.other m
                (is_red-answer t b b false (inr (sib.b_nonnull, m, sib.at_b)) refl black_b)
                (load-step t b m sib.at_b)
                (is_red-answer t (root_of rf) (child m (flip d)) false sib.far_sound sib.far black)
                (is_red-answer t (root_of rn) (child m d) true sib.near_sound sib.near red)
              ∙ e',
          subst (λ z. Mended u (plug π (fork d s a k (fork d z b kb rf)))) (sym e) mended,
        )
