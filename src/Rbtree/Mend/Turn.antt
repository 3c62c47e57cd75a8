-- ===== src/Rbtree/Mend/Turn.antt =====
-- A round of `fix_delete` of src/rbtree.c with a red sibling.
use io_engine.Base.{
  ℕ, suc, ◌≡◌, ◌≢◌, inl, inr, sym, ◌∙◌, ap, refl, subst, Bool, true, false, some, arith, ◌==◌,
  if◌then◌else◌,
}
use io_engine.Base.Int.{ℤ}
use io_engine.Types.{Ptr, null}
use io_engine.Rbtree.Store.{Tree, Dir}
use io_engine.Rbtree.Extract.{fix_delete}
use io_engine.Rbtree.Shape.{Shape, leaf, node, Holds, IsOrdered, Inside}
use io_engine.Rbtree.Frame.{IsOrdered-IsTree}
use io_engine.Rbtree.Steps.{load-step}
use io_engine.Rbtree.Rotate.Subtree.{fork}
use io_engine.Rbtree.Spine.{Spine, under, plug, root_of}
use io_engine.Rbtree.Spine.Turn.{rb_rotate-plug}
use io_engine.Rbtree.Nodes.{nodes, nodes-plug, nodes-rotate}
use io_engine.Rbtree.Balance.{
  red_at, IsBlack, IsRb, Inner, RbSpine, IsBlack-cong, IsRb-cong, RbSpine-cong,
}
use io_engine.Rbtree.Paint.{set_red-Painted, set_black-Painted}
use io_engine.Rbtree.Fix.Query.{root-IsBlack}
use io_engine.Rbtree.Fix.Apart.{plug-Family}
use io_engine.Rbtree.Fix.Turn.{red_at-same}
use io_engine.Rbtree.Fix.Recolour.{red_at-null}
use io_engine.Rbtree.Mend.{mend_turn}
use io_engine.Rbtree.Mend.Sibling.{plug-Sibling}
use io_engine.Rbtree.Mend.Colours.{Mended}
use io_engine.Rbtree.Mend.Far.{Lacking}
use io_engine.Rbtree.Mend.Finish.{black_fork}
use io_engine.Rbtree.Mend.Black.{is_red-answer}
use io_engine.Rbtree.Mend.Up.{black_sibling}

pub root-IsBlack-red :
    (c : Ptr → Bool) (s : Shape) → c null ≡ false → IsBlack c s → c (root_of s) ≡ false
unfolding IsBlack root_of
root-IsBlack-red c leaf nn b = nn
root-IsBlack-red c (node l a k r) nn b = b

module _ (t : Tree) (π : Spine) (d : Dir) (s : Shape) (a : Ptr) (k : ℤ) (rn : Shape) (b : Ptr)
    (kb : ℤ) (rf : Shape) where
  abbrev whole : Shape
  whole = plug π (fork d s a k (fork d rn b kb rf))

  abbrev turned : Shape
  turned = plug π (fork d (fork d s a k rn) b kb rf)

  -- The rotation of a red sibling.
  turn_writes :
      Holds t.cells t.root null whole
      → IsOrdered whole
      → red_at t.cells (root_of s) ≡ false
      → red_at t.cells b ≡ true
      → (t3 : Tree) × ((fuel : ℕ)
          → fix_delete (suc fuel) (root_of s) a t ≡ fix_delete fuel (root_of s) a t3)
        × ((q : Ptr)
            → red_at t3.cells q
              ≡ (if q == b then false else if q == a then true else red_at t.cells q))
        × Holds t3.cells t3.root null turned
        × IsOrdered turned
  turn_writes hold ord black_s red_b =
      let (n, m, sib) = plug-Sibling t π d s a k rn b kb rf hold ord in
      let (t1, e1, p1) = set_red-Painted t a n sib.nonnull sib.at_a in
      let h1 = p1.keeps whole hold in
      let (n1, m1, sib1) = plug-Sibling t1 π d s a k rn b kb rf h1 ord in
      let (t2, e2, p2) = set_black-Painted t1 b m1 sib1.b_nonnull sib1.at_b in
      let (t3, e3, h3, o3, same) = rb_rotate-plug t2 π d a b k kb s rn rf (p2.keeps whole h1) ord in
      (
        t3,
        (λ fuel.
            mend_turn fuel (root_of s) a b d t n
              (is_red-answer t (root_of s) (root_of s) false sib.self_sound refl black_s)
              sib.nonnull (load-step t a n sib.at_a) sib.side sib.other t1 t2 t3
              (is_red-answer t b b true (inr (sib.b_nonnull, m, sib.at_b)) refl red_b) e1 e2 e3),
        (λ q. red_at-same t2 t3 same q ∙ ground (arith, p2.painted q, p1.painted q)),
        h3,
        o3,
      )

  -- After it, the sibling is black and the node above red, so that two rounds more are enough.
  pub red_sibling :
      (fuel h : ℕ)
      → Holds t.cells t.root null whole
      → IsOrdered whole
      → red_at t.cells (root_of s) ≡ false
      → red_at t.cells b ≡ true
      → IsRb (red_at t.cells) s h
      → IsRb (red_at t.cells) rn (suc h)
      → IsBlack (red_at t.cells) rn
      → IsRb (red_at t.cells) rf (suc h)
      → RbSpine (red_at t.cells) π (suc (suc h))
      → (u : Tree) × (fix_delete (suc (suc (suc fuel))) (root_of s) a t ≡ some (tt, u))
        × Mended u whole
  unfolding plug RbSpine Inner
  red_sibling fuel h hold ord black_s red_b is irn brn irf sp =
      let (t3, step, now, h3, o3) = turn_writes hold ord black_s red_b in
      let fam =
        plug-Family d d s rn rf π a b k kb (IsOrdered-IsTree t3.cells turned t3.root null h3 o3) in
      let c = red_at t.cells in
      let c' = red_at t3.cells in
      let keep : (q : Ptr) → (q ≢ a) × (q ≢ b) → c' q ≡ c q = λ q ne. ground (arith, now q, ne) in
      let black_b : c' b ≡ false = ground (arith, now b) in
      let red_a : c' a ≡ true = (let ne = fam.a_b in ground (arith, now a, ne)) in
      let keep_n =
        λ (q : Ptr) (i : Inside q rn). keep q ((fam.sibling q i).0, (fam.sibling q i).1) in
      let keep_s = λ (q : Ptr) (i : Inside q s). keep q ((fam.self q i).0, (fam.self q i).1) in
      let irn' = IsRb-cong c c' rn (suc h) keep_n irn in
      let brn' = root-IsBlack-red c' rn (red_at-null t3.cells) (IsBlack-cong c c' rn keep_n brn) in
      let (rn', x, kx, rf', e, black_x, in', if') = black_fork c' d rn h irn' brn' in
      let lack : Lacking c' a (under d b kb rf π) h = inl (
        red_a,
        black_b,
        inr (
          black_b,
          IsRb-cong c c' rf (suc h) (λ q i. keep q (fam.uncle q i)) irf,
          RbSpine-cong c c' π (suc (suc h)) (λ q i. keep q ((fam.above q i).0, (fam.above q i).1))
              sp,
        ),
      ) in
      let same : nodes turned ≡ nodes whole =
        sym (nodes-plug π _ _ (nodes-rotate d s rn rf a b k kb)) in
      let black_s' : c' (root_of s) ≡ false =
        root-IsBlack-red c' s (red_at-null t3.cells)
          (IsBlack-cong c c' s keep_s (root-IsBlack c s black_s)) in
      elim (black_sibling t3 (under d b kb rf π) d s a k rn' x kx rf' h
        (subst (λ z. Holds t3.cells t3.root null (plug π (fork d (fork d s a k z) b kb rf))) e h3)
        (subst (λ z. IsOrdered (plug π (fork d (fork d s a k z) b kb rf))) e o3) black_s' black_x
        (IsRb-cong c c' s h keep_s is) in' if' fuel lack) [
          | inl (u, e', mended) ↦ (
            u,
            step (suc (suc fuel)) ∙ e',
            (
              mended.0,
              mended.1,
              mended.2 ∙ ap (λ z. nodes (plug π (fork d (fork d s a k z) b kb rf))) (sym e) ∙ same,
            ),
          )
          | inr (black_a, up) ↦ absurd (ground (arith, red_a, black_a))
        ]
