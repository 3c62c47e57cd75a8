-- ===== src/Rbtree/Mend/Near.antt =====
-- The branch of `fix_delete` of src/rbtree.c for a sibling whose inner child only is red.
use io_engine.Base.{
  ℕ, suc, ◌≡◌, ◌≢◌, inl, inr, sym, ◌∙◌, ap, refl, subst, true, false, some, arith, ◌==◌,
  if◌then◌else◌,
}
use io_engine.Base.Int.{ℤ}
use io_engine.Types.{Ptr, null}
use io_engine.Rbtree.Store.{Tree, Dir, flip}
use io_engine.Rbtree.Extract.{rotate_delete}
use io_engine.Rbtree.Shape.{Shape, Holds, IsOrdered}
use io_engine.Rbtree.Frame.{IsOrdered-IsTree}
use io_engine.Rbtree.Steps.{IsSound, load-step}
use io_engine.Rbtree.Rotate.Subtree.{fork}
use io_engine.Rbtree.Spine.{Spine, under, plug, OnSpine}
use io_engine.Rbtree.Spine.Turn.{rb_rotate-plug}
use io_engine.Rbtree.Nodes.{nodes, nodes-plug, nodes-rotate}
use io_engine.Rbtree.Balance.{
  red_at, IsBlack, IsRb, fork-red, IsBlack-cong, IsRb-cong, RbSpine-cong, Inner-cong,
}
use io_engine.Rbtree.Paint.{set_black-Painted, set_red-Painted}
use io_engine.Rbtree.Fix.Query.{fork-flip, root_of-fork}
use io_engine.Rbtree.Fix.Apart.{Family, plug-Family}
use io_engine.Rbtree.Fix.Turn.{red_at-same}
use io_engine.Rbtree.Fix.Recolour.{red_at-null}
use io_engine.Rbtree.Fix.Rotate.{fork-unflip}
use io_engine.Rbtree.Mend.{near_steps}
use io_engine.Rbtree.Mend.Sibling.{plug-Sibling}
use io_engine.Rbtree.Mend.Colours.{Mended}
use io_engine.Rbtree.Mend.Far.{Lacking, far_Mended}

module _ (t : Tree) (π : Spine) (d : Dir) (s : Shape) (a : Ptr) (k : ℤ) (r1 : Shape) (x : Ptr)
    (kx : ℤ) (r2 : Shape) (b : Ptr) (kb : ℤ) (rf : Shape) where
  abbrev whole : Shape
  whole = plug π (fork d s a k (fork d (fork d r1 x kx r2) b kb rf))

  abbrev turned : Shape
  turned = plug π (fork d s a k (fork d r1 x kx (fork d r2 b kb rf)))

  -- The subtree of the sibling, with the rest of the tree above it, as the rotation sees it.
  seen : whole ≡ plug (under (flip d) a k s π) (fork (flip d) rf b kb (fork (flip d) r2 x kx r1))
  unfolding plug
  seen =
      ap (λ z. plug π z)
        (fork-flip d s a k (fork d (fork d r1 x kx r2) b kb rf)
          ∙ ap (λ z. fork (flip d) z a k s)
              (fork-flip d (fork d r1 x kx r2) b kb rf
                ∙ ap (λ z. fork (flip d) rf b kb z) (fork-flip d r1 x kx r2)))

  seen_turned :
      plug (under (flip d) a k s π) (fork (flip d) (fork (flip d) rf b kb r2) x kx r1) ≡ turned
  unfolding plug
  seen_turned =
      ap (λ z. plug π z)
        (fork-unflip d (fork (flip d) (fork (flip d) rf b kb r2) x kx r1) a k s
          ∙ ap (λ z. fork d s a k z)
              (fork-unflip d (fork (flip d) rf b kb r2) x kx r1
                ∙ ap (λ z. fork d r1 x kx z) (fork-unflip d rf b kb r2)))

  nodes-near : nodes turned ≡ nodes whole
  nodes-near = sym (
      ap nodes seen
      ∙ nodes-plug (under (flip d) a k s π) _ _ (nodes-rotate (flip d) rf r2 r1 b x kb kx)
      ∙ ap nodes seen_turned)

  family :
      Holds t.cells t.root null whole
      → IsOrdered whole
      → Family r1 r2 rf (under (flip d) a k s π) x b
  unfolding plug
  family hold ord =
      let e = ap (λ z. plug π z) (fork-flip d s a k (fork d (fork d r1 x kx r2) b kb rf)) in
      plug-Family d d r1 r2 rf (under (flip d) a k s π) x b kx kb (
        IsOrdered-IsTree t.cells _ t.root null (subst (λ z. Holds t.cells t.root null z) e hold)
          (subst (λ z. IsOrdered z) e ord))

  -- The writes of the first rotation.
  near_writes :
      Holds t.cells t.root null whole
      → IsOrdered whole
      → x ≢ null
      → (t3 : Tree) × (rotate_delete false b a d t ≡ rotate_delete true x a d t3)
        × ((q : Ptr)
            → red_at t3.cells q
              ≡ (if q == b then true else if q == x then false else red_at t.cells q))
        × Holds t3.cells t3.root null turned
        × IsOrdered turned
  near_writes hold ord xnz =
      let (n, m, sib) = plug-Sibling t π d s a k (fork d r1 x kx r2) b kb rf hold ord in
      let rx = root_of-fork d r1 x kx r2 in
      elim (subst (λ z. IsSound t z) rx sib.near_sound) [
        | inl z ↦ absurd (xnz z)
        | inr (z, xn, xc) ↦
            let (t1, e1, p1) = set_black-Painted t x xn z xc in
            let h1 = p1.keeps whole hold in
            let (n1, m1, sib1) = plug-Sibling t1 π d s a k (fork d r1 x kx r2) b kb rf h1 ord in
            let (t2, e2, p2) = set_red-Painted t1 b m1 sib.b_nonnull sib1.at_b in
            let (t3, e3, h3, o3, same) =
              rb_rotate-plug t2 (under (flip d) a k s π) (flip d) b x kb kx rf r2 r1
                (subst (λ z. Holds t2.cells t2.root null z) seen (p2.keeps whole h1))
                (subst (λ z. IsOrdered z) seen ord) in
            let h3' = subst (λ z. Holds t3.cells t3.root null z) seen_turned h3 in
            let o3' = subst (λ z. IsOrdered z) seen_turned o3 in
            let (n3, m3, sib3) = plug-Sibling t3 π d s a k r1 x kx (fork d r2 b kb rf) h3' o3' in
            (
              t3,
              near_steps a b x d t t1 t2 t3 n3 m m3 (load-step t b m sib.at_b) (sib.near ∙ rx) e1 e2
                  e3 (load-step t3 a n3 sib3.at_a) sib3.other (load-step t3 x m3 sib3.at_b),
              (λ q. red_at-same t2 t3 same q ∙ ground (arith, p2.painted q, p1.painted q)),
              h3',
              o3',
            )
      ]

  pub near_Mended :
      (h : ℕ)
      → Holds t.cells t.root null whole
      → IsOrdered whole
      → red_at t.cells x ≡ true
      → IsRb (red_at t.cells) s h
      → IsRb (red_at t.cells) r1 h
      → IsRb (red_at t.cells) r2 h
      → IsBlack (red_at t.cells) r2
      → IsRb (red_at t.cells) rf h
      → IsBlack (red_at t.cells) rf
      → Lacking (red_at t.cells) a π h
      → (u : Tree) × (rotate_delete false b a d t ≡ some (tt, u)) × Mended u whole
  unfolding OnSpine
  near_Mended h hold ord red is i1 i2 b2 irf brf lack =
      let xnz : x ≢ null =
        λ z. (let nn = red_at-null t.cells in ground (arith, ap (red_at t.cells) z, nn, red)) in
      let (t3, e, now, h3, o3) = near_writes hold ord xnz in
      let fam = family hold ord in
      let c = red_at t.cells in
      let c' = red_at t3.cells in
      let keep : (q : Ptr) → (q ≢ x) × (q ≢ b) → c' q ≡ c q = λ q ne. ground (arith, now q, ne) in
      let far =
        fork-red c' d r2 b kb rf h (now b ∙ ground arith)
          (IsBlack-cong c c' r2 (λ q i. keep q ((fam.sibling q i).0, (fam.sibling q i).1)) b2)
          (IsBlack-cong c c' rf (λ q i. keep q (fam.uncle q i)) brf)
          (IsRb-cong c c' r2 h (λ q i. keep q ((fam.sibling q i).0, (fam.sibling q i).1)) i2)
          (IsRb-cong c c' rf h (λ q i. keep q (fam.uncle q i)) irf) in
      let up = λ (q : Ptr) (i : OnSpine q π).
        keep q ((fam.above q (inr (inr i))).0, (fam.above q (inr (inr i))).1) in
      let ca = keep a ((fam.above a (inl refl)).0, (fam.above a (inl refl)).1) in
      let (u, e', m) =
        far_Mended t3 π d s a k r1 x kx (fork d r2 b kb rf) h h3 o3
          (IsRb-cong c c' s h
            (λ q i. keep q ((fam.above q (inr (inl i))).0, (fam.above q (inr (inl i))).1)) is)
          (IsRb-cong c c' r1 h (λ q i. keep q ((fam.self q i).0, (fam.self q i).1)) i1) far
          (let ne = fam.a_b in ground (arith, now x, ne))
          (ap c' (root_of-fork d r2 b kb rf) ∙ now b ∙ ground arith)
          (elim lack [
            | inl (ra, inner, sp) ↦
                inl (ca ∙ ra, Inner-cong c c' π up inner, RbSpine-cong c c' π (suc h) up sp)
            | inr (ba, sp) ↦ inr (ca ∙ ba, RbSpine-cong c c' π (suc (suc h)) up sp)
          ]) in
      (u, e ∙ e', (m.0, m.1, m.2 ∙ nodes-near))
