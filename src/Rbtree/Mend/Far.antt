-- ===== src/Rbtree/Mend/Far.antt =====
-- The branch of `fix_delete` of src/rbtree.c for a sibling whose outer child is red.
use io_engine.Base.{
  ℕ, suc, ◌≡◌, ◌≢◌, ◌⊎◌, inl, inr, sym, ◌∙◌, ap, refl, subst, Bool, true, false, some, arith,
}
use io_engine.Base.Int.{ℤ}
use io_engine.Types.{Ptr, null}
use io_engine.Rbtree.Node.{RbNode}
use io_engine.Rbtree.Store.{Tree, Dir}
use io_engine.Rbtree.Extract.{rotate_delete}
use io_engine.Rbtree.Shape.{Shape, Holds, IsOrdered, Inside}
use io_engine.Rbtree.Frame.{IsOrdered-IsTree}
use io_engine.Rbtree.Steps.{load-step}
use io_engine.Rbtree.Rotate.Subtree.{fork}
use io_engine.Rbtree.Spine.{Spine, plug, root_of, OnSpine}
use io_engine.Rbtree.Spine.Turn.{rb_rotate-plug}
use io_engine.Rbtree.Nodes.{nodes-plug, nodes-rotate}
use io_engine.Rbtree.Balance.{
  red_at, IsBlack, IsRb, Inner, RbSpine, fork-IsBlack, fork-red, IsRb-cong, RbSpine-cong,
  Inner-cong,
}
use io_engine.Rbtree.Paint.{Painted, set_black-Painted}
use io_engine.Rbtree.Fix.Query.{blacken}
use io_engine.Rbtree.Fix.Apart.{Family, plug-Family}
use io_engine.Rbtree.Fix.Turn.{red_at-same}
use io_engine.Rbtree.Fix.Recolour.{red_at-null, root_of-Inside}
use io_engine.Rbtree.Mend.{far_steps}
use io_engine.Rbtree.Mend.Sibling.{Sibling, plug-Sibling}
use io_engine.Rbtree.Mend.Colours.{Swapped, swap_colors-Swapped, Mended, plug-Mended}

-- The way up from `a`, one of whose subtrees lacks a black node.
abbrev pub Lacking : (Ptr → Bool) → Ptr → Spine → ℕ → Type 0
Lacking c a π h =
    ((c a ≡ true) × Inner c π × RbSpine c π (suc h)) ⊎ ((c a ≡ false) × RbSpine c π (suc (suc h)))

-- The colours after the branch.
record FarColours (c c' : Ptr → Bool) (a b x : Ptr) : Type 0 where
  at_a : c' a ≡ false
  at_b : c' b ≡ c a
  at_x : c' x ≡ false
  others : (q : Ptr) → (q ≢ a) × (q ≢ b) → q ≢ x → c' q ≡ c q

module _ (c c' : Ptr → Bool) (π : Spine) (d : Dir) (s : Shape) (a : Ptr) (k : ℤ) (rn : Shape)
    (b : Ptr) (kb : ℤ) (rf : Shape) (h : ℕ) (fam : Family s rn rf π a b) (nb : c null ≡ false)
    (now : FarColours c c' a b (root_of rf)) (inside : Inside (root_of rf) rf) where
  not_far : (q : Ptr) → (Inside q rf → ⊥) → q ≢ root_of rf
  not_far q out z = out (subst (λ w. Inside w rf) (sym z) inside)

  up_same : (q : Ptr) → OnSpine q π → c' q ≡ c q
  up_same q i = let (na, nb', nf) = fam.above q i in now.others q (na, nb') (not_far q nf)

  -- Whatever the colour of the node above was, the rotated subtree has it at its first node.
  far_rules :
      IsRb c s h
      → IsRb c rn h
      → IsRb c rf h
      → c (root_of rf) ≡ true
      → Lacking c a π h
      → (g : ℕ) × RbSpine c' π g
        × IsRb c' (fork d (fork d s a k rn) b kb rf) g
        × (IsBlack c' (fork d (fork d s a k rn) b kb rf) ⊎ Inner c' π)
  far_rules is irn irf red lack =
      let (low, low_black) =
        fork-IsBlack c' d s a k rn h now.at_a
          (IsRb-cong c c' s h
            (λ q i. let (na, nb', nf) = fam.self q i in now.others q (na, nb') (not_far q nf)) is)
          (IsRb-cong c c' rn h
            (λ q i. let (na, nb', nf) = fam.sibling q i in now.others q (na, nb') (not_far q nf))
            irn) in
      let (far, far_black) =
        blacken c c' rf h fam.uncle_tree nb red now.at_x (λ q i nf. now.others q (fam.uncle q i) nf)
          irf in
      elim lack [
        | inl (ra, inner, sp) ↦ (
          suc h,
          RbSpine-cong c c' π (suc h) up_same sp,
          fork-red c' d (fork d s a k rn) b kb rf (suc h) (now.at_b ∙ ra) low_black far_black low
              far,
          inr (Inner-cong c c' π up_same inner),
        )
        | inr (ba, sp) ↦
            let (top, top_black) =
              fork-IsBlack c' d (fork d s a k rn) b kb rf (suc h) (now.at_b ∙ ba) low far in
            (suc (suc h), RbSpine-cong c c' π (suc (suc h)) up_same sp, top, inl top_black)
      ]

module _ (t : Tree) (π : Spine) (d : Dir) (s : Shape) (a : Ptr) (k : ℤ) (rn : Shape) (b : Ptr)
    (kb : ℤ) (rf : Shape) where
  abbrev whole : Shape
  whole = plug π (fork d s a k (fork d rn b kb rf))

  abbrev turned : Shape
  turned = plug π (fork d (fork d s a k rn) b kb rf)

  far_colours :
      (t1 t2 t3 : Tree)
      → a ≢ b
      → (a ≢ root_of rf) × (b ≢ root_of rf)
      → red_at t.cells b ≡ false
      → Painted (root_of rf) false t t1
      → Swapped a b t1 t2
      → ((q : Ptr) → red_at t3.cells q ≡ red_at t2.cells q)
      → FarColours (red_at t.cells) (red_at t3.cells) a b (root_of rf)
  far_colours t1 t2 t3 ab (ax, bx) black p w same = record {
    at_a = same a ∙ w.at_a ∙ ground (arith, p.painted b, bx, black);
    at_b = same b ∙ w.at_b ∙ ground (arith, p.painted a, ax);
    at_x =
        same (root_of rf)
        ∙ w.others (root_of rf) (λ z. ax (sym z)) (λ z. bx (sym z))
        ∙ ground (arith, p.painted (root_of rf));
    others = λ q ne nx. same q ∙ w.others q ne.0 ne.1 ∙ ground (arith, p.painted q, nx);
  }

  -- The writes of the branch.
  far_writes :
      (n m : RbNode)
      → Sibling t π d s a rn b rf n m
      → Holds t.cells t.root null whole
      → IsOrdered whole
      → root_of rf ≢ null
      → (t1 : Tree) × (t2 : Tree) × (t3 : Tree) × (rotate_delete true b a d t ≡ some (tt, t3))
        × Painted (root_of rf) false t t1
        × Swapped a b t1 t2
        × ((q : Ptr) → red_at t3.cells q ≡ red_at t2.cells q)
        × Holds t3.cells t3.root null turned
        × IsOrdered turned
  far_writes n m sib hold ord xnz = elim sib.far_sound [
    | inl z ↦ absurd (xnz z)
    | inr (xnz', xn, xc) ↦
        let (t1, e1, p1) = set_black-Painted t (root_of rf) xn xnz xc in
        let h1 = p1.keeps whole hold in
        let (n1, m1, sib1) = plug-Sibling t1 π d s a k rn b kb rf h1 ord in
        let (t2, e2, w2) =
          swap_colors-Swapped t1 a b n1 m1 sib.nonnull sib.b_nonnull sib.a_b sib1.at_a sib1.at_b in
        let (t3, e3, h3, o3, same) =
          rb_rotate-plug t2 π d a b k kb s rn rf (w2.keeps whole h1) ord in
        (
          t1,
          t2,
          t3,
          far_steps a b (root_of rf) d t t1 t2 t3 n m (load-step t b m sib.at_b)
              (load-step t a n sib.at_a) sib.other sib.far e1 e2 e3,
          p1,
          w2,
          red_at-same t2 t3 same,
          h3,
          o3,
        )
  ]

  pub far_Mended :
      (h : ℕ)
      → Holds t.cells t.root null whole
      → IsOrdered whole
      → IsRb (red_at t.cells) s h
      → IsRb (red_at t.cells) rn h
      → IsRb (red_at t.cells) rf h
      → red_at t.cells b ≡ false
      → red_at t.cells (root_of rf) ≡ true
      → Lacking (red_at t.cells) a π h
      → (u : Tree) × (rotate_delete true b a d t ≡ some (tt, u)) × Mended u whole
  unfolding plug
  far_Mended h hold ord is irn irf black red lack =
      let nb = red_at-null t.cells in
      let xnz : root_of rf ≢ null = λ z. ground (arith, ap (red_at t.cells) z, nb, red) in
      let (n, m, sib) = plug-Sibling t π d s a k rn b kb rf hold ord in
      let (t1, t2, t3, e, p1, w2, same, h3, o3) = far_writes n m sib hold ord xnz in
      let fam =
        plug-Family d d s rn rf π a b k kb (IsOrdered-IsTree t3.cells turned t3.root null h3 o3) in
      let inside = root_of-Inside rf (root_of rf) refl xnz in
      let (xa, xb) = fam.uncle (root_of rf) inside in
      let now =
        far_colours t1 t2 t3 sib.a_b ((λ z. xa (sym z)), λ z. xb (sym z)) black p1 w2 same in
      let (g, sp, rules, top) =
        far_rules (red_at t.cells) (red_at t3.cells) π d s a k rn b kb rf h fam nb now inside is irn
          irf red lack in
      (
        t3,
        e,
        plug-Mended t3 π (fork d (fork d s a k rn) b kb rf) whole g h3 o3
            (sym (nodes-plug π _ _ (nodes-rotate d s rn rf a b k kb))) sp rules top,
      )
