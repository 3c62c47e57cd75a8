-- ===== src/Rbtree/Fix/Recolour.antt =====
-- The branch of `fix_insert` of src/rbtree.c for a red uncle.
use io_engine.Base.{
  ℕ, suc, ◌≡◌, ◌≢◌, inl, inr, sym, ◌∙◌, ap, refl, subst, Bool, true, false, Option, some, arith,
  ◌==◌, if◌then◌else◌,
}
use io_engine.Base.Int.{ℤ}
use io_engine.Types.{Ptr, null}
use io_engine.Rbtree.Node.{RbNode}
use io_engine.Rbtree.Store.{Tree, Dir, set_red, set_black}
use io_engine.Rbtree.Insert.{fix_insert}
use io_engine.Rbtree.Shape.{Shape, leaf, node, Holds, IsOrdered, Inside}
use io_engine.Rbtree.Frame.{IsOrdered-IsTree}
use io_engine.Rbtree.Steps.{IsSound, load-step}
use io_engine.Rbtree.Rotate.Subtree.{fork, Inside-fork}
use io_engine.Rbtree.Spine.{Spine, under, plug, parent_of, root_of}
use io_engine.Rbtree.Balance.{red_at, IsRb, RbSpine, fork-IsBlack, IsRb-cong, RbSpine-cong}
use io_engine.Rbtree.Paint.{set_black-Painted, set_red-Painted, is_red-red_at}
use io_engine.Rbtree.Fix.{fix_recolour}
use io_engine.Rbtree.Fix.Query.{plug-Above, plug-get_parent, root_of-fork, blacken}
use io_engine.Rbtree.Fix.Apart.{Family, plug-Family}
use io_engine.Rbtree.Fix.Red.{
  IsRedRoot, fork-IsRedRoot, IsRedRoot-root_of, IsRedRoot-Inside, IsRedRoot-IsRb,
}

pub red_at-null : (cells : Ptr → Option RbNode) → red_at cells null ≡ false
unfolding red_at
red_at-null cells = refl

pub root_of-Inside : (s : Shape) (q : Ptr) → root_of s ≡ q → q ≢ null → Inside q s
unfolding root_of Inside
root_of-Inside leaf q e nz = absurd (nz (sym e))
root_of-Inside (node l a k r) q e nz = inr (inl (sym e))

-- The colours after the branch.
recoloured_rules :
    (c c' : Ptr → Bool) (π : Spine) (e d : Dir) (x a b : Ptr) (k ka kb : ℤ) (s sf su : Shape)
    (h : ℕ)
    → Family s sf su π a b
    → c null ≡ false
    → c (root_of su) ≡ true
    → Inside (root_of su) su
    → c' a ≡ false
    → c' b ≡ true
    → c' (root_of su) ≡ false
    → ((q : Ptr) → (q ≢ a) × (q ≢ b) → q ≢ root_of su → c' q ≡ c q)
    → IsRb c s h
    → IsRb c sf h
    → IsRb c su h
    → RbSpine c π (suc h)
    → IsRedRoot c' (fork d (fork e s a ka sf) b kb su) b kb (suc h) × RbSpine c' π (suc h)
recoloured_rules c c' π e d x a b k ka kb s sf su h fam cz cu iu at_a at_b at_u keep is isf isu sp =
    let not_u = λ (q : Ptr) (out : Inside q su → ⊥) (z : q ≡ root_of su).
      out (subst (λ w. Inside w su) (sym z) iu) in
    let (rb, black) =
      fork-IsBlack c' e s a ka sf h at_a
        (IsRb-cong c c' s h (λ q i. let (na, nb, nu) = fam.self q i in keep q (na, nb) (not_u q nu))
          is)
        (IsRb-cong c c' sf h
          (λ q i. let (na, nb, nu) = fam.sibling q i in keep q (na, nb) (not_u q nu)) isf) in
    let (rbu, blacku) =
      blacken c c' su h fam.uncle_tree cz cu at_u (λ q i nu. keep q (fam.uncle q i) nu) isu in
    (
      fork-IsRedRoot c' d (fork e s a ka sf) b kb su (suc h) at_b black blacku rb rbu,
      RbSpine-cong c c' π (suc h)
          (λ q i. let (na, nb, nu) = fam.above q i in keep q (na, nb) (not_u q nu)) sp,
    )

module _ (t : Tree) (π : Spine) (e d : Dir) (x a b : Ptr) (k ka kb : ℤ) (s sf su : Shape)
    (h : ℕ) where
  abbrev tree : Shape
  tree = plug (under e a ka sf (under d b kb su π)) s

  -- What the branch leaves: the loop goes on at the grandparent, in the same tree.
  pub record Recoloured (t3 : Tree) : Type 0 where
    pub holds : Holds t3.cells t3.root null tree
    pub red_root : IsRedRoot (red_at t3.cells) (fork d (fork e s a ka sf) b kb su) b kb (suc h)
    pub spine : RbSpine (red_at t3.cells) π (suc h)

  repaint_steps :
      Holds t.cells t.root null tree
      → root_of su ≢ null
      → IsSound t (root_of su)
      → (t1 : Tree) × (t2 : Tree) × (t3 : Tree) × (set_black (root_of su) t ≡ some (tt, t1))
        × (set_black a t1 ≡ some (tt, t2))
        × (set_red b t2 ≡ some (tt, t3))
        × Holds t3.cells t3.root null tree
        × ((q : Ptr)
            → red_at t3.cells q ≡ (
                if q == b
                then true
                else if q == a
                then false
                else if q == root_of su
                then false
                else red_at t.cells q))
  unfolding plug
  repaint_steps hold unz (inl z) = absurd (unz z)
  repaint_steps hold unz (inr (nz, un, uc)) =
      let (t1, e1, p1) = set_black-Painted t (root_of su) un unz uc in
      let h1 = p1.keeps tree hold in
      let (anz, ag, an, ac) = plug-get_parent t1 (under d b kb su π) e s a ka sf h1 in
      let (t2, e2, p2) = set_black-Painted t1 a an anz ac in
      let h2 = p2.keeps tree h1 in
      let (bnz, bg, bn, bc) = plug-get_parent t2 π d (fork e s a ka sf) b kb su h2 in
      let (t3, e3, p3) = set_red-Painted t2 b bn bnz bc in
      (
        t1,
        t2,
        t3,
        e1,
        e2,
        e3,
        p3.keeps tree h2,
        λ q. ground (arith, p3.painted q, p2.painted q, p1.painted q),
      )

  colours :
      (t3 : Tree)
      → Family s sf su π a b
      → Inside (root_of su) su
      → ((q : Ptr)
          → red_at t3.cells q ≡ (
              if q == b
              then true
              else if q == a
              then false
              else if q == root_of su
              then false
              else red_at t.cells q))
      → (red_at t3.cells a ≡ false)
        × (red_at t3.cells b ≡ true)
        × (red_at t3.cells (root_of su) ≡ false)
        × ((q : Ptr) → (q ≢ a) × (q ≢ b) → q ≢ root_of su → red_at t3.cells q ≡ red_at t.cells q)
  colours t3 fam iu now =
      let (ua, ub) = fam.uncle (root_of su) iu in
      (
        ground (arith, now a, fam.a_b),
        ground (arith, now b),
        ground (arith, now (root_of su), ua, ub),
        λ q ne nu. ground (arith, now q),
      )

  -- A red uncle: both parents are painted black, the grandparent red, and the loop goes on there.
  pub fix_insert-Recoloured :
      Holds t.cells t.root null tree
      → IsOrdered tree
      → red_at t.cells a ≡ true
      → red_at t.cells (root_of su) ≡ true
      → IsRedRoot (red_at t.cells) s x k h
      → IsRb (red_at t.cells) sf h
      → IsRb (red_at t.cells) su h
      → RbSpine (red_at t.cells) π (suc h)
      → (t3 : Tree) × ((fuel : ℕ)
          → fix_insert (suc fuel) x a t ≡ fix_insert fuel b (parent_of π) t3)
        × Recoloured t3
  unfolding plug parent_of
  fix_insert-Recoloured hold ord red_a red_u rr isf isu sp =
      let (p, ab) =
        plug-Above t e a x ka sf s (under d b kb su π) hold ord (IsRedRoot-root_of _ s x k h rr)
          (IsRedRoot-Inside _ s x k h rr) in
      let (g, bb) =
        plug-Above t d b a kb su (fork e s a ka sf) π hold ord (root_of-fork e s a ka sf)
          (Inside-fork e a s a ka sf (inr (inl refl))) in
      let unz : root_of su ≢ null =
        λ z. (let nn = red_at-null t.cells in ground (arith, ap (red_at t.cells) z)) in
      let iu = root_of-Inside su (root_of su) refl unz in
      let (t1, t2, t3, e1, e2, e3, h3, now) = repaint_steps hold unz bb.other_sound in
      let fam =
        plug-Family e d s sf su π a b ka kb (IsOrdered-IsTree t.cells tree t.root null hold ord) in
      let (at_a, at_b, at_u, keep) = colours t3 fam iu now in
      let (r3, s3) =
        recoloured_rules (red_at t.cells) (red_at t3.cells) π e d x a b k ka kb s sf su h fam
          (red_at-null t.cells) red_u iu at_a at_b at_u keep (IsRedRoot-IsRb _ s x k h rr) isf isu
          sp in
      let (bnz, bg, bn, bc) = plug-get_parent t3 π d (fork e s a ka sf) b kb su h3 in
      let is_red_a =
        is_red-red_at t a (inr (ab.nonnull, p, ab.at_a)) ∙ ap (λ z. some (z, t)) red_a in
      let is_red_u = is_red-red_at t (root_of su) bb.other_sound ∙ ap (λ z. some (z, t)) red_u in
      (
        t3,
        (λ fuel.
            fix_recolour fuel x a b (root_of su) d t p g is_red_a (load-step t a p ab.at_a)
              ab.its_parent bb.nonnull (load-step t b g bb.at_a) bb.side bb.other (parent_of π) t1
              t2 t3 is_red_u e1 e2 e3 bg),
        record { holds = h3; red_root = r3; spine = s3 },
      )
