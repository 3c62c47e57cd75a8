-- ===== src/Rbtree/Unlink.antt =====
-- The end of `rb_extract` of src/rbtree.c: a node with one child at most gives its place to it.
pub mod Rest
pub mod Single
pub mod Whole
use io_engine.Base.{
  ℕ, ◌≡◌, ◌≢◌, ◌⊎◌, inl, inr, sym, ◌∙◌, ap, refl, subst, Bool, true, false, Bool-cases, Option,
  some, arith, ◌==◌, not, if◌then◌else◌,
}
use io_engine.Base.Int.{ℤ}
use io_engine.Types.{Ptr, null}
use io_engine.Rbtree.Node.{RbNode}
use io_engine.Rbtree.Store.{Tree, Dir, flip, child, with_child, when, set_parent, write_place}
use io_engine.Rbtree.Shape.{Shape, leaf, node, Holds, Inside, IsTree}
use io_engine.Rbtree.Frame.{Inside-Has, Holds-others, Holds-root, Holds-adopted}
use io_engine.Rbtree.Steps.{Writes, IsSound, Adopts, when-Adopts, set_child-Writes}
use io_engine.Rbtree.Rotate.Colours.{red_of, with_child_red}
use io_engine.Rbtree.Spine.{
  Spine, top, under, plug, parent_of, place_of, root_of, OnSpine, HoldsSpine, IsSpine, plug-Holds,
  up-parent_of, Holds-root_of,
}
use io_engine.Rbtree.Spine.Turn.{with_child-links, HoldsSpine-others, OnSpine-sound}
use io_engine.Rbtree.Fix.Turn.{red_at-same}
use io_engine.Rbtree.Balance.{red_at}
use io_engine.Rbtree.Mend.Sibling.{root-IsSound}

-- `u` is `t` where the pointer to the subtree refers to `y`.
record Repointed (π : Spine) (y up : Ptr) (t u : Tree) : Type 0 where
  spine : HoldsSpine u.cells u.root π y up
  others : (q : Ptr) → q ≢ parent_of π → u.cells q ≡ t.cells q
  colours : (q : Ptr) → red_of (u.cells q) ≡ red_of (t.cells q)

repoint :
    (t : Tree) (π : Spine) (p up y : Ptr)
    → HoldsSpine t.cells t.root π p up
    → IsSpine π
    → (u : Tree) × (write_place (place_of π) y t ≡ some (tt, u)) × Repointed π y up t u
unfolding HoldsSpine IsSpine OnSpine place_of parent_of write_place
repoint t top p up y (rp, un) w = (
  record t { root = y },
  refl,
  record { spine = (refl, un); others = λ q ne. refl; colours = λ q. refl },
)
repoint t (under d a k r π) p up y (ua, nz, n, c, cp, nk, hs, hp) (ar, aπ, rπ, tr, tπ) =
    let (u, e, w) = set_child-Writes t a d y n c in
    let (l1, l2, l3, l4) = with_child-links d y n in
    (
      u,
      e,
      record {
        spine = (
          ua,
          nz,
          with_child d y n,
          w.written,
          l1,
          l3 ∙ nk,
          subst (λ q. Holds u.cells q a r) (sym l2)
              (Holds-others t.cells u.cells r (child n (flip d)) a hs
                λ q i. w.others q (λ e. ar (subst (λ z. Inside z r) e i))),
          subst (λ q. HoldsSpine u.cells u.root π a q) (sym l4)
              (subst (λ q. HoldsSpine u.cells q π a n.parent) (sym w.same_root)
                (HoldsSpine-others t.cells u.cells t.root π a n.parent hp
                  λ q i. w.others q (λ e. aπ (subst (λ z. OnSpine z π) e i)))),
        );
        others = w.others;
        colours = λ q. elim (Bool-cases (q == a)) [
          | inl i ↦
              (let qa : q ≡ a = ground arith in
                ap (λ z. red_of (u.cells z)) qa
                ∙ ap red_of w.written
                ∙ with_child_red d y n
                ∙ ap red_of (sym c)
                ∙ ap (λ z. red_of (t.cells z)) (sym qa))
          | inr i ↦ ap red_of (w.others q (λ z. ground (arith, z, i)))
        ];
      },
    )

adopted_colours :
    (t u : Tree) (g x : Ptr)
    → IsSound t g
    → Adopts g x t u
    → (q : Ptr) → q ≢ null
    → red_of (u.cells q) ≡ red_of (t.cells q)
adopted_colours t u g x (inl z) w q nz = ap red_of (w.others q (λ v. nz (v ∙ z)))
adopted_colours t u g x (inr (nz, n, c)) w q qz = elim (Bool-cases (q == g)) [
  | inl i ↦
      (let qg : q ≡ g = ground arith in
        ap (λ v. red_of (u.cells v)) qg
        ∙ ap red_of (w.adopted n nz c)
        ∙ ap red_of (sym c)
        ∙ ap (λ v. red_of (t.cells v)) (sym qg))
  | inr i ↦ ap red_of (w.others q (λ v. ground (arith, v, i)))
]

-- `u` is `t` with the subtree `s` in the place of the one that was there.
pub record Replaced (π : Spine) (s : Shape) (t u : Tree) : Type 0 where
  pub holds : Holds u.cells u.root null (plug π s)
  pub colours : (q : Ptr) → red_at u.cells q ≡ red_at t.cells q
  pub others : (q : Ptr) → q ≢ parent_of π → q ≢ root_of s → u.cells q ≡ t.cells q

pub parent_outside :
    (cells : Ptr → Option RbNode) (π : Spine) (s : Shape) (p up q : Ptr)
    → Holds cells p up s
    → ((q : Ptr) → Inside q s → OnSpine q π → ⊥)
    → Inside q s
    → q ≢ parent_of π
unfolding OnSpine parent_of
parent_outside cells top s p up q h out i z = (Inside-Has cells s p up q h i).0 z
parent_outside cells (under d a k r π) s p up q h out i z = out q i (inl z)

-- A subtree of the store takes the place of another one.
pub replace :
    (t : Tree) (π : Spine) (p q up x : Ptr) (s : Shape)
    → HoldsSpine t.cells t.root π p up
    → IsSpine π
    → Holds t.cells q x s
    → IsTree s
    → ((w : Ptr) → Inside w s → OnSpine w π → ⊥)
    → (t1 : Tree) × (t2 : Tree) × (write_place (place_of π) q t ≡ some (tt, t1))
      × (when (not (q == null)) (set_parent q (parent_of π)) t1 ≡ some (tt, t2))
      × Replaced π s t t2
replace t π p q up x s hπ wπ hs ws out =
    let (t1, e1, r) = repoint t π p up q hπ wπ in
    let qs = Holds-root_of t.cells t.root s q x hs in
    let keep =
      λ (w : Ptr) (i : Inside w s). r.others w (parent_outside t.cells π s q x w hs out i) in
    let hs1 = Holds-others t.cells t1.cells s q x hs keep in
    let sound = subst (λ z. IsSound t1 z) (sym qs) (root-IsSound t1 s q x hs1) in
    let (t2, e2, w) = when-Adopts t1 q (parent_of π) sound in
    let pu = up-parent_of t1.cells t1.root π q up r.spine in
    let apart_q : (z : Ptr) → OnSpine z π → z ≢ q = λ z i e. elim (Holds-root t1.cells s q x hs1) [
      | inl n ↦ (OnSpine-sound t1.cells t1.root π q up z r.spine i).0 (e ∙ n)
      | inr (nz, j, m, c) ↦ out q j (subst (λ v. OnSpine v π) e i)
    ] in
    (
      t1,
      t2,
      e1,
      e2,
      record {
        holds =
            plug-Holds t2.cells t2.root π s q up
              (subst (λ z. HoldsSpine t2.cells z π q up) (sym w.same_root)
                (HoldsSpine-others t1.cells t2.cells t1.root π q up r.spine
                  (λ z i. w.others z (apart_q z i))))
              (subst (λ z. Holds t2.cells q z s) (sym pu)
                (Holds-adopted t1.cells t2.cells s q x (parent_of π) hs1 ws w.adopted
                  (λ z i ne. w.others z ne)));
        colours = λ z.
            red_at-same t1 t2 (adopted_colours t1 t2 q (parent_of π) sound w) z
            ∙ red_at-same t t1 (λ v nz. r.colours v) z;
        others = λ z np nr. w.others z (λ e. nr (e ∙ qs)) ∙ r.others z np;
      },
    )
