-- ===== src/Rbtree/Plant/Rebalance.antt =====
-- `rb_insert` of src/rbtree.c, wherever the new node goes, keeps the red-black rules.
use io_engine.Base.{
  ℕ, suc, ◌≡◌, ◌<◌, inl, inr, sym, ◌∙◌, ap, refl, subst, Bool, true, false, some, arith, ◌++◌, ◌∷◌,
  [], List,
}
use io_engine.Base.Int.{ℤ}
use io_engine.Types.{Ptr, null}
use io_engine.Rbtree.Store.{
  Tree, left, Place, root_ref, link, is_red, set_parent, set_black, read_place, write_place,
}
use io_engine.Rbtree.Insert.{rb_probe, rb_insert, fix_insert}
use io_engine.Rbtree.Shape.{Shape, leaf, node, Holds, Has, IsOrdered, Inside, height}
use io_engine.Rbtree.Frame.{Inside-Has, IsOrdered-IsTree}
use io_engine.Rbtree.Steps.{IsSound}
use io_engine.Rbtree.Rotate.Subtree.{fork}
use io_engine.Rbtree.Grow.{insert, Hole-Inside, IsOrdered-insert, rb_probe-Hole}
use io_engine.Rbtree.Spine.{Spine, top, under, plug, parent_of, length, unplug-IsTree}
use io_engine.Rbtree.Nodes.{nodes}
use io_engine.Rbtree.Balance.{red_at, IsBlack, IsRb, RbSpine, RbSpine-cong}
use io_engine.Rbtree.Paint.{is_red-red_at}
use io_engine.Rbtree.Descent.{descend, plug-descend, length-descend, descend-Hole, descend-RbSpine}
use io_engine.Rbtree.Fix.{fix_stop}
use io_engine.Rbtree.Fix.Query.{plug-get_parent}
use io_engine.Rbtree.Fix.Turn.{Fixed}
use io_engine.Rbtree.Fix.Red.{fork-IsRedRoot}
use io_engine.Rbtree.Fix.Loop.{fix_insert-Fixed}
use io_engine.Rbtree.Plant.Link.{NewNode, Grown, link_node, link_first}
use io_engine.Rbtree.Plant.Settle.{RbTree, settle}

insert_steps :
    (fuel : ℕ) (x : Ptr) (place : Place) (parent : Ptr) (b : Bool) (t t1 t2 t3 t4 : Tree)
    → write_place place x t ≡ some (tt, t1)
    → set_parent x parent t1 ≡ some (tt, t2)
    → is_red parent t2 ≡ some (b, t2)
    → fix_insert (suc fuel) x parent t2 ≡ some (tt, t3)
    → set_black t3.root t3 ≡ some (tt, t4)
    → rb_insert (suc fuel) x place parent t ≡ some (tt, t4)
unfolding rb_insert read_place
insert_steps fuel x place parent true t t1 t2 t3 t4 e1 e2 e3 e4 e5 =
    ground (arith, e1, e2, e3, e4, e5)
insert_steps fuel x place parent false t t1 t2 t3 t4 e1 e2 e3 e4 e5 =
    let e : t2 ≡ t3 = (let stop = fix_stop fuel x parent t2 e3 in ground (arith, sym stop ∙ e4)) in
    let e5' = subst (λ z. set_black z.root z ≡ some (tt, t4)) (sym e) e5 in
    ground (arith, e1, e2, e3, e5')

-- The red node is where the descriptor belongs, so that only its own colour can break the rules.
fix :
    (t t2 : Tree) (s : Shape) (fd : ℤ) (x : Ptr) (fuel : ℕ)
    → RbTree t s
    → (Has fd s → ⊥)
    → Grown t t2 s fd x
    → height s < fuel
    → (u : Tree) × (fix_insert fuel x (parent_of (descend fd s top)) t2 ≡ some (tt, u))
      × Fixed u (plug (descend fd s top) (node leaf x fd leaf))
unfolding RbSpine IsRb IsBlack Inside length plug fork
fix t t2 s fd x fuel rb out g b =
    let π = descend fd s top in
    let e = plug-descend fd x s top in
    let hold = subst (λ z. Holds t2.cells t2.root null z) (sym e) g.grown in
    let ord = subst (λ z. IsOrdered z) (sym e) (IsOrdered-insert fd x s rb.ordered out) in
    let (tx, apart, tπ) =
      unplug-IsTree π (node leaf x fd leaf)
        (IsOrdered-IsTree t2.cells (plug π (node leaf x fd leaf)) t2.root null hold ord) in
    let sp =
      RbSpine-cong (red_at t.cells) (red_at t2.cells) π 0
        (λ q i. g.others q (λ z. apart q (inr (inl z)) i))
        (descend-RbSpine (red_at t.cells) fd s top rb.black_height rb.rules tt (inl rb.black)) in
    fix_insert-Fixed fuel t2 π (node leaf x fd leaf) x fd 0
      (let bound = length-descend fd s top in omega arith) hold ord
      (fork-IsRedRoot (red_at t2.cells) left leaf x fd leaf 0 g.red_x tt tt refl refl) sp

-- The search finds the place, and the new node is written there.
plant :
    (t : Tree) (s : Shape) (fd : ℤ) (x : Ptr) (fuel : ℕ)
    → RbTree t s
    → (Has fd s → ⊥)
    → NewNode t s fd x
    → height s < fuel
    → (place : Place) × (parent : Ptr) × (t1 : Tree) × (t2 : Tree) × (parent
        ≡ parent_of (descend fd s top))
      × (rb_probe fuel root_ref fd t ≡ some ((place, parent), t))
      × (write_place place x t ≡ some (tt, t1))
      × (set_parent x parent t1 ≡ some (tt, t2))
      × Grown t t2 s fd x
unfolding descend parent_of
plant t s fd x fuel rb out new b = elim (rb_probe-Hole t fd s fuel rb.holds out b) [
  | inl (e, probe) ↦
      let (t1, t2, e1, e2, g) = link_first t fd x (subst (λ z. NewNode t z fd x) e new) in
      (
        root_ref,
        null,
        t1,
        t2,
        ap (λ z. parent_of (descend fd z top)) (sym e),
        probe,
        e1,
        e2,
        subst (λ z. Grown t t2 z fd x) (sym e) g,
      )
  | inr (q, d, probe, hole) ↦
      let (qz, n, c, has) =
        Inside-Has t.cells s t.root null q rb.holds (Hole-Inside fd s q d hole) in
      let (t1, t2, e1, e2, g) = link_node t s fd x q d n rb.holds rb.ordered new hole c in
      (link q d, q, t1, t2, sym (descend-Hole fd s top q d hole).0, probe, e1, e2, g)
]

parent-IsSound :
    (t : Tree) (π : Spine) (s : Shape)
    → Holds t.cells t.root null (plug π s)
    → IsSound t (parent_of π)
unfolding plug parent_of
parent-IsSound t top s h = inl refl
parent-IsSound t (under d a k r π) s h =
    let (nz, up, n, c) = plug-get_parent t π d s a k r h in inr (nz, n, c)

append_full : (xs : List (ℤ × Ptr)) (y : ℤ × Ptr) (ys : List (ℤ × Ptr)) → xs ++ y ∷ ys ≡ [] → ⊥
append_full [] y ys e = ground (arith, e)
append_full (x ∷ xs) y ys e = ground (arith, e)

nodes-leaf : (s s' : Shape) → nodes s ≡ nodes s' → s ≡ leaf → s' ≡ leaf
unfolding nodes
nodes-leaf s leaf e z = refl
nodes-leaf s (node l a k r) e z =
    absurd (append_full (nodes l) (k, a) (nodes r) (sym e ∙ ap nodes z))

insert-node : (fd : ℤ) (x : Ptr) (s : Shape) → insert fd x s ≡ leaf → ⊥
unfolding insert
insert-node fd x leaf e = ground (arith, e)
insert-node fd x (node l a k r) e = ground (arith, e)

-- `rb_probe` and then `rb_insert` of a red node for a descriptor that the tree does not have, with
-- fuel above its height, succeed, whatever the colours: the pointers make up an ordered tree that
-- keeps the red-black rules, with a black root, and whose nodes are in order the nodes of plain
-- insertion.
pub rb_insert-RbTree :
    (t : Tree) (s : Shape) (fd : ℤ) (x : Ptr) (fuel : ℕ)
    → RbTree t s
    → (Has fd s → ⊥)
    → NewNode t s fd x
    → height s < suc fuel
    → (place : Place) × (parent : Ptr) × (u : Tree) × (s' : Shape) × (rb_probe
          (suc fuel)
          root_ref
          fd
          t
        ≡ some ((place, parent), t))
      × (rb_insert (suc fuel) x place parent t ≡ some (tt, u))
      × RbTree u s'
      × (nodes s' ≡ nodes (insert fd x s))
unfolding plug
rb_insert-RbTree t s fd x fuel rb out new b =
    let (place, parent, t1, t2, above, probe, e1, e2, g) = plant t s fd x (suc fuel) rb out new b in
    let (t3, e3, f) = fix t t2 s fd x (suc fuel) rb out g b in
    let e = plug-descend fd x s top in
    let same : nodes f.shape ≡ nodes (insert fd x s) = f.same ∙ ap nodes e in
    let (t4, e4, done) =
      settle t3 f.shape f.holds f.ordered
        (λ z. insert-node fd x s (nodes-leaf f.shape (insert fd x s) same z)) f.height f.rules in
    let sound =
      parent-IsSound t2 (descend fd s top) (node leaf x fd leaf)
        (subst (λ z. Holds t2.cells t2.root null z) (sym e) g.grown) in
    (
      place,
      parent,
      t4,
      f.shape,
      probe,
      insert_steps fuel x place parent (red_at t2.cells parent) t t1 t2 t3 t4 e1 e2
          (is_red-red_at t2 parent (subst (λ z. IsSound t2 z) (sym above) sound))
          (ap (λ z. fix_insert (suc fuel) x z t2) above ∙ e3) e4,
      done,
      same,
    )
