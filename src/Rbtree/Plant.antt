-- ===== src/Rbtree/Plant.antt =====
-- `rb_insert` of src/rbtree.c below a black node.
pub mod Link
pub mod Settle
pub mod Rebalance
pub mod Found
use io_engine.Base.{
  ℕ, ◌≡◌, ◌≢◌, inl, inr, sym, ◌∙◌, ap, refl, subst, false, Option, some, Bool, Bool-cases, arith,
  ◌==◌,
}
use io_engine.Base.Int.{ℤ}
use io_engine.Types.{Ptr, null}
use io_engine.Rbtree.Node.{RbNode}
use io_engine.Rbtree.Store.{
  Tree, Dir, left, right, with_child, Place, link, load, is_red, set_parent, set_black, read_place,
  write_place,
}
use io_engine.Rbtree.Insert.{rb_insert}
use io_engine.Rbtree.Shape.{Shape, leaf, node, Holds, Has, IsOrdered, Inside}
use io_engine.Rbtree.Frame.{IsOrdered-IsTree, Holds-root}
use io_engine.Rbtree.Steps.{Writes, modify-Writes, set_child-Writes, set_parent-Writes}
use io_engine.Rbtree.Rotate.Colours.{with_child_red}
use io_engine.Rbtree.Paint.{Holds-recolored, Writes-recolored}
use io_engine.Rbtree.Grow.{insert, Hole, Hole-Inside, Linked, Holds-insert, IsOrdered-insert}

pub rb_insert_steps :
    (fuel : ℕ) (x : Ptr) (place : Place) (parent : Ptr) (t t1 t2 t3 : Tree)
    → write_place place x t ≡ some (tt, t1)
    → set_parent x parent t1 ≡ some (tt, t2)
    → is_red parent t2 ≡ some (false, t2)
    → set_black t2.root t2 ≡ some (tt, t3)
    → rb_insert fuel x place parent t ≡ some (tt, t3)
unfolding rb_insert read_place
rb_insert_steps fuel x place parent t t1 t2 t3 e1 e2 e3 e4 = ground (arith, e1, e2, e3, e4)

is_red-black :
    (t : Tree) (p : Ptr) (n : RbNode)
    → t.cells p ≡ some n
    → n.red ≡ false
    → is_red p t ≡ some (false, t)
unfolding is_red load
is_red-black t p n c r = ground arith

pub write_link :
    (t : Tree) (q : Ptr) (d : Dir) (x : Ptr) (n : RbNode)
    → t.cells q ≡ some n
    → (u : Tree) × (write_place (link q d) x t ≡ some (tt, u)) × Writes q (with_child d x n) t u
unfolding write_place
write_link t q d x n c = set_child-Writes t q d x n c

nonempty :
    (cells : Ptr → Option RbNode) (s : Shape) (p up q : Ptr)
    → Holds cells p up s
    → Inside q s
    → p ≢ null
unfolding Holds Inside
nonempty cells leaf p up q h i z = absurd i
nonempty cells (node l a j r) p up q (pa, nz, n, c, np, nk, hl, hr) i z = nz (sym pa ∙ z)

-- `rb_insert` of a new node at the place that the search found, below a black node: it needs no
-- rotation, the pointers make up the tree with the new node, and the order is kept.
pub rb_insert-black :
    (fuel : ℕ) (t : Tree) (s : Shape) (fd : ℤ) (x q : Ptr) (d : Dir) (m n : RbNode)
    → Holds t.cells t.root null s
    → IsOrdered s
    → (Has fd s → ⊥)
    → Hole fd s q d
    → t.cells q ≡ some n
    → n.red ≡ false
    → x ≢ null
    → (Inside x s → ⊥)
    → t.cells x ≡ some m
    → m.fd ≡ fd
    → m.left ≡ null
    → m.right ≡ null
    → (u : Tree) × (rb_insert fuel x (link q d) q t ≡ some (tt, u))
      × Holds u.cells u.root null (insert fd x s)
      × IsOrdered (insert fd x s)
unfolding set_black
rb_insert-black fuel t s fd x q d m n h o out hole cq black nz away cx mf ml mr =
    let in_s = Hole-Inside fd s q d hole in
    let xq : x ≢ q = λ e. away (subst (λ z. Inside z s) (sym e) in_s) in
    let qx : q ≢ x = λ e. xq (sym e) in
    let (t1, e1, w1) = write_link t q d x n cq in
    let (t2, e2, w2) = set_parent-Writes t1 x q m (w1.others x xq ∙ cx) in
    let q2 : t2.cells q ≡ some (with_child d x n) = w2.others q qx ∙ w1.written in
    let linked : Linked fd x q d t.cells t2.cells = record {
      new = record m { parent = q };
      stored = w2.written;
      its_fd = mf;
      its_parent = refl;
      no_left = ml;
      no_right = mr;
      nonnull = nz;
      linked = λ n' c. q2 ∙ ground (arith, sym cq ∙ c);
      others = λ w nq nx. w2.others w nx ∙ w1.others w nq;
    } in
    let grown =
      Holds-insert fd x q d t.cells t2.cells linked s t.root null h
        (IsOrdered-IsTree t.cells s t.root null h o) away hole in
    let root2 : t2.root ≡ t.root = w2.same_root ∙ w1.same_root in
    let grown2 : Holds t2.cells t2.root null (insert fd x s) =
      subst (λ r. Holds t2.cells r null (insert fd x s)) (sym root2) grown in
    elim (Holds-root t2.cells (insert fd x s) t2.root null grown2) [
      | inl z ↦ absurd (nonempty t.cells s t.root null q h in_s (sym root2 ∙ z))
      | inr (rz, ri, rn, rc) ↦
          let (t3, e3, w3) = modify-Writes t2 t2.root (λ k. record k { red = false }) rn rc in
          (
            t3,
            rb_insert_steps fuel x (link q d) q t t1 t2 t3 e1 e2
                (is_red-black t2 q _ q2 (with_child_red d x n ∙ black)) e3,
            subst (λ r. Holds t3.cells r null (insert fd x s)) (sym w3.same_root)
                (Holds-recolored t2.cells t3.cells (insert fd x s) t2.root null
                  (Writes-recolored t2 t3 t2.root rn false rc w3) grown2),
            IsOrdered-insert fd x s o out,
          )
    ]
