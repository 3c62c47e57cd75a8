-- ===== src/Rbtree/Plant/Link.antt =====
-- The first two writes of `rb_insert` of src/rbtree.c: a red node below the others.
use io_engine.Base.{
  ◌≡◌, ◌≢◌, inl, inr, sym, ◌∙◌, ap, refl, subst, Bool-cases, true, false, some, arith, ◌==◌,
  if◌then◌else◌,
}
use io_engine.Base.Int.{ℤ}
use io_engine.Types.{Ptr, null}
use io_engine.Rbtree.Node.{RbNode}
use io_engine.Rbtree.Store.{Tree, Dir, with_child, root_ref, link, set_parent, write_place}
use io_engine.Rbtree.Shape.{Shape, leaf, Holds, IsOrdered, Inside}
use io_engine.Rbtree.Frame.{IsOrdered-IsTree}
use io_engine.Rbtree.Steps.{Writes, set_parent-Writes}
use io_engine.Rbtree.Rotate.Colours.{red_of, with_child_red}
use io_engine.Rbtree.Grow.{insert, Hole, Hole-Inside, Linked, Holds-insert}
use io_engine.Rbtree.Balance.{red_at}
use io_engine.Rbtree.Plant.{write_link}

-- A red node for the descriptor is at `x`, outside the tree.
pub record NewNode (t : Tree) (s : Shape) (fd : ℤ) (x : Ptr) : Type 0 where
  pub nonnull : x ≢ null
  pub outside : Inside x s → ⊥
  pub new : RbNode
  pub stored : t.cells x ≡ some new
  pub its_fd : new.fd ≡ fd
  pub no_left : new.left ≡ null
  pub no_right : new.right ≡ null
  pub is_red : new.red ≡ true

-- `u` is `t` with the node at `x` as a red node of the tree.
pub record Grown (t u : Tree) (s : Shape) (fd : ℤ) (x : Ptr) : Type 0 where
  pub grown : Holds u.cells u.root null (insert fd x s)
  pub red_x : red_at u.cells x ≡ true
  pub others : (q : Ptr) → q ≢ x → red_at u.cells q ≡ red_at t.cells q

linked_colours :
    (t t1 t2 : Tree) (x q : Ptr) (d : Dir) (m n : RbNode)
    → x ≢ null
    → t.cells q ≡ some n
    → m.red ≡ true
    → Writes q (with_child d x n) t t1
    → Writes x (record m { parent = q }) t1 t2
    → (red_at t2.cells x ≡ true) × ((w : Ptr) → w ≢ x → red_at t2.cells w ≡ red_at t.cells w)
unfolding red_at
linked_colours t t1 t2 x q d m n nz cq mr w1 w2 = (
  ground (arith, w2.written),
  λ w ne. elim (Bool-cases (w == q)) [
    | inl e ↦
        let wq : w ≡ q = ground arith in
        let same : red_of (t2.cells w) ≡ red_of (t.cells w) =
          ap red_of (w2.others w ne ∙ ap t1.cells wq ∙ w1.written)
          ∙ with_child_red d x n
          ∙ ap red_of (sym (ap t.cells wq ∙ cq)) in
        ap (λ z. if w == null then false else z) same
    | inr e ↦
        ap (λ z. if w == null then false else red_of z)
          (w2.others w ne ∙ w1.others w (λ z. ground (arith, z)))
  ],
)

pub link_node :
    (t : Tree) (s : Shape) (fd : ℤ) (x q : Ptr) (d : Dir) (n : RbNode)
    → Holds t.cells t.root null s
    → IsOrdered s
    → NewNode t s fd x
    → Hole fd s q d
    → t.cells q ≡ some n
    → (t1 : Tree) × (t2 : Tree) × (write_place (link q d) x t ≡ some (tt, t1))
      × (set_parent x q t1 ≡ some (tt, t2))
      × Grown t t2 s fd x
link_node t s fd x q d n h o new hole cq =
    let in_s = Hole-Inside fd s q d hole in
    let xq : x ≢ q = λ e. new.outside (subst (λ z. Inside z s) (sym e) in_s) in
    let m = new.new in
    let (t1, e1, w1) = write_link t q d x n cq in
    let (t2, e2, w2) = set_parent-Writes t1 x q m (w1.others x xq ∙ new.stored) in
    let q2 : t2.cells q ≡ some (with_child d x n) = w2.others q (λ e. xq (sym e)) ∙ w1.written in
    let linked : Linked fd x q d t.cells t2.cells = record {
      new = record m { parent = q };
      stored = w2.written;
      its_fd = new.its_fd;
      its_parent = refl;
      no_left = new.no_left;
      no_right = new.no_right;
      nonnull = new.nonnull;
      linked = λ n' c. q2 ∙ ground (arith, sym cq ∙ c);
      others = λ w nq nx. w2.others w nx ∙ w1.others w nq;
    } in
    let (red_x, same) = linked_colours t t1 t2 x q d m n new.nonnull cq new.is_red w1 w2 in
    (
      t1,
      t2,
      e1,
      e2,
      record {
        grown =
            subst (λ r. Holds t2.cells r null (insert fd x s)) (sym (w2.same_root ∙ w1.same_root))
              (Holds-insert fd x q d t.cells t2.cells linked s t.root null h
                (IsOrdered-IsTree t.cells s t.root null h o) new.outside hole);
        red_x = red_x;
        others = same;
      },
    )

pub link_first :
    (t : Tree) (fd : ℤ) (x : Ptr)
    → NewNode t leaf fd x
    → (t1 : Tree) × (t2 : Tree) × (write_place root_ref x t ≡ some (tt, t1))
      × (set_parent x null t1 ≡ some (tt, t2))
      × Grown t t2 leaf fd x
unfolding write_place insert Holds red_at
link_first t fd x new =
    let t1 = record t { root = x } in
    let m = new.new in
    let (t2, e2, w2) = set_parent-Writes t1 x null m new.stored in
    (
      t1,
      t2,
      refl,
      e2,
      record {
        grown = (
          w2.same_root,
          new.nonnull,
          record m { parent = null },
          w2.written,
          refl,
          new.its_fd,
          new.no_left,
          new.no_right,
        );
        red_x = ground (arith, w2.written, new.is_red, new.nonnull);
        others = λ w ne. ap (λ z. if w == null then false else red_of z) (w2.others w ne);
      },
    )
