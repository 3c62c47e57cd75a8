-- ===== src/Rbtree/Rotate.antt =====
-- `rb_rotate` of src/rbtree.c, cell by cell.
pub mod Colours
pub mod Subtree
pub mod Turn
use io_engine.Base.{◌≡◌, ◌≢◌, ◌⊎◌, inl, inr, sym, ◌∙◌, Option, some, arith, ◌==◌, if◌then◌else◌}
use io_engine.Types.{Ptr, null}
use io_engine.Rbtree.Node.{RbNode}
use io_engine.Rbtree.Store.{Tree, Dir, flip, to_dir, child, with_child}
use io_engine.Rbtree.Insert.{rb_rotate}
use io_engine.Rbtree.Steps.{
  Writes, IsSound, load-step, set_child-Writes, set_parent-Writes, when-Adopts, link_to-Relinks,
  rb_rotate_steps,
}

-- The nodes around a rotation of `x`, whose node is `n`, in direction `d`: its other child, whose
-- node is `c`, that node's child on the side of `d`, and the parent, are distinct.
pub record CanRotate (t : Tree) (x : Ptr) (d : Dir) (n c : RbNode) : Type 0 where
  pub at_x : t.cells x ≡ some n
  pub at_top : t.cells (child n (flip d)) ≡ some c
  pub top_nonnull : child n (flip d) ≢ null
  pub parent-IsSound : IsSound t n.parent
  pub moved_sound : IsSound t (child c d)
  pub x_top : x ≢ child n (flip d)
  pub x_parent : x ≢ n.parent
  pub top_parent : child n (flip d) ≢ n.parent
  pub moved_x : child c d ≢ x
  pub moved_top : child c d ≢ child n (flip d)
  pub moved_parent : child c d ≢ null → child c d ≢ n.parent

-- The store `u` is `t` after the rotation.
pub record Rotated (x : Ptr) (d : Dir) (n c : RbNode) (t u : Tree) : Type 0 where
  pub new_root : u.root ≡ (if n.parent == null then child n (flip d) else t.root)
  pub top : u.cells (child n (flip d)) ≡ some (with_child d x (record c { parent = n.parent }))
  pub below :
      u.cells x ≡ some (record (with_child (flip d) (child c d) n) { parent = child n (flip d) })
  pub moved :
      (m : RbNode)
      → child c d ≢ null
      → t.cells (child c d) ≡ some m
      → u.cells (child c d) ≡ some (record m { parent = x })
  pub linked :
      (m : RbNode)
      → n.parent ≢ null
      → t.cells n.parent ≡ some m
      → u.cells n.parent ≡ some (with_child (to_dir (m.right == x)) (child n (flip d)) m)
  pub others :
      (q : Ptr)
      → q ≢ x
      → q ≢ child n (flip d)
      → q ≢ child c d
      → q ≢ n.parent
      → u.cells q ≡ t.cells q

flip_sym : {A : Type 0} {a b : A} → a ≢ b → b ≢ a
flip_sym ne e = ne (sym e)

IsSound-others :
    (t u : Tree) (p : Ptr) → IsSound t p → (p ≢ null → u.cells p ≡ t.cells p) → IsSound u p
IsSound-others t u p (inl z) h = inl z
IsSound-others t u p (inr (nz, n, c)) h = inr (nz, n, h nz ∙ c)

-- `rb_rotate` on nodes that are there and distinct succeeds and writes exactly these fields.
pub rb_rotate-Rotated :
    (t : Tree) (x : Ptr) (d : Dir) (n c : RbNode)
    → CanRotate t x d n c
    → (u : Tree) × (rb_rotate x d t ≡ some (tt, u)) × Rotated x d n c t u
rb_rotate-Rotated t x d n c k =
    let y = child n (flip d) in
    let g = child c d in
    let p = n.parent in
    let (t1, e1, w1) = set_parent-Writes t y p c k.at_top in
    let (place, t2, el, e2, w2) =
      link_to-Relinks t t1 x p y k.parent-IsSound (w1.others p (flip_sym k.top_parent)) in
    let x2 : t2.cells x ≡ some n = w2.others x k.x_parent ∙ w1.others x k.x_top ∙ k.at_x in
    let (t3, e3, w3) = set_child-Writes t2 x (flip d) g n x2 in
    let g3 : g ≢ null → t3.cells g ≡ t.cells g =
      λ nz. w3.others g k.moved_x ∙ w2.others g (k.moved_parent nz) ∙ w1.others g k.moved_top in
    let (t4, e4, w4) = when-Adopts t3 g x (IsSound-others t t3 g k.moved_sound g3) in
    let y4 : t4.cells y ≡ some (record c { parent = p }) =
      w4.others y (flip_sym k.moved_top)
      ∙ w3.others y (flip_sym k.x_top)
      ∙ w2.others y k.top_parent
      ∙ w1.written in
    let (t5, e5, w5) = set_child-Writes t4 y d x _ y4 in
    let x5 : t5.cells x ≡ some (with_child (flip d) g n) =
      w5.others x k.x_top ∙ w4.others x (flip_sym k.moved_x) ∙ w3.written in
    let (t6, e6, w6) = set_parent-Writes t5 x y _ x5 in
    (
      t6,
      rb_rotate_steps x d n c place t t1 t2 t3 t4 t5 t6 (load-step t x n k.at_x) el
          (load-step t y c k.at_top) e1 e2 e3 e4 e5 e6,
      record {
        new_root =
            w6.same_root
            ∙ w5.same_root
            ∙ w4.same_root
            ∙ w3.same_root
            ∙ w2.new_root
            ∙ ground (arith, w1.same_root);
        top = w6.others y (flip_sym k.x_top) ∙ w5.written;
        below = w6.written;
        moved =
            λ m nz e. w6.others g k.moved_x ∙ w5.others g k.moved_top ∙ w4.adopted m nz (g3 nz ∙ e);
        linked = λ m nz e.
            w6.others p (flip_sym k.x_parent)
            ∙ w5.others p (flip_sym k.top_parent)
            ∙ w4.others p (λ i. k.moved_parent (λ z. nz (i ∙ z)) (sym i))
            ∙ w3.others p (flip_sym k.x_parent)
            ∙ w2.linked m nz (w1.others p (flip_sym k.top_parent) ∙ e);
        others = λ q qx qy qg qp.
            w6.others q qx
            ∙ w5.others q qy
            ∙ w4.others q qg
            ∙ w3.others q qx
            ∙ w2.others q qp
            ∙ w1.others q qy;
      },
    )
