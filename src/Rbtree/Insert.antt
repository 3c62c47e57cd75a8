-- ===== src/Rbtree/Insert.antt =====
-- Rotation, search and insertion of src/rbtree.c.
use io_engine.Base.{ℕ, zero, suc, not, ◌==◌, if◌then◌else◌}
use io_engine.Base.Int.{ℤ, ◌==ℤ◌, ltb_ℤ}
use io_engine.Types.{Ptr, null}
use io_engine.Rbtree.Store.{
  M, pure, fault, ◌>>=◌, ◌>>◌, when, load, Dir, left, right, flip, to_dir, child, set_child, is_red,
  set_red, set_black, set_parent, get_parent, Place, root_ref, link, read_place, write_place,
}

-- The pointer that refers to a node with the given parent.
unfoldable pub link_to : Ptr → Ptr → M Place
link_to node parent =
    if parent == null
    then pure root_ref
    else (do p ← load parent; pure (link parent (to_dir (p.right == node))))

unfoldable pub rb_rotate : Ptr → Dir → M (Unit {0})
rb_rotate node dir = do
  n ← load node
  p_link ← link_to node n.parent
  let top = child n (flip dir)
  c ← load top
  let grandchild = child c dir
  set_parent top n.parent
  write_place p_link top
  set_child node (flip dir) grandchild
  when (not (grandchild == null)) (set_parent grandchild node)
  set_child top dir node
  set_parent node top

-- `rb_ref_to_this`: the place of a node, and its parent.
unfoldable pub rb_ref_to_this : Ptr → M (Place × Ptr)
rb_ref_to_this node = do parent ← get_parent node; place ← link_to node parent; pure (place, parent)

-- The loop of `rb_probe`; each round goes one level down, so that the height of the tree is
-- enough fuel.
unfoldable pub rb_probe_loop : ℕ → Place → Ptr → ℤ → M (Place × Ptr)
rb_probe_loop zero place parent fd = fault
rb_probe_loop (suc fuel) place parent fd = do
  p ← read_place place
  if p == null then pure (place, parent) else do
    n ← load p
    if n.fd ==ℤ fd
        then pure (place, parent)
        else rb_probe_loop fuel (link p (to_dir (ltb_ℤ n.fd fd))) p fd

-- `rb_probe`: the place of the descriptor's node, or where it would be inserted, and what the
-- call leaves in `*out_parent`.
unfoldable pub rb_probe : ℕ → Place → ℤ → M (Place × Ptr)
unfolding rb_probe_loop
rb_probe fuel place fd = rb_probe_loop fuel place null fd

-- The mixed rotation of `fix_insert`; the answer is what `parent` names afterwards.
unfoldable pub mixed_rotate : Ptr → Ptr → Dir → Dir → M Ptr
mixed_rotate node parent left right = do rb_rotate parent left; pure node
mixed_rotate node parent right left = do rb_rotate parent right; pure node
mixed_rotate node parent left left = pure parent
mixed_rotate node parent right right = pure parent

-- The branch of `fix_insert` for a black uncle.
unfoldable pub rotate_insert : Ptr → Ptr → Ptr → Dir → M (Unit {0})
rotate_insert node parent grandparent parent_dir = do
  p ← load parent
  top ← mixed_rotate node parent parent_dir (to_dir (p.right == node))
  rb_rotate grandparent (flip parent_dir)
  set_red grandparent
  set_black top

-- `fix_insert`; each round goes two levels up.
unfoldable pub fix_insert : ℕ → Ptr → Ptr → M (Unit {0})
fix_insert zero node parent = fault
fix_insert (suc fuel) node parent = do
  r ← is_red parent
  if not r then pure tt else do
    p ← load parent
    let grandparent = p.parent
    if grandparent == null then pure tt else do
      g ← load grandparent
      let parent_dir = to_dir (g.right == parent)
      let uncle = child g (flip parent_dir)
      u ← is_red uncle
      if not u then rotate_insert node parent grandparent parent_dir else do
        set_black uncle
        set_black parent
        set_red grandparent
        above ← get_parent grandparent
        fix_insert fuel grandparent above

unfoldable pub rb_insert : ℕ → Ptr → Place → Ptr → M (Unit {0})
rb_insert fuel node place parent = do
  write_place place node
  set_parent node parent
  r ← is_red parent
  when r (fix_insert fuel node parent)
  root ← read_place root_ref
  set_black root
