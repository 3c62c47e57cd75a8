-- ===== src/Rbtree/Extract.antt =====
-- Removal from the tree of src/rbtree.c.
use io_engine.Base.{ℕ, zero, suc, Bool, true, false, not, ◌&&◌, ◌==◌, if◌then◌else◌}
use io_engine.Base.Int.{ℤ}
use io_engine.Types.{Ptr, null}
use io_engine.Rbtree.Store.{
  M, pure, fault, ◌>>=◌, ◌>>◌, when, load, Dir, left, right, flip, to_dir, child, set_child, is_red,
  set_red, set_black, set_parent, get_parent, swap_colors, Place, link, read_place, write_place,
}
use io_engine.Rbtree.Insert.{rb_rotate, rb_probe}

-- The loop of `predecessor`: down to the right; each round goes one level down.
predecessor_loop : ℕ → Place → M Place
predecessor_loop zero pred = fault
predecessor_loop (suc fuel) pred = do
  p ← read_place pred
  n ← load p
  if n.right == null then pure pred else predecessor_loop fuel (link p right)

unfoldable pub predecessor : ℕ → Ptr → M Place
unfolding predecessor_loop
predecessor fuel node = predecessor_loop fuel (link node left)

-- `fix_delete` for a red child of a black sibling, `far` if it is the outer one.
unfoldable pub rotate_delete : Bool → Ptr → Ptr → Dir → M (Unit {0})
rotate_delete far sibling parent dir_to_db = do
  s ← load sibling
  when (not far)
      (do set_black (child s dir_to_db); set_red sibling; rb_rotate sibling (flip dir_to_db))
  p ← load parent
  let sibling' = child p (flip dir_to_db)
  s' ← load sibling'
  set_black (child s' (flip dir_to_db))
  swap_colors parent sibling'
  rb_rotate parent dir_to_db

-- The last lines of `fix_delete`.
unfoldable pub finish_delete : Ptr → M (Unit {0})
finish_delete db = when (not (db == null)) (set_black db)

-- `fix_delete`. A round either turns a red sibling into a black one, or goes one level up.
unfoldable pub fix_delete : ℕ → Ptr → Ptr → M (Unit {0})
fix_delete zero db parent = fault
fix_delete (suc fuel) db parent = do
  d ← is_red db
  if d then finish_delete db else if parent == null then finish_delete db else do
    p ← load parent
    let dir_to_db = to_dir (p.right == db)
    let sibling = child p (flip dir_to_db)
    r ← is_red sibling
    if r
        then (do
          set_red parent
          set_black sibling
          rb_rotate parent dir_to_db
          fix_delete fuel db parent)
        else do
          s ← load sibling
          far ← is_red (child s (flip dir_to_db))
          if far then rotate_delete true sibling parent dir_to_db else do
            near ← is_red (child s dir_to_db)
            if near
                then rotate_delete false sibling parent dir_to_db
                else do set_red sibling; above ← get_parent parent; fix_delete fuel parent above

-- The exchange of a node with its predecessor where that is its left child.
unfoldable pub swap_adjacent : Place → Ptr → Ptr → Ptr → M (Unit {0})
swap_adjacent place parent curr pred = do
  write_place place pred
  set_parent pred parent
  set_parent curr pred
  p ← load pred
  let tmp = p.left
  set_child pred left curr
  set_child curr left tmp
  when (not (tmp == null)) (set_parent tmp curr)

-- The exchange where the predecessor lies deeper.
unfoldable pub swap_distant : Place → Ptr → Place → Ptr → Ptr → M (Unit {0})
swap_distant place parent pred_loc curr pred = do
  above ← get_parent pred
  set_parent curr above
  set_parent pred parent
  write_place place pred
  write_place pred_loc curr
  c ← load curr
  let tmp = c.left
  p ← load pred
  set_child curr left p.left
  set_child pred left tmp
  when (not (p.left == null)) (set_parent p.left curr)
  set_parent tmp pred

-- The branch of `rb_extract` for a node with two children: the new `place` and `parent`.
unfoldable pub swap_with_predecessor : ℕ → Place → Ptr → Ptr → ℤ → M (Place × Ptr)
swap_with_predecessor fuel place parent curr fd = do
  pred_loc ← predecessor fuel curr
  pred ← read_place pred_loc
  swap_colors pred curr
  c ← load curr
  if c.left == pred
      then swap_adjacent place parent curr pred
      else swap_distant place parent pred_loc curr pred
  c' ← load curr
  let tmp = c'.right
  set_child curr right null
  set_child pred right tmp
  when (not (tmp == null)) (set_parent tmp pred)
  rb_probe fuel (link pred left) fd

-- The end of `rb_extract`: the node, which has one child at most, gives its place to that child.
unfoldable pub unlink : ℕ → Ptr → Place → Ptr → M Ptr
unlink fuel curr place parent = do
  c ← load curr
  let son = if c.left == null then c.right else c.left
  write_place place son
  when (not (son == null)) (set_parent son parent)
  r ← is_red curr
  when (not r) (fix_delete fuel son parent)
  pure curr

unfoldable pub rb_extract : ℕ → Place → Ptr → M Ptr
rb_extract fuel place parent = do
  curr ← read_place place
  c ← load curr
  (place', parent') ←
      if not (c.left == null) && not (c.right == null)
      then swap_with_predecessor fuel place parent curr c.fd
      else pure (place, parent)
  unlink fuel curr place' parent'
