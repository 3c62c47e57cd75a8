-- ===== src/Service/Destroy.antt =====
-- `iosvc_delete` of src/iosvc_cdtor.c, as far as the nodes and the event data that they own.
pub mod Frees
use io_engine.Base.{ℕ, zero, suc, none, ◌==◌, if◌then◌else◌}
use io_engine.Types.{Ptr, null}
use io_engine.Rbtree.Store.{M, pure, fault, ◌>>=◌, ◌>>◌, load, modify, free}
use io_engine.Service.Monad.{Cmd, on_tree, tree_fuel}

-- `del_rb_node`; the recursion goes down the tree, so that its height is enough fuel.
unfoldable pub del_rb_node : ℕ → Ptr → M (Unit {0})
del_rb_node zero node = fault
del_rb_node (suc fuel) node =
    let rest = (do
      modify node λ m. record m { aux_event = none; ex_event = none }
      n ← load node
      del_rb_node fuel n.left
      n' ← load node
      del_rb_node fuel n'.right
      free node) in
    if node == null then pure tt else rest

-- The nodes that `iosvc_delete` frees; what it frees besides is the storage of the arrays and of
-- the queue, and the service itself.
unfoldable pub delete : Cmd (Unit {0})
unfolding del_rb_node
delete s = on_tree (del_rb_node (tree_fuel s) s.tree.root) s
