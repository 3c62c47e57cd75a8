-- ===== src/Tests/Removals.antt =====
-- Removals from a tree of four nodes.
use io_engine.Base.{◌≡◌, inl, inr, refl, ◌++◌, none, some, arith, ◌==◌, if◌then◌else◌, false}
use io_engine.Base.Int.{pos}
use io_engine.Rbtree.Node.{make_rbnode}
use io_engine.Rbtree.Store.{Tree, left, root_ref}
use io_engine.Rbtree.Insert.{rb_probe}
use io_engine.Rbtree.Extract.{rb_extract}
use io_engine.Rbtree.Shape.{Shape, leaf, node, Holds, Has, IsOrdered, height}
use io_engine.Rbtree.Spine.{Spine, top, under, plug, parent_of, place_of, root_of, length}
use io_engine.Rbtree.Nodes.{nodes, before, after}
use io_engine.Rbtree.Balance.{IsBlack, IsRb, red_at}
use io_engine.Rbtree.Plant.Settle.{RbTree}
use io_engine.Rbtree.Rotate.Subtree.{fork}
use io_engine.Rbtree.Unlink.Rest.{rest, IsSingle}
use io_engine.Rbtree.Unlink.Whole.{Route, rb_probe-Route, rb_extract-RbTree}

-- Descriptors 10, 20 and 30 at addresses 2, 1 and 3, black, and 40 at address 4, red.
unfoldable four_nodes : Tree
unfolding make_rbnode
four_nodes = record {
  cells = λ p.
      if p == 1
      then some (record (make_rbnode (pos 20)) { left = 2; right = 3; red = false })
      else if p == 2
      then some (record (make_rbnode (pos 10)) { parent = 1; red = false })
      else if p == 3
      then some (record (make_rbnode (pos 30)) { parent = 1; right = 4; red = false })
      else if p == 4
      then some (record (make_rbnode (pos 40)) { parent = 3 })
      else none;
  root = 1;
}

abbrev low : Shape
low = node leaf 2 (pos 10) leaf

abbrev high : Shape
high = node leaf 3 (pos 30) (node leaf 4 (pos 40) leaf)

abbrev way : Spine
way = under left 1 (pos 20) high top

four_nodes-IsOrdered : IsOrdered (plug way low)
unfolding plug fork IsOrdered Has
four_nodes-IsOrdered = (
  (tt, tt, (λ k i. absurd i), λ k i. absurd i),
  (tt, (tt, tt, (λ k i. absurd i), λ k i. absurd i), (λ k i. absurd i), λ k i. ground arith),
  (λ k i. ground arith),
  λ k i. ground arith,
)

four_nodes-RbTree : RbTree four_nodes (plug way low)
unfolding four_nodes make_rbnode Holds IsBlack IsRb red_at plug fork
four_nodes-RbTree = record {
  holds = (
    refl,
    λ e. cc,
    _,
    refl,
    refl,
    refl,
    (refl, λ e. cc, _, refl, refl, refl, refl, refl),
    (refl, λ e. cc, _, refl, refl, refl, refl, (refl, λ e. cc, _, refl, refl, refl, refl, refl)),
  );
  ordered = four_nodes-IsOrdered;
  black = refl;
  black_height = 2;
  rules = inr (
    refl,
    1,
    refl,
    inr (refl, 0, refl, refl, refl),
    inr (refl, 0, refl, refl, inl (refl, tt, tt, refl, refl)),
  );
}

rb_extract-RbTree_example :
    (u : Tree) × (rb_extract 4 (place_of way) (parent_of way) four_nodes ≡ some (root_of low, u))
    × ((s' : Shape) × RbTree u s' × (nodes s' ≡ before way ++ (nodes (rest low) ++ after way)))
unfolding IsSingle length
rb_extract-RbTree_example =
    rb_extract-RbTree 4 four_nodes way low four_nodes-RbTree (inl refl) (omega arith)

four_nodes-Has : Has (pos 30) (plug way low)
unfolding plug fork Has
four_nodes-Has = inr (inr (inr (inl refl)))

rb_probe-Path_example :
    Route four_nodes (pos 30) top (plug way low) (rb_probe 4 root_ref (pos 30) four_nodes)
unfolding height plug fork
rb_probe-Path_example =
    rb_probe-Route four_nodes (plug way low) (pos 30) 4 four_nodes-RbTree four_nodes-Has
      (omega arith)
