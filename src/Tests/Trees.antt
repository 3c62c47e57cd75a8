-- ===== src/Tests/Trees.antt =====
-- A rotation of a tree of two nodes, and an insertion.
use io_engine.Base.{suc, ◌≡◌, inr, refl, false, none, some, arith, inl, ◌==◌, if◌then◌else◌}
use io_engine.Base.Int.{pos}
use io_engine.Types.{Ptr, null}
use io_engine.Rbtree.Node.{make_rbnode}
use io_engine.Rbtree.Store.{Tree, right, Place, read_place, root_ref, link}
use io_engine.Rbtree.Insert.{rb_rotate, rb_probe, rb_insert}
use io_engine.Rbtree.Shape.{Shape, leaf, node, Holds, Has, IsOrdered, Inside, height, count}
use io_engine.Rbtree.Grow.{insert, Hole}
use io_engine.Rbtree.Plant.{rb_insert-black}
use io_engine.Rbtree.Plant.Link.{NewNode}
use io_engine.Rbtree.Plant.Settle.{RbTree}
use io_engine.Rbtree.Plant.Rebalance.{rb_insert-RbTree}
use io_engine.Rbtree.Plant.Found.{rb_probe-rb_insert}
use io_engine.Rbtree.Nodes.{nodes}
use io_engine.Rbtree.Balance.{IsBlack, IsRb, red_at}
use io_engine.Rbtree.Depth.{two_to, rb_probe-RbTree}
use io_engine.Rbtree.Search.{Answers}
use io_engine.Rbtree.Rotate.Subtree.{fork}
use io_engine.Rbtree.Rotate.Turn.{Elsewhere, rb_rotate-Holds}

-- Descriptor 20 at address 1, and below it descriptor 10 at address 2.
unfoldable two_nodes : Tree
unfolding make_rbnode
two_nodes = record {
  cells = λ p.
      if p == 1
      then some (record (make_rbnode (pos 20)) { left = 2 })
      else if p == 2
      then some (record (make_rbnode (pos 10)) { parent = 1 })
      else none;
  root = 1;
}

abbrev two_shape : Shape
two_shape = node (node leaf 2 (pos 10) leaf) 1 (pos 20) leaf

abbrev turned : Shape
turned = node leaf 2 (pos 10) (node leaf 1 (pos 20) leaf)

two_nodes-Holds : Holds two_nodes.cells 1 null two_shape
unfolding two_nodes make_rbnode Holds
two_nodes-Holds =
    (refl, λ e. cc, _, refl, refl, refl, (refl, λ e. cc, _, refl, refl, refl, refl, refl), refl)

two_shape-IsOrdered : IsOrdered two_shape
unfolding IsOrdered Has
two_shape-IsOrdered =
    ((tt, tt, λ k h. absurd h, λ k h. absurd h), tt, (λ k h. ground arith), λ k h. absurd h)

two_shape-outside : Inside null two_shape → ⊥
unfolding Inside
two_shape-outside h = ground arith

rb_rotate-Holds_example :
    (u : Tree) × (rb_rotate 1 right two_nodes ≡ some (tt, u))
    × Holds u.cells 2 null turned
    × IsOrdered turned
    × Elsewhere two_shape 1 null 2 two_nodes u
unfolding fork
rb_rotate-Holds_example =
    rb_rotate-Holds two_nodes right 1 null 2 (pos 20) (pos 10) leaf leaf leaf two_nodes-Holds
      two_shape-IsOrdered (inl refl) two_shape-outside

-- Descriptor 4 at address 7, black, and a new node for descriptor 9 at address 8.
unfoldable planted : Tree
unfolding make_rbnode
planted = record {
  cells = λ p.
      if p == 7
      then some (record (make_rbnode (pos 4)) { red = false })
      else if p == 8
      then some (make_rbnode (pos 9))
      else none;
  root = 7;
}

abbrev single : Shape
single = node leaf 7 (pos 4) leaf

planted-Holds : Holds planted.cells 7 null single
unfolding planted make_rbnode Holds
planted-Holds = (refl, λ e. cc, _, refl, refl, refl, refl, refl)

single-IsOrdered : IsOrdered single
unfolding IsOrdered Has
single-IsOrdered = (tt, tt, λ k h. absurd h, λ k h. absurd h)

single-lacks : Has (pos 9) single → ⊥
unfolding Has
single-lacks h = ground arith

rb_insert-black_example :
    (u : Tree) × (rb_insert 0 8 (link 7 right) 7 planted ≡ some (tt, u))
    × Holds u.cells u.root null (insert (pos 9) 8 single)
    × IsOrdered (insert (pos 9) 8 single)
unfolding planted make_rbnode Hole Inside
rb_insert-black_example =
    rb_insert-black 0 planted single (pos 9) 8 7 right (make_rbnode (pos 9)) _ planted-Holds
      single-IsOrdered single-lacks (inl (refl, inl (refl, refl, refl))) refl refl (λ e. cc)
      (λ i. ground arith) refl refl refl refl

-- Descriptor 20 at address 1, black, descriptor 10 below it at address 2, red, and a new node for
-- descriptor 15 at address 3, which is inserted with two rotations.
unfoldable before_turns : Tree
unfolding make_rbnode
before_turns = record {
  cells = λ p.
      if p == 1
      then some (record (make_rbnode (pos 20)) { left = 2; red = false })
      else if p == 2
      then some (record (make_rbnode (pos 10)) { parent = 1 })
      else if p == 3
      then some (make_rbnode (pos 15))
      else none;
  root = 1;
}

before_turns-RbTree : RbTree before_turns two_shape
unfolding before_turns make_rbnode Holds IsBlack IsRb red_at
before_turns-RbTree = record {
  holds =
      (refl, λ e. cc, _, refl, refl, refl, (refl, λ e. cc, _, refl, refl, refl, refl, refl), refl);
  ordered = two_shape-IsOrdered;
  black = refl;
  black_height = 1;
  rules = inr (refl, 0, refl, inl (refl, tt, tt, refl, refl), refl);
}

two_shape-lacks : Has (pos 15) two_shape → ⊥
unfolding Has
two_shape-lacks h = ground arith

newcomer : NewNode before_turns two_shape (pos 15) 3
unfolding before_turns make_rbnode Inside
newcomer = record {
  nonnull = λ e. cc;
  outside = λ i. ground arith;
  new = make_rbnode (pos 15);
  stored = refl;
  its_fd = refl;
  no_left = refl;
  no_right = refl;
  is_red = refl;
}

rb_insert-RbTree_example :
    (place : Place) × (parent : Ptr) × (u : Tree) × (s' : Shape) × (rb_probe 3 root_ref
        (pos 15)
        before_turns
      ≡ some ((place, parent), before_turns))
    × (rb_insert 3 3 place parent before_turns ≡ some (tt, u))
    × RbTree u s'
    × (nodes s' ≡ nodes (insert (pos 15) 3 two_shape))
unfolding height
rb_insert-RbTree_example =
    rb_insert-RbTree before_turns two_shape (pos 15) 3 2 before_turns-RbTree two_shape-lacks
      newcomer (omega arith)

rb_probe-RbTree_example :
    Answers before_turns (pos 10) (rb_probe 5 root_ref (pos 10) before_turns) root_ref two_shape
unfolding count two_to
rb_probe-RbTree_example =
    rb_probe-RbTree before_turns two_shape (pos 10) 2 before_turns-RbTree (omega arith)

rb_probe-rb_insert_example :
    (place : Place) × (parent : Ptr) × (u : Tree) × (s' : Shape) × (rb_probe 3 root_ref
        (pos 15)
        before_turns
      ≡ some ((place, parent), before_turns))
    × (rb_insert 3 3 place parent before_turns ≡ some (tt, u))
    × ((place' : Place) × (parent' : Ptr) × (rb_probe (suc (height s')) root_ref (pos 15) u
          ≡ some ((place', parent'), u))
        × (read_place place' u ≡ some (3, u)))
unfolding height
rb_probe-rb_insert_example =
    rb_probe-rb_insert before_turns two_shape (pos 15) 3 2 before_turns-RbTree two_shape-lacks
      newcomer (omega arith)
