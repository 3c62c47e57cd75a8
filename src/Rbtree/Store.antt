-- ===== src/Rbtree/Store.antt =====
-- The store of nodes, commands on it, and the small accessors of src/rbtree.c.
use io_engine.Base.{Bool, true, false, Option, none, some, ◌==◌, if◌then◌else◌}
use io_engine.Types.{Ptr, null}
use io_engine.Rbtree.Node.{RbNode}

-- The nodes at their addresses (none at `NULL` and where nothing is allocated), and the pointer
-- that `root_ref` refers to.
pub record Tree : Type 0 where
  pub cells : Ptr → Option RbNode
  pub root : Ptr

-- A command answers `none` for a read or write through a pointer to no node, and where the fuel of
-- a loop runs out.
abbrev pub M : Type 0 → Type 0
M A = Tree → Option (A × Tree)

abbrev pub pure : {A : Type 0} → A → M A
pure a t = some (a, t)

abbrev pub fault : {A : Type 0} → M A
fault t = none

infixl 5 ◌>>=◌ ◌>>◌
abbrev pub ◌>>=◌ : {A B : Type 0} → M A → (A → M B) → M B
◌>>=◌ m f t = elim (m t) [ none ↦ none | some (a, u) ↦ f a u ]

abbrev pub ◌>>◌ : {B : Type 0} → M (Unit {0}) → M B → M B
m >> k = m >>= λ _. k

abbrev pub when : Bool → M (Unit {0}) → M (Unit {0})
when b m = if b then m else pure tt

abbrev pub update : (Ptr → Option RbNode) → Ptr → Option RbNode → Ptr → Option RbNode
update f p n q = if p == q then n else f q

unfoldable pub load : Ptr → M RbNode
load p t = elim (t.cells p) [ none ↦ none | some n ↦ some (n, t) ]

unfoldable pub modify : Ptr → (RbNode → RbNode) → M (Unit {0})
modify p f t = elim (t.cells p) [
  | none ↦ none
  | some n ↦ some (tt, record t { cells = update t.cells p (some (f n)) })
]

-- `LEFT` and `RIGHT`, the indices into `child`.
pub data Dir : Type 0 where
  left right : Dir

-- `1 - dir`
unfoldable pub flip : Dir → Dir
flip left = right
flip right = left

-- An index that the code computes as a truth value.
unfoldable pub to_dir : Bool → Dir
to_dir true = right
to_dir false = left

unfoldable pub child : RbNode → Dir → Ptr
child n left = n.left
child n right = n.right

unfoldable pub with_child : Dir → Ptr → RbNode → RbNode
with_child left p n = record n { left = p }
with_child right p n = record n { right = p }

unfoldable pub set_child : Ptr → Dir → Ptr → M (Unit {0})
unfolding with_child modify
set_child p d c = modify p (with_child d c)

unfoldable pub is_red : Ptr → M Bool
unfolding load
is_red p = if p == null then pure false else (do n ← load p; pure n.red)

unfoldable pub set_red : Ptr → M (Unit {0})
unfolding modify
set_red p = modify p λ n. record n { red = true }

unfoldable pub set_black : Ptr → M (Unit {0})
unfolding modify
set_black p = modify p λ n. record n { red = false }

unfoldable pub set_parent : Ptr → Ptr → M (Unit {0})
unfolding modify
set_parent p q = modify p λ n. record n { parent = q }

unfoldable pub get_parent : Ptr → M Ptr
unfolding load
get_parent p = do n ← load p; pure n.parent

unfoldable pub swap_colors : Ptr → Ptr → M (Unit {0})
unfolding load modify
swap_colors a b = do
  m ← load a
  n ← load b
  modify a λ k. record k { red = n.red }
  modify b λ k. record k { red = m.red }

-- `rb_place`: the root pointer, or a child pointer inside a node.
pub data Place : Type 0 where
  root_ref : Place
  link : Ptr → Dir → Place

unfoldable pub read_place : Place → M Ptr
unfolding load child
read_place root_ref = λ t. some (t.root, t)
read_place (link p d) = do n ← load p; pure (child n d)

unfoldable pub write_place : Place → Ptr → M (Unit {0})
unfolding set_child
write_place root_ref q = λ t. some (tt, record t { root = q })
write_place (link p d) q = set_child p d q

-- The node that an allocation gives, at its address.
unfoldable pub alloc : Ptr → RbNode → M (Unit {0})
alloc p n t = some (tt, record t { cells = update t.cells p (some n) })

-- `free`
unfoldable pub free : Ptr → M (Unit {0})
free p t = elim (t.cells p) [
  | none ↦ none
  | some n ↦ some (tt, record t { cells = update t.cells p none })
]
