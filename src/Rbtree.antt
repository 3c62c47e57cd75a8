-- ===== src/Rbtree.antt =====
-- src/rbtree.h and src/rbtree.c: the red-black tree of nodes, one for each descriptor, as the C
-- code works on it: through child and parent pointers in a store of nodes.
pub mod Node
pub mod Store
pub mod Insert
pub mod Extract
pub mod Shape
pub mod Search
pub mod Grow
pub mod Plant
pub mod Frame
pub mod Steps
pub mod Rotate
pub mod Spine
pub mod Nodes
pub mod Balance
pub mod Paint
pub mod Fix
pub mod Descent
pub mod Depth
pub mod Mend
pub mod Unlink
