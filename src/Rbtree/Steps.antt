-- ===== src/Rbtree/Steps.antt =====
-- What single commands on the store of nodes do, and the steps of `rb_rotate` of src/rbtree.c.
use io_engine.Base.{◌≡◌, ◌≢◌, ◌⊎◌, inl, inr, ◌∙◌, refl, not, some, arith, ◌==◌, if◌then◌else◌}
use io_engine.Types.{Ptr, null}
use io_engine.Rbtree.Node.{RbNode}
use io_engine.Rbtree.Store.{
  Tree, load, modify, Dir, flip, to_dir, child, with_child, set_child, set_parent, when, Place,
  root_ref, link, write_place,
}
use io_engine.Rbtree.Insert.{rb_rotate, link_to}

-- `u` is `t` with the node `m` written at `p`.
pub record Writes (p : Ptr) (m : RbNode) (t u : Tree) : Type 0 where
  pub same_root : u.root ≡ t.root
  pub written : u.cells p ≡ some m
  pub others : (q : Ptr) → q ≢ p → u.cells q ≡ t.cells q

pub load-step : (t : Tree) (p : Ptr) (n : RbNode) → t.cells p ≡ some n → load p t ≡ some (n, t)
unfolding load
load-step t p n c = ground arith

pub modify-Writes :
    (t : Tree) (p : Ptr) (f : RbNode → RbNode) (n : RbNode)
    → t.cells p ≡ some n
    → (u : Tree) × (modify p f t ≡ some (tt, u)) × Writes p (f n) t u
unfolding modify
modify-Writes t p f n c = (
  record t { cells = λ q. if p == q then some (f n) else t.cells q },
  ground arith,
  record { same_root = refl; written = ground arith; others = λ q ne. ground arith },
)

pub set_child-Writes :
    (t : Tree) (p : Ptr) (d : Dir) (c : Ptr) (n : RbNode)
    → t.cells p ≡ some n
    → (u : Tree) × (set_child p d c t ≡ some (tt, u)) × Writes p (with_child d c n) t u
unfolding set_child
set_child-Writes t p d c n e = modify-Writes t p (with_child d c) n e

pub set_parent-Writes :
    (t : Tree) (p q : Ptr) (n : RbNode)
    → t.cells p ≡ some n
    → (u : Tree) × (set_parent p q t ≡ some (tt, u)) × Writes p (record n { parent = q }) t u
unfolding set_parent
set_parent-Writes t p q n e = modify-Writes t p (λ m. record m { parent = q }) n e

-- `rb_rotate`, as the sequence of its writes.
pub rb_rotate_steps :
    (x : Ptr) (d : Dir) (n c : RbNode) (place : Place) (t t1 t2 t3 t4 t5 t6 : Tree)
    → load x t ≡ some (n, t)
    → link_to x n.parent t ≡ some (place, t)
    → load (child n (flip d)) t ≡ some (c, t)
    → set_parent (child n (flip d)) n.parent t ≡ some (tt, t1)
    → write_place place (child n (flip d)) t1 ≡ some (tt, t2)
    → set_child x (flip d) (child c d) t2 ≡ some (tt, t3)
    → when (not (child c d == null)) (set_parent (child c d) x) t3 ≡ some (tt, t4)
    → set_child (child n (flip d)) d x t4 ≡ some (tt, t5)
    → set_parent x (child n (flip d)) t5 ≡ some (tt, t6)
    → rb_rotate x d t ≡ some (tt, t6)
unfolding rb_rotate
rb_rotate_steps x d n c place t t1 t2 t3 t4 t5 t6 e1 e2 e3 e4 e5 e6 e7 e8 e9 =
    ground (arith, e1, e2, e3, e4, e5, e6, e7, e8, e9)

-- A pointer is null or refers to a node.
abbrev pub IsSound : Tree → Ptr → Type 0
IsSound t p = (p ≡ null) ⊎ ((p ≢ null) × (n : RbNode) × (t.cells p ≡ some n))

-- `u` is `t` where the node at `g`, if there is one, has the parent `x`.
pub record Adopts (g x : Ptr) (t u : Tree) : Type 0 where
  pub same_root : u.root ≡ t.root
  pub adopted :
      (m : RbNode) → g ≢ null → t.cells g ≡ some m → u.cells g ≡ some (record m { parent = x })
  pub others : (q : Ptr) → q ≢ g → u.cells q ≡ t.cells q

pub when-Adopts :
    (t : Tree) (g x : Ptr)
    → IsSound t g
    → (u : Tree) × (when (not (g == null)) (set_parent g x) t ≡ some (tt, u)) × Adopts g x t u
when-Adopts t g x (inl z) = (
  t,
  ground arith,
  record { same_root = refl; adopted = λ m nz c. absurd (nz z); others = λ q ne. refl },
)
when-Adopts t g x (inr (nz, n, c)) =
    let (u, e, w) = set_parent-Writes t g x n c in
    (
      u,
      ground (arith, e),
      record {
        same_root = w.same_root;
        adopted = λ m z k. ground (arith, w.written);
        others = w.others;
      },
    )

-- `u` is `t` where the pointer that referred to `x`, from its parent `p` or from the root, refers
-- to `y`.
pub record Relinks (x p y : Ptr) (t u : Tree) : Type 0 where
  pub new_root : u.root ≡ (if p == null then y else t.root)
  pub linked :
      (m : RbNode)
      → p ≢ null
      → t.cells p ≡ some m
      → u.cells p ≡ some (with_child (to_dir (m.right == x)) y m)
  pub others : (q : Ptr) → q ≢ p → u.cells q ≡ t.cells q

pub link_to-Relinks :
    (t t1 : Tree) (x p y : Ptr)
    → IsSound t p
    → t1.cells p ≡ t.cells p
    → (place : Place) × (u : Tree) × (link_to x p t ≡ some (place, t))
      × (write_place place y t1 ≡ some (tt, u))
      × Relinks x p y t1 u
unfolding link_to write_place
link_to-Relinks t t1 x p y (inl z) e = (
  root_ref,
  record t1 { root = y },
  ground arith,
  refl,
  record { new_root = ground arith; linked = λ m nz c. absurd (nz z); others = λ q ne. refl },
)
link_to-Relinks t t1 x p y (inr (nz, n, c)) e =
    let d = to_dir (n.right == x) in
    let (u, k, w) = set_child-Writes t1 p d y n (e ∙ c) in
    (
      link p d,
      u,
      ground (arith, load-step t p n c),
      k,
      record {
        new_root = w.same_root ∙ ground arith;
        linked = λ m z i. ground (arith, w.written);
        others = w.others;
      },
    )
