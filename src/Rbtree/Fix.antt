-- ===== src/Rbtree/Fix.antt =====
-- The branches of `fix_insert` of src/rbtree.c.
pub mod Query
pub mod Apart
pub mod Turn
pub mod Red
pub mod Rotate
pub mod Recolour
pub mod Loop
use io_engine.Base.{ℕ, suc, ◌≡◌, ◌≢◌, true, false, some, arith, ◌==◌}
use io_engine.Types.{Ptr, null}
use io_engine.Rbtree.Node.{RbNode}
use io_engine.Rbtree.Store.{
  Tree, Dir, left, right, flip, to_dir, child, load, is_red, set_red, set_black, get_parent,
}
use io_engine.Rbtree.Insert.{fix_insert, rotate_insert, mixed_rotate, rb_rotate}

pub fix_stop :
    (fuel : ℕ) (x parent : Ptr) (t : Tree)
    → is_red parent t ≡ some (false, t)
    → fix_insert (suc fuel) x parent t ≡ some (tt, t)
unfolding fix_insert
fix_stop fuel x parent t e = ground (arith, e)

module _ (fuel : ℕ) (x a b uncle : Ptr) (d : Dir) (t : Tree) (p g : RbNode)
    (red : is_red a t ≡ some (true, t)) (at_a : load a t ≡ some (p, t)) (above : p.parent ≡ b)
    (inner : b ≢ null) (at_b : load b t ≡ some (g, t)) (side : to_dir (g.right == a) ≡ d)
    (other : child g (flip d) ≡ uncle) where
  pub fix_recolour :
      (up : Ptr) (t1 t2 t3 : Tree)
      → is_red uncle t ≡ some (true, t)
      → set_black uncle t ≡ some (tt, t1)
      → set_black a t1 ≡ some (tt, t2)
      → set_red b t2 ≡ some (tt, t3)
      → get_parent b t3 ≡ some (up, t3)
      → fix_insert (suc fuel) x a t ≡ fix_insert fuel b up t3
  unfolding fix_insert
  fix_recolour up t1 t2 t3 e e1 e2 e3 e4 =
      ground (arith, red, at_a, above, inner, at_b, side, other, e, e1, e2, e3, e4)

  pub fix_rotate :
      is_red uncle t ≡ some (false, t) → fix_insert (suc fuel) x a t ≡ rotate_insert x a b d t
  unfolding fix_insert
  fix_rotate e = ground (arith, red, at_a, above, inner, at_b, side, other, e)

pub rotate_steps :
    (x a b top : Ptr) (d e : Dir) (t t1 t2 t3 t4 : Tree) (p : RbNode)
    → load a t ≡ some (p, t)
    → to_dir (p.right == x) ≡ e
    → mixed_rotate x a d e t ≡ some (top, t1)
    → rb_rotate b (flip d) t1 ≡ some (tt, t2)
    → set_red b t2 ≡ some (tt, t3)
    → set_black top t3 ≡ some (tt, t4)
    → rotate_insert x a b d t ≡ some (tt, t4)
unfolding rotate_insert
rotate_steps x a b top d e t t1 t2 t3 t4 p l s m r1 r2 r3 = ground (arith, l, s, m, r1, r2, r3)

pub mixed_same : (x a : Ptr) (d : Dir) (t : Tree) → mixed_rotate x a d d t ≡ some (a, t)
unfolding mixed_rotate
mixed_same x a left t = ground arith
mixed_same x a right t = ground arith

pub mixed_other :
    (x a : Ptr) (d : Dir) (t u : Tree)
    → rb_rotate a d t ≡ some (tt, u)
    → mixed_rotate x a d (flip d) t ≡ some (x, u)
unfolding mixed_rotate flip
mixed_other x a left t u e = ground (arith, e)
mixed_other x a right t u e = ground (arith, e)
