-- ===== src/Rbtree/Mend.antt =====
-- The branches of `fix_delete` of src/rbtree.c.
pub mod Sibling
pub mod Colours
pub mod Far
pub mod Near
pub mod Finish
pub mod Black
pub mod Up
pub mod Turn
pub mod Loop
use io_engine.Base.{ℕ, suc, ◌≡◌, ◌≢◌, true, false, some, arith, ◌==◌, inl, inr, ◌⊎◌}
use io_engine.Types.{Ptr, null}
use io_engine.Rbtree.Node.{RbNode}
use io_engine.Rbtree.Store.{
  Tree, Dir, flip, to_dir, child, load, is_red, set_red, set_black, get_parent, swap_colors,
}
use io_engine.Rbtree.Insert.{rb_rotate}
use io_engine.Rbtree.Extract.{fix_delete, rotate_delete, finish_delete}

pub mend_red :
    (fuel : ℕ) (db parent : Ptr) (t : Tree)
    → is_red db t ≡ some (true, t)
    → fix_delete (suc fuel) db parent t ≡ finish_delete db t
unfolding fix_delete
mend_red fuel db parent t e = ground (arith, e)

pub mend_root :
    (fuel : ℕ) (db : Ptr) (t : Tree)
    → is_red db t ≡ some (false, t)
    → fix_delete (suc fuel) db null t ≡ finish_delete db t
unfolding fix_delete
mend_root fuel db t e = ground (arith, e)

module _ (fuel : ℕ) (db a b : Ptr) (d : Dir) (t : Tree) (p : RbNode)
    (black : is_red db t ≡ some (false, t)) (inner : a ≢ null) (at_a : load a t ≡ some (p, t))
    (side : to_dir (p.right == db) ≡ d) (other : child p (flip d) ≡ b) where
  pub mend_turn :
      (t1 t2 t3 : Tree)
      → is_red b t ≡ some (true, t)
      → set_red a t ≡ some (tt, t1)
      → set_black b t1 ≡ some (tt, t2)
      → rb_rotate a d t2 ≡ some (tt, t3)
      → fix_delete (suc fuel) db a t ≡ fix_delete fuel db a t3
  unfolding fix_delete
  mend_turn t1 t2 t3 e e1 e2 e3 = ground (arith, black, inner, at_a, side, other, e, e1, e2, e3)

  module _ (q : RbNode) (black_b : is_red b t ≡ some (false, t))
      (at_b : load b t ≡ some (q, t)) where
    pub mend_far :
        is_red (child q (flip d)) t ≡ some (true, t)
        → fix_delete (suc fuel) db a t ≡ rotate_delete true b a d t
    unfolding fix_delete
    mend_far e = ground (arith, black, inner, at_a, side, other, black_b, at_b, e)

    pub mend_near :
        is_red (child q (flip d)) t ≡ some (false, t)
        → is_red (child q d) t ≡ some (true, t)
        → fix_delete (suc fuel) db a t ≡ rotate_delete false b a d t
    unfolding fix_delete
    mend_near e e' = ground (arith, black, inner, at_a, side, other, black_b, at_b, e, e')

    pub mend_up :
        (up : Ptr) (t1 : Tree)
        → is_red (child q (flip d)) t ≡ some (false, t)
        → is_red (child q d) t ≡ some (false, t)
        → set_red b t ≡ some (tt, t1)
        → get_parent a t1 ≡ some (up, t1)
        → fix_delete (suc fuel) db a t ≡ fix_delete fuel a up t1
    unfolding fix_delete
    mend_up up t1 e e' e1 e2 =
        ground (arith, black, inner, at_a, side, other, black_b, at_b, e, e', e1, e2)

pub far_steps :
    (a b far : Ptr) (d : Dir) (t t1 t2 t3 : Tree) (p q : RbNode)
    → load b t ≡ some (q, t)
    → load a t ≡ some (p, t)
    → child p (flip d) ≡ b
    → child q (flip d) ≡ far
    → set_black far t ≡ some (tt, t1)
    → swap_colors a b t1 ≡ some (tt, t2)
    → rb_rotate a d t2 ≡ some (tt, t3)
    → rotate_delete true b a d t ≡ some (tt, t3)
unfolding rotate_delete
far_steps a b far d t t1 t2 t3 p q lb la pb qf e1 e2 e3 = ground (arith, lb, la, pb, qf, e1, e2, e3)

-- The first rotation for a red inner child makes it the sibling, with a red outer child.
pub near_steps :
    (a b x : Ptr) (d : Dir) (t t1 t2 t3 : Tree) (p q r : RbNode)
    → load b t ≡ some (q, t)
    → child q d ≡ x
    → set_black x t ≡ some (tt, t1)
    → set_red b t1 ≡ some (tt, t2)
    → rb_rotate b (flip d) t2 ≡ some (tt, t3)
    → load a t3 ≡ some (p, t3)
    → child p (flip d) ≡ x
    → load x t3 ≡ some (r, t3)
    → rotate_delete false b a d t ≡ rotate_delete true x a d t3
unfolding rotate_delete
near_steps a b x d t t1 t2 t3 p q r lb qx e1 e2 e3 la px lx =
    ground (arith, lb, qx, e1, e2, e3, la, px, lx)

pub finish_null : (t : Tree) → finish_delete null t ≡ some (tt, t)
unfolding finish_delete
finish_null t = ground arith

pub finish_node : (db : Ptr) (t : Tree) → db ≢ null → finish_delete db t ≡ set_black db t
unfolding finish_delete
finish_node db t e = ground (arith, e)
