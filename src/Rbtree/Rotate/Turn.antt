-- ===== src/Rbtree/Rotate/Turn.antt =====
-- `rb_rotate` of src/rbtree.c turns a tree of pointers into the rotated tree.
use io_engine.Base.{
  ◌≡◌, ◌≢◌, ◌⊎◌, inl, inr, sym, ◌∙◌, ap, ap₂, refl, subst, some, ◌==◌, if◌then◌else◌,
}
use io_engine.Base.Int.{ℤ}
use io_engine.Types.{Ptr, null}
use io_engine.Rbtree.Node.{RbNode}
use io_engine.Rbtree.Store.{Tree, Dir, flip, to_dir, child, with_child}
use io_engine.Rbtree.Insert.{rb_rotate}
use io_engine.Rbtree.Steps.{IsSound}
use io_engine.Rbtree.Rotate.Colours.{red_of, Rotated-red_of}
use io_engine.Rbtree.Rotate.{CanRotate, Rotated, rb_rotate-Rotated}
use io_engine.Rbtree.Shape.{Shape, Holds, IsOrdered, Inside, IsTree}
use io_engine.Rbtree.Frame.{Inside-Has, IsOrdered-IsTree, Holds-root, Holds-others, Holds-adopted}
use io_engine.Rbtree.Rotate.Subtree.{
  fork, Holds-fork, top-Holds, below-Holds, IsTree-fork, Inside-fork, IsOrdered-rotate,
}

-- The tree `s` at `x` below `p` gives way to a tree at `y`: what referred to `x` refers to `y`,
-- nothing else outside changes, and no node changes its colour.
pub record Elsewhere (s : Shape) (x p y : Ptr) (t u : Tree) : Type 0 where
  pub new_root : u.root ≡ (if p == null then y else t.root)
  pub linked :
      (m : RbNode)
      → p ≢ null
      → t.cells p ≡ some m
      → u.cells p ≡ some (with_child (to_dir (m.right == x)) y m)
  pub others : (q : Ptr) → (Inside q s → ⊥) → q ≢ p → q ≢ null → u.cells q ≡ t.cells q
  pub colours : (q : Ptr) → q ≢ null → red_of (u.cells q) ≡ red_of (t.cells q)

module _ (t : Tree) (d : Dir) (x p y : Ptr) (kx ky : ℤ) (sc sb sa : Shape) where
  abbrev inner : Shape
  inner = fork d sb y ky sa

  abbrev before : Shape
  before = fork d sc x kx inner

  -- The parts of the tree before the rotation.
  record Parts (n c : RbNode) : Type 0 where
    at_x : t.cells x ≡ some n
    at_y : t.cells y ≡ some c
    nonnull_x : x ≢ null
    nonnull_y : y ≢ null
    up : n.parent ≡ p
    top : child n (flip d) ≡ y
    key_x : n.fd ≡ kx
    key_y : c.fd ≡ ky
    holds_c : Holds t.cells (child n d) x sc
    holds_b : Holds t.cells (child c d) y sb
    holds_a : Holds t.cells (child c (flip d)) y sa
    x_c : Inside x sc → ⊥
    c_inner : (q : Ptr) → Inside q sc → Inside q inner → ⊥
    x_inner : Inside x inner → ⊥
    y_b : Inside y sb → ⊥
    y_a : Inside y sa → ⊥
    b_a : (q : Ptr) → Inside q sb → Inside q sa → ⊥
    tree_b : IsTree sb
    outside : Inside p before → ⊥

  parts :
      Holds t.cells x p before
      → IsOrdered before
      → (Inside p before → ⊥)
      → (n : RbNode) × (c : RbNode) × Parts n c
  parts h o out =
      let (e, nz, n, cx, np, nk, hc, hi) = Holds-fork t.cells d x p sc x kx inner h in
      let (py, ynz, c, cy, cp, ck, hb, ha) =
        Holds-fork t.cells d (child n (flip d)) x sb y ky sa hi in
      let tree = IsOrdered-IsTree t.cells before x p h o in
      let (xc, xi, ci, tc, ti) = IsTree-fork d sc x kx inner tree in
      let (yb, ya, ba, tb, ta) = IsTree-fork d sb y ky sa ti in
      (
        n,
        c,
        record {
          at_x = cx;
          at_y = cy;
          nonnull_x = nz;
          nonnull_y = ynz;
          up = np;
          top = py;
          key_x = nk;
          key_y = ck;
          holds_c = hc;
          holds_b = hb;
          holds_a = ha;
          x_c = xc;
          c_inner = ci;
          x_inner = xi;
          y_b = yb;
          y_a = ya;
          b_a = ba;
          tree_b = tb;
          outside = out;
        },
      )

  in_b : (q : Ptr) → Inside q sb → Inside q inner
  in_b q i = Inside-fork d q sb y ky sa (inl i)

  in_y : Inside y inner
  in_y = Inside-fork d y sb y ky sa (inr (inl refl))

  in_a : (q : Ptr) → Inside q sa → Inside q inner
  in_a q i = Inside-fork d q sb y ky sa (inr (inr i))

  in_inner : (q : Ptr) → Inside q inner → Inside q before
  in_inner q i = Inside-fork d q sc x kx inner (inr (inr i))

  in_x : Inside x before
  in_x = Inside-fork d x sc x kx inner (inr (inl refl))

  in_c : (q : Ptr) → Inside q sc → Inside q before
  in_c q i = Inside-fork d q sc x kx inner (inl i)

  module _ (n c : RbNode) (k : Parts n c) where
    -- The node that moves from `y` to `x`, if there is one.
    moved_node :
        (child c d ≡ null)
        ⊎ ((child c d ≢ null)
            × Inside (child c d) sb
            × (m : RbNode) × (t.cells (child c d) ≡ some m))
    moved_node = Holds-root t.cells sb (child c d) y k.holds_b

    differs : (q : Ptr) → q ≢ null → (Inside q sb → ⊥) → child c d ≢ q
    differs q nz out e = elim moved_node [
      | inl z ↦ nz (sym e ∙ z)
      | inr (z, i, m, f) ↦ out (subst (λ w. Inside w sb) e i)
    ]

    moved_in : child c d ≢ null → Inside (child c d) sb
    moved_in nz = elim moved_node [ inl z ↦ absurd (nz z) | inr (z, i, m, f) ↦ i ]

    can_rotate : IsSound t p → CanRotate t x d n c
    can_rotate sp = record {
      at_x = k.at_x;
      at_top = ap t.cells k.top ∙ k.at_y;
      top_nonnull = λ z. k.nonnull_y (sym k.top ∙ z);
      parent-IsSound = subst (λ q. IsSound t q) (sym k.up) sp;
      moved_sound = elim moved_node [ inl z ↦ inl z | inr (z, i, m, f) ↦ inr (z, m, f) ];
      x_top = λ e. k.x_inner (subst (λ q. Inside q inner) (sym (e ∙ k.top)) in_y);
      x_parent = λ e. k.outside (subst (λ q. Inside q before) (e ∙ k.up) in_x);
      top_parent =
          λ e. k.outside (subst (λ q. Inside q before) (sym k.top ∙ e ∙ k.up) (in_inner y in_y));
      moved_x = differs x k.nonnull_x (λ i. k.x_inner (in_b x i));
      moved_top = λ e. differs y k.nonnull_y k.y_b (e ∙ k.top);
      moved_parent = λ nz e.
          k.outside (subst (λ q. Inside q before) (e ∙ k.up) (in_inner _ (in_b _ (moved_in nz))));
    }

    module _ (u : Tree) (w : Rotated x d n c t u) where
      keep : (q : Ptr) → (q ≢ p) → q ≢ x → q ≢ y → q ≢ child c d → u.cells q ≡ t.cells q
      keep q np nx ny ng = w.others q nx (λ e. ny (e ∙ k.top)) ng (λ e. np (e ∙ k.up))

      not_p : (q : Ptr) → Inside q before → q ≢ p
      not_p q i e = k.outside (subst (λ z. Inside z before) e i)

      not_moved : (q : Ptr) → q ≢ null → (Inside q sb → ⊥) → q ≢ child c d
      not_moved q nz out e = differs q nz out (sym e)

      after_c : Holds u.cells (child n d) x sc
      after_c = Holds-others t.cells u.cells sc (child n d) x k.holds_c λ q i.
          keep q (not_p q (in_c q i)) (λ e. k.x_c (subst (λ z. Inside z sc) e i))
            (λ e. k.c_inner q i (subst (λ z. Inside z inner) (sym e) in_y))
            (not_moved q (Inside-Has t.cells sc (child n d) x q k.holds_c i).0
              (λ j. k.c_inner q i (in_b q j)))

      after_a : Holds u.cells (child c (flip d)) y sa
      after_a = Holds-others t.cells u.cells sa (child c (flip d)) y k.holds_a λ q i.
          keep q (not_p q (in_inner q (in_a q i)))
            (λ e. k.x_inner (subst (λ z. Inside z inner) e (in_a q i)))
            (λ e. k.y_a (subst (λ z. Inside z sa) e i))
            (not_moved q (Inside-Has t.cells sa (child c (flip d)) y q k.holds_a i).0
              (λ j. k.b_a q j i))

      after_b : Holds u.cells (child c d) x sb
      after_b =
          Holds-adopted t.cells u.cells sb (child c d) y x k.holds_b k.tree_b w.moved λ q i ng.
            keep q (not_p q (in_inner q (in_b q i)))
              (λ e. k.x_inner (subst (λ z. Inside z inner) e (in_b q i)))
              (λ e. k.y_b (subst (λ z. Inside z sb) e i)) ng

      after_x : Holds u.cells x y (fork d sc x kx sb)
      after_x =
          below-Holds u.cells d y sc x kx sb (child c d) n k.nonnull_x
            (w.below
              ∙ ap (λ q. some (record (with_child (flip d) (child c d) n) { parent = q })) k.top)
            k.key_x after_c after_b

      after_y : Holds u.cells y p (fork d (fork d sc x kx sb) y ky sa)
      after_y =
          top-Holds u.cells d y p (fork d sc x kx sb) y ky sa x c refl k.nonnull_y
            (ap u.cells (sym k.top)
              ∙ w.top
              ∙ ap (λ q. some (with_child d x (record c { parent = q }))) k.up)
            k.key_y after_x after_a

      elsewhere : IsSound t p → Elsewhere before x p y t u
      elsewhere sp = record {
        colours = Rotated-red_of t x d n c (can_rotate sp) u w;
        new_root = w.new_root ∙ ap₂ (λ q r. if q == null then r else t.root) k.up k.top;
        linked = λ m nz e.
            ap u.cells (sym k.up)
            ∙ w.linked m (λ z. nz (sym k.up ∙ z)) (ap t.cells k.up ∙ e)
            ∙ ap (λ r. some (with_child (to_dir (m.right == x)) r m)) k.top;
        others = λ q out np nz.
            keep q np (λ e. out (subst (λ z. Inside z before) (sym e) in_x))
              (λ e. out (subst (λ z. Inside z before) (sym e) (in_inner y in_y)))
              (not_moved q nz (λ j. out (in_inner q (in_b q j))));
      }

  -- In an ordered tree at `x`, `rb_rotate` succeeds and turns the tree: the child `y` opposite to
  -- the direction takes the place of `x`, `x` goes below it and takes over the tree between them,
  -- all parent pointers are right, the order is kept, what referred to `x` refers to `y`, and no
  -- other node changes.
  pub rb_rotate-Holds :
      Holds t.cells x p before
      → IsOrdered before
      → IsSound t p
      → (Inside p before → ⊥)
      → (u : Tree) × (rb_rotate x d t ≡ some (tt, u))
        × Holds u.cells y p (fork d (fork d sc x kx sb) y ky sa)
        × IsOrdered (fork d (fork d sc x kx sb) y ky sa)
        × Elsewhere before x p y t u
  rb_rotate-Holds h o sp out =
      let (n, c, k) = parts h o out in
      let (u, e, w) = rb_rotate-Rotated t x d n c (can_rotate n c k sp) in
      (u, e, after_y n c k u w, IsOrdered-rotate d sc sb sa x y kx ky o, elsewhere n c k u w sp)
