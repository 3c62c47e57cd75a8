-- ===== src/Rbtree/Spine/Turn.antt =====
-- `rb_rotate` of src/rbtree.c somewhere below the root of a tree.
use io_engine.Base.{◌≡◌, ◌≢◌, inl, inr, sym, ◌∙◌, ap, refl, subst, Option, some, arith, ◌==◌}
use io_engine.Base.Int.{ℤ}
use io_engine.Types.{Ptr, null}
use io_engine.Rbtree.Node.{RbNode}
use io_engine.Rbtree.Store.{Tree, Dir, left, right, flip, to_dir, child, with_child}
use io_engine.Rbtree.Insert.{rb_rotate}
use io_engine.Rbtree.Shape.{Shape, Holds, IsOrdered, Inside}
use io_engine.Rbtree.Frame.{Inside-Has, Holds-root, Holds-others, IsOrdered-IsTree}
use io_engine.Rbtree.Steps.{IsSound}
use io_engine.Rbtree.Rotate.Colours.{red_of}
use io_engine.Rbtree.Rotate.Subtree.{fork, Inside-fork, Holds-fork}
use io_engine.Rbtree.Rotate.Turn.{Elsewhere, rb_rotate-Holds}
use io_engine.Rbtree.Spine.{
  Spine, top, under, plug, HoldsSpine, OnSpine, IsSpine, unplug-Holds, plug-Holds, unplug-IsTree,
}
use io_engine.Rbtree.Spine.Order.{SameKeys-rotate, plug-IsOrdered, unplug-IsOrdered}

-- The side of a node's child, as the code computes it from the right child.
pub side-child :
    (d : Dir) (n : RbNode) (x : Ptr)
    → child n d ≡ x
    → child n (flip d) ≢ x
    → to_dir (n.right == x) ≡ d
unfolding child flip to_dir
side-child left n x e ne = ground arith
side-child right n x e ne = ground arith

pub with_child-links :
    (d : Dir) (y : Ptr) (n : RbNode)
    → (child (with_child d y n) d ≡ y)
      × (child (with_child d y n) (flip d) ≡ child n (flip d))
      × ((with_child d y n).fd ≡ n.fd)
      × ((with_child d y n).parent ≡ n.parent)
unfolding child flip with_child
with_child-links left y n = (refl, refl, refl, refl)
with_child-links right y n = (refl, refl, refl, refl)

pub OnSpine-sound :
    (cells : Ptr → Option RbNode) (root : Ptr) (π : Spine) (p up q : Ptr)
    → HoldsSpine cells root π p up
    → OnSpine q π
    → (q ≢ null) × (n : RbNode) × (cells q ≡ some n)
unfolding HoldsSpine OnSpine
OnSpine-sound cells root top p up q h i = absurd i
OnSpine-sound cells root (under d a k s π) p up q (ua, nz, n, c, cp, nk, hs, hp) (inl e) =
    ((λ z. nz (sym e ∙ z)), n, ap cells e ∙ c)
OnSpine-sound cells root (under d a k s π) p up q (ua, nz, n, c, cp, nk, hs, hp) (inr (inl i)) =
    let (z, m, e, has) = Inside-Has cells s (child n (flip d)) a q hs i in (z, m, e)
OnSpine-sound cells root (under d a k s π) p up q (ua, nz, n, c, cp, nk, hs, hp) (inr (inr i)) =
    OnSpine-sound cells root π a n.parent q hp i

pub HoldsSpine-others :
    (cells after : Ptr → Option RbNode) (root : Ptr) (π : Spine) (p up : Ptr)
    → HoldsSpine cells root π p up
    → ((q : Ptr) → OnSpine q π → after q ≡ cells q)
    → HoldsSpine after root π p up
unfolding HoldsSpine OnSpine
HoldsSpine-others cells after root top p up h same = h
HoldsSpine-others cells after root (under d a k s π) p up (ua, nz, n, c, cp, nk, hs, hp) same = (
  ua,
  nz,
  n,
  same a (inl refl) ∙ c,
  cp,
  nk,
  Holds-others cells after s (child n (flip d)) a hs (λ q i. same q (inr (inl i))),
  HoldsSpine-others cells after root π a n.parent hp (λ q i. same q (inr (inr i))),
)

-- A child of a node on the way up that is not the subtree's first node.
pub other_child :
    (cells : Ptr → Option RbNode) (s r : Shape) (q a x : Ptr)
    → Holds cells q a s
    → x ≢ null
    → Inside x r
    → ((z : Ptr) → Inside z r → Inside z s → ⊥)
    → q ≢ x
other_child cells s r q a x h nz i out e = elim (Holds-root cells s q a h) [
  | inl z ↦ nz (sym e ∙ z)
  | inr (z, j, n, c) ↦ out x i (subst (λ w. Inside w s) e j)
]

module _ (t u : Tree) (x y : Ptr) (s : Shape) where
  -- The way up from a subtree that gave way to another one.
  HoldsSpine-Elsewhere :
      (π : Spine) (up : Ptr)
      → HoldsSpine t.cells t.root π x up
      → x ≢ null
      → Inside x s
      → ((q : Ptr) → Inside q s → OnSpine q π → ⊥)
      → IsSpine π
      → Elsewhere s x up y t u
      → HoldsSpine u.cells u.root π y up
  unfolding HoldsSpine OnSpine IsSpine
  HoldsSpine-Elsewhere top up (rx, un) xnz xs out sp w = (w.new_root ∙ ground (arith, un), un)
  HoldsSpine-Elsewhere (under d a k r π) up (ua, nz, n, c, cp, nk, hs, hp) xnz xs out
        (ar, aπ, rπ, tr, sπ) w =
      let apart = λ (z : Ptr) (i : Inside z s) (j : Inside z r). out z i (inr (inl j)) in
      let side =
        side-child d n x cp (other_child t.cells r s (child n (flip d)) a x hs xnz xs apart) in
      let (l1, l2, l3, l4) = with_child-links d y n in
      let upnz : up ≢ null = λ z. nz (sym ua ∙ z) in
      let at_a : u.cells a ≡ some (with_child d y n) =
        ap u.cells (sym ua)
        ∙ w.linked n upnz (ap t.cells ua ∙ c)
        ∙ ap (λ e. some (with_child e y n)) side in
      let keep = λ (q : Ptr) (i : OnSpine q (under d a k r π)) (qa : q ≢ a).
        w.others q (λ j. out q j i) (λ e. qa (e ∙ ua))
          (OnSpine-sound t.cells t.root (under d a k r π) x up q (ua, nz, n, c, cp, nk, hs, hp)
            i).0 in
      let root_same : u.root ≡ t.root = w.new_root ∙ ground (arith, upnz) in
      (
        ua,
        nz,
        with_child d y n,
        at_a,
        l1,
        l3 ∙ nk,
        subst (λ q. Holds u.cells q a r) (sym l2)
            (Holds-others t.cells u.cells r (child n (flip d)) a hs
              λ q i. keep q (inr (inl i)) (λ e. ar (subst (λ z. Inside z r) e i))),
        subst (λ q. HoldsSpine u.cells u.root π a q) (sym l4)
            (subst (λ q. HoldsSpine u.cells q π a n.parent) (sym root_same)
              (HoldsSpine-others t.cells u.cells t.root π a n.parent hp
                λ q i. keep q (inr (inr i)) (λ e. aπ (subst (λ z. OnSpine z π) e i)))),
      )

parent-IsSound :
    (t : Tree) (root : Ptr) (π : Spine) (x up : Ptr) (s : Shape)
    → HoldsSpine t.cells root π x up
    → ((q : Ptr) → Inside q s → OnSpine q π → ⊥)
    → Holds t.cells x up s
    → IsSound t up × (Inside up s → ⊥)
unfolding HoldsSpine OnSpine
parent-IsSound t root top x up s (rx, un) out hs =
    (inl un, λ i. (Inside-Has t.cells s x up up hs i).0 un)
parent-IsSound t root (under d a k r π) x up s (ua, nz, n, c, cp, nk, hr, hp) out hs =
    (inr ((λ z. nz (sym ua ∙ z)), n, ap t.cells ua ∙ c), λ i. out up i (inl ua))

-- A rotation anywhere in an ordered tree succeeds and turns the subtree there; the tree as a whole
-- stays a tree with the same descriptors in order and the same colours.
pub rb_rotate-plug :
    (t : Tree) (π : Spine) (d : Dir) (x y : Ptr) (kx ky : ℤ) (c b a : Shape)
    → Holds t.cells t.root null (plug π (fork d c x kx (fork d b y ky a)))
    → IsOrdered (plug π (fork d c x kx (fork d b y ky a)))
    → (u : Tree) × (rb_rotate x d t ≡ some (tt, u))
      × Holds u.cells u.root null (plug π (fork d (fork d c x kx b) y ky a))
      × IsOrdered (plug π (fork d (fork d c x kx b) y ky a))
      × ((q : Ptr) → q ≢ null → red_of (u.cells q) ≡ red_of (t.cells q))
rb_rotate-plug t π d x y kx ky c b a h o =
    let s = fork d c x kx (fork d b y ky a) in
    let s' = fork d (fork d c x kx b) y ky a in
    let (p, up, hπ, hs) = unplug-Holds t.cells t.root π s h in
    let (ts, apart, tπ) = unplug-IsTree π s (IsOrdered-IsTree t.cells (plug π s) t.root null h o) in
    let px : p ≡ x = (Holds-fork t.cells d p up c x kx (fork d b y ky a) hs).0 in
    let hs' : Holds t.cells x up s = subst (λ q. Holds t.cells q up s) px hs in
    let hπ' : HoldsSpine t.cells t.root π x up =
      subst (λ q. HoldsSpine t.cells t.root π q up) px hπ in
    let (sound, out) = parent-IsSound t t.root π x up s hπ' apart hs' in
    let (u, e, hu, ou, w) =
      rb_rotate-Holds t d x up y kx ky c b a hs' (unplug-IsOrdered π s o) sound out in
    let in_x : Inside x s = Inside-fork d x c x kx (fork d b y ky a) (inr (inl refl)) in
    let xnz = (Inside-Has t.cells s x up x hs' in_x).0 in
    (
      u,
      e,
      plug-Holds u.cells u.root π s' y up
          (HoldsSpine-Elsewhere t u x y s π up hπ' xnz in_x apart tπ w) hu,
      plug-IsOrdered π s s' (SameKeys-rotate d c b a x y kx ky) ou o,
      w.colours,
    )
