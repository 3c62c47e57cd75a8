-- ===== src/Rbtree/Rotate/Subtree.antt =====
-- `rb_rotate` of src/rbtree.c turns one tree of pointers into another.
use io_engine.Base.{◌≡◌, ◌≢◌, ◌⊎◌, inl, inr, ap, refl, Option, some, arith}
use io_engine.Base.Int.{ℤ}
use io_engine.Types.{Ptr, null}
use io_engine.Rbtree.Node.{RbNode}
use io_engine.Rbtree.Store.{Dir, left, right, flip, child, with_child}
use io_engine.Rbtree.Shape.{Shape, node, Holds, Has, IsOrdered, Inside, Apart, IsTree}

-- A tree by the subtree on the side of `d` and the one on the other side.
unfoldable pub fork : Dir → Shape → Ptr → ℤ → Shape → Shape
fork left s a k s' = node s a k s'
fork right s a k s' = node s' a k s

module _ (cells : Ptr → Option RbNode) where
  -- What a fork in the store is made of.
  abbrev pub Forked : Dir → Ptr → Ptr → Shape → Ptr → ℤ → Shape → Type 0
  Forked d p up s a k s' =
      (p ≡ a)
      × (a ≢ null)
      × (n : RbNode) × (cells a ≡ some n)
      × (n.parent ≡ up)
      × (n.fd ≡ k)
      × Holds cells (child n d) a s
      × Holds cells (child n (flip d)) a s'

  pub Holds-fork :
      (d : Dir) (p up : Ptr) (s : Shape) (a : Ptr) (k : ℤ) (s' : Shape)
      → Holds cells p up (fork d s a k s')
      → Forked d p up s a k s'
  unfolding Holds fork child flip
  Holds-fork left p up s a k s' h = h
  Holds-fork right p up s a k s' (pa, nz, n, c, np, nk, hl, hr) = (pa, nz, n, c, np, nk, hr, hl)

  -- The node that a rotation makes the top, and the one that it moves below.
  pub top-Holds :
      (d : Dir) (p up : Ptr) (s : Shape) (a : Ptr) (k : ℤ) (s' : Shape) (x : Ptr) (n : RbNode)
      → p ≡ a
      → a ≢ null
      → cells a ≡ some (with_child d x (record n { parent = up }))
      → n.fd ≡ k
      → Holds cells x a s
      → Holds cells (child n (flip d)) a s'
      → Holds cells p up (fork d s a k s')
  unfolding Holds fork child flip with_child
  top-Holds left p up s a k s' x n pa nz c nk h h' = (pa, nz, _, c, refl, nk, h, h')
  top-Holds right p up s a k s' x n pa nz c nk h h' = (pa, nz, _, c, refl, nk, h', h)

  pub below-Holds :
      (d : Dir) (up : Ptr) (s : Shape) (a : Ptr) (k : ℤ) (s' : Shape) (g : Ptr) (n : RbNode)
      → a ≢ null
      → cells a ≡ some (record (with_child (flip d) g n) { parent = up })
      → n.fd ≡ k
      → Holds cells (child n d) a s
      → Holds cells g a s'
      → Holds cells a up (fork d s a k s')
  unfolding Holds fork child flip with_child
  below-Holds left up s a k s' g n nz c nk h h' = (refl, nz, _, c, refl, nk, h, h')
  below-Holds right up s a k s' g n nz c nk h h' = (refl, nz, _, c, refl, nk, h', h)

-- The nodes of a fork are apart.
pub IsTree-fork :
    (d : Dir) (s : Shape) (a : Ptr) (k : ℤ) (s' : Shape)
    → IsTree (fork d s a k s')
    → (Inside a s → ⊥) × (Inside a s' → ⊥) × Apart s s' × IsTree s × IsTree s'
unfolding IsTree fork
IsTree-fork left s a k s' t = t
IsTree-fork right s a k s' (nl, nr, ap, tl, tr) = (nr, nl, (λ q i j. ap q j i), tr, tl)

pub Inside-fork :
    (d : Dir) (q : Ptr) (s : Shape) (a : Ptr) (k : ℤ) (s' : Shape)
    → Inside q s ⊎ ((q ≡ a) ⊎ Inside q s')
    → Inside q (fork d s a k s')
unfolding Inside fork
Inside-fork left q s a k s' i = i
Inside-fork right q s a k s' (inl i) = inr (inr i)
Inside-fork right q s a k s' (inr (inl i)) = inr (inl i)
Inside-fork right q s a k s' (inr (inr i)) = inl i

-- A rotation keeps the order.
pub IsOrdered-rotate :
    (d : Dir) (c b a : Shape) (x y : Ptr) (kx ky : ℤ)
    → IsOrdered (fork d c x kx (fork d b y ky a))
    → IsOrdered (fork d (fork d c x kx b) y ky a)
unfolding IsOrdered Has fork
IsOrdered-rotate left c b a x y kx ky (oc, (ob, oa, lob, hia), loc, hi) = (
  (oc, ob, loc, λ k h. hi k (inl h)),
  oa,
  (λ k h. elim h [
    | inl i ↦ ground (arith, loc k i, hi ky (inr (inl refl)))
    | inr (inl e) ↦ ground (arith, hi ky (inr (inl refl)))
    | inr (inr i) ↦ lob k i
  ]),
  hia,
)
IsOrdered-rotate right c b a x y kx ky ((oa, ob, loa, hib), oc, lo, hic) = (
  oa,
  (ob, oc, (λ k h. lo k (inr (inr h))), hic),
  loa,
  (λ k h. elim h [
    | inl i ↦ hib k i
    | inr (inl e) ↦ ground (arith, lo ky (inr (inl refl)))
    | inr (inr i) ↦ ground (arith, hic k i, lo ky (inr (inl refl)))
  ]),
)
