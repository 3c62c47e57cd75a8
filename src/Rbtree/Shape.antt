-- ===== src/Rbtree/Shape.antt =====
-- The binary tree that the pointers of src/rbtree.c make up.
use io_engine.Base.{
  ℕ, suc, ◌≡◌, ◌≢◌, ◌⊎◌, ◌+◌, ◌≤◌, inl, inr, arith, Option, some, leb, if◌then◌else◌,
}
use io_engine.Base.Int.{ℤ, ◌<ℤ◌}
use io_engine.Types.{Ptr, null}
use io_engine.Rbtree.Node.{RbNode}

-- The addresses and the descriptors of the nodes.
pub data Shape : Type 0 where
  leaf : Shape
  node : Shape → Ptr → ℤ → Shape → Shape

-- From `p`, whose parent is `parent`, the store's pointers make up the shape.
unfoldable pub Holds : (Ptr → Option RbNode) → Ptr → Ptr → Shape → Type 0
Holds cells p parent leaf = p ≡ null
Holds cells p parent (node l a fd r) =
    (p ≡ a)
    × (a ≢ null)
    × (n : RbNode) × (cells a ≡ some n)
    × (n.parent ≡ parent)
    × (n.fd ≡ fd)
    × Holds cells n.left a l
    × Holds cells n.right a r

-- A descriptor has a node in the tree.
unfoldable pub Has : ℤ → Shape → Type 0
Has k leaf = ⊥
Has k (node l a fd r) = Has k l ⊎ ((k ≡ fd) ⊎ Has k r)

-- The node of a descriptor stands at an address.
unfoldable pub HasAt : ℤ → Ptr → Shape → Type 0
HasAt k p leaf = ⊥
HasAt k p (node l a fd r) = HasAt k p l ⊎ (((k ≡ fd) × (p ≡ a)) ⊎ HasAt k p r)

-- The nodes are in order of their descriptors, each of which has one node.
unfoldable pub IsOrdered : Shape → Type 0
unfolding Has
IsOrdered leaf = Unit
IsOrdered (node l a fd r) =
    IsOrdered l × IsOrdered r × ((k : ℤ) → Has k l → k <ℤ fd) × ((k : ℤ) → Has k r → fd <ℤ k)

unfoldable pub height : Shape → ℕ
height leaf = 0
height (node l a fd r) = let m = height l in let n = height r in suc (if leb m n then n else m)

unfoldable pub count : Shape → ℕ
count leaf = 0
count (node l a fd r) = suc (count l + count r)

pub height_bound : (s : Shape) → height s ≤ count s
unfolding height count
height_bound leaf = omega arith
height_bound (node l a fd r) = ground (arith, height_bound l, height_bound r)

pub HasAt-Has : (k : ℤ) (p : Ptr) (s : Shape) → HasAt k p s → Has k s
unfolding HasAt Has
HasAt-Has k p leaf h = absurd h
HasAt-Has k p (node l a fd r) (inl h) = inl (HasAt-Has k p l h)
HasAt-Has k p (node l a fd r) (inr (inl h)) = inr (inl h.0)
HasAt-Has k p (node l a fd r) (inr (inr h)) = inr (inr (HasAt-Has k p r h))

-- In an ordered tree a descriptor has one node.
pub HasAt-unique : (k : ℤ) (p q : Ptr) (s : Shape) → IsOrdered s → HasAt k p s → HasAt k q s → p ≡ q
unfolding HasAt IsOrdered
HasAt-unique k p q leaf o h i = absurd h
HasAt-unique k p q (node l a fd r) (ol, or, lo, hi) (inl h) (inl i) = HasAt-unique k p q l ol h i
HasAt-unique k p q (node l a fd r) (ol, or, lo, hi) (inr (inr h)) (inr (inr i)) =
    HasAt-unique k p q r or h i
HasAt-unique k p q (node l a fd r) (ol, or, lo, hi) (inr (inl h)) (inr (inl i)) = cc
HasAt-unique k p q (node l a fd r) (ol, or, lo, hi) (inl h) (inr (inl i)) =
    absurd (ground (arith, lo k (HasAt-Has k p l h)))
HasAt-unique k p q (node l a fd r) (ol, or, lo, hi) (inr (inl i)) (inl h) =
    absurd (ground (arith, lo k (HasAt-Has k q l h)))
HasAt-unique k p q (node l a fd r) (ol, or, lo, hi) (inr (inr h)) (inr (inl i)) =
    absurd (ground (arith, hi k (HasAt-Has k p r h)))
HasAt-unique k p q (node l a fd r) (ol, or, lo, hi) (inr (inl i)) (inr (inr h)) =
    absurd (ground (arith, hi k (HasAt-Has k q r h)))
HasAt-unique k p q (node l a fd r) (ol, or, lo, hi) (inl h) (inr (inr i)) =
    absurd (ground (arith, lo k (HasAt-Has k p l h), hi k (HasAt-Has k q r i)))
HasAt-unique k p q (node l a fd r) (ol, or, lo, hi) (inr (inr i)) (inl h) =
    absurd (ground (arith, lo k (HasAt-Has k q l h), hi k (HasAt-Has k p r i)))

-- A node stands at an address of the tree.
unfoldable pub Inside : Ptr → Shape → Type 0
Inside p leaf = ⊥
Inside p (node l a fd r) = Inside p l ⊎ ((p ≡ a) ⊎ Inside p r)

abbrev pub Apart : Shape → Shape → Type 0
Apart l r = (q : Ptr) → Inside q l → Inside q r → ⊥

-- Each node stands at one place of the tree.
unfoldable pub IsTree : Shape → Type 0
unfolding Inside
IsTree leaf = Unit
IsTree (node l a fd r) = (Inside a l → ⊥) × (Inside a r → ⊥) × Apart l r × IsTree l × IsTree r
