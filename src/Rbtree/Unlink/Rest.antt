-- ===== src/Rbtree/Unlink/Rest.antt =====
-- A subtree of src/rbtree.c without its first node, which has one child at most.
use io_engine.Base.{
  ℕ, suc, ◌≡◌, ◌≢◌, ◌⊎◌, inl, inr, ◌∙◌, ap, subst, Bool, true, false, some, arith, ◌==◌,
  if◌then◌else◌,
}
use io_engine.Base.Int.{ℤ}
use io_engine.Types.{Ptr, null}
use io_engine.Rbtree.Node.{RbNode}
use io_engine.Rbtree.Store.{Tree}
use io_engine.Rbtree.Shape.{Shape, leaf, node, Holds, Has, IsOrdered, Inside, IsTree}
use io_engine.Rbtree.Spine.{Spine, root_of, Holds-root_of}
use io_engine.Rbtree.Balance.{IsBlack, IsRb}

-- The subtree without its first node, which has one child at most.
unfoldable pub rest : Shape → Shape
rest leaf = leaf
rest (node leaf a k r) = r
rest (node (node l b j m) a k r) = node l b j m

pub Has-rest : (s : Shape) (k : ℤ) → Has k (rest s) → Has k s
unfolding rest Has
Has-rest leaf k h = h
Has-rest (node leaf a j r) k h = inr (inr h)
Has-rest (node (node l b i m) a j r) k h = inl h

pub rest-IsOrdered : (s : Shape) → IsOrdered s → IsOrdered (rest s)
unfolding rest IsOrdered
rest-IsOrdered leaf o = o
rest-IsOrdered (node leaf a j r) (ol, or, lo, hi) = or
rest-IsOrdered (node (node l b i m) a j r) (ol, or, lo, hi) = ol

pub rest-IsTree :
    (s : Shape)
    → IsTree s
    → IsTree (rest s) × ((q : Ptr) → Inside q (rest s) → Inside q s × (q ≢ root_of s))
unfolding rest IsTree Inside root_of
rest-IsTree leaf t = (t, λ q i. absurd i)
rest-IsTree (node leaf a j r) (nl, nr, out, tl, tr) =
    (tr, λ q i. (inr (inr i), λ z. nr (subst (λ w. Inside w r) z i)))
rest-IsTree (node (node l b i' m) a j r) (nl, nr, out, tl, tr) =
    (tl, λ q i. (inl i, λ z. nl (subst (λ w. Inside w (node l b i' m)) z i)))

-- The node has no left or no right child.
unfoldable pub IsSingle : Shape → Type 0
IsSingle leaf = ⊥
IsSingle (node l a k r) = (l ≡ leaf) ⊎ (r ≡ leaf)

-- Its child keeps the rules: with the same black nodes on the ways down, and black, below a red
-- node, and with one less below a black one.
pub rest-IsRb :
    (c : Ptr → Bool) (s : Shape) (h : ℕ)
    → IsRb c s h
    → IsSingle s
    → ((c (root_of s) ≡ true) × IsRb c (rest s) h × IsBlack c (rest s))
      ⊎ ((c (root_of s) ≡ false) × (g : ℕ) × (h ≡ suc g) × IsRb c (rest s) g)
unfolding IsRb IsSingle rest root_of
rest-IsRb c leaf h i one = absurd one
rest-IsRb c (node leaf a k r) h (inl (e, bl, br, il, ir)) one = inl (e, ir, br)
rest-IsRb c (node leaf a k r) h (inr (e, g, hg, il, ir)) one = inr (e, g, hg, ir)
rest-IsRb c (node (node l b i m) a k r) h (inl (e, bl, br, il, ir)) one = inl (e, il, bl)
rest-IsRb c (node (node l b i m) a k r) h (inr (e, g, hg, il, ir)) one = inr (e, g, hg, il)

-- What the code reads at the node.
pub record AtNode (t : Tree) (π : Spine) (s : Shape) (x : Ptr) (n : RbNode) : Type 0 where
  pub nonnull : x ≢ null
  pub at_x : t.cells x ≡ some n
  pub son : (if n.left == null then n.right else n.left) ≡ root_of (rest s)
  pub one : (n.left == null) ≡ true ⊎ ((n.right == null) ≡ true)
  pub below : (q : Ptr) × Holds t.cells q x (rest s)

pub read_single :
    (t : Tree) (π : Spine) (s : Shape) (p up : Ptr)
    → Holds t.cells p up s
    → IsSingle s
    → (n : RbNode) × AtNode t π s (root_of s) n
unfolding Holds IsSingle rest root_of
read_single t π leaf p up h one = absurd one
read_single t π (node leaf a k r) p up (pa, nz, n, c, np, nk, hl, hr) one = (
  n,
  record {
    nonnull = nz;
    at_x = c;
    son = ground (arith, hl, Holds-root_of t.cells t.root r n.right a hr);
    one = inl (ground (arith, hl));
    below = (n.right, hr);
  },
)
read_single t π (node (node l b i m) a k r) p up (pa, nz, n, c, np, nk, hl, hr) (inl e) =
    absurd (ground (arith, e))
read_single t π (node (node l b i m) a k r) p up (pa, nz, n, c, np, nk, hl, hr) (inr e) = (
  n,
  record {
    nonnull = nz;
    at_x = c;
    son = (let qb = hl.0 in let bz = hl.1 in ground (arith, qb, bz));
    one = inr (
        let r0 : n.right ≡ null = Holds-root_of t.cells t.root r n.right a hr ∙ ap root_of e in
        ground (arith, r0));
    below = (n.left, hl);
  },
)
