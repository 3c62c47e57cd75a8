-- ===== src/Rbtree/Spine.antt =====
-- A tree of pointers seen from one of its subtrees: the way up to the root, as src/rbtree.c walks
-- it when it rebalances.
pub mod Order
pub mod Turn
use io_engine.Base.{
  ℕ, suc, ◌≡◌, ◌≢◌, ◌⊎◌, inl, inr, sym, ◌∙◌, ap, refl, subst, Option, some, arith, true, false,
  ◌==◌,
}
use io_engine.Base.Int.{ℤ}
use io_engine.Types.{Ptr, null}
use io_engine.Rbtree.Node.{RbNode}
use io_engine.Rbtree.Store.{Dir, left, right, flip, to_dir, child, Place, root_ref, link}
use io_engine.Rbtree.Shape.{Shape, leaf, node, Holds, Inside, IsTree}
use io_engine.Rbtree.Frame.{Holds-root}
use io_engine.Rbtree.Rotate.Subtree.{fork, Holds-fork, IsTree-fork, Inside-fork}

-- The way up from a subtree. `under d a k s π`: it is on the side `d` of the node at `a`, whose
-- other subtree is `s` and whose own way up is `π`.
pub data Spine : Type 0 where
  top : Spine
  under : Dir → Ptr → ℤ → Shape → Spine → Spine

-- The whole tree.
unfoldable pub plug : Spine → Shape → Shape
plug top s = s
plug (under d a k s' π) s = plug π (fork d s a k s')

-- The parent of the subtree.
unfoldable pub parent_of : Spine → Ptr
parent_of top = null
parent_of (under d a k s π) = a

-- The pointer to the subtree.
unfoldable pub place_of : Spine → Place
place_of top = root_ref
place_of (under d a k s π) = link a d

unfoldable pub length : Spine → ℕ
length top = 0
length (under d a k s π) = suc (length π)

unfoldable pub root_of : Shape → Ptr
root_of leaf = null
root_of (node l a k r) = a

-- A node stands on the way up or beside it.
unfoldable pub OnSpine : Ptr → Spine → Type 0
OnSpine q top = ⊥
OnSpine q (under d a k s π) = (q ≡ a) ⊎ (Inside q s ⊎ OnSpine q π)

-- The store holds the way up from the subtree at `p`, whose parent is `up`.
unfoldable pub HoldsSpine : (Ptr → Option RbNode) → Ptr → Spine → Ptr → Ptr → Type 0
HoldsSpine cells root top p up = (root ≡ p) × (up ≡ null)
HoldsSpine cells root (under d a k s π) p up =
    (up ≡ a)
    × (a ≢ null)
    × (n : RbNode) × (cells a ≡ some n)
    × (child n d ≡ p)
    × (n.fd ≡ k)
    × Holds cells (child n (flip d)) a s
    × HoldsSpine cells root π a n.parent

module _ (cells : Ptr → Option RbNode) (root : Ptr) where
  fork-Holds :
      (d : Dir) (p up : Ptr) (s : Shape) (a : Ptr) (k : ℤ) (s' : Shape) (n : RbNode)
      → p ≡ a
      → a ≢ null
      → cells a ≡ some n
      → n.parent ≡ up
      → n.fd ≡ k
      → Holds cells (child n d) a s
      → Holds cells (child n (flip d)) a s'
      → Holds cells p up (fork d s a k s')
  unfolding Holds fork child flip
  fork-Holds left p up s a k s' n pa nz c np nk h h' = (pa, nz, n, c, np, nk, h, h')
  fork-Holds right p up s a k s' n pa nz c np nk h h' = (pa, nz, n, c, np, nk, h', h)

  pub plug-Holds :
      (π : Spine) (s : Shape) (p up : Ptr)
      → HoldsSpine cells root π p up
      → Holds cells p up s
      → Holds cells root null (plug π s)
  unfolding HoldsSpine plug
  plug-Holds top s p up (rp, un) h =
      subst (λ q. Holds cells q null s) (sym rp) (subst (λ q. Holds cells p q s) un h)
  plug-Holds (under d a k s' π) s p up (ua, nz, n, c, cp, nk, hs, hp) h =
      plug-Holds π (fork d s a k s') a n.parent hp (
        fork-Holds d a n.parent s a k s' n refl nz c refl nk
          (subst (λ q. Holds cells q a s) (sym cp) (subst (λ q. Holds cells p q s) ua h)) hs)

  pub Holds-root_of : (s : Shape) (p up : Ptr) → Holds cells p up s → p ≡ root_of s
  unfolding Holds root_of
  Holds-root_of leaf p up h = h
  Holds-root_of (node l a k r) p up (pa, nz, n, c, np, nk, hl, hr) = pa

  pub unplug-Holds :
      (π : Spine) (s : Shape)
      → Holds cells root null (plug π s)
      → (p : Ptr) × (up : Ptr) × HoldsSpine cells root π p up × Holds cells p up s
  unfolding HoldsSpine plug
  unplug-Holds top s h = (root, null, (refl, refl), h)
  unplug-Holds (under d a k s' π) s h =
      let (p, up, hp, hf) = unplug-Holds π (fork d s a k s') h in
      let (pa, nz, n, c, np, nk, h1, h2) = Holds-fork cells d p up s a k s' hf in
      (
        child n d,
        a,
        (
          refl,
          nz,
          n,
          c,
          refl,
          nk,
          h2,
          subst (λ q. HoldsSpine cells root π a q) (sym np)
              (subst (λ q. HoldsSpine cells root π q up) pa hp),
        ),
        h1,
      )

  pub up-parent_of : (π : Spine) (p up : Ptr) → HoldsSpine cells root π p up → up ≡ parent_of π
  unfolding HoldsSpine parent_of
  up-parent_of top p up h = h.1
  up-parent_of (under d a k s π) p up h = h.0

-- Each node on the way up stands there once.
unfoldable pub IsSpine : Spine → Type 0
unfolding OnSpine
IsSpine top = Unit
IsSpine (under d a k s π) =
    (Inside a s → ⊥)
    × (OnSpine a π → ⊥)
    × ((q : Ptr) → Inside q s → OnSpine q π → ⊥)
    × IsTree s
    × IsSpine π

pub unplug-IsTree :
    (π : Spine) (s : Shape)
    → IsTree (plug π s)
    → IsTree s × ((q : Ptr) → Inside q s → OnSpine q π → ⊥) × IsSpine π
unfolding plug IsSpine OnSpine
unplug-IsTree top s h = (h, (λ q i j. absurd j), tt)
unplug-IsTree (under d a k s' π) s h =
    let (hf, apart, hp) = unplug-IsTree π (fork d s a k s') h in
    let (no_s, no_s', ss, ts, ts') = IsTree-fork d s a k s' hf in
    (
      ts,
      (λ q i j. elim j [
        | inl e ↦ no_s (subst (λ z. Inside z s) e i)
        | inr (inl i') ↦ ss q i i'
        | inr (inr j') ↦ apart q (Inside-fork d q s a k s' (inl i)) j'
      ]),
      (
        no_s',
        (λ j. apart a (Inside-fork d a s a k s' (inr (inl refl))) j),
        (λ q i j. apart q (Inside-fork d q s a k s' (inr (inr i))) j),
        ts',
        hp,
      ),
    )
