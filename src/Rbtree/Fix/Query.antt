-- ===== src/Rbtree/Fix/Query.antt =====
-- What `fix_insert` of src/rbtree.c reads on the way up.
use io_engine.Base.{
  ℕ, suc, ◌≡◌, ◌≢◌, inl, inr, sym, ◌∙◌, ap, refl, subst, Bool, true, false, some, arith, ◌==◌,
}
use io_engine.Base.Int.{ℤ}
use io_engine.Types.{Ptr, null}
use io_engine.Rbtree.Node.{RbNode}
use io_engine.Rbtree.Store.{Tree, Dir, left, right, flip, to_dir, child, get_parent}
use io_engine.Rbtree.Shape.{Shape, leaf, node, Holds, IsOrdered, Inside, IsTree}
use io_engine.Rbtree.Frame.{Inside-Has, Holds-root, IsOrdered-IsTree}
use io_engine.Rbtree.Steps.{IsSound, load-step}
use io_engine.Rbtree.Rotate.Subtree.{fork, Holds-fork}
use io_engine.Rbtree.Spine.{
  Spine, under, plug, parent_of, root_of, OnSpine, HoldsSpine, unplug-Holds, up-parent_of,
  Holds-root_of, unplug-IsTree,
}
use io_engine.Rbtree.Spine.Turn.{side-child, other_child}
use io_engine.Rbtree.Balance.{IsBlack, IsRb, IsRb-cong}

pub fork-flip :
    (d : Dir) (s : Shape) (a : Ptr) (k : ℤ) (r : Shape) → fork d s a k r ≡ fork (flip d) r a k s
unfolding fork flip
fork-flip left s a k r = refl
fork-flip right s a k r = refl

pub root_of-fork :
    (d : Dir) (s : Shape) (a : Ptr) (k : ℤ) (r : Shape) → root_of (fork d s a k r) ≡ a
unfolding fork root_of
root_of-fork left s a k r = refl
root_of-fork right s a k r = refl

-- The node above a subtree whose first node is `x`.
pub record Above (t : Tree) (d : Dir) (a x : Ptr) (r : Shape) (π : Spine) (n : RbNode)
    : Type 0 where
  pub nonnull : a ≢ null
  pub at_a : t.cells a ≡ some n
  pub its_parent : n.parent ≡ parent_of π
  pub side : to_dir (n.right == x) ≡ d
  pub other : child n (flip d) ≡ root_of r
  pub other_sound : IsSound t (root_of r)

pub plug-Above :
    (t : Tree) (d : Dir) (a x : Ptr) (k : ℤ) (r s : Shape) (π : Spine)
    → Holds t.cells t.root null (plug (under d a k r π) s)
    → IsOrdered (plug (under d a k r π) s)
    → root_of s ≡ x
    → Inside x s
    → (n : RbNode) × Above t d a x r π n
unfolding HoldsSpine OnSpine
plug-Above t d a x k r s π h o rx i =
    let (p, up, (ua, nz, n, c, cp, nk, hr, hp), hs) =
      unplug-Holds t.cells t.root (under d a k r π) s h in
    let tree = IsOrdered-IsTree t.cells (plug (under d a k r π) s) t.root null h o in
    let (ts, apart, tπ) = unplug-IsTree (under d a k r π) s tree in
    let xnz = (Inside-Has t.cells s p up x hs i).0 in
    let px : p ≡ x = Holds-root_of t.cells t.root s p up hs ∙ rx in
    let rr = Holds-root_of t.cells t.root r (child n (flip d)) a hr in
    (
      n,
      record {
        nonnull = nz;
        at_a = c;
        its_parent = up-parent_of t.cells t.root π a n.parent hp;
        side = side-child d n x (cp ∙ px) (
            other_child t.cells r s (child n (flip d)) a x hr xnz i
              (λ z j l. apart z j (inr (inl l))));
        other = rr;
        other_sound = elim (Holds-root t.cells r (child n (flip d)) a hr) [
          | inl z ↦ inl (sym rr ∙ z)
          | inr (z, j, m, e) ↦ inr ((λ w. z (rr ∙ w)), m, ap t.cells (sym rr) ∙ e)
        ];
      },
    )

-- The parent of a subtree's first node.
pub plug-get_parent :
    (t : Tree) (π : Spine) (d : Dir) (s : Shape) (a : Ptr) (k : ℤ) (r : Shape)
    → Holds t.cells t.root null (plug π (fork d s a k r))
    → (a ≢ null) × (get_parent a t ≡ some (parent_of π, t)) × (n : RbNode) × (t.cells a ≡ some n)
unfolding get_parent
plug-get_parent t π d s a k r h =
    let (p, up, hπ, hs) = unplug-Holds t.cells t.root π (fork d s a k r) h in
    let (pa, nz, n, c, np, nk, h1, h2) = Holds-fork t.cells d p up s a k r hs in
    (nz, ground (arith, load-step t a n c, np, up-parent_of t.cells t.root π p up hπ), n, c)

-- The colour of a subtree's first node decides `IsBlack`.
pub root-IsBlack : (c : Ptr → Bool) (s : Shape) → c (root_of s) ≡ false → IsBlack c s
unfolding root_of IsBlack
root-IsBlack c leaf e = tt
root-IsBlack c (node l a k r) e = e

-- Painting the first node of a subtree black.
pub blacken :
    (c c' : Ptr → Bool) (s : Shape) (h : ℕ)
    → IsTree s
    → c null ≡ false
    → c (root_of s) ≡ true
    → c' (root_of s) ≡ false
    → ((q : Ptr) → Inside q s → q ≢ root_of s → c' q ≡ c q)
    → IsRb c s h
    → IsRb c' s (suc h) × IsBlack c' s
unfolding IsRb IsTree Inside root_of
blacken c c' leaf h t z red black same i = absurd (ground (arith, z, red))
blacken c c' (node l a k r) h (al, ar, lr, tl, tr) z red black same (inl (e, bl, br, il, ir)) = (
  inr (
    black,
    h,
    refl,
    IsRb-cong c c' l h (λ q j. same q (inl j) (λ w. al (subst (λ v. Inside v l) w j))) il,
    IsRb-cong c c' r h (λ q j. same q (inr (inr j)) (λ w. ar (subst (λ v. Inside v r) w j))) ir,
  ),
  black,
)
blacken c c' (node l a k r) h t z red black same (inr (e, g, hg, il, ir)) =
    absurd (ground (arith, e, red))
