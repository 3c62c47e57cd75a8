-- ===== src/Rbtree/Mend/Sibling.antt =====
-- What `fix_delete` of src/rbtree.c reads around the node that lacks a black one.
use io_engine.Base.{◌≡◌, ◌≢◌, inl, inr, sym, ◌∙◌, refl, subst, Option, some, ◌==◌}
use io_engine.Base.Int.{ℤ}
use io_engine.Types.{Ptr, null}
use io_engine.Rbtree.Node.{RbNode}
use io_engine.Rbtree.Store.{Tree, Dir, flip, to_dir, child}
use io_engine.Rbtree.Shape.{Shape, Holds, IsOrdered, Inside}
use io_engine.Rbtree.Frame.{Holds-root, IsOrdered-IsTree}
use io_engine.Rbtree.Steps.{IsSound}
use io_engine.Rbtree.Rotate.Subtree.{fork, Holds-fork, IsTree-fork, Inside-fork}
use io_engine.Rbtree.Spine.{
  Spine, plug, parent_of, root_of, unplug-Holds, up-parent_of, Holds-root_of, unplug-IsTree,
}
use io_engine.Rbtree.Spine.Turn.{side-child}

pub root-IsSound :
    (t : Tree) (s : Shape) (p up : Ptr) → Holds t.cells p up s → IsSound t (root_of s)
root-IsSound t s p up h =
    let e = Holds-root_of t.cells t.root s p up h in
    subst (λ z. IsSound t z) e
      (elim (Holds-root t.cells s p up h) [ inl z ↦ inl z | inr (z, j, m, k) ↦ inr (z, m, k) ])

-- The node `n` at `a` has the subtree `s` on the side `d`, and on the other the node `m` at `b`
-- with the subtrees `rn`, on the side `d`, and `rf`.
pub record Sibling (t : Tree) (π : Spine) (d : Dir) (s : Shape) (a : Ptr) (rn : Shape) (b : Ptr)
    (rf : Shape) (n m : RbNode) : Type 0 where
  pub nonnull : a ≢ null
  pub at_a : t.cells a ≡ some n
  pub side : to_dir (n.right == root_of s) ≡ d
  pub other : child n (flip d) ≡ b
  pub its_parent : n.parent ≡ parent_of π
  pub b_nonnull : b ≢ null
  pub at_b : t.cells b ≡ some m
  pub a_b : a ≢ b
  pub near : child m d ≡ root_of rn
  pub far : child m (flip d) ≡ root_of rf
  pub self_sound : IsSound t (root_of s)
  pub near_sound : IsSound t (root_of rn)
  pub far_sound : IsSound t (root_of rf)

root-differs :
    (cells : Ptr → Option RbNode) (s r : Shape) (p up b : Ptr)
    → Holds cells p up s
    → b ≢ null
    → Inside b r
    → ((q : Ptr) → Inside q s → Inside q r → ⊥)
    → b ≢ p
root-differs cells s r p up b h nz i out e = elim (Holds-root cells s p up h) [
  | inl z ↦ nz (e ∙ z)
  | inr (z, j, n, c) ↦ out p j (subst (λ w. Inside w r) e i)
]

pub plug-Sibling :
    (t : Tree) (π : Spine) (d : Dir) (s : Shape) (a : Ptr) (k : ℤ) (rn : Shape) (b : Ptr) (kb : ℤ)
    (rf : Shape)
    → Holds t.cells t.root null (plug π (fork d s a k (fork d rn b kb rf)))
    → IsOrdered (plug π (fork d s a k (fork d rn b kb rf)))
    → (n : RbNode) × (m : RbNode) × Sibling t π d s a rn b rf n m
plug-Sibling t π d s a k rn b kb rf h o =
    let r = fork d rn b kb rf in
    let (p, up, hπ, hs) = unplug-Holds t.cells t.root π (fork d s a k r) h in
    let (tf, apart, tπ) =
      unplug-IsTree π (fork d s a k r)
        (IsOrdered-IsTree t.cells (plug π (fork d s a k r)) t.root null h o) in
    let (a_s, ar, sr, ts, tr) = IsTree-fork d s a k r tf in
    let (pa, nz, n, c, np, nk, h1, h2) = Holds-fork t.cells d p up s a k r hs in
    let (qb, bz, m, cm, mp, mk, hn, hf) = Holds-fork t.cells d (child n (flip d)) a rn b kb rf h2 in
    let in_r = Inside-fork d b rn b kb rf (inr (inl refl)) in
    let e1 = Holds-root_of t.cells t.root s (child n d) a h1 in
    (
      n,
      m,
      record {
        nonnull = nz;
        at_a = c;
        side =
            side-child d n (root_of s) e1
              (λ z. root-differs t.cells s r (child n d) a b h1 bz in_r sr (sym qb ∙ z ∙ sym e1));
        other = qb;
        its_parent = np ∙ up-parent_of t.cells t.root π p up hπ;
        b_nonnull = bz;
        at_b = cm;
        a_b = λ z. ar (subst (λ w. Inside w r) (sym z) in_r);
        near = Holds-root_of t.cells t.root rn (child m d) b hn;
        far = Holds-root_of t.cells t.root rf (child m (flip d)) b hf;
        self_sound = root-IsSound t s (child n d) a h1;
        near_sound = root-IsSound t rn (child m d) b hn;
        far_sound = root-IsSound t rf (child m (flip d)) b hf;
      },
    )
