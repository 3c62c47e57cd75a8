-- ===== src/Rbtree/Unlink/Single.antt =====
-- `rb_extract` of src/rbtree.c for a node with one child at most.
use io_engine.Base.{
  ℕ, suc, ◌≡◌, ◌≢◌, ◌<◌, ◌⊎◌, inl, inr, sym, ◌∙◌, ap, refl, subst, Bool, true, false, some, arith,
  ◌==◌, not, if◌then◌else◌, ◌++◌,
}
use io_engine.Types.{Ptr, null}
use io_engine.Rbtree.Node.{RbNode}
use io_engine.Rbtree.Store.{Tree, child, when, set_parent, write_place, read_place, is_red, load}
use io_engine.Rbtree.Extract.{rb_extract, unlink, fix_delete}
use io_engine.Rbtree.Shape.{Shape, leaf, node, Holds, IsOrdered, Inside}
use io_engine.Rbtree.Frame.{IsOrdered-IsTree}
use io_engine.Rbtree.Steps.{load-step}
use io_engine.Rbtree.Rotate.Subtree.{fork, Holds-fork}
use io_engine.Rbtree.Spine.{
  Spine, top, under, plug, parent_of, place_of, root_of, length, unplug-Holds, unplug-IsTree,
  Holds-root_of,
}
use io_engine.Rbtree.Spine.Order.{unplug-IsOrdered, narrow-IsOrdered}
use io_engine.Rbtree.Nodes.{nodes, before, after, nodes-plug_around}
use io_engine.Rbtree.Balance.{red_at, IsRb, RbSpine, IsBlack-cong, IsRb-cong, RbSpine-cong}
use io_engine.Rbtree.Paint.{is_red-red_at}
use io_engine.Rbtree.Plant.Settle.{RbTree}
use io_engine.Rbtree.Mend.Colours.{plug-Mended}
use io_engine.Rbtree.Mend.Loop.{fix_delete-Mended}
use io_engine.Rbtree.Unlink.{Replaced, replace, parent_outside}
use io_engine.Rbtree.Unlink.Rest.{
  rest, IsSingle, AtNode, Has-rest, rest-IsOrdered, rest-IsTree, rest-IsRb, read_single,
}

unlink_steps :
    (fuel : ℕ) (x parent : Ptr) (place : _) (c : RbNode) (son : Ptr) (b : Bool) (t t1 t2 t3 : Tree)
    → load x t ≡ some (c, t)
    → (if c.left == null then c.right else c.left) ≡ son
    → write_place place son t ≡ some (tt, t1)
    → when (not (son == null)) (set_parent son parent) t1 ≡ some (tt, t2)
    → is_red x t2 ≡ some (b, t2)
    → when (not b) (fix_delete fuel son parent) t2 ≡ some (tt, t3)
    → unlink fuel x place parent t ≡ some (x, t3)
unfolding unlink
unlink_steps fuel x parent place c son b t t1 t2 t3 e1 e2 e3 e4 e5 e6 =
    ground (arith, e1, e2, e3, e4, e5, e6)

root-distinct : (s : Shape) (x : Ptr) → x ≢ null → ((q : Ptr) → Inside q s → q ≢ x) → x ≢ root_of s
unfolding root_of Inside
root-distinct leaf x nz out e = nz e
root-distinct (node l a k r) x nz out e = out a (inr (inl refl)) (sym e)

IsSingle-Inside : (s : Shape) → IsSingle s → Inside (root_of s) s
unfolding IsSingle Inside root_of
IsSingle-Inside leaf one = absurd one
IsSingle-Inside (node l a k r) one = inr (inl refl)

-- The pointer to a subtree is read at its place.
read-place_of :
    (t : Tree) (π : Spine) (s : Shape)
    → Holds t.cells t.root null (plug π s)
    → read_place (place_of π) t ≡ some (root_of s, t)
unfolding read_place place_of plug
read-place_of t top s h = ap (λ z. some (z, t)) (Holds-root_of t.cells t.root s t.root null h)
read-place_of t (under d a k r π) s h =
    let (p, up, hπ, hs) = unplug-Holds t.cells t.root π (fork d s a k r) h in
    let (pa, nz, n, c, np, nk, h1, h2) = Holds-fork t.cells d p up s a k r hs in
    let e = Holds-root_of t.cells t.root s (child n d) a h1 in ground (arith, load-step t a n c, e)

module _ (fuel : ℕ) (t : Tree) (π : Spine) (s : Shape) (h : ℕ)
    (enough : suc (suc (length π)) < fuel) (hold : Holds t.cells t.root null (plug π s))
    (ord : IsOrdered (plug π s)) (one : IsSingle s) (rules : IsRb (red_at t.cells) s h)
    (spine : RbSpine (red_at t.cells) π h) where
  -- The child takes the place of the node, which stays as it was.
  record Lifted (t1 t2 : Tree) (n : RbNode) : Type 0 where
    node_at : AtNode t π s (root_of s) n
    written : write_place (place_of π) (root_of (rest s)) t ≡ some (tt, t1)
    adopted :
        when (not (root_of (rest s) == null)) (set_parent (root_of (rest s)) (parent_of π)) t1
        ≡ some (tt, t2)
    replaced : Replaced π (rest s) t t2
    still : t2.cells (root_of s) ≡ some n
    order : IsOrdered (plug π (rest s))

  lift : (t1 : Tree) × (t2 : Tree) × (n : RbNode) × Lifted t1 t2 n
  lift =
      let (p, up, hπ, hs) = unplug-Holds t.cells t.root π s hold in
      let (ts, apart, tπ) =
        unplug-IsTree π s (IsOrdered-IsTree t.cells (plug π s) t.root null hold ord) in
      let (n, at) = read_single t π s p up hs one in
      let (tr, sub) = rest-IsTree s ts in
      let qs = Holds-root_of t.cells t.root (rest s) at.below.0 (root_of s) at.below.1 in
      let (t1, t2, e1, e2, r) =
        replace t π p (root_of (rest s)) up (root_of s) (rest s) hπ tπ
          (subst (λ q. Holds t.cells q (root_of s) (rest s)) qs at.below.1) tr
          (λ w i. apart w (sub w i).0) in
      (
        t1,
        t2,
        n,
        record {
          node_at = at;
          written = e1;
          adopted = e2;
          replaced = r;
          still =
              r.others (root_of s)
                (parent_outside t.cells π s p up (root_of s) hs apart (IsSingle-Inside s one))
                (root-distinct (rest s) (root_of s) at.nonnull (λ q i. (sub q i).1))
              ∙ at.at_x;
          order =
              narrow-IsOrdered π s (rest s) (Has-rest s)
                (rest-IsOrdered s (unplug-IsOrdered π s ord)) ord;
        },
      )

  -- The tree without the node.
  abbrev pub Without : Tree → Type 0
  Without u = (s' : Shape) × RbTree u s' × (nodes s' ≡ before π ++ (nodes (rest s) ++ after π))

  rebalance :
      (t1 t2 : Tree) (n : RbNode)
      → Lifted t1 t2 n
      → (u : Tree) × (b : Bool) × (is_red (root_of s) t2 ≡ some (b, t2))
        × (when (not b) (fix_delete fuel (root_of (rest s)) (parent_of π)) t2 ≡ some (tt, u))
        × Without u
  rebalance t1 t2 n lifted =
      let r = lifted.replaced in
      let c = red_at t.cells in
      let c' = red_at t2.cells in
      let answer = is_red-red_at t2 (root_of s) (inr (lifted.node_at.nonnull, n, lifted.still)) in
      let sp = λ (g : ℕ) (w : RbSpine c π g). RbSpine-cong c c' π g (λ q i. r.colours q) w in
      elim (rest-IsRb c s h rules one) [
        | inl (red, i, black) ↦
            let (s', rb, same) =
              plug-Mended t2 π (rest s) (plug π (rest s)) h r.holds lifted.order refl (sp h spine)
                (IsRb-cong c c' (rest s) h (λ q j. r.colours q) i)
                (inl (IsBlack-cong c c' (rest s) (λ q j. r.colours q) black)) in
            (
              t2,
              true,
              answer ∙ ap (λ z. some (z, t2)) (r.colours (root_of s) ∙ red),
              ground arith,
              (s', rb, same ∙ nodes-plug_around π (rest s)),
            )
        | inr (black, g, hg, i) ↦
            let (u, e, m) =
              fix_delete-Mended fuel t2 π (rest s) g enough r.holds lifted.order
                (IsRb-cong c c' (rest s) g (λ q j. r.colours q) i)
                (sp (suc g) (subst (λ z. RbSpine c π z) hg spine)) in
            (
              u,
              false,
              answer ∙ ap (λ z. some (z, t2)) (r.colours (root_of s) ∙ black),
              ground (arith, e),
              (m.0, m.1, m.2 ∙ nodes-plug_around π (rest s)),
            )
      ]

  pub unlink-Without :
      (u : Tree) × (unlink fuel (root_of s) (place_of π) (parent_of π) t ≡ some (root_of s, u))
      × Without u
  unlink-Without =
      let (t1, t2, n, lifted) = lift in
      let (u, b, e5, e6, w) = rebalance t1 t2 n lifted in
      (
        u,
        unlink_steps fuel (root_of s) (parent_of π) (place_of π) n (root_of (rest s)) b t t1 t2 u
            (load-step t (root_of s) n lifted.node_at.at_x) lifted.node_at.son lifted.written
            lifted.adopted e5 e6,
        w,
      )

  extract_steps :
      (n : RbNode) (u : Tree)
      → read_place (place_of π) t ≡ some (root_of s, t)
      → load (root_of s) t ≡ some (n, t)
      → ((n.left == null) ≡ true) ⊎ ((n.right == null) ≡ true)
      → unlink fuel (root_of s) (place_of π) (parent_of π) t ≡ some (root_of s, u)
      → rb_extract fuel (place_of π) (parent_of π) t ≡ some (root_of s, u)
  unfolding rb_extract
  extract_steps n u e1 e2 (inl e3) e4 = ground (arith, e1, e2, e3, e4)
  extract_steps n u e1 e2 (inr e3) e4 = ground (arith, e1, e2, e3, e4)

  -- `rb_extract` of a node with one child at most, with fuel for two rounds more than its depth,
  -- answers the node; the pointers make up an ordered tree that keeps the red-black rules, with a
  -- black root, and that has the other nodes in order.
  pub rb_extract-Without :
      (u : Tree) × (rb_extract fuel (place_of π) (parent_of π) t ≡ some (root_of s, u)) × Without u
  rb_extract-Without =
      let (t1, t2, n, lifted) = lift in
      let (u, e, w) = unlink-Without in
      (
        u,
        extract_steps n u (read-place_of t π s hold) (load-step t (root_of s) n lifted.node_at.at_x)
            lifted.node_at.one e,
        w,
      )
