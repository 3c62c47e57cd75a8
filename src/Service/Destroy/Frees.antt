-- ===== src/Service/Destroy/Frees.antt =====
-- What `iosvc_delete` of src/iosvc_cdtor.c frees.
use io_engine.Base.{
  ℕ, zero, suc, ◌≡◌, ◌≢◌, ◌<◌, ◌≤◌, inl, inr, ◌∙◌, ap, refl, subst, none, some, Option, arith, ◌==◌,
  if◌then◌else◌,
}
use io_engine.Base.Int.{ℤ}
use io_engine.Types.{Ptr, null}
use io_engine.Dynarray
use io_engine.Rbtree.Node.{RbNode}
use io_engine.Rbtree.Store.{Tree, load, modify, free}
use io_engine.Rbtree.Shape.{Shape, leaf, node, Holds, Inside, IsTree, height, count, height_bound}
use io_engine.Rbtree.Frame.{Holds-others}
use io_engine.Rbtree.Search.{height-below}
use io_engine.Service.{Service}
use io_engine.Service.Monad.{tree_fuel, on_tree-step}
use io_engine.Service.Destroy.{del_rb_node, delete}
use io_engine.Rbtree.Steps.{load-step}

-- `u` is `t` without the nodes of `s`.
pub record Freed (s : Shape) (t u : Tree) : Type 0 where
  pub gone : (q : Ptr) → Inside q s → u.cells q ≡ none
  pub others : (q : Ptr) → (Inside q s → ⊥) → u.cells q ≡ t.cells q
  pub same_root : u.root ≡ t.root

-- `u` is `t` with the node at `p` as `n`, or freed.
pub record At (p : Ptr) (n : Option RbNode) (t u : Tree) : Type 0 where
  pub at_p : u.cells p ≡ n
  pub others : (q : Ptr) → q ≢ p → u.cells q ≡ t.cells q
  pub same_root : u.root ≡ t.root

pub free-At :
    (t : Tree) (p : Ptr) (n : RbNode)
    → t.cells p ≡ some n
    → (u : Tree) × (free p t ≡ some (tt, u)) × At p none t u
unfolding free
free-At t p n c = (
  record t { cells = λ q. if p == q then none else t.cells q },
  ground arith,
  record { at_p = ground arith; others = λ q ne. ground arith; same_root = refl },
)

pub strip-At :
    (t : Tree) (p : Ptr) (n : RbNode)
    → t.cells p ≡ some n
    → (u : Tree) × (modify p (λ m. record m { aux_event = none; ex_event = none }) t ≡ some (tt, u))
      × At p (some (record n { aux_event = none; ex_event = none })) t u
unfolding modify
strip-At t p n c = (
  record t {
    cells =
        λ q. if p == q then some (record n { aux_event = none; ex_event = none }) else t.cells q;
  },
  ground arith,
  record { at_p = ground arith; others = λ q ne. ground arith; same_root = refl },
)

pub del_null : (fuel : ℕ) (t : Tree) → del_rb_node (suc fuel) null t ≡ some (tt, t)
unfolding del_rb_node
del_null fuel t = ground arith

del_steps :
    (fuel : ℕ) (p : Ptr) (t t1 t2 t3 t4 : Tree) (n m : RbNode)
    → p ≢ null
    → modify p (λ m. record m { aux_event = none; ex_event = none }) t ≡ some (tt, t1)
    → load p t1 ≡ some (n, t1)
    → del_rb_node fuel n.left t1 ≡ some (tt, t2)
    → load p t2 ≡ some (m, t2)
    → del_rb_node fuel m.right t2 ≡ some (tt, t3)
    → free p t3 ≡ some (tt, t4)
    → del_rb_node (suc fuel) p t ≡ some (tt, t4)
unfolding del_rb_node
del_steps fuel p t t1 t2 t3 t4 n m nz e1 e2 e3 e4 e5 e6 = ground (arith, nz, e1, e2, e3, e4, e5, e6)

-- The frees of a subtree's parts, put together.
pub Freed-node :
    (t t1 t2 t3 t4 : Tree) (l r : Shape) (a : Ptr) (k : ℤ) (m : RbNode)
    → IsTree (node l a k r)
    → At a (some m) t t1
    → Freed l t1 t2
    → Freed r t2 t3
    → At a none t3 t4
    → Freed (node l a k r) t t4
unfolding Inside IsTree
Freed-node t t1 t2 t3 t4 l r a k m (al, ar, lr, tl, tr) w1 w2 w3 w4 = record {
  gone = λ q i. elim i [
    | inl j ↦
        w4.others q (λ z. al (subst (λ v. Inside v l) z j))
        ∙ w3.others q (λ j'. lr q j j')
        ∙ w2.gone q j
    | inr (inl z) ↦ ap t4.cells z ∙ w4.at_p
    | inr (inr j) ↦ w4.others q (λ z. ar (subst (λ v. Inside v r) z j)) ∙ w3.gone q j
  ];
  others = λ q out.
      w4.others q (λ z. out (inr (inl z)))
      ∙ w3.others q (λ j. out (inr (inr j)))
      ∙ w2.others q (λ j. out (inl j))
      ∙ w1.others q (λ z. out (inr (inl z)));
  same_root = w4.same_root ∙ w3.same_root ∙ w2.same_root ∙ w1.same_root;
}

-- `del_rb_node`, with fuel above the height, frees each node of the tree, none twice, and nothing
-- else.
pub del_rb_node-Freed :
    (s : Shape) (fuel : ℕ) (t : Tree) (p up : Ptr)
    → Holds t.cells p up s
    → IsTree s
    → height s < fuel
    → (u : Tree) × (del_rb_node fuel p t ≡ some (tt, u)) × Freed s t u
unfolding Holds IsTree Inside
del_rb_node-Freed s zero t p up h w b = absurd (omega arith)
del_rb_node-Freed leaf (suc fuel) t p up h w b = (
  t,
  ap (λ q. del_rb_node (suc fuel) q t) h ∙ del_null fuel t,
  record { gone = λ q i. absurd i; others = λ q out. refl; same_root = refl },
)
del_rb_node-Freed (node l a k r) (suc fuel) t p up (pa, nz, n, c, np, nk, hl, hr)
      (al, ar, lr, tl, tr) b =
    let (t1, e1, w1) = strip-At t a n c in
    let (bl, br) = height-below l r a k fuel b in
    let (t2, e2, w2) =
      del_rb_node-Freed l fuel t1 n.left a
        (Holds-others t.cells t1.cells l n.left a hl
          λ q i. w1.others q (λ z. al (subst (λ v. Inside v l) z i)))
        tl bl in
    let at2 = w2.others a al ∙ w1.at_p in
    let (t3, e3, w3) =
      del_rb_node-Freed r fuel t2 n.right a
        (Holds-others t.cells t2.cells r n.right a hr
          λ q i. w2.others q (λ j. lr q j i) ∙ w1.others q (λ z. ar (subst (λ v. Inside v r) z i)))
        tr br in
    let (t4, e4, w4) = free-At t3 a _ (w3.others a ar ∙ at2) in
    (
      t4,
      ap (λ q. del_rb_node (suc fuel) q t) pa
          ∙ del_steps fuel a t t1 t2 t3 t4 _ _ nz e1 (load-step t1 a _ w1.at_p) e2
              (load-step t2 a _ at2) e3 e4,
      Freed-node t t1 t2 t3 t4 l r a k _ (al, ar, lr, tl, tr) w1 w2 w3 w4,
    )

-- `iosvc_delete` of a service whose tree has at most one node for each pollfd ends without a fault:
-- it frees each node of the tree, none twice, and nothing else.
pub delete-Freed :
    (sv : Service) (s : Shape)
    → Holds sv.tree.cells sv.tree.root null s
    → IsTree s
    → count s ≤ Dynarray.size sv.pollfds
    → (u : Tree) × (delete sv ≡ some (tt, record sv { tree = u })) × Freed s sv.tree u
unfolding delete tree_fuel
delete-Freed sv s h w b =
    let low = height_bound s in
    let (u, e, f) =
      del_rb_node-Freed s (tree_fuel sv) sv.tree sv.tree.root null h w (omega arith) in
    (u, on_tree-step (del_rb_node (tree_fuel sv) sv.tree.root) e, f)
