-- ===== src/Service/Stop/Pending/Nodes.antt =====
-- `stop_async_ops` of src/io_service.c over the tree of nodes.
use io_engine.Base.{
  ℕ, zero, suc, ◌<◌, ◌≡◌, ◌≢◌, inl, inr, refl, sym, ◌∙◌, ap, ap₂, subst, List, [], ◌++◌, Option,
  none, some, arith,
}
use io_engine.Base.Int.{ℤ}
use io_engine.Types.{Ptr, Handler, null}
use io_engine.Rbtree.Node.{RbNode, EventData}
use io_engine.Rbtree.Store.{Tree, load, modify, free}
use io_engine.Rbtree.Shape.{Shape, leaf, node, Holds, Inside, IsTree, height}
use io_engine.Rbtree.Frame.{Holds-others}
use io_engine.Rbtree.Search.{height-below}
use io_engine.Rbtree.Steps.{load-step}
use io_engine.Service.{Service}
use io_engine.Service.Monad.{Cmd, on_tree, on_tree-step}
use io_engine.Service.Destroy.Frees.{Freed, free-At, strip-At, Freed-node}
use io_engine.Service.Stop.{stop_async_ops, stop_scheduled}
use io_engine.Service.Stop.Pending.{
  scheduled, HasEntry, HasEntry-append, Winds, wound, called, frees, Winds-append,
  stop_scheduled-Winds,
}

-- The scheduled events of a node.
unfoldable pub node_events : Option RbNode → List EventData
node_events none = []
node_events (some n) =
    scheduled (some n.main_event) ++ (scheduled n.aux_event ++ scheduled n.ex_event)

-- The scheduled events of a tree, a node's before those of the trees below it.
unfoldable pub pending : (Ptr → Option RbNode) → Shape → List EventData
pending cells leaf = []
pending cells (node l a k r) = node_events (cells a) ++ (pending cells l ++ pending cells r)

pending-cong :
    (cells after : Ptr → Option RbNode) (s : Shape)
    → ((q : Ptr) → Inside q s → after q ≡ cells q)
    → pending after s ≡ pending cells s
unfolding pending Inside
pending-cong cells after leaf same = refl
pending-cong cells after (node l a k r) same =
    ap₂ (λ x y. x ++ y) (ap node_events (same a (inr (inl refl))))
      (ap₂ (λ x y. x ++ y) (pending-cong cells after l (λ q i. same q (inl i)))
        (pending-cong cells after r (λ q i. same q (inr (inr i)))))

module _ (call : Handler → Cmd (Unit {0})) (now : ℤ) where
  Winds-frees :
      (ds : List EventData) (s t : Service) (tree : Tree)
      → Winds call now ds s t
      → Winds call now ds s (record t { tree = tree })
  Winds-frees _ s _ tree wound = frees tree wound
  Winds-frees _ s t tree (called {d} {ds} s0 s1 told c w) =
      called s0 s1 told c (Winds-frees ds s1 t tree w)
  Winds-frees ds s t tree (frees tree1 w) =
      frees tree1 (Winds-frees ds (record s { tree = tree1 }) t tree w)

  Winds-node :
      (ds dl dr : List EventData) (s s3 s5 s6 : Service) (t4 t7 : Tree)
      → Winds call now ds s s3
      → Winds call now dl (record s3 { tree = t4 }) s5
      → Winds call now dr s5 s6
      → Winds call now (ds ++ (dl ++ dr)) s (record s6 { tree = t7 })
  Winds-node ds dl dr s s3 s5 s6 t4 t7 w v u =
      Winds-append call now ds (dl ++ dr) s s3 (record s6 { tree = t7 }) w
        (frees t4 (
          Winds-append call now dl dr (record s3 { tree = t4 }) s5 (record s6 { tree = t7 }) v
            (Winds-frees dr s5 s6 t7 u)))

  stop_null : (fuel : ℕ) (s : Service) → stop_async_ops call (suc fuel) null now s ≡ some (tt, s)
  unfolding stop_async_ops
  stop_null fuel s = ground arith

  stop_steps :
      (fuel : ℕ) (p : Ptr) (s s1 s2 s3 s4 s5 s6 s7 : Service) (n n1 n2 n3 n4 : RbNode)
      → p ≢ null
      → on_tree (load p) s ≡ some (n, s)
      → stop_scheduled call (some n.main_event) now s ≡ some (tt, s1)
      → on_tree (load p) s1 ≡ some (n1, s1)
      → stop_scheduled call n1.aux_event now s1 ≡ some (tt, s2)
      → on_tree (load p) s2 ≡ some (n2, s2)
      → stop_scheduled call n2.ex_event now s2 ≡ some (tt, s3)
      → on_tree (modify p (λ m. record m { aux_event = none; ex_event = none })) s3 ≡ some (tt, s4)
      → on_tree (load p) s4 ≡ some (n3, s4)
      → stop_async_ops call fuel n3.left now s4 ≡ some (tt, s5)
      → on_tree (load p) s5 ≡ some (n4, s5)
      → stop_async_ops call fuel n4.right now s5 ≡ some (tt, s6)
      → on_tree (free p) s6 ≡ some (tt, s7)
      → stop_async_ops call (suc fuel) p now s ≡ some (tt, s7)
  unfolding stop_async_ops
  stop_steps fuel p s s1 s2 s3 s4 s5 s6 s7 n n1 n2 n3 n4 nz e1 e2 e3 e4 e5 e6 e7 e8 e9 e10 e11 e12 =
      ground (arith, nz, e1, e2, e3, e4, e5, e6, e7, e8, e9, e10, e11, e12)

  on_load :
      (s : Service) (p : Ptr) (n : RbNode)
      → s.tree.cells p ≡ some n
      → on_tree (load p) s ≡ some (n, s)
  on_load s p n c = on_tree-step (load p) (load-step s.tree p n c)

  module _
      (quiet : (h : Handler) (s : Service)
        → (s1 : Service) × (call h s ≡ some (tt, s1))
          × (s1.tree ≡ s.tree)
          × (s1.timed_events ≡ s.timed_events)) where
    -- The events of one node.
    node_Winds :
        (s : Service) (p : Ptr) (n : RbNode)
        → s.tree.cells p ≡ some n
        → HasEntry s.timed_events (node_events (some n))
        → (s1 : Service) × (s2 : Service) × (s3 : Service) × (stop_scheduled call
              (some n.main_event)
              now
              s
            ≡ some (tt, s1))
          × (on_tree (load p) s1 ≡ some (n, s1))
          × (stop_scheduled call n.aux_event now s1 ≡ some (tt, s2))
          × (on_tree (load p) s2 ≡ some (n, s2))
          × (stop_scheduled call n.ex_event now s2 ≡ some (tt, s3))
          × Winds call now (node_events (some n)) s s3
          × (s3.tree ≡ s.tree)
          × (s3.timed_events ≡ s.timed_events)
    unfolding node_events
    node_Winds s p n c h =
        let (h1, h23) =
          HasEntry-append s.timed_events (scheduled (some n.main_event))
            (scheduled n.aux_event ++ scheduled n.ex_event) h in
        let (h2, h3) =
          HasEntry-append s.timed_events (scheduled n.aux_event) (scheduled n.ex_event) h23 in
        let (s1, e1, w1, k1, t1) = stop_scheduled-Winds call now quiet (some n.main_event) s h1 in
        let (s2, e2, w2, k2, t2) =
          stop_scheduled-Winds call now quiet n.aux_event s1
            (subst (λ z. HasEntry z (scheduled n.aux_event)) (sym t1) h2) in
        let (s3, e3, w3, k3, t3) =
          stop_scheduled-Winds call now quiet n.ex_event s2
            (subst (λ z. HasEntry z (scheduled n.ex_event)) (sym (t2 ∙ t1)) h3) in
        (
          s1,
          s2,
          s3,
          e1,
          on_load s1 p n (ap (λ z. z.cells p) k1 ∙ c),
          e2,
          on_load s2 p n (ap (λ z. z.cells p) (k2 ∙ k1) ∙ c),
          e3,
          Winds-append call now (scheduled (some n.main_event))
              (scheduled n.aux_event ++ scheduled n.ex_event) s s1 s3 w1
              (Winds-append call now (scheduled n.aux_event) (scheduled n.ex_event) s1 s2 s3 w2 w3),
          k3 ∙ k2 ∙ k1,
          t3 ∙ t2 ∙ t1,
        )

    -- Where callbacks return and leave the tree and the deadlines alone, and each event with a
    -- deadline has its entry in the heap, `stop_async_ops` with fuel above the height ends: it calls
    -- the handler of each scheduled event once, with its variables set, a node's before those of
    -- the trees below it, and frees each node of the tree, none twice, and nothing else.
    pub stop_async_ops-Winds :
        (sh : Shape) (fuel : ℕ) (s : Service) (p up : Ptr)
        → Holds s.tree.cells p up sh
        → IsTree sh
        → height sh < fuel
        → HasEntry s.timed_events (pending s.tree.cells sh)
        → (t : Service) × (stop_async_ops call fuel p now s ≡ some (tt, t))
          × Winds call now (pending s.tree.cells sh) s t
          × Freed sh s.tree t.tree
          × (t.timed_events ≡ s.timed_events)
    unfolding Holds IsTree Inside pending
    stop_async_ops-Winds sh zero s p up h w b i = absurd (omega arith)
    stop_async_ops-Winds leaf (suc fuel) s p up h w b i = (
      s,
      ap (λ q. stop_async_ops call (suc fuel) q now s) h ∙ stop_null fuel s,
      wound,
      record { gone = λ q j. absurd j; others = λ q out. refl; same_root = refl },
      refl,
    )
    stop_async_ops-Winds (node l a k r) (suc fuel) s p up (pa, nz, n, c, np, nk, hl, hr)
          (al, ar, lr, tl, tr) b i =
        let cells = s.tree.cells in
        let (in_node, in_below) =
          HasEntry-append s.timed_events (node_events (cells a))
            (pending cells l ++ pending cells r) i in
        let (in_l, in_r) =
          HasEntry-append s.timed_events (pending cells l) (pending cells r) in_below in
        let (s1, s2, s3, e1, l1, e2, l2, e3, w3, k3, t3) =
          node_Winds s a n c (subst (λ z. HasEntry s.timed_events (node_events z)) c in_node) in
        let (t4, e4, at4) = strip-At s3.tree a n (ap (λ z. z.cells a) k3 ∙ c) in
        let s4 = record s3 { tree = t4 } in
        let keep4 : (q : Ptr) → q ≢ a → t4.cells q ≡ cells q =
          λ q ne. at4.others q ne ∙ ap (λ z. z.cells q) k3 in
        let in4l = λ (q : Ptr) (j : Inside q l). keep4 q (λ z. al (subst (λ v. Inside v l) z j)) in
        let in4r = λ (q : Ptr) (j : Inside q r). keep4 q (λ z. ar (subst (λ v. Inside v r) z j)) in
        let pl = pending-cong cells t4.cells l in4l in
        let (bl, br) = height-below l r a k fuel b in
        let (s5, e5, w5, f5, t5) =
          stop_async_ops-Winds l fuel s4 n.left a (Holds-others cells t4.cells l n.left a hl in4l)
            tl bl
            (subst (λ z. HasEntry s3.timed_events z) (sym pl)
              (subst (λ z. HasEntry z (pending cells l)) (sym t3) in_l)) in
        let at5 = f5.others a al ∙ at4.at_p in
        let in5r = λ (q : Ptr) (j : Inside q r). f5.others q (λ j'. lr q j' j) ∙ in4r q j in
        let pr = pending-cong cells s5.tree.cells r in5r in
        let (s6, e6, w6, f6, t6) =
          stop_async_ops-Winds r fuel s5 n.right a
            (Holds-others cells s5.tree.cells r n.right a hr in5r) tr br
            (subst (λ z. HasEntry s5.timed_events z) (sym pr)
              (subst (λ z. HasEntry z (pending cells r)) (sym (t5 ∙ t3)) in_r)) in
        let (t7, e7, at7) = free-At s6.tree a _ (f6.others a ar ∙ at5) in
        (
          record s6 { tree = t7 },
          ap (λ q. stop_async_ops call (suc fuel) q now s) pa
              ∙ stop_steps fuel a s s1 s2 s3 s4 s5 s6 (record s6 { tree = t7 }) n n n _ _ nz
                  (on_load s a n c) e1 l1 e2 l2 e3
                  (on_tree-step (modify a (λ m. record m { aux_event = none; ex_event = none })) e4)
                  (on_load s4 a _ at4.at_p) e5 (on_load s5 a _ at5) e6 (on_tree-step (free a) e7),
          Winds-node (node_events (cells a)) (pending cells l) (pending cells r) s s3 s5 s6 t4 t7
              (subst (λ z. Winds call now (node_events z) s s3) (sym c) w3)
              (subst (λ z. Winds call now z s4 s5) pl w5)
              (subst (λ z. Winds call now z s5 s6) pr w6),
          Freed-node s.tree t4 s5.tree s6.tree t7 l r a k _ (al, ar, lr, tl, tr)
              (record {
                at_p = at4.at_p;
                others = keep4;
                same_root = at4.same_root ∙ ap (λ z. z.root) k3;
              })
              f5 f6 at7,
          t6 ∙ t5 ∙ t3,
        )
