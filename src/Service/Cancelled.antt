-- ===== src/Service/Cancelled.antt =====
-- `iosvc_cancel` of src/iosvc_cancel.c for a scheduled event with no deadline.
use io_engine.Base.{
  ℕ, ◌≡◌, ◌≢◌, inl, inr, sym, ◌∙◌, ap, refl, subst, Bool-cases, Option-cases, true, false, some,
  arith, ◌==◌, length-set, get_elem?-set,
}
use io_engine.Base.Int.{pos, negsuc}
use io_engine.Types.{Ptr, null, Event, Handler, Errcode, eio_ok, eio_cancelled}
use io_engine.Flags.{any}
use io_engine.Dynarray
use io_engine.Rbtree.Node.{RbNode, EventData, Slot, get_evt_data, slot_data}
use io_engine.Rbtree.Store.{Tree, left, right, child, Place, root_ref, link, load, read_place}
use io_engine.Rbtree.Shape.{Shape, leaf, node, Holds, HasAt, HasAt-unique, HasAt-Has}
use io_engine.Service.{Service, PollFd, running}
use io_engine.Service.Monad.{Cmd, on_tree, on_tree-step}
use io_engine.Service.Timers.{find_evt}
use io_engine.Service.Reserve.{has_callback}
use io_engine.Service.Dequeue.{dequeue, clear_events}
use io_engine.Service.Cancel.{cancel, cancel_found, is_running, is_idle, evt_of}
use io_engine.Service.Slots.{IsNode}
use io_engine.Service.Refusals.{IsIndexed, probe-Finds}
use io_engine.Service.Untimed.{Dequeued, dequeue-Dequeued}

-- Two trees whose nodes have the same descriptors and pointers.
record SameLinks (t u : Tree) : Type 0 where
  same_root : u.root ≡ t.root
  same_node :
      (w : Ptr) (m : RbNode)
      → t.cells w ≡ some m
      → (m' : RbNode) × (u.cells w ≡ some m')
        × (m'.parent ≡ m.parent)
        × (m'.fd ≡ m.fd)
        × (m'.left ≡ m.left)
        × (m'.right ≡ m.right)

Holds-SameLinks :
    (t u : Tree) (s : Shape) (p up : Ptr)
    → SameLinks t u
    → Holds t.cells p up s
    → Holds u.cells p up s
unfolding Holds
Holds-SameLinks t u leaf p up k h = h
Holds-SameLinks t u (node l a j r) p up k (pa, nz, n, c, np, nk, hl, hr) =
    let (m, c', e1, e2, e3, e4) = k.same_node a n c in
    (
      pa,
      nz,
      m,
      c',
      e1 ∙ np,
      e2 ∙ nk,
      subst (λ q. Holds u.cells q a l) (sym e3) (Holds-SameLinks t u l n.left a k hl),
      subst (λ q. Holds u.cells q a r) (sym e4) (Holds-SameLinks t u r n.right a k hr),
    )

read_place-SameLinks :
    (t u : Tree) (place : Place) (p : Ptr)
    → SameLinks t u
    → read_place place t ≡ some (p, t)
    → read_place place u ≡ some (p, u)
unfolding read_place load child
read_place-SameLinks t u root_ref p k e = ground (arith, k.same_root)
read_place-SameLinks t u (link q left) p k e = elim (Option-cases (t.cells q)) [
  | inl z ↦ ground arith
  | inr (m, c) ↦ ground (arith, k.same_node q m c)
]
read_place-SameLinks t u (link q right) p k e = elim (Option-cases (t.cells q)) [
  | inl z ↦ ground arith
  | inr (m, c) ↦ ground (arith, k.same_node q m c)
]

Dequeued-SameLinks :
    (s u : Service) (p : Ptr) (event : Event) (n : RbNode) (d : EventData) (e : PollFd)
    (status : Errcode)
    → s.tree.cells p ≡ some n
    → Dequeued s u p event.wait_type n d e status
    → SameLinks s.tree u.tree
Dequeued-SameLinks s u p event n d e status c k = record {
  same_root = k.same_root;
  same_node = λ w m i. elim (Bool-cases (w == p)) [
    | inl same ↦
        let wp : w ≡ p = ground arith in
        let mn : some n ≡ some m = sym c ∙ ap s.tree.cells (sym wp) ∙ i in
        (
          k.left_node,
          ap u.tree.cells wp ∙ k.at_p,
          k.same_parent ∙ ground (arith, mn),
          k.same_fd ∙ ground (arith, mn),
          k.same_left ∙ ground (arith, mn),
          k.same_right ∙ ground (arith, mn),
        )
    | inr differs ↦ (m, k.others w (λ z. ground arith) ∙ i, refl, refl, refl, refl)
  ];
}

-- The index of the nodes survives.
pub Dequeued-IsIndexed :
    (s u : Service) (shape : Shape) (p : Ptr) (event : Event) (n : RbNode) (d : EventData)
    (e : PollFd) (status : Errcode)
    → IsIndexed s shape
    → s.tree.cells p ≡ some n
    → Dequeued s u p event.wait_type n d e status
    → IsIndexed u shape
unfolding Dynarray.size Dynarray.store
Dequeued-IsIndexed s u shape p event n d e status i c k =
    let links = Dequeued-SameLinks s u p event n d e status c k in
    record {
      holds =
          Holds-SameLinks s.tree u.tree shape u.tree.root null links
            (subst (λ r. Holds s.tree.cells r null shape) (sym k.same_root) i.holds);
      ordered = i.ordered;
      counted =
          i.counted ∙ sym (ap Dynarray.size k.asks ∙ length-set s.pollfds.items n.pollfd_idx _);
    }

has_callback_at :
    (t : Tree) (p : Ptr) (event : Event) (n : RbNode) (slot : Slot) (d : EventData)
    → t.cells p ≡ some n
    → get_evt_data n event.wait_type ≡ some slot
    → slot_data n slot ≡ some d
    → d.handler.callback ≢ null
    → has_callback (evt_of (find_evt t p event.wait_type)) ≡ true
unfolding find_evt evt_of has_callback
has_callback_at t p event n slot d c g k nz = ground arith

busy-is_idle :
    (u : Service) (p : Ptr) (m : RbNode) (e : PollFd)
    → u.tree.cells p ≡ some m
    → Dynarray.at u.pollfds m.pollfd_idx ≡ some e
    → any e.events ≡ true
    → is_idle p u ≡ some (false, u)
unfolding is_idle on_tree load
busy-is_idle u p m e c a b = ground arith

cancel_steps :
    (call : Handler → Cmd (Unit {0})) (s u v : Service) (event : Event) (place : Place)
    (parent p : Ptr) (h : Handler)
    → dequeue p event.wait_type (pos 0) eio_cancelled s ≡ some (h, u)
    → call h u ≡ some (tt, v)
    → on_tree (read_place place) v ≡ some (p, v)
    → is_idle p v ≡ some (false, v)
    → cancel_found call place parent p event s ≡ some (eio_ok, v)
unfolding cancel_found
cancel_steps call s u v event place parent p h a b c d = ground (arith, a, b, c, d)

at-store :
    (s : Service) (i : ℕ) (a b : PollFd)
    → Dynarray.at s.pollfds i ≡ some a
    → Dynarray.at (Dynarray.store i b s.pollfds) i ≡ some b
unfolding Dynarray.at Dynarray.store
at-store s i a b e = get_elem?-set s.pollfds.items i a b e

IsIndexed-kept :
    (u v : Service) (shape : Shape)
    → v.tree ≡ u.tree
    → v.pollfds ≡ u.pollfds
    → IsIndexed u shape
    → IsIndexed v shape
IsIndexed-kept u v shape et ep i = record {
  holds = subst (λ t. Holds t.cells t.root null shape) (sym et) i.holds;
  ordered = i.ordered;
  counted = i.counted ∙ sym (ap Dynarray.size ep);
}

-- On a running service, `iosvc_cancel` of a scheduled event with no deadline, whose handler leaves
-- the tree and the pollfds alone, answers `EIO_OK` where the descriptor waits for another event as
-- well: it unschedules this event and no other and tells `EIO_CANCELLED`, then calls the handler,
-- and ends in the service that the handler leaves, with the tree of nodes kept.
pub cancel-Dequeued :
    (call : Handler → Cmd (Unit {0})) (s : Service) (shape : Shape) (event : Event) (p : Ptr)
    (n : RbNode) (slot : Slot) (d : EventData) (e : PollFd) (j : ℕ)
    → IsIndexed s shape
    → s.status ≡ running
    → HasAt event.fd p shape
    → IsNode n
    → s.tree.cells p ≡ some n
    → get_evt_data n event.wait_type ≡ some slot
    → slot_data n slot ≡ some d
    → d.handler.callback ≢ null
    → d.ddl_heap_idx ≡ negsuc j
    → Dynarray.at s.pollfds n.pollfd_idx ≡ some e
    → any (clear_events event.wait_type e.events) ≡ true
    → ((u : Service)
        → (v : Service) × (call d.handler u ≡ some (tt, v))
          × (v.tree ≡ u.tree)
          × (v.pollfds ≡ u.pollfds))
    → (u : Service) × (v : Service) × (cancel call event s ≡ some (eio_ok, v))
      × Dequeued s u p event.wait_type n d e eio_cancelled
      × (call d.handler u ≡ some (tt, v))
      × IsIndexed v shape
unfolding cancel is_running
cancel-Dequeued call s shape event p n slot d e j i r at v c g k nz neg a busy leaves =
    let (place, parent, probe, f) = probe-Finds s shape event.fd i in
    let (u, taken, q) =
      dequeue-Dequeued s p event.wait_type (pos 0) eio_cancelled slot d n e j v c g k neg a in
    let (u', called, et, ep) = leaves u in
    elim f.finds [
      | inl (z, absent) ↦ absurd (absent (HasAt-Has event.fd p shape at))
      | inr (at', tnz, m, c', m_fd) ↦
          let same : f.target ≡ p = HasAt-unique event.fd f.target p shape i.ordered at' at in
          let pnz : p ≢ null = λ z. tnz (same ∙ z) in
          let reads : read_place place s.tree ≡ some (p, s.tree) =
            f.reads ∙ ap (λ x. some (x, s.tree)) same in
          let e1 = on_tree-step (read_place place) {s = s} reads in
          let has = has_callback_at s.tree p event n slot d c g k nz in
          let links = Dequeued-SameLinks s u p event n d e eio_cancelled c q in
          let e2 = on_tree-step (read_place place) {s = u'} (
            read_place-SameLinks s.tree u'.tree place p (subst (SameLinks s.tree) (sym et) links)
              reads) in
          let stays =
            ap (λ x. Dynarray.at x q.left_node.pollfd_idx) ep
            ∙ ap (λ x. Dynarray.at u.pollfds x) q.same_idx
            ∙ ap (λ x. Dynarray.at x n.pollfd_idx) q.asks
            ∙ at-store s n.pollfd_idx e _ a in
          let e3 = busy-is_idle u' p q.left_node _ (ap (λ t. t.cells p) et ∙ q.at_p) stays busy in
          let e4 = cancel_steps call s u u' event place parent p d.handler taken called e2 e3 in
          (
            u,
            u',
            ground (arith, probe, e1, has, e4),
            q,
            called,
            IsIndexed-kept u u' shape et ep
                (Dequeued-IsIndexed s u shape p event n d e eio_cancelled i c q),
          )
    ]
