-- ===== src/Service/Untimed.antt =====
-- `iosvc_dequeue` of src/iosvc_dequeue.c for an event with no deadline.
use io_engine.Base.{ℕ, ◌≡◌, ◌≢◌, ◌∙◌, ap, refl, none, some, arith, ◌==◌, if◌then◌else◌}
use io_engine.Base.Int.{ℤ, negsuc}
use io_engine.Types.{Ptr, null, WaitType, Errcode}
use io_engine.Dynarray
use io_engine.Rbtree.Node.{
  RbNode, EventData, Slot, main, aux, ex, get_evt_data, slot_data, set_slot,
}
use io_engine.Rbtree.Store.{Tree, load, modify}
use io_engine.Rbtree.Steps.{load-step, modify-Writes}
use io_engine.Service.{Service, PollFd, write_at}
use io_engine.Service.Monad.{on_tree, on_tree-step}
use io_engine.Service.Timers.{EvtRef, find_evt, modify_evt}
use io_engine.Service.Dequeue.{dequeue, vacate_type, clear_events}
use io_engine.Service.Slots.{IsNode, view, same, vacate, vacate-view}

-- The event data of a handler that was taken out.
abbrev vacant : EventData → EventData → EventData
vacant d e = record e { handler = record d.handler { callback = null } }

-- The service once the event data is vacant and the status told.
abbrev marked : EvtRef → EventData → Errcode → Service → Service
marked ref d status s = record s {
  tree = modify_evt ref (vacant d) s.tree;
  statuses = if d.status == null then s.statuses else write_at s.statuses d.status status;
}

abbrev cleared : WaitType → ℕ → PollFd → Service → Service
cleared w i e s = record s {
  pollfds = Dynarray.store i (record e { events = clear_events w e.events }) s.pollfds;
}

found :
    (t : Tree) (p : Ptr) (w : WaitType) (n : RbNode) (slot : Slot) (d : EventData)
    → t.cells p ≡ some n
    → get_evt_data n w ≡ some slot
    → slot_data n slot ≡ some d
    → find_evt t p w ≡ some ((p, slot), d)
unfolding find_evt
found t p w n slot d c g k = ground arith

emptied-cells :
    (t : Tree) (p : Ptr) (n : RbNode) (slot : Slot) (d : EventData) (f : EventData → EventData)
    → t.cells p ≡ some n
    → slot_data n slot ≡ some d
    → (modify_evt (p, slot) f t).cells p ≡ some (set_slot n slot (f d))
unfolding modify_evt
emptied-cells t p n slot d f c k = ground arith

emptied-others :
    (t : Tree) (p q : Ptr) (slot : Slot) (f : EventData → EventData)
    → q ≢ p
    → (modify_evt (p, slot) f t).cells q ≡ t.cells q
unfolding modify_evt
emptied-others t p q slot f ne = ground arith

emptied-root :
    (t : Tree) (ref : EvtRef) (f : EventData → EventData) → (modify_evt ref f t).root ≡ t.root
unfolding modify_evt
emptied-root t (p, slot) f = ground arith

vacate_links :
    (slot : Slot) (d : EventData) (n : RbNode)
    → ((vacate slot d n).left ≡ n.left)
      × ((vacate slot d n).right ≡ n.right)
      × ((vacate slot d n).parent ≡ n.parent)
      × ((vacate slot d n).fd ≡ n.fd)
unfolding vacate vacate_type set_slot
vacate_links main d n = (ground arith, ground arith, ground arith, ground arith)
vacate_links aux d n = (ground arith, ground arith, ground arith, ground arith)
vacate_links ex d n = (ground arith, ground arith, ground arith, ground arith)

vacate_idx :
    (slot : Slot) (d : EventData) (n : RbNode) → (vacate slot d n).pollfd_idx ≡ n.pollfd_idx
unfolding vacate vacate_type set_slot
vacate_idx main d n = ground arith
vacate_idx aux d n = ground arith
vacate_idx ex d n = ground arith

as_vacate :
    (slot : Slot) (d : EventData) (n : RbNode)
    → some (vacate_type (set_slot n slot (vacant d d))) ≡ some (vacate slot d n)
unfolding vacate
as_vacate slot d n = refl

dequeue_steps :
    (s s2 : Service) (p : Ptr) (w : WaitType) (now : ℤ) (status : Errcode) (slot : Slot)
    (d : EventData) (n : RbNode) (e : PollFd) (j : ℕ)
    → d.ddl_heap_idx ≡ negsuc j
    → find_evt s.tree p w ≡ some ((p, slot), d)
    → on_tree (modify p vacate_type) (marked (p, slot) d status s) ≡ some (tt, s2)
    → on_tree (load p) s2 ≡ some (n, s2)
    → Dynarray.at s2.pollfds n.pollfd_idx ≡ some e
    → dequeue p w now status s ≡ some (d.handler, cleared w n.pollfd_idx e s2)
unfolding dequeue
dequeue_steps s s2 p w now status slot d n e j neg f m l a = ground (arith, neg, f, m, l, a)

-- `u` is `s` without the event of type `w` at the node `p`, whose data is `d`.
pub record Dequeued (s u : Service) (p : Ptr) (w : WaitType) (n : RbNode) (d : EventData)
    (e : PollFd) (status : Errcode) : Type 0 where
  pub left_node : RbNode
  pub at_p : u.tree.cells p ≡ some left_node
  pub still_node : IsNode left_node
  pub unscheduled : (v : WaitType) → view left_node v ≡ (if same w v then none else view n v)
  pub same_left : left_node.left ≡ n.left
  pub same_right : left_node.right ≡ n.right
  pub same_parent : left_node.parent ≡ n.parent
  pub same_fd : left_node.fd ≡ n.fd
  pub same_idx : left_node.pollfd_idx ≡ n.pollfd_idx
  pub same_root : u.tree.root ≡ s.tree.root
  pub others : (q : Ptr) → q ≢ p → u.tree.cells q ≡ s.tree.cells q
  pub asks :
      u.pollfds
      ≡ Dynarray.store n.pollfd_idx (record e { events = clear_events w e.events }) s.pollfds
  pub told :
      u.statuses ≡ (if d.status == null then s.statuses else write_at s.statuses d.status status)
  pub timers : u.timed_events ≡ s.timed_events
  pub delayed : u.timed_handlers ≡ s.timed_handlers
  pub queue : u.sync_handlers ≡ s.sync_handlers
  pub time_left : u.remaining ≡ s.remaining
  pub same_status : u.status ≡ s.status

-- `iosvc_dequeue` of a scheduled event with no deadline succeeds and gives back its handler. It
-- unschedules this event and no other, of this node or another, tells the status, makes the pollfd
-- stop asking for the event, and leaves the queue, the timed events, the delayed handlers and the
-- status of the service alone.
pub dequeue-Dequeued :
    (s : Service) (p : Ptr) (w : WaitType) (now : ℤ) (status : Errcode) (slot : Slot)
    (d : EventData) (n : RbNode) (e : PollFd) (j : ℕ)
    → IsNode n
    → s.tree.cells p ≡ some n
    → get_evt_data n w ≡ some slot
    → slot_data n slot ≡ some d
    → d.ddl_heap_idx ≡ negsuc j
    → Dynarray.at s.pollfds n.pollfd_idx ≡ some e
    → (u : Service) × (dequeue p w now status s ≡ some (d.handler, u))
      × Dequeued s u p w n d e status
dequeue-Dequeued s p w now status slot d n e j i c g k neg a =
    let ref : EvtRef = (p, slot) in
    let s1 = marked ref d status s in
    let n1 = set_slot n slot (vacant d d) in
    let (t2, m, wr) =
      modify-Writes s1.tree p vacate_type n1 (emptied-cells s.tree p n slot d (vacant d) c k) in
    let s2 : Service = record s1 { tree = t2 } in
    let idx = vacate_idx slot d n in
    let after : t2.cells p ≡ some (vacate slot d n) = wr.written ∙ as_vacate slot d n in
    let e1 = found s.tree p w n slot d c g k in
    let e2 = on_tree-step (modify p vacate_type) {s = s1} m in
    let e3 = on_tree-step (load p) {s = s2} (load-step t2 p (vacate slot d n) after) in
    let e4 : Dynarray.at s2.pollfds (vacate slot d n).pollfd_idx ≡ some e =
      ap (λ x. Dynarray.at s.pollfds x) idx ∙ a in
    (
      cleared w (vacate slot d n).pollfd_idx e s2,
      dequeue_steps s s2 p w now status slot d (vacate slot d n) e j neg e1 e2 e3 e4,
      record {
        left_node = vacate slot d n;
        at_p = after;
        still_node = (vacate-view w w n slot d i g k).1;
        unscheduled = λ v. (vacate-view w v n slot d i g k).0;
        same_left = (vacate_links slot d n).0;
        same_right = (vacate_links slot d n).1;
        same_parent = (vacate_links slot d n).2;
        same_fd = (vacate_links slot d n).3;
        same_idx = idx;
        same_root = wr.same_root ∙ emptied-root s.tree ref (vacant d);
        others = λ q ne. wr.others q ne ∙ emptied-others s.tree p q slot (vacant d) ne;
        asks =
            ap (λ x. Dynarray.store x (record e { events = clear_events w e.events }) s.pollfds)
              idx;
        told = refl;
        timers = refl;
        delayed = refl;
        queue = refl;
        time_left = refl;
        same_status = refl;
      },
    )
