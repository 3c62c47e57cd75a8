-- ===== src/Service/Dequeue.antt =====
-- src/iosvc_dequeue.c: taking an event's handler out of the service, and removing a node that has
-- no event left.
use io_engine.Base.{ℕ, ◌-◌, true, false, not, ◌&&◌, some, ltb, ◌==◌, if◌then◌else◌}
use io_engine.Base.Int.{ℤ, pos, negsuc, pos_part, ◌-ℤ◌, ltb_ℤ}
use io_engine.Types.{Ptr, null, WaitType, wait_read, wait_write, wait_exception, Handler, Errcode}
use io_engine.Flags.{
  Flags, pollin, pollpri, pollout, pollerr, pollhup, pollrdnorm, pollrdband, pollwrnorm, pollwrband,
  union, minus, meet, any,
}
use io_engine.Dynarray
use io_engine.Heap.{sift_up, sift_down}
use io_engine.Rbtree.Node.{RbNode, EventData, empty}
use io_engine.Rbtree.Store.{Place, root_ref, load, modify, free, read_place}
use io_engine.Rbtree.Insert.{rb_probe}
use io_engine.Rbtree.Extract.{rb_extract}
use io_engine.Service.{write_at}
use io_engine.Service.Monad.{Cmd, pure, ◌>>=◌, ◌>>◌, get, put, or_fault, when, on_tree, tree_fuel}
use io_engine.Service.Timers.{async_heap, async_hp_ent_swp, find_evt, modify_evt}
use io_engine.Service.Reserve.{has_callback}

-- `evt_masks` of `iosvc_dequeue`
unfoldable pub dequeue_mask : WaitType → Flags
dequeue_mask wait_read pollin = true
dequeue_mask wait_read pollhup = true
dequeue_mask wait_read pollrdnorm = true
dequeue_mask wait_read pollrdband = true
dequeue_mask wait_write pollout = true
dequeue_mask wait_write pollwrnorm = true
dequeue_mask wait_write pollwrband = true
dequeue_mask wait_exception pollpri = true
dequeue_mask _ _ = false

unfoldable pub only_pollerr : Flags
only_pollerr pollerr = true
only_pollerr _ = false

-- The time that `iosvc_dequeue` reports to be left.
unfoldable pub remaining_time : ℤ → ℤ → ℤ
remaining_time deadline now = if ltb_ℤ now deadline then deadline -ℤ now else pos 0

-- The part of `iosvc_dequeue` that tells the remaining time and takes the heap entry out.
unfoldable pub pop_timer : ℕ → ℤ → Cmd (Unit {0})
pop_timer heap_idx now = do
  s ← get
  ent ← or_fault (Dynarray.at s.timed_events heap_idx)
  let lowest = record ent { deadline = negsuc 0 }
  let s' = record s {
    remaining = write_at s.remaining ent.remaining (remaining_time ent.deadline now);
    timed_events = Dynarray.store heap_idx lowest s.timed_events;
  }
  risen ← or_fault (sift_up async_heap (some s') heap_idx)
  moved ← or_fault (async_hp_ent_swp risen 0 (Dynarray.size risen.timed_events - 1))
  let cut = record moved { timed_events = Dynarray.pop_back moved.timed_events }
  if Dynarray.empty cut.timed_events
      then put cut
      else do sunk ← or_fault (sift_down async_heap (some cut) 0); put sunk

-- `main_ev_type` is reset once neither read nor write is scheduled.
unfoldable pub vacate_type : RbNode → RbNode
vacate_type n =
    if (n.main_event.handler.callback == null) && not (has_callback n.aux_event)
    then record n { main_ev_type = empty }
    else n

-- The event flags of a pollfd that stops to wait for an event.
unfoldable pub clear_events : WaitType → Flags → Flags
clear_events w events =
    let left = minus events (dequeue_mask w) in
    if any (meet left (union (dequeue_mask wait_read) (dequeue_mask wait_write)))
    then left
    else minus left only_pollerr

-- `iosvc_dequeue`
unfoldable pub dequeue : Ptr → WaitType → ℤ → Errcode → Cmd Handler
dequeue fd_node event_type now status = do
  s ← get
  (ref, d) ← or_fault (find_evt s.tree fd_node event_type)
  when (not (ltb_ℤ d.ddl_heap_idx (pos 0))) (pop_timer (pos_part d.ddl_heap_idx) now)
  s1 ← get
  let vacant = λ (e : EventData). record e { handler = record d.handler { callback = null } }
  put (record s1 {
    tree = modify_evt ref vacant s1.tree;
    statuses = if d.status == null then s1.statuses else write_at s1.statuses d.status status;
  })
  on_tree (modify fd_node vacate_type)
  n ← on_tree (load fd_node)
  s2 ← get
  e ← or_fault (Dynarray.at s2.pollfds n.pollfd_idx)
  let e' = record e { events = clear_events event_type e.events }
  put (record s2 { pollfds = Dynarray.store n.pollfd_idx e' s2.pollfds })
  pure d.handler

-- `ioevt_cleanup_evt`
unfoldable pub cleanup_evt : Place → Ptr → Cmd (Unit {0})
cleanup_evt place parent = do
  s ← get
  to_remove ← on_tree (rb_extract (tree_fuel s) place parent)
  n ← on_tree (load to_remove)
  let idx = n.pollfd_idx
  on_tree (free to_remove)
  s1 ← get
  last ← or_fault (Dynarray.back s1.pollfds)
  put (record s1 { pollfds = Dynarray.pop_back (Dynarray.store idx last s1.pollfds) })
  s2 ← get
  when (ltb idx (Dynarray.size s2.pollfds)) (do
    (place', parent') ← on_tree (rb_probe (tree_fuel s2) root_ref last.fd)
    p ← on_tree (read_place place')
    on_tree (modify p λ m. record m { pollfd_idx = idx }))
