-- ===== src/Service/Enqueue.antt =====
-- src/iosvc_sched.c: scheduling a handler for an event, with or without a deadline.
use io_engine.Base.{ℕ, ◌-◌, Bool, not, Option, none, some, ◌==◌, if◌then◌else◌}
use io_engine.Base.Int.{ℤ, pos, negsuc, ◌+ℤ◌}
use io_engine.Types.{
  Ptr, null, Event, Handler, Errcode, eio_ok, eio_stopped, eio_invarg, eio_nomem, eio_inprogress,
}
use io_engine.Flags.{Flags, union, no_flags}
use io_engine.Dynarray
use io_engine.Heap.{sift_up}
use io_engine.Rbtree.Node.{RbNode, EventData, zero_event, make_rbnode, Slot}
use io_engine.Rbtree.Store.{Place, root_ref, load, modify, alloc, free, read_place, write_place}
use io_engine.Rbtree.Insert.{rb_probe, rb_insert}
use io_engine.Service.{AsyncEntry, PollFd, granted, allocated, next_block}
use io_engine.Service.Monad.{Cmd, pure, ◌>>=◌, ◌>>◌, get, put, or_fault, when, on_tree, tree_fuel}
use io_engine.Service.Timers.{EvtRef, blank_async, async_heap, find_evt, modify_evt, set_heap_idx}
use io_engine.Service.Post.{accepts, after_emplace}
use io_engine.Service.Reserve.{evt_mask, is_scheduled, reserve_slot}

abbrev blank_pollfd : PollFd
blank_pollfd = record { fd = pos 0; events = no_flags; revents = no_flags }

-- What `reserve_evt_mem` does with a new node once its place for the event is reserved or not.
unfoldable pub place_node : Place → Ptr → Ptr → RbNode → Option Slot → Cmd (Option EvtRef)
place_node place parent addr n none = do
  on_tree (alloc addr n)
  on_tree (free addr)
  on_tree (write_place place addr)
  pure none
place_node place parent addr n (some slot) = do
  s ← get
  on_tree (alloc addr n)
  on_tree (rb_insert (tree_fuel s) addr place parent)
  on_tree (write_place place addr)
  on_tree (write_place place addr)
  pure (some (addr, slot))

-- `reserve_evt_mem` for a descriptor with no node.
unfoldable pub reserve_new : Place → Ptr → Event → Cmd (Option EvtRef)
reserve_new place parent event = do
  s ← get
  let addr = next_block s
  put (allocated s)
  if addr == null then pure none else do
    s' ← get
    let (slot, n, asked) =
        reserve_slot zero_event (granted s') event.wait_type (make_rbnode event.fd)
    when asked (put (allocated s'))
    place_node place parent addr n slot

-- `reserve_evt_mem` for a descriptor that has the node `p`.
unfoldable pub reserve_old : Place → Ptr → Event → Cmd (Option EvtRef)
reserve_old place p event = do
  n ← on_tree (load p)
  s ← get
  let (slot, n', asked) = reserve_slot zero_event (granted s) event.wait_type n
  when asked (put (allocated s))
  on_tree (modify p λ _. n')
  on_tree (write_place place p)
  elim slot [ none ↦ pure none | some sl ↦ pure (some (p, sl)) ]

-- `reserve_evt_mem`
unfoldable pub reserve_evt_mem : Place → Ptr → Event → Cmd (Option EvtRef)
reserve_evt_mem place parent event = do
  p ← on_tree (read_place place)
  if p == null then reserve_new place parent event else reserve_old place p event

-- The checks of `iosvc_enqueue` on the node `p`, or a new pollfd if there is none; the answer is
-- the error that ends the call.
unfoldable pub claim_pollfd : Ptr → Event → Cmd (Option Errcode)
claim_pollfd p event = do
  s ← get
  if not (p == null)
      then (do
        n ← on_tree (load p)
        if is_scheduled n event then pure (some eio_inprogress) else pure none)
      else elim (Dynarray.emplace_back (granted s) blank_pollfd s.pollfds) [
        | none ↦ (do put (after_emplace s.pollfds s); pure (some eio_nomem))
        | some (i, d) ↦ (do put (record (after_emplace s.pollfds s) { pollfds = d }); pure none)
      ]

unfoldable pub pop_pollfd : Cmd (Unit {0})
pop_pollfd = do s ← get; put (record s { pollfds = Dynarray.pop_back s.pollfds })

-- `pollent_ptr->events |= flags`
unfoldable pub add_events : ℕ → Flags → Cmd (Unit {0})
add_events i flags = do
  s ← get
  e ← or_fault (Dynarray.at s.pollfds i)
  put (record s {
    pollfds = Dynarray.store i (record e { events = union e.events flags }) s.pollfds;
  })

-- The new node and the new pollfd refer to each other.
unfoldable pub init_pollfd : Ptr → Event → Cmd (Unit {0})
init_pollfd node event = do
  s ← get
  let i = Dynarray.size s.pollfds - 1
  on_tree (modify node λ n. record n { pollfd_idx = i })
  s' ← get
  put (record s' { pollfds = Dynarray.store i (record blank_pollfd { fd = event.fd }) s'.pollfds })

-- The end of `iosvc_enqueue`: the reserved data is written, and the pollfd asks for the event.
unfoldable pub fill_event : Place → Bool → EvtRef → Event → Handler → Ptr → Cmd (Errcode × Ptr)
fill_event place is_new_node ref event hnd status = do
  let d : EventData = record { handler = hnd; status = status; ddl_heap_idx = negsuc 0 }
  s ← get
  put (record s { tree = modify_evt ref (λ _. d) s.tree })
  node ← on_tree (read_place place)
  when is_new_node (init_pollfd node event)
  n ← on_tree (load node)
  add_events n.pollfd_idx (evt_mask event.wait_type)
  pure (eio_ok, node)

-- `iosvc_enqueue` once the call is allowed; the answer has the node for `out_node`.
unfoldable pub enqueue_allowed : Event → Handler → Ptr → Cmd (Errcode × Ptr)
enqueue_allowed event hnd status = do
  s ← get
  (place, parent) ← on_tree (rb_probe (tree_fuel s) root_ref event.fd)
  p ← on_tree (read_place place)
  early ← claim_pollfd p event
  elim early [
    | some errc ↦ pure (errc, null)
    | none ↦ (do
      reserved ← reserve_evt_mem place parent event
      elim reserved [
        | none ↦ (do when (p == null) pop_pollfd; pure (eio_nomem, null))
        | some ref ↦ fill_event place (p == null) ref event hnd status
      ])
  ]

-- `iosvc_enqueue`. The wait type 3, which the code also refuses, is no `io_wait_type`.
unfoldable pub enqueue : Event → Handler → Ptr → Cmd (Errcode × Ptr)
enqueue event hnd status = do
  s ← get
  if not (accepts s.status)
      then pure (eio_stopped, null)
      else if hnd.callback == null
      then pure (eio_invarg, null)
      else enqueue_allowed event hnd status

-- `iosvc_sched`
unfoldable pub sched : Event → Handler → Ptr → Cmd Errcode
sched event hnd status = do (errc, node) ← enqueue event hnd status; pure errc

-- The end of `iosvc_sched_timeout`: the entry is written and sifted up.
unfoldable pub fill_timer : ℕ → AsyncEntry → Cmd Errcode
fill_timer slot ent = do
  s ← get
  let heap_idx = Dynarray.size s.timed_events - 1
  (ref, d) ← or_fault (find_evt s.tree ent.io_op_data ent.event_type)
  let s' = record s {
    timed_events = Dynarray.store slot ent s.timed_events;
    tree = set_heap_idx ref (pos heap_idx) s.tree;
  }
  sifted ← or_fault (sift_up async_heap (some s') heap_idx)
  put sifted
  pure eio_ok

finish_timeout : ℕ → ℤ → Event → Ptr → Errcode × Ptr → Cmd Errcode
finish_timeout slot deadline event milliseconds (eio_ok, node) = fill_timer slot (record {
  deadline = deadline;
  remaining = milliseconds;
  io_op_data = node;
  event_type = event.wait_type;
})
finish_timeout slot deadline event milliseconds (errc, node) = do
  s ← get
  put (record s { timed_events = Dynarray.pop_back s.timed_events })
  pure errc

-- `iosvc_sched_timeout`, at the time `now`; `milliseconds` is the address of the delay.
unfoldable pub sched_timeout : ℤ → Event → Handler → Ptr → Ptr → Cmd Errcode
unfolding finish_timeout
sched_timeout now event hnd status milliseconds = do
  s ← get
  let deadline = now +ℤ s.remaining milliseconds
  elim (Dynarray.emplace_back (granted s) blank_async s.timed_events) [
    | none ↦ (do put (after_emplace s.timed_events s); pure eio_nomem)
    | some (slot, d) ↦ (do
      put (record (after_emplace s.timed_events s) { timed_events = d })
      r ← enqueue event hnd status
      finish_timeout slot deadline event milliseconds r)
  ]
