-- ===== src/Service/Run.antt =====
-- The event loop of src/io_service.c. A callback is the client's code: `call` is what running a
-- handler does to the service, and `clock` and `poll` are the system's answers.
pub mod Deadline
pub mod Faults
pub mod Drain
use io_engine.Base.{
  ℕ, zero, suc, ◌+◌, not, Bool, true, false, ◌&&◌, ◌||◌, none, some, ltb, ◌==◌, if◌then◌else◌,
}
use io_engine.Base.Int.{ℤ, pos, negsuc, ltb_ℤ, ◌==ℤ◌}
use io_engine.Types.{
  Ptr, null, WaitType, wait_read, wait_write, wait_exception, Handler, Errcode, eio_ok, eio_invarg,
  eio_timeout,
}
use io_engine.Flags.{
  Flags, pollin, pollpri, pollout, pollerr, pollhup, pollnval, pollrdnorm, pollrdband, pollwrnorm,
  pollwrband, no_flags, any, meet,
}
use io_engine.Cbuffer
use io_engine.Dynarray
use io_engine.Heap.{sift_down}
use io_engine.Rbtree.Store.{Place, root_ref, load, read_place}
use io_engine.Rbtree.Insert.{rb_probe, rb_ref_to_this}
use io_engine.Service.{Service, PollFd, write_at}
use io_engine.Service.Monad.{Cmd, pure, ◌>>=◌, ◌>>◌, get, put, or_fault, when, on_tree, tree_fuel}
use io_engine.Service.Timers.{delay_heap}
use io_engine.Service.Reserve.{evt_mask}
use io_engine.Service.Dequeue.{dequeue, cleanup_evt}
use io_engine.Service.Cancel.{is_idle}

-- `next_deadline`: the deadline, -1 for none, and what the call leaves in `*is_event`.
unfoldable pub next_deadline : Bool → Service → ℤ × Bool
next_deadline is_event s =
    let timed : ℤ × Bool = elim (Dynarray.front s.timed_handlers) [
      | none ↦ (negsuc 0, is_event)
      | some top ↦ (top.deadline, false)
    ] in
    elim (Dynarray.front s.timed_events) [
      | none ↦ timed
      | some top ↦
          if (timed.0 ==ℤ negsuc 0) || ltb_ℤ top.deadline timed.0
          then (top.deadline, true)
          else timed
    ]

-- `is_top_event_ready`, whose masks are those of `iosvc_sched`.
unfoldable pub is_top_event_ready : Cmd Bool
is_top_event_ready = do
  s ← get
  elim (Dynarray.front s.timed_events) [
    | none ↦ pure false
    | some top ↦ (do
      n ← on_tree (load top.io_op_data)
      e ← or_fault (Dynarray.at s.pollfds n.pollfd_idx)
      pure (any (meet e.revents (evt_mask top.event_type))))
  ]

-- The flags by which `dispatch_ready_events` branches.
unfoldable pub has_read : Flags → Bool
has_read r = r pollin || (r pollhup || (r pollrdband || r pollrdnorm))

unfoldable pub has_write : Flags → Bool
has_write r = r pollout || (r pollwrnorm || r pollwrband)

-- `(events & ~POLLPRI) == POLLERR`
unfoldable pub waits_for_error : Flags → Bool
waits_for_error e =
    e pollerr
    && not (
        e pollin
        || (e pollout
            || (e pollhup
                || (e pollnval
                    || (e pollrdnorm || (e pollrdband || (e pollwrnorm || e pollwrband)))))))

-- Read is called on data, and by convention on an error alone.
unfoldable pub calls_read : Flags → Flags → Bool
calls_read revents events =
    (not (has_read revents) && not (has_write revents) && revents pollerr && waits_for_error events)
    || has_read revents

unfoldable pub poll_at : ℕ → Cmd PollFd
poll_at i = do s ← get; or_fault (Dynarray.at s.pollfds i)

module _ (call : Handler → Cmd (Unit {0})) where
  -- `run_sync_handlers`; fuel bounds the handlers that callbacks go on posting.
  unfoldable pub run_sync_handlers : ℕ → Cmd (Unit {0})
  run_sync_handlers zero s = none
  run_sync_handlers (suc fuel) s =
      if Cbuffer.empty s.sync_handlers then some (tt, s) else elim (Cbuffer.front s.sync_handlers) [
        | none ↦ none
        | some hnd ↦ elim (call hnd s) [
          | none ↦ none
          | some (_, s') ↦
              run_sync_handlers fuel (record s' { sync_handlers = Cbuffer.pop s'.sync_handlers })
        ]
      ]

  -- An event's handler is taken out and called.
  unfoldable pub fire : Ptr → WaitType → ℤ → Errcode → Cmd (Unit {0})
  fire p w now status = do hnd ← dequeue p w now status; call hnd

  -- The branch of `timeout_first` for a timed event.
  unfoldable pub timeout_event : ℤ → Cmd (Unit {0})
  timeout_event now = do
    s ← get
    top ← or_fault (Dynarray.front s.timed_events)
    hnd ← dequeue top.io_op_data top.event_type now eio_timeout
    s1 ← get
    put (record s1 { remaining = write_at s1.remaining top.remaining (pos 0) })
    call hnd
    (place, parent) ← on_tree (rb_ref_to_this top.io_op_data)
    idle ← is_idle top.io_op_data
    when idle (cleanup_evt place parent)

  -- The branch of `timeout_first` for a delayed handler.
  unfoldable pub timeout_handler : Cmd (Unit {0})
  timeout_handler = do
    s ← get
    top ← or_fault (Dynarray.front s.timed_handlers)
    when (not (top.status == null))
        (put (record s { statuses = write_at s.statuses top.status eio_ok }))
    call top.handler
    s1 ← get
    last ← or_fault (Dynarray.back s1.timed_handlers)
    let cut = Dynarray.pop_back (Dynarray.store 0 last s1.timed_handlers)
    put (record s1 {
      timed_handlers = if Dynarray.empty cut then cut else sift_down delay_heap cut 0;
    })

  -- `timeout_first`
  unfoldable pub timeout_first : Bool → ℤ → Cmd (Unit {0})
  timeout_first is_event now = if is_event then timeout_event now else timeout_handler

  -- The branch of `dispatch_ready_events` for an invalid descriptor.
  unfoldable pub dispatch_invalid : ℕ → Place → Ptr → ℤ → Cmd (Unit {0})
  dispatch_invalid i place parent now = do
    a ← poll_at i
    when (a.events pollin) (do p ← on_tree (read_place place); fire p wait_read now eio_invarg)
    b ← poll_at i
    when (b.events pollout) (do p ← on_tree (read_place place); fire p wait_write now eio_invarg)
    c ← poll_at i
    when (c.events pollpri)
        (do p ← on_tree (read_place place); fire p wait_exception now eio_invarg)
    e ← poll_at i
    s ← get
    put (record s { pollfds = Dynarray.store i (record e { revents = no_flags }) s.pollfds })
    when (not (any e.events)) (cleanup_evt place parent)

  -- The calls of `dispatch_ready_events` for a valid descriptor. Each test of `events` reads the
  -- pollfd again, since a callback may have changed it.
  unfoldable pub dispatch_valid : ℕ → Place → ℤ → Cmd (Unit {0})
  dispatch_valid i place now = do
    a ← poll_at i
    let revents = a.revents
    when (revents pollpri) (do p ← on_tree (read_place place); fire p wait_exception now eio_ok)
    b ← poll_at i
    when (calls_read revents b.events)
        (do p ← on_tree (read_place place); fire p wait_read now eio_ok)
    when (has_write revents) (do p ← on_tree (read_place place); fire p wait_write now eio_ok)

  -- One round of `dispatch_ready_events`; the answer is the next index.
  unfoldable pub dispatch_one : ℕ → ℤ → Cmd ℕ
  dispatch_one i now = do
    e ← poll_at i
    s ← get
    (place, parent) ← on_tree (rb_probe (tree_fuel s) root_ref e.fd)
    if e.revents pollnval then (do dispatch_invalid i place parent now; pure i) else do
      dispatch_valid i place now
      e' ← poll_at i
      if any e'.events then pure (i + 1) else do cleanup_evt place parent; pure i

  -- `dispatch_ready_events`
  unfoldable pub dispatch_ready_events : ℕ → ℕ → ℤ → Cmd (Unit {0})
  dispatch_ready_events zero i now s = none
  dispatch_ready_events (suc fuel) i now s =
      if not (ltb i (Dynarray.size s.pollfds)) then some (tt, s) else elim (dispatch_one i now s) [
        | none ↦ none
        | some (next, s') ↦ dispatch_ready_events fuel next now s'
      ]
