-- ===== src/Service/Stop.antt =====
-- How src/io_service.c winds a stopping service up: every pending handler is called with the
-- status `EIO_STOPPED`, and all nodes are freed.
pub mod Delayed
pub mod Pending
pub mod Ending
use io_engine.Base.{ℕ, zero, suc, ◌+◌, not, Option, none, some, ltb, ◌==◌, if◌then◌else◌}
use io_engine.Base.Int.{ℤ, pos, pos_part, ◌-ℤ◌, ltb_ℤ}
use io_engine.Types.{Ptr, null, Handler, eio_stopped}
use io_engine.Dynarray
use io_engine.Rbtree.Node.{EventData}
use io_engine.Rbtree.Store.{load, modify, free}
use io_engine.Service.{write_at}
use io_engine.Service.Monad.{Cmd, pure, ◌>>=◌, ◌>>◌, get, put, or_fault, when, on_tree, tree_fuel}

-- `remaining > 0L ? (int)remaining : 0L`
unfoldable pub time_left : ℤ → ℤ → ℤ
time_left deadline now =
    let remaining = deadline -ℤ now in if ltb_ℤ (pos 0) remaining then remaining else pos 0

-- `*status = EIO_STOPPED`, unless the pointer is `NULL`.
unfoldable pub report_stopped : Ptr → Cmd (Unit {0})
report_stopped status = do
  s ← get
  put (record s {
    statuses = if status == null then s.statuses else write_at s.statuses status eio_stopped;
  })

-- `*heap_ent->remaining` for an event with the deadline at `idx` of the heap.
unfoldable pub report_time_left : ℤ → ℤ → Cmd (Unit {0})
report_time_left idx now = do
  s ← get
  ent ← or_fault (Dynarray.at s.timed_events (pos_part idx))
  put (record s { remaining = write_at s.remaining ent.remaining (time_left ent.deadline now) })

module _ (call : Handler → Cmd (Unit {0})) where
  -- `stop_handler`
  unfoldable pub stop_handler : EventData → ℤ → Cmd (Unit {0})
  stop_handler evt now = do
    report_stopped evt.status
    when (not (ltb_ℤ evt.ddl_heap_idx (pos 0))) (report_time_left evt.ddl_heap_idx now)
    call evt.handler

  -- `if (evt && evt->handler.callback) stop_handler(evt, now, hp)`
  unfoldable pub stop_scheduled : Option EventData → ℤ → Cmd (Unit {0})
  stop_scheduled none now = pure tt
  stop_scheduled (some d) now = when (not (d.handler.callback == null)) (stop_handler d now)

  -- `stop_async_ops`; the recursion goes down the tree, so that its height is enough fuel.
  unfoldable pub stop_async_ops : ℕ → Ptr → ℤ → Cmd (Unit {0})
  stop_async_ops zero node now s = none
  stop_async_ops (suc fuel) node now s =
      let rest = (do
        n ← on_tree (load node)
        stop_scheduled (some n.main_event) now
        n1 ← on_tree (load node)
        stop_scheduled n1.aux_event now
        n2 ← on_tree (load node)
        stop_scheduled n2.ex_event now
        on_tree (modify node λ m. record m { aux_event = none; ex_event = none })
        n3 ← on_tree (load node)
        stop_async_ops fuel n3.left now
        n4 ← on_tree (load node)
        stop_async_ops fuel n4.right now
        on_tree (free node)) in
      if node == null then some (tt, s) else rest s

  -- The loop of `iosvc_prep_stop` over the delayed handlers.
  unfoldable pub stop_delayed : ℕ → ℕ → Cmd (Unit {0})
  stop_delayed zero i s = some (tt, s)
  stop_delayed (suc fuel) i s =
      let rest = (do
        ent ← or_fault (Dynarray.at s.timed_handlers i)
        report_stopped ent.status
        call ent.handler
        stop_delayed fuel (i + 1)) in
      if ltb i (Dynarray.size s.timed_handlers) then rest s else some (tt, s)

  -- `iosvc_prep_stop`, at the time `now`
  unfoldable pub prep_stop : ℤ → Cmd (Unit {0})
  prep_stop now = do
    s ← get
    stop_delayed (Dynarray.size s.timed_handlers) 0
    s1 ← get
    put (record s1 { timed_handlers = Dynarray.clear s1.timed_handlers })
    s2 ← get
    stop_async_ops (tree_fuel s2) s2.tree.root now
    s3 ← get
    put (record s3 {
      timed_events = Dynarray.clear s3.timed_events;
      pollfds = Dynarray.clear s3.pollfds;
      tree = record { cells = s3.tree.cells; root = null };
    })
