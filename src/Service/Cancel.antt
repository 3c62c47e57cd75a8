-- ===== src/Service/Cancel.antt =====
-- src/iosvc_cancel.c. A callback is the client's code: the parameter `call` is what running a
-- handler does to the service.
use io_engine.Base.{not, Bool, true, false, Option, none, some, ◌==◌, if◌then◌else◌}
use io_engine.Base.Int.{pos}
use io_engine.Types.{
  Ptr, null, Event, Handler, Errcode, eio_ok, eio_cancelled, eio_invarg, eio_noentry,
}
use io_engine.Flags.{any}
use io_engine.Dynarray
use io_engine.Rbtree.Node.{EventData}
use io_engine.Rbtree.Store.{Place, root_ref, load, read_place}
use io_engine.Rbtree.Insert.{rb_probe}
use io_engine.Service.{Status, ready, running, stopping, done}
use io_engine.Service.Monad.{Cmd, pure, ◌>>=◌, ◌>>◌, get, or_fault, when, on_tree, tree_fuel}
use io_engine.Service.Timers.{EvtRef, find_evt}
use io_engine.Service.Reserve.{has_callback}
use io_engine.Service.Dequeue.{dequeue, cleanup_evt}

unfoldable pub is_running : Status → Bool
is_running running = true
is_running ready = false
is_running stopping = false
is_running done = false

-- The node's pollfd waits for nothing.
unfoldable pub is_idle : Ptr → Cmd Bool
is_idle p = do
  n ← on_tree (load p)
  s ← get
  e ← or_fault (Dynarray.at s.pollfds n.pollfd_idx)
  pure (not (any e.events))

unfoldable pub evt_of : Option (EvtRef × EventData) → Option EventData
evt_of none = none
evt_of (some (ref, d)) = some d

module _ (call : Handler → Cmd (Unit {0})) where
  -- The part of `iosvc_cancel` for an event that is scheduled. `place` still refers to what it
  -- referred to before the callback ran.
  unfoldable pub cancel_found : Place → Ptr → Ptr → Event → Cmd Errcode
  cancel_found place parent p event = do
    hnd ← dequeue p event.wait_type (pos 0) eio_cancelled
    call hnd
    q ← on_tree (read_place place)
    idle ← is_idle q
    when idle (cleanup_evt place parent)
    pure eio_ok

  -- `iosvc_cancel`
  unfoldable pub cancel : Event → Cmd Errcode
  cancel event = do
    s ← get
    if not (is_running s.status) then pure eio_invarg else do
      (place, parent) ← on_tree (rb_probe (tree_fuel s) root_ref event.fd)
      p ← on_tree (read_place place)
      if p == null then pure eio_noentry else do
        s1 ← get
        if not (has_callback (evt_of (find_evt s1.tree p event.wait_type)))
            then pure eio_noentry
            else cancel_found place parent p event
