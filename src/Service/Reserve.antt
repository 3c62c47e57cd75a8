-- ===== src/Service/Reserve.antt =====
-- Storage for event data in a node: `get_evt_data`'s partner `reserve_rd_wr`, and the test
-- `is_scheduled`, of src/iosvc_sched.c.
use io_engine.Base.{Bool, true, false, not, Option, none, some, ◌==◌, if◌then◌else◌}
use io_engine.Types.{null, WaitType, wait_read, wait_write, wait_exception, Event}
use io_engine.Flags.{
  Flags, pollin, pollpri, pollout, pollerr, pollhup, pollrdnorm, pollrdband, pollwrnorm, pollwrband,
}
use io_engine.Rbtree.Node.{RbNode, EventData, EvType, empty, read, write, Slot, main, aux, ex}

-- `READ_MASK`, `WRITE_MASK` and `EXCEPT_MASK`, by wait type.
unfoldable pub evt_mask : WaitType → Flags
evt_mask wait_read pollrdnorm = true
evt_mask wait_read pollrdband = true
evt_mask wait_read pollerr = true
evt_mask wait_read pollhup = true
evt_mask wait_read pollin = true
evt_mask wait_write pollwrnorm = true
evt_mask wait_write pollwrband = true
evt_mask wait_write pollerr = true
evt_mask wait_write pollout = true
evt_mask wait_exception pollpri = true
evt_mask _ _ = false

-- `data && data->handler.callback`
unfoldable pub has_callback : Option EventData → Bool
has_callback none = false
has_callback (some d) = not (d.handler.callback == null)

-- The cases of `is_scheduled`, by the node's stored type and the wait type.
unfoldable pub is_scheduled_as : EvType → WaitType → RbNode → Bool
is_scheduled_as _ wait_exception n = has_callback n.ex_event
is_scheduled_as empty _ n = false
is_scheduled_as read wait_read n = not (n.main_event.handler.callback == null)
is_scheduled_as write wait_write n = not (n.main_event.handler.callback == null)
is_scheduled_as _ _ n = has_callback n.aux_event

-- `is_scheduled`
unfoldable pub is_scheduled : RbNode → Event → Bool
unfolding is_scheduled_as
is_scheduled n event = is_scheduled_as n.main_ev_type event.wait_type n

-- A reserved place in a node: the place, the node, and whether memory was asked for.
abbrev pub Reserved : Type 0
Reserved = Option Slot × RbNode × Bool

-- The storage of one side event: its own, or the other one's if that is idle, or new memory.
-- The answer is both storages and whether memory was asked for.
unfoldable pub take_storage :
    EventData
    → Bool
    → Option EventData
    → Option EventData
    → Option EventData × Option EventData × Bool
take_storage junk ok (some d) other = (some d, other, false)
take_storage junk ok none none = (if ok then some junk else none, none, true)
take_storage junk ok none (some e) =
    if not (has_callback (some e))
    then (some e, none, false)
    else (if ok then some junk else none, some e, true)

unfoldable pub is_some : Option EventData → Slot → Option Slot
is_some none slot = none
is_some (some d) slot = some slot

unfoldable pub reserve_aux : EventData → Bool → RbNode → Reserved
unfolding is_some
reserve_aux junk ok n =
    let (own, other, asked) = take_storage junk ok n.aux_event n.ex_event in
    (is_some own aux, record n { aux_event = own; ex_event = other }, asked)

unfoldable pub reserve_ex : EventData → Bool → RbNode → Reserved
unfolding is_some
reserve_ex junk ok n =
    let (own, other, asked) = take_storage junk ok n.ex_event n.aux_event in
    (is_some own ex, record n { ex_event = own; aux_event = other }, asked)

-- `reserve_rd_wr` and the exception branch of `reserve_evt_mem`, by the node's stored type and
-- the requested one. `ok` is what `malloc` answers, `junk` what its block holds.
unfoldable pub reserve_by_type : EventData → Bool → EvType → WaitType → RbNode → Reserved
unfolding reserve_aux reserve_ex
reserve_by_type junk ok _ wait_exception n = reserve_ex junk ok n
reserve_by_type junk ok empty wait_read n = (some main, record n { main_ev_type = read }, false)
reserve_by_type junk ok empty wait_write n = (some main, record n { main_ev_type = write }, false)
reserve_by_type junk ok read wait_read n = (some main, n, false)
reserve_by_type junk ok write wait_write n = (some main, n, false)
reserve_by_type junk ok _ _ n = reserve_aux junk ok n

unfoldable pub reserve_slot : EventData → Bool → WaitType → RbNode → Reserved
unfolding reserve_by_type
reserve_slot junk ok w n = reserve_by_type junk ok n.main_ev_type w n
