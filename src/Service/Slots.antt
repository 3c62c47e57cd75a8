-- ===== src/Service/Slots.antt =====
-- A node as a finite map from wait types to the events that are scheduled.
use io_engine.Base.{
  ◌≡◌, ◌≢◌, ◌↔◌, Bool, true, false, arith, Option, none, some, ◌==◌, if◌then◌else◌,
}
use io_engine.Types.{null, WaitType, wait_read, wait_write, wait_exception, Event}
use io_engine.Rbtree.Node.{
  RbNode, EventData, empty, Slot, slot_data, set_slot, get_evt_data, rd_wr_slot,
}
use io_engine.Service.Reserve.{
  has_callback, is_scheduled, reserve_slot, reserve_by_type, reserve_aux, reserve_ex, take_storage,
  is_some, is_scheduled_as,
}
use io_engine.Service.Dequeue.{vacate_type}

-- The event data in use: that with a callback.
unfoldable pub live : Option EventData → Option EventData
live none = none
live (some d) = if d.handler.callback == null then none else some d

abbrev at_slot : Option Slot → RbNode → Option EventData
at_slot none n = none
at_slot (some slot) n = live (slot_data n slot)

-- The scheduled event of a wait type.
unfoldable pub view : RbNode → WaitType → Option EventData
unfolding live get_evt_data rd_wr_slot slot_data
view n w = at_slot (get_evt_data n w) n

-- A node of no type has neither a read nor a write event.
pub record IsNode (n : RbNode) : Type 0 where
  pub no_main : n.main_ev_type ≡ empty → n.main_event.handler.callback ≡ null
  pub no_aux : n.main_ev_type ≡ empty → live n.aux_event ≡ none

unfoldable pub same : WaitType → WaitType → Bool
same wait_read wait_read = true
same wait_write wait_write = true
same wait_exception wait_exception = true
same _ _ = false

-- Reserving storage for an event that is not scheduled and writing the event there schedules it
-- and leaves the node's other events alone.
pub reserve_slot-view :
    (junk : EventData) (ok : Bool) (w v : WaitType) (n : RbNode) (d : EventData) (slot : Slot)
    → IsNode n
    → d.handler.callback ≢ null
    → view n w ≡ none
    → (reserve_slot junk ok w n).0 ≡ some slot
    → view (set_slot (reserve_slot junk ok w n).1 slot d) v
      ≡ (if same w v then some d else view n v)
unfolding reserve_slot reserve_by_type reserve_aux reserve_ex take_storage is_some has_callback view
    set_slot same
reserve_slot-view junk ok wait_read wait_read n d slot i c f e = ground arith
reserve_slot-view junk ok w v n d slot i c f e = ground arith

pub reserve_slot-IsNode :
    (junk : EventData) (ok : Bool) (w : WaitType) (n : RbNode) (d : EventData) (slot : Slot)
    → IsNode n
    → (reserve_slot junk ok w n).0 ≡ some slot
    → IsNode (set_slot (reserve_slot junk ok w n).1 slot d)
unfolding reserve_slot reserve_by_type reserve_aux reserve_ex take_storage is_some has_callback
    set_slot live
reserve_slot-IsNode junk ok wait_read n d slot i f = ground arith
reserve_slot-IsNode junk ok w n d slot i f = ground arith

-- Where storage is refused, the node's scheduled events are as before.
pub reserve_slot-none :
    (junk : EventData) (ok : Bool) (w v : WaitType) (n : RbNode)
    → IsNode n
    → (reserve_slot junk ok w n).0 ≡ none
    → (ok ≡ false) × (view (reserve_slot junk ok w n).1 v ≡ view n v)
unfolding reserve_slot reserve_by_type reserve_aux reserve_ex take_storage is_some has_callback view
reserve_slot-none junk ok wait_read wait_read n i f = ground arith
reserve_slot-none junk ok w v n i f = ground arith

-- What `iosvc_dequeue` does to a node whose event data `d` stands in `slot`.
unfoldable pub vacate : Slot → EventData → RbNode → RbNode
vacate slot d n =
    vacate_type (set_slot n slot (record d { handler = record d.handler { callback = null } }))

-- A node left with neither a read nor a write event has no type.
vacate_resets :
    (n : RbNode) (slot : Slot) (d : EventData)
    → view (vacate slot d n) wait_read ≡ none
    → view (vacate slot d n) wait_write ≡ none
    → (vacate slot d n).main_ev_type ≡ empty
unfolding vacate vacate_type has_callback view set_slot
vacate_resets n slot d h k = ground arith

vacate_views :
    (w v : WaitType) (n : RbNode) (slot : Slot) (d : EventData)
    → IsNode n
    → get_evt_data n w ≡ some slot
    → slot_data n slot ≡ some d
    → (view (vacate slot d n) v ≡ (if same w v then none else view n v)) × IsNode (vacate slot d n)
unfolding vacate vacate_type has_callback view set_slot same
vacate_views wait_read wait_read n slot d i f e = ground arith
vacate_views w v n slot d i f e = ground arith

-- Vacating the storage of a scheduled event unschedules it and leaves the other events alone, and a
-- node left with neither a read nor a write event has no type.
pub vacate-view :
    (w v : WaitType) (n : RbNode) (slot : Slot) (d : EventData)
    → IsNode n
    → get_evt_data n w ≡ some slot
    → slot_data n slot ≡ some d
    → (view (vacate slot d n) v ≡ (if same w v then none else view n v))
      × IsNode (vacate slot d n)
      × (view (vacate slot d n) wait_read ≡ none
          → view (vacate slot d n) wait_write ≡ none
          → (vacate slot d n).main_ev_type ≡ empty)
vacate-view w v n slot d i f e =
    let (seen, sound) = vacate_views w v n slot d i f e in (seen, sound, vacate_resets n slot d)

-- `is_scheduled`, which has its own cases, says no exactly if the event data that `get_evt_data`
-- points to for the wait type are missing or have no callback.
pub is_scheduled-view :
    (n : RbNode) (event : Event) → (is_scheduled n event ≡ false) ↔ (view n event.wait_type ≡ none)
unfolding is_scheduled is_scheduled_as has_callback view live get_evt_data rd_wr_slot slot_data
is_scheduled-view n event = (λ h. ground arith, λ h. ground arith)
