-- ===== src/Tests/Refusals.antt =====
-- Calls that the service refuses, at concrete services.
use io_engine.Base.{◌≡◌, refl, some, arith, inr, inl}
use io_engine.Base.Int.{pos}
use io_engine.Types.{null, Event, wait_read, wait_write, eio_inprogress, eio_noentry}
use io_engine.Dynarray
use io_engine.Rbtree.Node.{get_evt_data, rd_wr_slot, slot_data}
use io_engine.Rbtree.Shape.{HasAt, count}
use io_engine.Service.{Service, running}
use io_engine.Service.Control.{initial}
use io_engine.Service.Post.{accepts}
use io_engine.Service.Enqueue.{enqueue}
use io_engine.Service.Cancel.{cancel}
use io_engine.Service.Slots.{view, live}
use io_engine.Service.Refusals.{IsIndexed, enqueue-inprogress, cancel-noentry}
use io_engine.Tests.Samples.{fresh, handler}
use io_engine.Tests.Events.{writer, one_shape, one_node-Holds, one_shape-IsOrdered, quiet, polled}

-- A running service whose only node waits to be written.
unfoldable busy : Service
unfolding polled
busy = record polled { status = running }

busy-IsIndexed : IsIndexed busy one_shape
unfolding busy polled fresh initial count Dynarray.size
busy-IsIndexed = record { holds = one_node-Holds; ordered = one_shape-IsOrdered; counted = refl }

abbrev write_event : Event
write_event = record { fd = pos 4; wait_type = wait_write }

abbrev read_event : Event
read_event = record { fd = pos 4; wait_type = wait_read }

enqueue-inprogress_example :
    enqueue write_event handler null busy ≡ some ((eio_inprogress, null), busy)
unfolding busy polled fresh initial HasAt accepts view live get_evt_data rd_wr_slot slot_data
enqueue-inprogress_example =
    enqueue-inprogress busy one_shape write_event handler null 7 writer busy-IsIndexed refl
      (λ e. cc) (inr (inl (refl, refl))) refl (λ e. ground arith)

cancel-noentry_example : cancel quiet read_event busy ≡ some (eio_noentry, busy)
unfolding busy polled fresh initial HasAt view live get_evt_data rd_wr_slot slot_data
cancel-noentry_example =
    cancel-noentry quiet busy one_shape read_event busy-IsIndexed refl λ p n h c. ground arith
