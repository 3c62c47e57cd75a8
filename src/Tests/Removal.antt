-- ===== src/Tests/Removal.antt =====
-- Taking the write event out of a node.
use io_engine.Base.{◌≡◌, refl, some, arith, none, inl, inr, ◌==◌, if◌then◌else◌, ◌∷◌, []}
use io_engine.Base.Int.{pos, negsuc}
use io_engine.Types.{null, Handler, Event, wait_read, wait_write, eio_cancelled, eio_ok}
use io_engine.Flags.{no_flags, union, any, minus, meet}
use io_engine.Dynarray
use io_engine.Rbtree.Node.{RbNode, main, get_evt_data, rd_wr_slot, slot_data, EventData}
use io_engine.Rbtree.Shape.{Holds, HasAt, count}
use io_engine.Service.{Service, PollFd, running, write_at}
use io_engine.Service.Monad.{Cmd}
use io_engine.Service.Control.{initial}
use io_engine.Service.Reserve.{evt_mask}
use io_engine.Service.Dequeue.{dequeue, clear_events, dequeue_mask}
use io_engine.Service.Cancel.{cancel}
use io_engine.Service.Slots.{IsNode, live}
use io_engine.Service.Refusals.{IsIndexed}
use io_engine.Service.Untimed.{Dequeued, dequeue-Dequeued}
use io_engine.Service.Cancelled.{cancel-Dequeued}
use io_engine.Tests.Samples.{fresh, handler}
use io_engine.Tests.Events.{writer, polled, hung_up, one_shape, one_shape-IsOrdered}

abbrev event_data : EventData
event_data = record { handler = handler; status = null; ddl_heap_idx = negsuc 0 }

writer-IsNode : IsNode writer
unfolding live
writer-IsNode = record { no_main = λ e. ground arith; no_aux = λ e. ground arith }

dequeue-Dequeued_example :
    (u : Service) × (dequeue 7 wait_write (pos 3) eio_cancelled polled ≡ some (handler, u))
    × Dequeued polled u 7 wait_write writer event_data hung_up eio_cancelled
unfolding polled fresh initial get_evt_data rd_wr_slot slot_data Dynarray.at
dequeue-Dequeued_example =
    dequeue-Dequeued polled 7 wait_write (pos 3) eio_cancelled main event_data writer hung_up 0
      writer-IsNode refl refl refl refl refl

-- A node that waits to be written and to be read.
abbrev both : RbNode
both = record writer { aux_event = some event_data }

both-IsNode : IsNode both
unfolding live
both-IsNode = record { no_main = λ e. ground arith; no_aux = λ e. ground arith }

unfoldable both_asked : PollFd
unfolding evt_mask union
both_asked = record {
  fd = pos 4;
  events = union (evt_mask wait_read) (evt_mask wait_write);
  revents = no_flags;
}

-- A running service with this node.
unfoldable waiting : Service
unfolding fresh initial
waiting = record fresh {
  status = running;
  tree = record { cells = λ p. if p == 7 then some both else none; root = 7 };
  pollfds = record { items = both_asked ∷ []; capacity = 1 };
}

waiting-IsIndexed : IsIndexed waiting one_shape
unfolding waiting fresh initial count Dynarray.size Holds
waiting-IsIndexed = record {
  holds = (refl, λ e. cc, both, refl, refl, refl, refl, refl);
  ordered = one_shape-IsOrdered;
  counted = refl;
}

abbrev write_event : Event
write_event = record { fd = pos 4; wait_type = wait_write }

-- A handler that sets a variable of its client.
abbrev sets_variable : Handler → Cmd (Unit {0})
sets_variable hnd s = some (tt, record s { remaining = write_at s.remaining hnd.ctx (pos 1) })

cancel-Dequeued_example :
    (u : Service) × (v : Service) × (cancel sets_variable write_event waiting ≡ some (eio_ok, v))
    × Dequeued waiting u 7 wait_write both event_data both_asked eio_cancelled
    × (sets_variable handler u ≡ some (tt, v))
    × IsIndexed v one_shape
unfolding waiting fresh initial get_evt_data rd_wr_slot slot_data Dynarray.at HasAt both_asked
    evt_mask union clear_events dequeue_mask any minus meet
cancel-Dequeued_example =
    cancel-Dequeued sets_variable waiting one_shape write_event 7 both main event_data both_asked 0
      waiting-IsIndexed refl (inr (inl (refl, refl))) both-IsNode refl refl refl (λ e. cc) refl refl
      refl λ u. (_, refl, refl, refl)
