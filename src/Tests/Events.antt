-- ===== src/Tests/Events.antt =====
-- Searching the tree, the masks of events, and the parts of the event loop.
use io_engine.Base.{
  ◌≡◌, refl, ◌↔◌, Bool, true, false, none, some, [], ◌∷◌, arith, inl, inr, ◌==◌, if◌then◌else◌,
}
use io_engine.Base.Int.{pos, negsuc}
use io_engine.Types.{null, Handler, WaitType, wait_read, wait_write}
use io_engine.Flags.{pollhup, union, any}
use io_engine.Cbuffer
use io_engine.Cbuffer.Queue.{Represents, init-Represents}
use io_engine.Dynarray
use io_engine.Rbtree.Node.{RbNode, write}
use io_engine.Rbtree.Store.{Tree, root_ref, read_place}
use io_engine.Rbtree.Insert.{rb_probe}
use io_engine.Rbtree.Shape.{Shape, leaf, node, Holds, HasAt, count, Has, IsOrdered, height}
use io_engine.Rbtree.Search.{Answers, rb_probe-Answers}
use io_engine.Service.{Service, PollFd, granted, next_block}
use io_engine.Service.Monad.{Cmd}
use io_engine.Service.Control.{initial}
use io_engine.Service.Refusals.{IsIndexed}
use io_engine.Service.Reserve.{evt_mask}
use io_engine.Service.Dequeue.{clear_events}
use io_engine.Service.Masks.{events_of, put, clear_events-events_of}
use io_engine.Service.Post.{post, accepts}
use io_engine.Service.Post.Laws.{post-Represents}
use io_engine.Service.Run.{run_sync_handlers, next_deadline, dispatch_ready_events}
use io_engine.Service.Run.Deadline.{NotNegative, IsEarliest, next_deadline_lem}
use io_engine.Service.Run.Drain.{drained, called, run_sync_handlers-Drains}
use io_engine.Service.Run.Faults.{dispatch_ready_events-fault}
use io_engine.Tests.Samples.{fresh, handler}

-- The node of descriptor 4, which waits to be written.
abbrev pub writer : RbNode
writer = record {
  parent = null;
  red = false;
  left = null;
  right = null;
  fd = pos 4;
  main_ev_type = write;
  pollfd_idx = 0;
  main_event = record { handler = handler; status = null; ddl_heap_idx = negsuc 0 };
  aux_event = none;
  ex_event = none;
}

abbrev pub one_node : Tree
one_node = record { cells = λ p. if p == 7 then some writer else none; root = 7 }

abbrev pub one_shape : Shape
one_shape = node leaf 7 (pos 4) leaf

pub one_node-Holds : Holds one_node.cells 7 null one_shape
unfolding Holds
one_node-Holds = (refl, λ e. cc, writer, refl, refl, refl, refl, refl)

pub one_shape-IsOrdered : IsOrdered one_shape
unfolding IsOrdered Has
one_shape-IsOrdered = (tt, tt, λ k h. absurd h, λ k h. absurd h)

rb_probe-Answers_example :
    Answers one_node (pos 9) (rb_probe 2 root_ref (pos 9) one_node) root_ref one_shape
unfolding read_place height
rb_probe-Answers_example =
    rb_probe-Answers one_node (pos 9) one_shape 2 root_ref 7 null refl one_node-Holds
      one_shape-IsOrdered (omega arith)

abbrev read_only : WaitType → Bool
read_only wait_read = true
read_only _ = false

clear_events-events_of_example :
    (union (events_of read_only) (evt_mask wait_write) ≡ events_of (put wait_write true read_only))
    × (clear_events wait_write (events_of read_only) ≡ events_of (put wait_write false read_only))
    × ((any (events_of read_only) ≡ false) ↔ ((v : WaitType) → read_only v ≡ false))
clear_events-events_of_example = clear_events-events_of read_only wait_write

-- A service with a delayed handler and no timed event.
unfoldable pub delayed : Service
unfolding fresh initial
delayed = record fresh {
  timed_handlers = record {
    items = record { deadline = pos 5; handler = handler; status = null } ∷ [];
    capacity = 1;
  };
}

next_deadline_lem_example :
    IsEarliest
      (next_deadline false delayed)
      (Dynarray.front delayed.timed_handlers)
      (Dynarray.front delayed.timed_events)
unfolding delayed fresh initial NotNegative Dynarray.front
next_deadline_lem_example = next_deadline_lem delayed (omega arith)

-- A callback that does nothing.
abbrev pub quiet : Handler → Cmd (Unit {0})
quiet hnd s = some (tt, s)

abbrev pub posted : Service
posted = (post handler fresh).1

abbrev emptied : Service
emptied = record posted { sync_handlers = Cbuffer.pop posted.sync_handlers }

pub posted-Represents : Represents posted.sync_handlers (handler ∷ [])
unfolding fresh initial accepts granted next_block
posted-Represents = (post-Represents handler fresh [] init-Represents refl (λ e. cc) (inr refl)).1

run_sync_handlers-Drains_example :
    (run_sync_handlers quiet 2 posted ≡ some (tt, emptied)) × Represents emptied.sync_handlers []
run_sync_handlers-Drains_example =
    run_sync_handlers-Drains quiet posted-Represents
      (called [] posted refl posted-Represents drained)

unfoldable pub hung_up : PollFd
unfolding evt_mask
hung_up = record {
  fd = pos 4;
  events = evt_mask wait_write;
  revents = λ f. elim f [ pollhup ↦ true | _ ↦ false ];
}

unfoldable pub polled : Service
unfolding fresh initial
polled = record fresh { tree = one_node; pollfds = record { items = hung_up ∷ []; capacity = 1 } }

polled-IsIndexed : IsIndexed polled one_shape
unfolding polled fresh initial count Dynarray.size
polled-IsIndexed = record { holds = one_node-Holds; ordered = one_shape-IsOrdered; counted = refl }

dispatch_ready_events-fault_example : dispatch_ready_events quiet 2 0 (pos 1) polled ≡ none
unfolding hung_up polled fresh initial Dynarray.at HasAt
dispatch_ready_events-fault_example =
    dispatch_ready_events-fault quiet 1 0 (pos 1) polled one_shape hung_up 7 writer polled-IsIndexed
      refl refl refl refl (inr (inl (refl, refl))) refl refl refl
