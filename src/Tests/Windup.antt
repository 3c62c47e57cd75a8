-- ===== src/Tests/Windup.antt =====
-- A stopping service with a node that waits for two events, and its deletion.
use io_engine.Base.{
  ℕ, false, true, ◌≡◌, ◌⊎◌, refl, inl, inr, none, some, arith, [], ◌∷◌, ◌==◌, if◌then◌else◌,
}
use io_engine.Base.Int.{ℤ, pos, negsuc}
use io_engine.Types.{Ptr, null, Handler, wait_exception}
use io_engine.Flags.{no_flags}
use io_engine.Dynarray
use io_engine.Dynarray.{Dynarray}
use io_engine.Rbtree.Node.{make_rbnode, write}
use io_engine.Rbtree.Shape.{Shape, leaf, node, Holds, Inside, IsTree, count}
use io_engine.Rbtree.Store.{Tree}
use io_engine.Service.{Service, PollFd, stopping}
use io_engine.Service.Run.Drain.{Drains}
use io_engine.Service.Loop.{PollAnswer, has_work, run_loop}
use io_engine.Service.Loop.Stopping.{Leaves, run_loop-Stopping}
use io_engine.Service.Destroy.{delete}
use io_engine.Service.Destroy.Frees.{Freed, delete-Freed}
use io_engine.Service.Stop.{prep_stop}
use io_engine.Service.Stop.Delayed.{Stops}
use io_engine.Service.Stop.Pending.{HasEntry, Winds, scheduled}
use io_engine.Service.Stop.Pending.Nodes.{pending, node_events}
use io_engine.Service.Stop.Ending.{Ended, emptied, ended, prep_stop-Ended}
use io_engine.Tests.Samples.{fresh, handler}
use io_engine.Tests.Events.{quiet, posted, posted-Represents}

-- The write event has no deadline, the exception event has the one entry of the heap.
unfoldable waiting : Service
unfolding fresh make_rbnode
waiting = record fresh {
  tree = record {
    cells = λ p.
        if p == 7
        then some (record (make_rbnode (pos 4)) {
          main_ev_type = write;
          main_event = record { handler = handler; status = 9; ddl_heap_idx = negsuc 0 };
          ex_event = some (record { handler = handler; status = null; ddl_heap_idx = pos 0 });
        })
        else none;
    root = 7;
  };
  pollfds = record {
    items = record { fd = pos 4; events = no_flags; revents = no_flags } ∷ [];
    capacity = 1;
  };
  timed_events = record {
    items =
        record { deadline = pos 50; remaining = 11; io_op_data = 7; event_type = wait_exception }
        ∷ [];
    capacity = 1;
  };
  status = stopping;
}

abbrev one : Shape
one = node leaf 7 (pos 4) leaf

waiting-Holds : Holds waiting.tree.cells waiting.tree.root null one
unfolding waiting make_rbnode Holds
waiting-Holds = (refl, λ e. cc, _, refl, refl, refl, refl, refl)

one-IsTree : IsTree one
unfolding IsTree Inside
one-IsTree = ((λ i. absurd i), (λ i. absurd i), (λ q i j. absurd i), tt, tt)

waiting-HasEntry : HasEntry waiting.timed_events (pending waiting.tree.cells one)
unfolding waiting make_rbnode pending node_events scheduled HasEntry Dynarray.at
waiting-HasEntry = (inl refl, (inr (refl, _, refl), tt))

prep_stop-Ended_example :
    (s1 : Service) × (s3 : Service) × (prep_stop quiet (pos 20) waiting ≡ some (tt, ended s3))
    × Stops quiet waiting.timed_handlers.items waiting s1
    × Winds quiet (pos 20) (pending waiting.tree.cells one) (emptied s1) s3
    × ((q : Ptr) → Inside q one → s3.tree.cells q ≡ none)
    × Ended (ended s3)
unfolding count waiting Dynarray.size
prep_stop-Ended_example =
    prep_stop-Ended quiet (pos 20) (λ h s. (s, refl, refl, refl, refl, refl)) waiting one
      waiting-Holds one-IsTree (omega arith) waiting-HasEntry

delete-Freed_example :
    (u : Tree) × (delete waiting ≡ some (tt, record waiting { tree = u }))
    × Freed one waiting.tree u
unfolding count waiting Dynarray.size
delete-Freed_example = delete-Freed waiting one waiting-Holds one-IsTree (omega arith)

-- The same, with a handler posted.
abbrev busy : Service
busy = record waiting { sync_handlers = posted.sync_handlers }

busy-Holds : Holds busy.tree.cells busy.tree.root null one
unfolding waiting make_rbnode Holds
busy-Holds = (refl, λ e. cc, _, refl, refl, refl, refl, refl)

busy-HasEntry : HasEntry busy.timed_events (pending busy.tree.cells one)
unfolding waiting make_rbnode pending node_events scheduled HasEntry Dynarray.at
busy-HasEntry = (inl refl, (inr (refl, _, refl), tt))

abbrev quiet_leaves :
    (h : Handler) (s : Service) → (s1 : Service) × (quiet h s ≡ some (tt, s1)) × Leaves s s1
quiet_leaves h s = (
  s,
  refl,
  record {
    tree = refl;
    timed_events = refl;
    timed_handlers = refl;
    pollfds = refl;
    sync_handlers = refl;
    status = refl;
  },
)

-- The time is the number of the reading, and nothing is ready.
abbrev never_ready : ℕ → Dynarray PollFd → ℤ → PollAnswer
never_ready round fds delay = record { ready_fds = pos 0; interrupted = false; pollfds = fds }

run_loop-Stopping_example :
    (t : Service) × (run_loop quiet (λ n. pos n) never_ready 2 0 busy ≡ some (tt, t))
    × (((has_work busy ≡ false) × (t ≡ busy))
        ⊎ ((has_work busy ≡ true)
            × ((t0 : Service) × Drains quiet (handler ∷ []) busy (handler ∷ []) t0
                × (prep_stop quiet (pos 0) t0 ≡ some (tt, t)))))
    × (has_work t ≡ false)
    × (t.status ≡ stopping)
unfolding count waiting Dynarray.size
run_loop-Stopping_example =
    run_loop-Stopping quiet quiet_leaves (λ n. pos n) never_ready (handler ∷ []) 0 busy one
      posted-Represents refl busy-Holds one-IsTree (omega arith) busy-HasEntry
