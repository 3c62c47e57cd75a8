-- ===== src/Tests/Clients.antt =====
-- Posting, the semaphore, transfers and task groups.
use io_engine.Base.{
  ◌+◌, ◌-◌, ◌<◌, ◌≡◌, refl, ◌≢◌, ◌⊎◌, inr, ◌↔◌, Bool, true, false, List, [], ◌∷◌, none, some, arith,
  length,
}
use io_engine.Base.Int.{pos, pos_part, neg_part}
use io_engine.Types.{null, eio_ok, eio_stopped, eio_invarg, eio_nomem, wait_read}
use io_engine.Cbuffer.Queue.{Represents, init-Represents}
use io_engine.Service.{granted, allocated, next_block}
use io_engine.Service.Control.{initial}
use io_engine.Service.Post.{post, accepts}
use io_engine.Service.Post.Laws.{post-Represents, post_errors, Stopped, Open}
use io_engine.Semaphore
use io_engine.Semaphore.{Semaphore}
use io_engine.Semaphore.Laws.{wait-signal, signal-wait}
use io_engine.Semaphore.Count.{run_balance, run, waits, signals, IsSettled, Call}
use io_engine.AsyncRdwr.{RwCtx, rw_impl, is_ok, advance}
use io_engine.AsyncRdwr.Transfer.{Conserved, rw_impl-Conserved}
use io_engine.TaskGroup.{TaskGroup, end_tasks, make_task_group, end_tasks_lem}
use io_engine.Tests.Samples.{fresh, handler}

fresh-Represents : Represents fresh.sync_handlers []
unfolding fresh initial
fresh-Represents = init-Represents

post-Represents_example :
    ((post handler fresh).0 ≡ eio_ok)
    × Represents (post handler fresh).1.sync_handlers (handler ∷ [])
unfolding fresh initial accepts granted next_block
post-Represents_example =
    post-Represents handler fresh [] fresh-Represents refl (λ e. cc) (inr refl)

post_errors_example :
    (((post handler fresh).0 ≡ eio_stopped) ↔ Stopped fresh.status)
    × (((post handler fresh).0 ≡ eio_invarg) ↔ (Open fresh.status × (handler.callback ≡ null)))
    × (((post handler fresh).0 ≡ eio_nomem) ↔ (
        Open fresh.status
        × (handler.callback ≢ null)
        × (0 ≡ fresh.sync_handlers.limit)
        × (granted fresh ≡ false)))
    × ((post handler fresh).0 ≢ eio_ok
        → (post handler fresh).0 ≢ eio_nomem
        → (post handler fresh).1 ≡ fresh)
    × ((post handler fresh).0 ≡ eio_nomem → (post handler fresh).1 ≡ allocated fresh)
post_errors_example = post_errors handler fresh [] fresh-Represents

abbrev open_semaphore : Semaphore
open_semaphore = record { handler_list = []; sem_val = pos 0 }

wait-signal_example :
    ((Semaphore.signal open_semaphore fresh).0 ≡ eio_ok)
    × (Semaphore.wait handler
          (Semaphore.signal open_semaphore fresh).1
          (Semaphore.signal open_semaphore fresh).2
        ≡ ((post handler fresh).0, open_semaphore, (post handler fresh).1))
wait-signal_example = wait-signal handler open_semaphore fresh (omega arith) refl

signal-wait_example :
    ((Semaphore.wait handler open_semaphore fresh).0 ≡ eio_ok)
    × (Semaphore.signal
          (Semaphore.wait handler open_semaphore fresh).1
          (Semaphore.wait handler open_semaphore fresh).2
        ≡ ((post handler (allocated fresh)).0, open_semaphore, (post handler (allocated fresh)).1))
unfolding fresh initial granted next_block
signal-wait_example = signal-wait handler open_semaphore fresh refl refl

-- One signal and two waits on a semaphore of value 0.
abbrev history : List Call
history = waits handler ∷ waits handler ∷ signals ∷ []

run_balance_example :
    let sem = (run history (Semaphore.initial (pos 0), fresh)).0 in
    (pos_part sem.sem_val + 0 + 2 ≡ neg_part sem.sem_val + 0 + length sem.handler_list + 1)
    × IsSettled sem
unfolding fresh initial Semaphore.create
run_balance_example =
    run_balance true (pos 0) (Semaphore.initial (pos 0)) history fresh refl (λ n. λ e. ground arith)

-- Four of ten bytes are left.
abbrev transfer : RwCtx
transfer = record {
  hnd = handler;
  buf = 106;
  nbytes = 4;
  transferred = 6;
  errc = 3;
  fd = pos 5;
  op_type = wait_read;
  self = 9;
}

rw_impl-Conserved_example :
    Conserved transfer (advance 4 transfer)
    × (◌≡◌ {A = Bool} true true → is_ok (fresh.statuses 3) ≡ true → (advance 4 transfer).nbytes ≡ 0)
unfolding rw_impl fresh initial advance is_ok
rw_impl-Conserved_example =
    rw_impl-Conserved 7 (pos 4) transfer (advance 4 transfer) true fresh fresh (omega arith) refl

end_tasks_lem_example :
    ((true ≡ false) × (make_task_group true 3 handler ≡ none))
    ⊎ ((◌≡◌ {A = Bool} true true)
        × ((g : TaskGroup) × (make_task_group true 3 handler ≡ some g)
            × (1 < 3 → end_tasks 1 g ≡ some (some (record g { remaining_tasks = 3 - 1 }), none))
            × (end_tasks 3 g ≡ some (none, some handler))
            × (end_tasks 4 g ≡ none)))
end_tasks_lem_example = end_tasks_lem true 3 1 handler (omega arith) (omega arith)
