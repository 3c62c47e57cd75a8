-- ===== src/Semaphore.antt =====
-- src/io_semaphore.c: a semaphore whose waiters are handlers. The service that the semaphore
-- refers to is passed beside it.
pub mod Laws
pub mod Count
use io_engine.Base.{
  ℕ, not, Bool, true, false, ◌||◌, Option, none, some, List, [], ◌∷◌, ◌==◌, if◌then◌else◌,
}
use io_engine.Base.Int.{ℤ, pos, negsuc, ◌+ℤ◌, ◌-ℤ◌, ltb_ℤ}
use io_engine.Types.{Ptr, null, Handler, Errcode, eio_ok, eio_nomem}
use io_engine.Service.{Service, granted, allocated}
use io_engine.Service.Post.{post}

-- `_io_sem_t`. The list is the chain of `pending_handler_node`s, its head first.
pub record Semaphore : Type 0 where
  pub handler_list : List Handler
  pub sem_val : ℤ

-- What `iosem_create` writes to the memory that it got.
abbrev pub initial : ℤ → Semaphore
initial init_val = record { handler_list = []; sem_val = init_val }

-- `iosem_create`, by what `malloc` answers: the semaphore, or `none` for `NULL`.
unfoldable pub create : Bool → ℤ → Option Semaphore
create ok init_val = if ok then some (initial init_val) else none

-- `iosem_wait`
unfoldable pub wait : Handler → Semaphore → Service → Errcode × Semaphore × Service
wait hnd sem s =
    if ltb_ℤ (pos 0) sem.sem_val
    then (let (errc, s') = post hnd s in (errc, record sem { sem_val = sem.sem_val -ℤ pos 1 }, s'))
    else if granted s
    then (eio_ok, record sem { handler_list = hnd ∷ sem.handler_list }, allocated s)
    else (eio_nomem, sem, allocated s)

signal_list : List Handler → Semaphore → Service → Errcode × Semaphore × Service
signal_list [] sem s = (eio_ok, record sem { sem_val = sem.sem_val +ℤ pos 1 }, s)
signal_list (to_sched ∷ rest) sem s =
    let (errc, s') = post to_sched s in (errc, record sem { handler_list = rest }, s')

-- `iosem_signal`
unfoldable pub signal : Semaphore → Service → Errcode × Semaphore × Service
unfolding signal_list
signal sem s =
    if ltb_ℤ sem.sem_val (pos 0)
    then (eio_ok, record sem { sem_val = sem.sem_val +ℤ pos 1 }, s)
    else signal_list sem.handler_list sem s

post_all : List Handler → Service → Service
post_all [] s = s
post_all (hnd ∷ rest) s = post_all rest (post hnd s).1

-- `iosem_delete`: the service after the loop that posts the waiting handlers.
unfoldable pub delete : Semaphore → Service → Service
unfolding post_all
delete sem s = post_all sem.handler_list s
