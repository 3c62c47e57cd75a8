-- ===== src/Semaphore/Laws.antt =====
-- What the semaphore does with the handlers that it is given.
use io_engine.Base.{◌≡◌, true, [], arith}
use io_engine.Base.Int.{pos, ◌≤ℤ◌, ◌+ℤ◌, ◌-ℤ◌}
use io_engine.Types.{Handler, eio_ok}
use io_engine.Service.{Service, granted, allocated}
use io_engine.Service.Post.{post}
use io_engine.Semaphore.{Semaphore, wait, signal}

-- A signal that finds no waiter is kept for a later wait: the two leave the semaphore as it was,
-- and the wait posts its handler.
pub wait-signal :
    (hnd : Handler) (sem : Semaphore) (s : Service)
    → pos 0 ≤ℤ sem.sem_val
    → sem.handler_list ≡ []
    → ((signal sem s).0 ≡ eio_ok)
      × (wait hnd (signal sem s).1 (signal sem s).2 ≡ ((post hnd s).0, sem, (post hnd s).1))
unfolding wait signal ◌+ℤ◌ ◌-ℤ◌
wait-signal hnd sem s p e = ground arith

-- A wait that has to wait, with memory granted, followed by a signal posts the handler that
-- waited last.
pub signal-wait :
    (hnd : Handler) (sem : Semaphore) (s : Service)
    → sem.sem_val ≡ pos 0
    → granted s ≡ true
    → ((wait hnd sem s).0 ≡ eio_ok)
      × (signal (wait hnd sem s).1 (wait hnd sem s).2
          ≡ ((post hnd (allocated s)).0, sem, (post hnd (allocated s)).1))
unfolding wait signal
signal-wait hnd sem s p e = ground arith
