-- ===== src/Service/Run/Drain.antt =====
-- `run_sync_handlers` of src/io_service.c calls the posted handlers first in, first out.
use io_engine.Base.{ℕ, suc, ◌≡◌, refl, ◌∙◌, false, some, List, [], ◌∷◌, ◌++◌, length, arith}
use io_engine.Types.{Handler}
use io_engine.Cbuffer
use io_engine.Cbuffer.Queue.{Represents, pop-Represents, size-Represents}
use io_engine.Service.{Service}
use io_engine.Service.Monad.{Cmd}
use io_engine.Service.Run.{run_sync_handlers}

module _ (call : Handler → Cmd (Unit {0})) where
  -- From the service `s` with the handlers `q` posted, the calls `hs` in this order lead to `t`
  -- with none posted: each call is of the oldest handler, and what the call posts comes after all
  -- that was posted before.
  pub data Drains : List Handler → Service → List Handler → Service → Type 0 where
    drained : {s : Service} → Drains [] s [] s
    called :
        {h : Handler} {q hs : List Handler} {s t : Service} (new : List Handler) (s1 : Service)
        → call h s ≡ some (tt, s1)
        → Represents s1.sync_handlers (h ∷ q ++ new)
        → Drains (q ++ new) (record s1 { sync_handlers = Cbuffer.pop s1.sync_handlers }) hs t
        → Drains (h ∷ q) s (h ∷ hs) t

  run_step :
      (fuel : ℕ) (s s1 : Service) (h : Handler)
      → Cbuffer.empty s.sync_handlers ≡ false
      → Cbuffer.front s.sync_handlers ≡ some h
      → call h s ≡ some (tt, s1)
      → run_sync_handlers call (suc fuel) s
        ≡ run_sync_handlers call fuel (record s1 { sync_handlers = Cbuffer.pop s1.sync_handlers })
  unfolding run_sync_handlers
  run_step fuel s s1 h e f c = rw (e, f, c) refl

  run_none :
      (s : Service) → Represents s.sync_handlers [] → run_sync_handlers call 1 s ≡ some (tt, s)
  unfolding run_sync_handlers
  run_none s r = rw ((size-Represents s.sync_handlers [] r).1) refl

  -- Where the calls of the handlers that are posted, and of those that they post in turn, come to
  -- an end after `hs`, `run_sync_handlers` makes these calls in this order and leaves the queue
  -- empty; one round more than there are calls is enough.
  pub run_sync_handlers-Drains :
      {q hs : List Handler} {s t : Service}
      → Represents s.sync_handlers q
      → Drains q s hs t
      → (run_sync_handlers call (suc (length hs)) s ≡ some (tt, t)) × Represents t.sync_handlers []
  run_sync_handlers-Drains {s = s} r drained = (run_none s r, r)
  run_sync_handlers-Drains {q = h ∷ q} {hs = h' ∷ hs} {s = s} r (called new s1 c k d) =
      let size = (size-Represents s.sync_handlers _ r).1 ∙ ground arith in
      let (e, rest) = run_sync_handlers-Drains (pop-Represents s1.sync_handlers _ _ k).1 d in
      (run_step (suc (length hs)) s s1 _ size (pop-Represents s.sync_handlers _ _ r).0 c ∙ e, rest)
