-- ===== src/Service/Control.antt =====
-- The life cycle: src/iosvc_cdtor.c, and `iosvc_stop` and `iosvc_reset` of src/io_service.c.
use io_engine.Base.{ℕ, Bool, Option, none, some, if◌then◌else◌}
use io_engine.Base.Int.{ℤ}
use io_engine.Types.{Ptr, null, Errcode, eio_ok, eio_inprogress, eio_noentry}
use io_engine.Cbuffer
use io_engine.Dynarray
use io_engine.Service.{Service, Status, ready, running, stopping, done}

-- What `iosvc_create` writes to the service that it got, in a memory with the given variables and
-- allocator.
unfoldable pub initial : (Ptr → Errcode) → (Ptr → ℤ) → (ℕ → Ptr) → Service
initial statuses remaining allocator = record {
  sync_handlers = Cbuffer.init;
  timed_handlers = Dynarray.init;
  pollfds = Dynarray.init;
  timed_events = Dynarray.init;
  tree = record { cells = λ p. none; root = null };
  status = ready;
  statuses = statuses;
  remaining = remaining;
  allocator = allocator;
  allocs = 0;
}

-- `iosvc_create`, by what `malloc` answers: the service, or `none` for `NULL`.
unfoldable pub create : Bool → (Ptr → Errcode) → (Ptr → ℤ) → (ℕ → Ptr) → Option Service
create ok statuses remaining allocator =
    if ok then some (initial statuses remaining allocator) else none

stop_status : Status → Errcode × Status
stop_status running = (eio_ok, stopping)
stop_status stopping = (eio_inprogress, stopping)
stop_status ready = (eio_noentry, ready)
stop_status done = (eio_noentry, done)

-- `iosvc_stop`
unfoldable pub stop : Service → Errcode × Service
unfolding stop_status
stop s = let (errc, status) = stop_status s.status in (errc, record s { status = status })

reset_status : Status → Errcode × Status
reset_status running = (eio_inprogress, running)
reset_status stopping = (eio_inprogress, stopping)
reset_status ready = (eio_ok, ready)
reset_status done = (eio_ok, ready)

-- `iosvc_reset`
unfoldable pub reset : Service → Errcode × Service
unfolding reset_status
reset s = let (errc, status) = reset_status s.status in (errc, record s { status = status })
