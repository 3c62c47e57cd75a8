-- ===== src/Service/Masks.antt =====
-- The event flags of a pollfd stand for the set of the events that are scheduled: what
-- src/iosvc_sched.c adds to them and what src/iosvc_dequeue.c takes away.
use io_engine.Base.{◌≡◌, fun_ext, ◌↔◌, Bool, true, false, ◌&&◌, ◌||◌, arith, if◌then◌else◌}
use io_engine.Types.{WaitType, wait_read, wait_write, wait_exception}
use io_engine.Flags.{Flags, union, minus, meet, any}
use io_engine.Service.Reserve.{evt_mask}
use io_engine.Service.Dequeue.{clear_events, dequeue_mask, only_pollerr}
use io_engine.Service.Slots.{same}

-- What a pollfd asks for when the events of a set are scheduled.
unfoldable pub events_of : (WaitType → Bool) → Flags
unfolding evt_mask
events_of s f =
    (s wait_read && evt_mask wait_read f)
    || ((s wait_write && evt_mask wait_write f) || (s wait_exception && evt_mask wait_exception f))

-- A set of wait types with one put in or taken out.
unfoldable pub put : WaitType → Bool → (WaitType → Bool) → WaitType → Bool
put w b s v = if same w v then b else s v

-- Scheduling an event adds its mask: the flags are then those of the greater set. Taking it out
-- clears flags of its kind, and `POLLERR` where neither read nor write is left: the flags are then
-- those of the smaller set. The flags are zero, so that the node is removed, exactly when no event
-- is scheduled.
pub clear_events-events_of :
    (s : WaitType → Bool) (w : WaitType)
    → (union (events_of s) (evt_mask w) ≡ events_of (put w true s))
      × (clear_events w (events_of s) ≡ events_of (put w false s))
      × ((any (events_of s) ≡ false) ↔ ((v : WaitType) → s v ≡ false))
unfolding clear_events dequeue_mask only_pollerr events_of put same union minus meet any
clear_events-events_of s w = (
  fun_ext λ f. ground arith,
  fun_ext λ f. ground arith,
  (λ h v. ground arith, λ h. ground (arith, h wait_read, h wait_write, h wait_exception)),
)
