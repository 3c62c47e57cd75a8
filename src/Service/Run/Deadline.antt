-- ===== src/Service/Run/Deadline.antt =====
-- What `next_deadline` of src/io_service.c finds.
use io_engine.Base.{◌≡◌, true, false, Bool, Option, none, some, arith, if◌then◌else◌}
use io_engine.Base.Int.{ℤ, pos, negsuc, ◌≤ℤ◌}
use io_engine.Dynarray
use io_engine.Service.{Service, DelayEntry, AsyncEntry}
use io_engine.Service.Run.{next_deadline}

-- A delayed handler, if there is one, has a deadline that is not negative.
unfoldable pub NotNegative : Option DelayEntry → Type 0
NotNegative none = Unit
NotNegative (some h) = pos 0 ≤ℤ h.deadline

-- A deadline, and whether it is an event's, is the earliest of the tops of the two heaps.
unfoldable pub IsEarliest : ℤ × Bool → Option DelayEntry → Option AsyncEntry → Type 0
IsEarliest r none none = r.0 ≡ negsuc 0
IsEarliest r (some h) none = (r.0 ≡ h.deadline) × (r.1 ≡ false)
IsEarliest r none (some e) = (r.0 ≡ e.deadline) × (r.1 ≡ true)
IsEarliest r (some h) (some e) =
    (r.0 ≤ℤ h.deadline) × (r.0 ≤ℤ e.deadline) × (r.0 ≡ (if r.1 then e.deadline else h.deadline))

-- Where the earliest delayed handler has a deadline that is not negative, `next_deadline` answers
-- the earlier of the deadlines at the tops of both heaps and tells whether it is an event's, and
-- answers -1 when both heaps are empty.
pub next_deadline_lem :
    (s : Service)
    → NotNegative (Dynarray.front s.timed_handlers)
    → IsEarliest
        (next_deadline false s)
        (Dynarray.front s.timed_handlers)
        (Dynarray.front s.timed_events)
unfolding next_deadline NotNegative IsEarliest
next_deadline_lem s h = ground arith
