-- ===== src/Service.antt =====
-- src/iosvc_def.h: the state of the service, with the memory around it that its operations touch.
pub mod Monad
pub mod Timers
pub mod Post
pub mod Control
pub mod Destroy
pub mod Reserve
pub mod Enqueue
pub mod Dequeue
pub mod Cancel
pub mod Slots
pub mod Masks
pub mod Refusals
pub mod Untimed
pub mod Cancelled
pub mod Run
pub mod Stop
pub mod Loop
use io_engine.Base.{ℕ, ◌+◌, Bool, ◌==◌, not, if◌then◌else◌}
use io_engine.Base.Int.{ℤ}
use io_engine.Types.{Ptr, null, WaitType, Errcode, Handler}
use io_engine.Flags.{Flags}
use io_engine.Cbuffer.{Cbuffer}
use io_engine.Dynarray.{Dynarray}
use io_engine.Rbtree.Store.{Tree}

-- `delay_heap_entry` of src/delay_heap_entry.h
pub record DelayEntry : Type 0 where
  pub deadline : ℤ
  pub handler : Handler
  pub status : Ptr

-- `async_heap_entry` of src/async_heap_entry.h
pub record AsyncEntry : Type 0 where
  pub deadline : ℤ
  pub remaining : Ptr
  pub io_op_data : Ptr
  pub event_type : WaitType

-- `struct pollfd` of <poll.h>
pub record PollFd : Type 0 where
  pub fd : ℤ
  pub events : Flags
  pub revents : Flags

-- The life cycle of a service.
pub data Status : Type 0 where
  ready running stopping done : Status

-- `io_service`. `tree` is `async_handlers` with the nodes it reaches; `statuses` and `remaining`
-- are the variables that callers passed by address; `allocator` is what the allocation of each
-- number answers, `NULL` for a refusal, and `allocs` counts the allocations so far.
pub record Service : Type 0 where
  pub sync_handlers : Cbuffer Handler
  pub timed_handlers : Dynarray DelayEntry
  pub pollfds : Dynarray PollFd
  pub timed_events : Dynarray AsyncEntry
  pub tree : Tree
  pub status : Status
  pub statuses : Ptr → Errcode
  pub remaining : Ptr → ℤ
  pub allocator : ℕ → Ptr
  pub allocs : ℕ

-- What the next allocation answers, and whether it succeeds.
unfoldable pub next_block : Service → Ptr
next_block s = s.allocator s.allocs

unfoldable pub granted : Service → Bool
granted s = not (next_block s == null)

-- The service after one more allocation.
unfoldable pub allocated : Service → Service
allocated s = record s { allocs = s.allocs + 1 }

-- The variable at address `p` gets the value `v`.
abbrev pub write_at {ℓ} : {A : Type ℓ} → (Ptr → A) → Ptr → A → Ptr → A
write_at f p v q = if p == q then v else f q
