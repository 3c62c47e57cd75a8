-- ===== src/Rbtree/Node.antt =====
-- src/rbnode.h: what a node of the tree holds.
use io_engine.Base.{Bool, true, Option, none, some, ℕ}
use io_engine.Base.Int.{ℤ, pos}
use io_engine.Types.{Ptr, null, WaitType, wait_read, wait_write, wait_exception, Handler}

-- `event_data`. `status` may be `NULL`; `ddl_heap_idx` is -1 for an event with no deadline.
pub record EventData : Type 0 where
  pub handler : Handler
  pub status : Ptr
  pub ddl_heap_idx : ℤ

-- The type of `main_ev_type`.
pub data EvType : Type 0 where
  empty read write : EvType

-- `rb_node`. The word `meta` is kept as the parent pointer and the colour bit that it packs.
-- `aux_event` and `ex_event` own what they point to.
pub record RbNode : Type 0 where
  pub parent : Ptr
  pub red : Bool
  pub left : Ptr
  pub right : Ptr
  pub fd : ℤ
  pub main_ev_type : EvType
  pub pollfd_idx : ℕ
  pub main_event : EventData
  pub aux_event : Option EventData
  pub ex_event : Option EventData

abbrev pub no_handler : Handler
no_handler = record { callback = null; ctx = null }

-- What `calloc` leaves in an `event_data`.
abbrev pub zero_event : EventData
zero_event = record { handler = no_handler; status = null; ddl_heap_idx = pos 0 }

-- The contents that `make_rbnode` gives to a node.
unfoldable pub make_rbnode : ℤ → RbNode
make_rbnode fd = record {
  parent = null;
  red = true;
  left = null;
  right = null;
  fd = fd;
  main_ev_type = empty;
  pollfd_idx = 0;
  main_event = zero_event;
  aux_event = none;
  ex_event = none;
}

-- Which of a node's three places for event data a pointer points to.
pub data Slot : Type 0 where
  main aux ex : Slot

unfoldable pub slot_data : RbNode → Slot → Option EventData
slot_data n main = some n.main_event
slot_data n aux = n.aux_event
slot_data n ex = n.ex_event

-- A write through a pointer to event data; nothing is written where none is stored.
unfoldable pub set_slot : RbNode → Slot → EventData → RbNode
set_slot n main d = record n { main_event = d }
set_slot n aux d = record n { aux_event = some d }
set_slot n ex d = record n { ex_event = some d }

unfoldable pub rd_wr_slot : EvType → WaitType → Option Slot
rd_wr_slot _ wait_exception = some ex
rd_wr_slot empty _ = none
rd_wr_slot read wait_read = some main
rd_wr_slot write wait_write = some main
rd_wr_slot _ _ = some aux

-- `get_evt_data`: where the event data for a wait type stands. A place that holds no data is a
-- null pointer, which `slot_data` tells.
unfoldable pub get_evt_data : RbNode → WaitType → Option Slot
unfolding rd_wr_slot
get_evt_data n t = rd_wr_slot n.main_ev_type t
