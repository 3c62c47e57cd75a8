-- ===== src/Service/Timers.antt =====
-- src/delay_heap_entry.c and src/async_heap_entry.c: comparison and exchange in the two deadline
-- heaps, as the heap routines take them.
use io_engine.Base.{ℕ, Bool, Option, none, some, get_or, set}
use io_engine.Base.Int.{ℤ, pos, ltb_ℤ}
use io_engine.Types.{Ptr, null, WaitType, wait_read}
use io_engine.Dynarray
use io_engine.Dynarray.{Dynarray}
use io_engine.Heap.{HeapOps}
use io_engine.Rbtree.Node.{EventData, Slot, no_handler, slot_data, set_slot, get_evt_data}
use io_engine.Rbtree.Store.{Tree, update}
use io_engine.Service.{DelayEntry, AsyncEntry, Service}

-- What a slot holds before it is written.
abbrev pub blank_delay : DelayEntry
blank_delay = record { deadline = pos 0; handler = no_handler; status = null }

abbrev pub blank_async : AsyncEntry
blank_async = record {
  deadline = pos 0;
  remaining = null;
  io_op_data = null;
  event_type = wait_read;
}

unfoldable pub delay_hp_ent_lt : DelayEntry → DelayEntry → Bool
delay_hp_ent_lt ent1 ent2 = ltb_ℤ ent1.deadline ent2.deadline

abbrev pub delay_at : Dynarray DelayEntry → ℕ → DelayEntry
delay_at d i = get_or d.items i blank_delay

unfoldable pub delay_hp_ent_swp : Dynarray DelayEntry → ℕ → ℕ → Dynarray DelayEntry
delay_hp_ent_swp d i j = record d { items = set (set d.items i (delay_at d j)) j (delay_at d i) }

unfoldable pub delay_heap : HeapOps (Dynarray DelayEntry)
delay_heap = record {
  nelems = Dynarray.size;
  lt = λ d i j. delay_hp_ent_lt (delay_at d i) (delay_at d j);
  swap = delay_hp_ent_swp;
}

unfoldable pub async_hp_ent_lt : AsyncEntry → AsyncEntry → Bool
async_hp_ent_lt ent1 ent2 = ltb_ℤ ent1.deadline ent2.deadline

abbrev pub async_at : Service → ℕ → AsyncEntry
async_at s i = get_or s.timed_events.items i blank_async

-- A pointer to event data: a node and the place in it.
abbrev pub EvtRef : Type 0
EvtRef = Ptr × Slot

-- `get_evt_data` on the node at an address; `none` if there is no node or the result is `NULL`.
unfoldable pub find_evt : Tree → Ptr → WaitType → Option (EvtRef × EventData)
find_evt t p w = elim (t.cells p) [
  | none ↦ none
  | some n ↦ elim (get_evt_data n w) [
    | none ↦ none
    | some slot ↦ elim (slot_data n slot) [ none ↦ none | some d ↦ some ((p, slot), d) ]
  ]
]

-- A change of the event data that a pointer refers to.
unfoldable pub modify_evt : EvtRef → (EventData → EventData) → Tree → Tree
modify_evt (p, slot) f t = elim (t.cells p) [
  | none ↦ t
  | some n ↦ elim (slot_data n slot) [
    | none ↦ t
    | some d ↦ record t { cells = update t.cells p (some (set_slot n slot (f d))) }
  ]
]

-- `ddl_heap_idx` through a pointer to event data.
unfoldable pub set_heap_idx : EvtRef → ℤ → Tree → Tree
set_heap_idx r i = modify_evt r λ d. record d { ddl_heap_idx = i }

-- `async_hp_ent_swp`: exchange two entries, and the positions that their events remember.
unfoldable pub async_hp_ent_swp : Service → ℕ → ℕ → Option Service
async_hp_ent_swp s i j =
    let elem1 = async_at s j in
    let elem2 = async_at s i in
    let events = set (set s.timed_events.items i elem1) j elem2 in
    elim (find_evt s.tree elem1.io_op_data elem1.event_type) [
      | none ↦ none
      | some (evt1, d1) ↦ elim (find_evt s.tree elem2.io_op_data elem2.event_type) [
        | none ↦ none
        | some (evt2, d2) ↦ some (record s {
          timed_events = record { items = events; capacity = s.timed_events.capacity };
          tree = set_heap_idx evt2 d1.ddl_heap_idx (set_heap_idx evt1 d2.ddl_heap_idx s.tree);
        })
      ]
    ]

async_nelems : Option Service → ℕ
async_nelems none = 0
async_nelems (some s) = Dynarray.size s.timed_events

async_lt : Option Service → ℕ → ℕ → Bool
async_lt none i j = Bool.false
async_lt (some s) i j = async_hp_ent_lt (async_at s i) (async_at s j)

async_swap : Option Service → ℕ → ℕ → Option Service
async_swap none i j = none
async_swap (some s) i j = async_hp_ent_swp s i j

-- The heap of timed events; a fault in an exchange stays a fault.
unfoldable pub async_heap : HeapOps (Option Service)
unfolding async_nelems async_lt async_swap
async_heap = record { nelems = async_nelems; lt = async_lt; swap = async_swap }
