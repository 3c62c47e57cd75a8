-- ===== src/Tests/Nodes.antt =====
-- Nodes and the events in them.
use io_engine.Base.{◌≡◌, refl, ◌↔◌, Bool, true, false, none, some, arith}
use io_engine.Base.Int.{pos, negsuc}
use io_engine.Types.{null, Event, wait_read, wait_write}
use io_engine.Rbtree.Node.{
  RbNode, EventData, empty, read, main, aux, zero_event, set_slot, get_evt_data, rd_wr_slot,
  slot_data,
}
use io_engine.Service.Reserve.{
  reserve_slot, is_scheduled, reserve_by_type, reserve_aux, take_storage, is_some,
}
use io_engine.Service.Slots.{
  IsNode, view, live, same, vacate, reserve_slot-view, reserve_slot-none, vacate-view,
  is_scheduled-view,
}
use io_engine.Tests.Samples.{handler}

abbrev datum : EventData
datum = record { handler = handler; status = 0; ddl_heap_idx = negsuc 0 }

-- A node that waits to be read.
abbrev reader : RbNode
reader = record {
  parent = null;
  red = false;
  left = null;
  right = null;
  fd = pos 4;
  main_ev_type = read;
  pollfd_idx = 0;
  main_event = datum;
  aux_event = none;
  ex_event = none;
}

reader-IsNode : IsNode reader
unfolding live
reader-IsNode = record { no_main = λ e. ground arith; no_aux = λ e. ground arith }

reserve_slot-view_example :
    view (set_slot (reserve_slot zero_event true wait_write reader).1 aux datum) wait_read
    ≡ some datum
unfolding view live get_evt_data rd_wr_slot slot_data reserve_slot reserve_by_type reserve_aux
    take_storage is_some same
reserve_slot-view_example =
    reserve_slot-view zero_event true wait_write wait_read reader datum aux reader-IsNode (λ e. cc)
      refl refl

reserve_slot-none_example :
    (◌≡◌ {A = Bool} false false)
    × (view (reserve_slot zero_event false wait_write reader).1 wait_read ≡ view reader wait_read)
unfolding reserve_slot reserve_by_type reserve_aux take_storage is_some
reserve_slot-none_example =
    reserve_slot-none zero_event false wait_write wait_read reader reader-IsNode refl

vacate-view_example :
    (view (vacate main datum reader) wait_read ≡ none)
    × IsNode (vacate main datum reader)
    × (view (vacate main datum reader) wait_read ≡ none
        → view (vacate main datum reader) wait_write ≡ none
        → (vacate main datum reader).main_ev_type ≡ empty)
unfolding get_evt_data rd_wr_slot slot_data same
vacate-view_example = vacate-view wait_read wait_read reader main datum reader-IsNode refl refl

abbrev read_event : Event
read_event = record { fd = pos 4; wait_type = wait_read }

is_scheduled-view_example :
    (is_scheduled reader read_event ≡ false) ↔ (view reader wait_read ≡ none)
is_scheduled-view_example = is_scheduled-view reader read_event
