-- ===== src/Service/Post.antt =====
-- src/iosvc_post.c: posting a handler to run at once, or after a delay.
pub mod Laws
pub mod Delayed
use io_engine.Base.{
  ℕ, ◌-◌, Bool, true, false, not, ◌&&◌, ◌||◌, Option, none, some, length, ◌==◌, if◌then◌else◌,
}
use io_engine.Base.Int.{ℤ, pos, ◌+ℤ◌, ltb_ℤ}
use io_engine.Types.{Ptr, null, Handler, Errcode, eio_ok, eio_stopped, eio_invarg, eio_nomem}
use io_engine.Cbuffer
use io_engine.Dynarray
use io_engine.Dynarray.{Dynarray}
use io_engine.Heap.{sift_up}
use io_engine.Service.{
  Service, Status, ready, running, stopping, done, DelayEntry, granted, allocated,
}
use io_engine.Service.Timers.{blank_delay, delay_heap}

-- `status == READY || status == RUNNING`
unfoldable pub accepts : Status → Bool
accepts ready = true
accepts running = true
accepts stopping = false
accepts done = false

-- The service after a call of `cbuf_push` that asked for memory or not.
unfoldable pub after_push : Service → Service
after_push s = if Cbuffer.is_full s.sync_handlers then allocated s else s

-- `iosvc_post`
unfoldable pub post : Handler → Service → Errcode × Service
post hnd s =
    if not (accepts s.status)
    then (eio_stopped, s)
    else if hnd.callback == null
    then (eio_invarg, s)
    else elim (Cbuffer.push (granted s) s.sync_handlers) [
      | none ↦ (eio_nomem, after_push s)
      | some (slot, c) ↦
          (eio_ok, record (after_push s) { sync_handlers = Cbuffer.store slot hnd c })
    ]

-- The service after a call of `dynarr_emplace_back` on the given array.
unfoldable pub after_emplace {ℓ} : {A : Type ℓ} → Dynarray A → Service → Service
after_emplace d s = if length d.items == d.capacity then allocated s else s

-- `iosvc_post_delay`, at the time `now`. The handler and its status variable go into the heap.
unfoldable pub post_delay : ℤ → Handler → Ptr → ℤ → Service → Errcode × Service
post_delay now hnd status milliseconds s =
    let deadline = now +ℤ milliseconds in
    let heap = s.timed_handlers in
    let ent : DelayEntry = record { deadline = deadline; handler = hnd; status = status } in
    if (hnd.callback == null) || ltb_ℤ milliseconds (pos 0)
    then (eio_invarg, s)
    else if not (accepts s.status)
    then (eio_stopped, s)
    else elim (Dynarray.emplace_back (granted s) blank_delay heap) [
      | none ↦ (eio_nomem, after_emplace heap s)
      | some (idx, d) ↦ (
        eio_ok,
        record (after_emplace heap s) {
          timed_handlers = sift_up delay_heap (Dynarray.store idx ent d) idx;
        },
      )
    ]
