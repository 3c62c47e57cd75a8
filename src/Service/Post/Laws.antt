-- ===== src/Service/Post/Laws.antt =====
-- What `iosvc_post` does on each of its branches.
use io_engine.Base.{length, ◌⊎◌, ◌≡◌, refl, ◌≢◌, ◌↔◌, true, false, List, [], ◌∷◌, ◌++◌, arith, ◌==◌}
use io_engine.Types.{null, Handler, eio_ok, eio_stopped, eio_invarg, eio_nomem}
use io_engine.Cbuffer.Queue.{Represents, push-Represents, push-none, is_full-Represents}
use io_engine.Cbuffer.Refine.{Room}
use io_engine.Service.{Status, ready, running, stopping, done, Service, granted, allocated}
use io_engine.Service.Post.{post, accepts, after_push}

-- A handler with a callback, posted to a service that accepts work and has the memory that a
-- full queue asks for, is accepted and stands at the end of the queue.
pub post-Represents :
    (hnd : Handler) (s : Service) (q : List Handler)
    → Represents s.sync_handlers q
    → accepts s.status ≡ true
    → hnd.callback ≢ null
    → Room (granted s) s.sync_handlers
    → ((post hnd s).0 ≡ eio_ok) × Represents (post hnd s).1.sync_handlers (q ++ hnd ∷ [])
unfolding post
post-Represents hnd s q r a h room =
    let (slot, c, e, k) = push-Represents (granted s) s.sync_handlers q hnd r room in
    let ne : (hnd.callback == null) ≡ false = ground arith in (rw (a, ne, e) refl, rw (a, ne, e) k)

-- The states of a service that takes no posts, and of one that does.
abbrev pub Stopped : Status → Type 0
Stopped status = (status ≡ stopping) ⊎ (status ≡ done)

abbrev pub Open : Status → Type 0
Open status = (status ≡ ready) ⊎ (status ≡ running)

-- `iosvc_post`, on a service whose buffer represents a queue, answers `EIO_STOPPED` exactly if the
-- service is stopping or done, `EIO_INVARG` exactly if it is ready or running and the callback is
-- `NULL`, and `EIO_NOMEM` exactly if it is ready or running, there is a callback, the queue has as
-- many handlers as the buffer has cells, and the allocation is refused. Each time the service is as
-- before, but that for `EIO_NOMEM` the allocation is counted.
pub post_errors :
    (hnd : Handler) (s : Service) (q : List Handler)
    → Represents s.sync_handlers q
    → (((post hnd s).0 ≡ eio_stopped) ↔ Stopped s.status)
      × (((post hnd s).0 ≡ eio_invarg) ↔ (Open s.status × (hnd.callback ≡ null)))
      × (((post hnd s).0 ≡ eio_nomem) ↔ (
          Open s.status
          × (hnd.callback ≢ null)
          × (length q ≡ s.sync_handlers.limit)
          × (granted s ≡ false)))
      × ((post hnd s).0 ≢ eio_ok → (post hnd s).0 ≢ eio_nomem → (post hnd s).1 ≡ s)
      × ((post hnd s).0 ≡ eio_nomem → (post hnd s).1 ≡ allocated s)
unfolding post after_push accepts
post_errors hnd s q r =
    let (refused, refuses) = push-none (granted s) s.sync_handlers q r in
    let full = is_full-Represents s.sync_handlers q r in
    (
      (λ h. ground arith, λ h. ground arith),
      (λ h. ground arith, λ h. ground arith),
      (λ h. ground (arith, refused), λ h. ground (arith, refuses)),
      λ h k. ground arith,
      λ h. ground (arith, refused, full),
    )
