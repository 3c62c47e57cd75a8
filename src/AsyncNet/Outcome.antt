-- ===== src/AsyncNet/Outcome.antt =====
-- What the clients of src/async_net.c learn.
use io_engine.Base.{
  ◌≡◌, ◌≢◌, ◌⊎◌, ◌↔◌, inl, inr, refl, false, true, Bool-cases, not, ◌&&◌, ◌||◌, some, none, Bool,
  arith,
}
use io_engine.Base.Int.{ℤ, pos, negsuc, ◌==ℤ◌}
use io_engine.Types.{Ptr, Handler, Errcode, eio_ok, eio_syserr, eio_nomem}
use io_engine.Service.{Service, granted, allocated, write_at}
use io_engine.AsyncRdwr.{is_ok, set_errc}
use io_engine.AsyncNet.{ConnCtx, connect_impl, ConnectAnswers, async_connect, start_connect}

abbrev fails_late : ℤ → ℤ → Errcode → Bool
fails_late option conn_rc errc = is_ok errc && (not (option ==ℤ pos 0) || not (conn_rc ==ℤ pos 0))

abbrev fcntl_fails : ConnectAnswers → Bool
fcntl_fails os = (os.get_flags ==ℤ negsuc 0) || (os.set_flags ==ℤ negsuc 0)

-- `connect_impl` calls the client's handler with a status of `EIO_OK` exactly if waiting ended well,
-- the socket's option could be read, and it tells no error. Where waiting did not end well the status
-- stays what it was.
pub connect_impl_lem :
    (option conn_rc : ℤ) (ctx : ConnCtx) (s : Service)
    → (u : Service) × (connect_impl option conn_rc ctx s ≡ some (ctx.hnd, u))
      × ((u.statuses ctx.errc ≡ eio_ok)
          ↔ ((s.statuses ctx.errc ≡ eio_ok) × (option ≡ pos 0) × (conn_rc ≡ pos 0)))
      × ((s.statuses ctx.errc ≡ eio_ok) ⊎ (u ≡ s))
unfolding connect_impl is_ok set_errc
connect_impl_lem option conn_rc ctx s =
    elim (Bool-cases (fails_late option conn_rc (s.statuses ctx.errc))) [
      | inl e ↦ (
        record s { statuses = write_at s.statuses ctx.errc eio_syserr },
        ground arith,
        (λ h. ground arith, λ h. ground arith),
        ground arith,
      )
      | inr e ↦ (s, ground arith, (λ h. ground arith, λ h. ground arith), inr refl)
    ]

-- How `async_connect` ends with no context: which error code it answers, in which service, by
-- what failed first. Each line is a step of `async_connect` and takes the earlier ones to succeed.
abbrev pub Fails : ConnectAnswers → Service → Errcode → Service → Type 0
Fails os s code u =
    (((os.get_flags ≡ negsuc 0) ⊎ (os.set_flags ≡ negsuc 0)) × (code ≡ eio_syserr) × (u ≡ s))
    ⊎ ((os.get_flags ≢ negsuc 0)
        × (os.set_flags ≢ negsuc 0)
        × (((granted s ≡ false) × (code ≡ eio_nomem) × (u ≡ allocated s))
            ⊎ ((granted s ≡ true)
                × (os.connected ≡ negsuc 0)
                × (os.in_progress ≡ false)
                × (code ≡ eio_syserr)
                × (u ≡ allocated s))))

-- Where `fcntl` or the allocation fails, or `connect` fails at once, `async_connect` schedules
-- nothing and the client has no context. It answers `EIO_SYSERR` on the same service if `fcntl`
-- fails; else `EIO_NOMEM` if the allocation is refused, which is counted; else `EIO_SYSERR`, where
-- the allocation is counted too and `connect` failed with another error than `EINPROGRESS`.
pub async_connect_errors :
    (os : ConnectAnswers) (sockfd : ℤ) (hnd : Handler) (errc impl : Ptr) (s : Service)
    → (os.get_flags ≡ negsuc 0)
      ⊎ ((os.set_flags ≡ negsuc 0)
          ⊎ ((granted s ≡ false) ⊎ ((os.connected ≡ negsuc 0) × (os.in_progress ≡ false))))
    → (code : Errcode) × (u : Service) × (async_connect os sockfd hnd errc impl s
        ≡ some ((code, none), u))
      × Fails os s code u
unfolding async_connect start_connect
async_connect_errors os sockfd hnd errc impl s h = elim (Bool-cases (fcntl_fails os)) [
  | inl f ↦ (eio_syserr, s, ground arith, inl (ground arith))
  | inr f ↦ elim (Bool-cases (granted s)) [
    | inl g ↦ (eio_syserr, allocated s, ground arith, ground arith)
    | inr g ↦ (eio_nomem, allocated s, ground arith, ground arith)
  ]
]
