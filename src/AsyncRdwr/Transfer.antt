-- ===== src/AsyncRdwr/Transfer.antt =====
-- The byte counts of `rw_impl` and `rw_some_impl`.
use io_engine.Base.{
  ◌+◌, ◌-◌, ◌≤◌, ◌≡◌, ap, inl, inr, Bool, true, false, arith, Option, none, some, Bool-cases, ltb,
  ◌==◌, if◌then◌else◌,
}
use io_engine.Base.Int.{ℤ, pos, pos_part, ltb_ℤ, ◌==ℤ◌}
use io_engine.Types.{Ptr, Errcode, eio_ok, eio_syserr, eio_eof}
use io_engine.Service.{Service}
use io_engine.Service.Monad.{Cmd, pure, ◌>>◌}
use io_engine.AsyncRdwr.{RwCtx, is_ok, set_errc, advance, reschedule, rw_impl}

-- Nothing is lost between the bytes that are done and those that are left.
pub record Conserved (ctx ctx' : RwCtx) : Type 0 where
  pub total : ctx'.transferred + ctx'.nbytes ≡ ctx.transferred + ctx.nbytes
  pub place : ctx'.buf + ctx'.nbytes ≡ ctx.buf + ctx.nbytes
  pub same_errc : ctx'.errc ≡ ctx.errc

reschedule_lem :
    (impl : Ptr) (ctx ctx' : RwCtx) (done : Bool) (s s' : Service)
    → reschedule impl ctx s ≡ some ((ctx', done), s')
    → (ctx' ≡ ctx) × (done ≡ true → is_ok (s'.statuses ctx.errc) ≡ false)
unfolding reschedule set_errc
reschedule_lem impl ctx ctx' done s s' h = ground arith

-- The status that a service, the result of a command, holds at an address.
status_at : Ptr → Option ((RwCtx × Bool) × Service) → Errcode
status_at p none = eio_ok
status_at p (some (l, s)) = s.statuses p

-- The end of a callback on an error of the system.
abbrev finish : RwCtx → Errcode → Cmd (RwCtx × Bool)
finish ctx errc = do set_errc ctx.errc errc; pure (ctx, true)

ended :
    (ctx ctx' : RwCtx) (done : Bool) (s s' : Service) (result : ℤ)
    → finish ctx (if result ==ℤ pos 0 then eio_eof else eio_syserr) s ≡ some ((ctx', done), s')
    → is_ok (s'.statuses ctx.errc) ≡ true
    → ⊥
unfolding set_errc is_ok status_at
ended ctx ctx' done s s' result h k =
    let e : (if ctx.errc == ctx.errc
          then (if result ==ℤ pos 0 then eio_eof else eio_syserr)
          else s.statuses ctx.errc)
        ≡ s'.statuses ctx.errc =
      ap (status_at ctx.errc) h in
    ground (arith, e)

-- One callback of `rw_impl`, `read` or `write` having moved at most what was asked for: it keeps
-- the sum of the bytes done and left, and their place in the buffer; and where it ends the
-- operation with the status `EIO_OK`, nothing is left.
pub rw_impl-Conserved :
    (impl : Ptr) (result : ℤ) (ctx ctx' : RwCtx) (done : Bool) (s s' : Service)
    → pos_part result ≤ ctx.nbytes
    → rw_impl impl result ctx s ≡ some ((ctx', done), s')
    → Conserved ctx ctx' × (done ≡ true → is_ok (s'.statuses ctx.errc) ≡ true → ctx'.nbytes ≡ 0)
unfolding rw_impl set_errc advance
rw_impl-Conserved impl result ctx ctx' done s s' p h =
    elim (Bool-cases (is_ok (s.statuses ctx.errc))) [
      | inr bad ↦ (
        record { total = ground arith; place = ground arith; same_errc = ground arith },
        λ e k. ground arith,
      )
      | inl good ↦ elim (Bool-cases (ltb_ℤ (pos 0) result)) [
        | inr stop ↦ (
          record { total = ground arith; place = ground arith; same_errc = ground arith },
          λ e k. absurd (ended ctx ctx' done s s' result (rw (good, stop) at h) k),
        )
        | inl more ↦ elim (Bool-cases (ltb 0 (ctx.nbytes - pos_part result))) [
          | inl left ↦
              let again : reschedule impl (advance (pos_part result) ctx) s
                  ≡ some ((ctx', done), s') =
                rw (good, more, left) at h in
              let r = reschedule_lem impl (advance (pos_part result) ctx) ctx' done s s' again in
              (
                record { total = ground arith; place = ground arith; same_errc = ground arith },
                λ e k. absurd (ground (arith, r.1 e)),
              )
          | inr all ↦ (
            record { total = ground arith; place = ground arith; same_errc = ground arith },
            λ e k. ground arith,
          )
        ]
      ]
    ]
