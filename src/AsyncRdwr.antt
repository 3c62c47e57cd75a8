-- ===== src/AsyncRdwr.antt =====
-- src/async_rdwr.c: reads and writes that go on until all bytes are moved. What `read` or `write`
-- returns is the argument `result` of the callback that makes the call.
pub mod Transfer
use io_engine.Base.{
  ℕ, ◌+◌, ◌-◌, not, Bool, true, false, Option, none, some, ltb, ◌==◌, if◌then◌else◌,
}
use io_engine.Base.Int.{ℤ, pos, negsuc, pos_part, ltb_ℤ, ◌==ℤ◌}
use io_engine.Types.{
  Ptr, null, WaitType, wait_read, wait_write, Event, Handler, Errcode, eio_ok, eio_nomem,
  eio_syserr, eio_eof,
}
use io_engine.Service.{Service, granted, allocated, next_block, write_at}
use io_engine.Service.Monad.{Cmd, pure, ◌>>=◌, ◌>>◌, get, put}
use io_engine.Service.Enqueue.{sched}

-- `rw_ctx`. `transferred` is the client's variable, `errc` the address of the other one, and
-- `self` the context's own address.
pub record RwCtx : Type 0 where
  pub hnd : Handler
  pub buf : Ptr
  pub nbytes : ℕ
  pub transferred : ℕ
  pub errc : Ptr
  pub fd : ℤ
  pub op_type : WaitType
  pub self : Ptr

unfoldable pub is_ok : Errcode → Bool
is_ok eio_ok = true
is_ok _ = false

-- `*ctx->errc = errc`
unfoldable pub set_errc : Ptr → Errcode → Cmd (Unit {0})
set_errc p errc = do s ← get; put (record s { statuses = write_at s.statuses p errc })

-- What a callback leaves behind: the context, and whether it is done, so that the client's
-- handler is called and the context freed.
abbrev pub Left : Type 0
Left = RwCtx × Bool

-- `rw_some_impl`
unfoldable pub rw_some_impl : ℤ → RwCtx → Cmd Left
rw_some_impl result ctx = do
  s ← get
  if not (is_ok (s.statuses ctx.errc))
      then pure (ctx, true)
      else if ltb_ℤ result (pos 0)
      then (do set_errc ctx.errc eio_syserr; pure (record ctx { transferred = 0 }, true))
      else pure (record ctx { transferred = pos_part result }, true)

-- The counters after `n` more bytes.
unfoldable pub advance : ℕ → RwCtx → RwCtx
advance n ctx = record ctx {
  transferred = ctx.transferred + n;
  nbytes = ctx.nbytes - n;
  buf = ctx.buf + n;
}

-- The part of `rw_impl` that waits for the rest; `impl` is the address of `rw_impl`.
unfoldable pub reschedule : Ptr → RwCtx → Cmd Left
reschedule impl ctx = do
  errc ←
      sched (record { fd = ctx.fd; wait_type = ctx.op_type })
        (record { callback = impl; ctx = ctx.self }) ctx.errc
  if is_ok errc then pure (ctx, false) else do set_errc ctx.errc errc; pure (ctx, true)

-- `rw_impl`
unfoldable pub rw_impl : Ptr → ℤ → RwCtx → Cmd Left
rw_impl impl result ctx = do
  s ← get
  if not (is_ok (s.statuses ctx.errc))
      then pure (ctx, true)
      else if not (ltb_ℤ (pos 0) result)
      then (do
        set_errc ctx.errc (if result ==ℤ pos 0 then eio_eof else eio_syserr)
        pure (ctx, true))
      else if ltb 0 (advance (pos_part result) ctx).nbytes
      then reschedule impl (advance (pos_part result) ctx)
      else pure (advance (pos_part result) ctx, true)

-- `async_rw_sched`: the error code, and the context unless there was no memory for it.
unfoldable pub async_rw_sched :
    ℤ → Ptr → ℕ → Handler → Ptr → WaitType → Ptr → Cmd (Errcode × Option RwCtx)
async_rw_sched fd buf nbytes hnd errc op_type impl = do
  s ← get
  put (allocated s)
  if not (granted s) then pure (eio_nomem, none) else do
    let ctx : RwCtx = record {
      hnd = hnd;
      buf = buf;
      nbytes = nbytes;
      transferred = 0;
      errc = errc;
      fd = fd;
      op_type = op_type;
      self = next_block s;
    }
    code ←
        sched (record { fd = fd; wait_type = op_type })
          (record { callback = impl; ctx = next_block s }) errc
    pure (code, some ctx)

-- The four entry points differ in the wait type and in the callback.
unfoldable pub async_read_some : ℤ → Ptr → ℕ → Handler → Ptr → Ptr → Cmd (Errcode × Option RwCtx)
async_read_some fd buf nbytes hnd errc some_impl =
    async_rw_sched fd buf nbytes hnd errc wait_read some_impl

unfoldable pub async_read : ℤ → Ptr → ℕ → Handler → Ptr → Ptr → Cmd (Errcode × Option RwCtx)
async_read fd buf nbytes hnd errc impl = async_rw_sched fd buf nbytes hnd errc wait_read impl

unfoldable pub async_write_some : ℤ → Ptr → ℕ → Handler → Ptr → Ptr → Cmd (Errcode × Option RwCtx)
async_write_some fd buf nbytes hnd errc some_impl =
    async_rw_sched fd buf nbytes hnd errc wait_write some_impl

unfoldable pub async_write : ℤ → Ptr → ℕ → Handler → Ptr → Ptr → Cmd (Errcode × Option RwCtx)
async_write fd buf nbytes hnd errc impl = async_rw_sched fd buf nbytes hnd errc wait_write impl
