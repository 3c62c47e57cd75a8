-- ===== src/AsyncNet.antt =====
-- src/async_net.c: accepting and making connections. What `accept`, `getsockopt`, `fcntl` and
-- `connect` return are arguments of the calls that make them.
pub mod Outcome
use io_engine.Base.{ℕ, not, Bool, true, false, ◌&&◌, ◌||◌, Option, none, some, if◌then◌else◌}
use io_engine.Base.Int.{ℤ, pos, negsuc, ltb_ℤ, ◌==ℤ◌}
use io_engine.Types.{
  Ptr, WaitType, wait_read, wait_write, Event, Handler, Errcode, eio_ok, eio_nomem, eio_syserr,
}
use io_engine.Service.{Service, granted, allocated, next_block}
use io_engine.Service.Monad.{Cmd, pure, ◌>>=◌, ◌>>◌, get, put, when}
use io_engine.Service.Enqueue.{sched}
use io_engine.AsyncRdwr.{is_ok, set_errc}

-- `accept_ctx`, without the address buffers, which only `accept` uses. `new_sock` is the client's
-- variable, `errc` the address of the other one.
pub record AcceptCtx : Type 0 where
  pub listen_sock : ℤ
  pub hnd : Handler
  pub new_sock : ℤ
  pub errc : Ptr

-- `conn_ctx`
pub record ConnCtx : Type 0 where
  pub sockfd : ℤ
  pub hnd : Handler
  pub errc : Ptr

-- `connect_impl` up to the call of the client's handler, which is the answer. `option` is what
-- `getsockopt` returns and `conn_rc` the error that it stores.
unfoldable pub connect_impl : ℤ → ℤ → ConnCtx → Cmd Handler
connect_impl option conn_rc ctx = do
  s ← get
  when (is_ok (s.statuses ctx.errc) && (not (option ==ℤ pos 0) || not (conn_rc ==ℤ pos 0)))
      (set_errc ctx.errc eio_syserr)
  pure ctx.hnd

-- `accept_impl` up to the call of the client's handler. `result` is what `accept` returns.
unfoldable pub accept_impl : ℤ → AcceptCtx → Cmd (Handler × AcceptCtx)
accept_impl result ctx = do
  s ← get
  if not (is_ok (s.statuses ctx.errc)) then pure (ctx.hnd, ctx) else do
    when (ltb_ℤ result (pos 0)) (set_errc ctx.errc eio_syserr)
    pure (ctx.hnd, record ctx { new_sock = result })

-- `async_accept`, `impl` being the address of `accept_impl`: the error code, and the context
-- unless there was no memory for it.
unfoldable pub async_accept : ℤ → Handler → ℤ → Ptr → Ptr → Cmd (Errcode × Option AcceptCtx)
async_accept listen_sock hnd new_sock errc impl = do
  s ← get
  put (allocated s)
  if not (granted s) then pure (eio_nomem, none) else do
    let ctx : AcceptCtx = record {
      listen_sock = listen_sock;
      hnd = hnd;
      new_sock = new_sock;
      errc = errc;
    }
    code ←
        sched (record { fd = listen_sock; wait_type = wait_read })
          (record { callback = impl; ctx = next_block s }) errc
    pure (code, some ctx)

-- What the system answers to the calls of `async_connect`: both calls of `fcntl`, `connect`, and
-- whether `errno` is `EINPROGRESS`.
pub record ConnectAnswers : Type 0 where
  pub get_flags : ℤ
  pub set_flags : ℤ
  pub connected : ℤ
  pub in_progress : Bool

-- The part of `async_connect` once there is a context at the address `self`.
unfoldable pub start_connect : ConnectAnswers → Ptr → Ptr → ConnCtx → Cmd (Errcode × Option ConnCtx)
start_connect os self impl ctx =
    if (os.connected ==ℤ negsuc 0) && not os.in_progress then pure (eio_syserr, none) else do
      code ←
          sched (record { fd = ctx.sockfd; wait_type = wait_write })
            (record { callback = impl; ctx = self }) ctx.errc
      pure (code, some ctx)

-- `async_connect`, `impl` being the address of `connect_impl`: the error code, and the context
-- unless there is none or it was freed.
unfoldable pub async_connect :
    ConnectAnswers → ℤ → Handler → Ptr → Ptr → Cmd (Errcode × Option ConnCtx)
async_connect os sockfd hnd errc impl =
    if (os.get_flags ==ℤ negsuc 0) || (os.set_flags ==ℤ negsuc 0)
    then pure (eio_syserr, none)
    else (do
      s ← get
      put (allocated s)
      if not (granted s)
          then pure (eio_nomem, none)
          else start_connect os (next_block s) impl
              (record { sockfd = sockfd; hnd = hnd; errc = errc }))
