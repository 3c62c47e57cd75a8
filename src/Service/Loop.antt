-- ===== src/Service/Loop.antt =====
-- `iosvc_run` of src/io_service.c. The client's callbacks, the clock and `poll` are parameters.
pub mod Stopping
use io_engine.Base.{
  ℕ, zero, suc, ◌+◌, ◌*◌, not, Bool, true, false, ◌&&◌, ◌||◌, none, some, if◌then◌else◌,
}
use io_engine.Base.Int.{ℤ, pos, negsuc, ◌-ℤ◌, ltb_ℤ, ◌==ℤ◌}
use io_engine.Types.{Handler, Errcode, eio_ok, eio_stopped, eio_invarg, eio_inprogress}
use io_engine.Cbuffer
use io_engine.Dynarray
use io_engine.Dynarray.{Dynarray}
use io_engine.Service.{Service, PollFd, Status, ready, running, stopping, done}
use io_engine.Service.Monad.{Cmd, pure, ◌>>=◌, ◌>>◌, get, put, when}
use io_engine.Service.Run.{
  next_deadline, is_top_event_ready, run_sync_handlers, timeout_first, dispatch_ready_events,
}
use io_engine.Service.Stop.{prep_stop}

-- What `poll` answers: its result, whether `errno` is `EINTR`, and the array that it has written.
pub record PollAnswer : Type 0 where
  pub ready_fds : ℤ
  pub interrupted : Bool
  pub pollfds : Dynarray PollFd

-- The condition of the loop.
unfoldable pub has_work : Service → Bool
has_work s =
    not (Dynarray.empty s.pollfds)
    || (not (Dynarray.empty s.timed_handlers) || not (Cbuffer.empty s.sync_handlers))

-- The time that `poll` may wait, -1 for any.
unfoldable pub poll_delay : ℤ → ℤ → ℤ
poll_delay deadline poll_time =
    if deadline ==ℤ negsuc 0
    then negsuc 0
    else if ltb_ℤ poll_time deadline
    then deadline -ℤ poll_time
    else pos 0

unfoldable pub is_stopping : Status → Bool
is_stopping stopping = true
is_stopping ready = false
is_stopping running = false
is_stopping done = false

module _ (call : Handler → Cmd (Unit {0})) (clock : ℕ → ℤ)
    (poll : ℕ → Dynarray PollFd → ℤ → PollAnswer) where
  -- A round's part after `poll`.
  unfoldable pub after_poll : ℕ → Bool → ℤ → ℤ → ℤ → PollAnswer → Cmd (Unit {0})
  after_poll fuel is_event delay poll_time completion_time answer =
      let elapsed = completion_time -ℤ poll_time in
      let due = not (ltb_ℤ elapsed delay) && not (delay ==ℤ negsuc 0) in
      if ltb_ℤ answer.ready_fds (pos 0) && not answer.interrupted
      then (do s ← get; put (record s { status = stopping }))
      else if answer.ready_fds ==ℤ pos 0
      then timeout_first call is_event completion_time
      else (do
        top_ready ← (if due && is_event then is_top_event_ready else pure false)
        when (due && not (is_event && top_ready)) (timeout_first call is_event completion_time)
        dispatch_ready_events call fuel 0 completion_time)

  -- A round's part from `next_deadline` on, where there is something to wait for.
  unfoldable pub wait_round : ℕ → ℕ → Cmd (Unit {0})
  wait_round fuel round = do
    s ← get
    let (deadline, is_event) = next_deadline false s
    let poll_time = clock (2 * round)
    let delay = poll_delay deadline poll_time
    let answer = poll round s.pollfds delay
    put (record s { pollfds = answer.pollfds })
    after_poll fuel is_event delay poll_time (clock (2 * round + 1)) answer

  -- The loop of `iosvc_run`. `fuel` bounds its rounds, and the rounds of its inner loops.
  unfoldable pub run_loop : ℕ → ℕ → Cmd (Unit {0})
  run_loop zero round s = none
  run_loop (suc fuel) round s =
      let rest = (do
        run_sync_handlers call (suc fuel)
        s1 ← get
        if is_stopping s1.status then prep_stop call (clock (2 * round)) else (do
          when (not (Dynarray.empty s1.pollfds && Dynarray.empty s1.timed_handlers))
              (wait_round (suc fuel) round)
          run_loop fuel (suc round))) in
      if has_work s then rest s else some (tt, s)

  run_status : Status → Errcode
  run_status running = eio_ok
  run_status ready = eio_stopped
  run_status stopping = eio_stopped
  run_status done = eio_stopped

  -- `iosvc_run`
  unfoldable pub run : ℕ → Cmd Errcode
  unfolding run_status
  run fuel = do
    s ← get
    elim s.status [
      | done ↦ pure eio_invarg
      | running ↦ pure eio_inprogress
      | stopping ↦ pure eio_inprogress
      | ready ↦ (do
        put (record s { status = running })
        run_loop fuel 0
        s1 ← get
        put (record s1 { status = done })
        pure (run_status s1.status))
    ]
