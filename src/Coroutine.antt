-- ===== src/Coroutine.antt =====
-- include/coroutine.h: the macros that suspend a function and resume it. What they expand to is
-- control flow, a switch on the state into the block; the block is the client's.
pub mod Resume
use io_engine.Base.{ℕ, zero, suc, Bool, Option, none, some, if◌then◌else◌}
use io_engine.Base.Int.{ℤ, pos, negsuc, ◌==ℤ◌}

-- A point of the block, with what stands there. `plain` is a statement without suspension, `branch`
-- a test of the client's code. `await label stmt next` is `await stmt`, its label and the point
-- behind it. The end of the block, or a `break` or `continue` that leaves it, is `finish`.
pub data Point (S : Type 0) : Type 0 where
  plain : (S → S) → ℕ → Point S
  branch : (S → Bool) → ℕ → ℕ → Point S
  await : ℤ → (S → S) → ℕ → Point S
  co_return : ℤ → Point S
  finish : Point S

-- The block of `async (state) { ... }`: its points, and to which of them the switch goes for a
-- state. `S` is the context that the client keeps its variables in.
pub record Block (S : Type 0) : Type 0 where
  pub points : ℕ → Point S
  pub cases : ℤ → Option ℕ

-- `coro_is_done`
unfoldable pub coro_is_done : ℤ → Bool
coro_is_done state = state ==ℤ negsuc 0

-- What is done at a point, with `go` for the rest: `await` saves its label, executes its statement
-- and leaves by `_coro_break`; `co_return` leaves from there by a `break` and `_coro_cont`, and
-- that, like the end of the block, stores -1.
unfoldable pub run_point : {S : Type 0} → (ℕ → S → Option (S × ℤ)) → Point S → S → Option (S × ℤ)
run_point go (plain f next) s = go next (f s)
run_point go (branch c then_next else_next) s = go (if c s then then_next else else_next) s
run_point go (await label f next) s = some (f s, label)
run_point go (co_return label) s = some (s, negsuc 0)
run_point go finish s = some (s, negsuc 0)

-- From a point until the block is left, with the context and the state of the coroutine then.
unfoldable pub run_from : {S : Type 0} → ℕ → Block S → ℕ → S → Option (S × ℤ)
unfolding run_point
run_from zero block point s = none
run_from (suc fuel) block point s = run_point (run_from fuel block) (block.points point) s

-- The switch: a state without a label leaves the block, which stores -1.
unfoldable pub switch_to : {S : Type 0} → ℕ → Block S → Option ℕ → S → Option (S × ℤ)
unfolding run_from
switch_to fuel block none s = some (s, negsuc 0)
switch_to fuel block (some point) s = run_from fuel block point s

-- `async (state) { ... }`: the states -2 and -3, which no label has, lead to the two jumps.
unfoldable pub enter : {S : Type 0} → ℕ → Block S → S → ℤ → Option (S × ℤ)
unfolding coro_is_done switch_to
enter fuel block s state =
    if coro_is_done state
    then some (s, state)
    else if state ==ℤ negsuc 1
    then some (s, negsuc 0)
    else if state ==ℤ negsuc 2
    then some (s, state)
    else switch_to fuel block (block.cases state) s
