-- ===== src/Tests/Coroutines.antt =====
-- A coroutine that waits twice.
use io_engine.Base.{ℕ, zero, suc, ◌+◌, ◌*◌, ◌≡◌, refl, ap, none, some, Option, arith, if◌then◌else◌}
use io_engine.Base.Int.{ℤ, pos, negsuc, ◌==ℤ◌}
use io_engine.Coroutine.{Point, plain, branch, await, co_return, finish, Block}
use io_engine.Coroutine.Resume.{straight, enters, IsLabelled, Pauses, enters-straight}

unfoldable stages : ℕ → Point ℕ
stages zero = plain (λ s. s + 1) 1
stages (suc zero) = await (pos 1) (λ s. 2 * s) 2
stages (suc (suc zero)) = await (pos 2) (λ s. s + 3) 3
stages (suc (suc (suc _))) = finish

unfoldable twice : Block ℕ
unfolding stages
twice = record {
  points = stages;
  cases = λ state.
      if state ==ℤ pos 0
      then some 0
      else if state ==ℤ pos 1
      then some 2
      else if state ==ℤ pos 2
      then some 3
      else none;
}

label_of : Point ℕ → Option (ℤ × ℕ)
label_of (await label f next) = some (label, next)
label_of (plain f next) = none
label_of (branch c m n) = none
label_of (co_return label) = none
label_of finish = none

twice-IsLabelled : IsLabelled twice
unfolding twice stages label_of
twice-IsLabelled zero label f next e = absurd (ground (arith, ap label_of e))
twice-IsLabelled (suc zero) label f next e =
    (let i = ap label_of e in (ground (arith, i), 0, ground (arith, i)))
twice-IsLabelled (suc (suc zero)) label f next e =
    (let i = ap label_of e in (ground (arith, i), 1, ground (arith, i)))
twice-IsLabelled (suc (suc (suc n))) label f next e = absurd (ground (arith, ap label_of e))

enters-straight_example :
    (enters 3 4 twice 5 (pos 0) ≡ some (15, negsuc 0)) × Pauses twice 2 4 5 (pos 0)
unfolding twice straight
enters-straight_example = enters-straight twice twice-IsLabelled 2 4 5 15 0 0 refl refl
