-- ===== src/TaskGroup.antt =====
-- src/task_group.c: a handler that runs once a number of tasks have ended.
use io_engine.Base.{
  ℕ, zero, suc, ◌+◌, ◌-◌, ◌%◌, ◌^◌, ◌<◌, ◌≡◌, ◌≢◌, ◌⊎◌, inl, inr, Bool, true, false, refl, Option,
  none, some, arith, ◌==◌, if◌then◌else◌,
}
use native.Mathlib.Nat.{sub-zero}
use io_engine.Types.{Handler}

-- `task_group_ctx`
pub record TaskGroup : Type 0 where
  pub remaining_tasks : ℕ
  pub hnd : Handler

-- The context that `make_task_group` fills in.
abbrev pub group : ℕ → Handler → TaskGroup
group num_tasks hnd = record { remaining_tasks = num_tasks; hnd = hnd }

-- `make_task_group`, by what `malloc` answers: the context that the handler it returns points to,
-- or `none` for the handler with two null pointers.
unfoldable pub make_task_group : Bool → ℕ → Handler → Option TaskGroup
make_task_group granted num_tasks hnd = if granted then some (group num_tasks hnd) else none

-- `--` on a `size_t`
unfoldable pub decrement : ℕ → ℕ
decrement n = (n + (2 ^ 64 - 1)) % 2 ^ 64

-- `task_group_callback` on the context that `arg` points to, `none` once it is freed: the context
-- afterwards and the handler that is called, if any. A call on a freed context is a fault.
unfoldable pub task_group_callback : Option TaskGroup → Option (Option TaskGroup × Option Handler)
unfolding decrement
task_group_callback none = none
task_group_callback (some g) =
    let left = decrement g.remaining_tasks in
    if left == 0
    then some (none, some g.hnd)
    else some (some (record g { remaining_tasks = left }), none)

-- `k` calls of the group's callback, one for each task that ends; the answer of the last one.
unfoldable pub end_tasks : ℕ → TaskGroup → Option (Option TaskGroup × Option Handler)
unfolding task_group_callback
end_tasks zero g = some (some g, none)
end_tasks (suc k) g = elim (end_tasks k g) [ none ↦ none | some (c, h) ↦ task_group_callback c ]

decrement_lem : (n : ℕ) → 0 < n → n < 2 ^ 64 → decrement n ≡ n - 1
unfolding decrement
decrement_lem n p q = omega arith

pending :
    (n k : ℕ) (hnd : Handler)
    → k < n
    → n < 2 ^ 64
    → end_tasks k (group n hnd) ≡ some (some (group (n - k) hnd), none)
unfolding end_tasks task_group_callback
pending n zero hnd p q = rw (sub-zero n)
pending n (suc k) hnd p q =
    rw
      (
        pending n k hnd (omega arith) q,
        end_tasks,
        decrement_lem (n - k) (omega arith) (omega arith),
      )
      (ground arith)

last :
    (n : ℕ) (hnd : Handler) → n ≢ 0 → n < 2 ^ 64 → end_tasks n (group n hnd) ≡ some (none, some hnd)
unfolding end_tasks task_group_callback
last zero hnd p q = absurd (p refl)
last (suc k) hnd p q =
    rw
      (
        pending (suc k) k hnd (omega arith) q,
        end_tasks,
        decrement_lem (suc k - k) (omega arith) (omega arith),
      )
      (ground arith)

-- For a group of `n` tasks, `n` positive and a `size_t`: `make_task_group` makes one if it gets the
-- memory, and else none; while fewer than `n` tasks have ended nothing is called and the context
-- counts those that remain; the end of the last one calls the handler and frees the context; and one
-- call more would use the freed context.
pub end_tasks_lem :
    (granted : Bool) (n k : ℕ) (hnd : Handler)
    → 0 < n
    → n < 2 ^ 64
    → ((granted ≡ false) × (make_task_group granted n hnd ≡ none))
      ⊎ ((granted ≡ true)
          × ((g : TaskGroup) × (make_task_group granted n hnd ≡ some g)
              × (k < n → end_tasks k g ≡ some (some (record g { remaining_tasks = n - k }), none))
              × (end_tasks n g ≡ some (none, some hnd))
              × (end_tasks (suc n) g ≡ none)))
unfolding end_tasks task_group_callback make_task_group
end_tasks_lem false n k hnd p q = inl (refl, refl)
end_tasks_lem true n k hnd p q =
    let e = last n hnd (omega arith) q in
    inr (refl, (group n hnd, refl, (λ h. pending n k hnd h q), e, rw (e, end_tasks)))
