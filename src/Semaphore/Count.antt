-- ===== src/Semaphore/Count.antt =====
-- The semaphore's value counts signals against waits, over any history.
use io_engine.Base.{
  Bool, some, ap, ℕ, suc, ◌+◌, ◌≡◌, refl, ◌⊎◌, inl, List, [], ◌∷◌, length, arith, ◌≢◌,
}
use io_engine.Base.Int.{ℤ, pos, pos_part, neg_part, ◌≤ℤ◌, +ℤ_parts, -ℤ_parts}
use io_engine.Types.{null, Handler}
use io_engine.Service.{Service, granted, next_block, allocated}
use io_engine.Service.Post.{post, after_push}
use io_engine.Semaphore.{Semaphore, create, initial, wait, signal, signal_list}

-- A client's call.
pub data Call : Type 0 where
  waits : Handler → Call
  signals : Call

abbrev pub State : Type 0
State = Semaphore × Service

unfoldable pub step : Call → State → State
step (waits hnd) (sem, s) = ((wait hnd sem s).1, (wait hnd sem s).2)
step signals (sem, s) = ((signal sem s).1, (signal sem s).2)

unfoldable pub run : List Call → State → State
run [] st = st
run (c ∷ cs) st = run cs (step c st)

abbrev pub count_waits : List Call → ℕ
count_waits [] = 0
count_waits (waits hnd ∷ cs) = suc (count_waits cs)
count_waits (signals ∷ cs) = count_waits cs

abbrev pub count_signals : List Call → ℕ
count_signals [] = 0
count_signals (waits hnd ∷ cs) = count_signals cs
count_signals (signals ∷ cs) = suc (count_signals cs)

-- Every allocation is granted.
abbrev pub Grants : Service → Type 0
Grants s = (n : ℕ) → s.allocator n ≢ null

post-allocator : (hnd : Handler) (s : Service) → (post hnd s).1.allocator ≡ s.allocator
unfolding post after_push allocated
post-allocator hnd s = ground arith

-- `a` waits and `b` signals lead from the first semaphore to the second.
abbrev Moves : ℕ → ℕ → Semaphore → Semaphore → Type 0
Moves a b sem sem' =
    pos_part sem'.sem_val + neg_part sem.sem_val + length sem.handler_list + a
    ≡ neg_part sem'.sem_val + pos_part sem.sem_val + length sem'.handler_list + b

wait-Moves :
    (hnd : Handler) (sem : Semaphore) (s : Service) → Grants s → Moves 1 0 sem (wait hnd sem s).1
unfolding wait granted next_block
wait-Moves hnd sem s g = let e = g s.allocs in ground (arith, -ℤ_parts sem.sem_val (pos 1))

signal-Moves : (sem : Semaphore) (s : Service) → Moves 0 1 sem (signal sem s).1
unfolding signal signal_list
signal-Moves sem s = ground (arith, +ℤ_parts sem.sem_val (pos 1))

list-allocator :
    (l : List Handler) (sem : Semaphore) (s : Service)
    → (signal_list l sem s).2.allocator ≡ s.allocator
unfolding signal_list
list-allocator [] sem s = refl
list-allocator (hnd ∷ rest) sem s = post-allocator hnd s

wait-Grants : (hnd : Handler) (sem : Semaphore) (s : Service) → Grants s → Grants (wait hnd sem s).2
unfolding wait allocated
wait-Grants hnd sem s g n = let e = g n in ground (arith, post-allocator hnd s)

signal-Grants : (sem : Semaphore) (s : Service) → Grants s → Grants (signal sem s).2
unfolding signal
signal-Grants sem s g n = let e = g n in ground (arith, list-allocator sem.handler_list sem s)

step-Moves :
    (c : Call) (sem : Semaphore) (s : Service)
    → Grants s
    → Moves (count_waits (c ∷ [])) (count_signals (c ∷ [])) sem (step c (sem, s)).0
      × Grants (step c (sem, s)).1
unfolding step
step-Moves (waits hnd) sem s g = (wait-Moves hnd sem s g, wait-Grants hnd sem s g)
step-Moves signals sem s g = (signal-Moves sem s, signal-Grants sem s g)

run-Moves :
    (cs : List Call) (sem : Semaphore) (s : Service)
    → Grants s
    → Moves (count_waits cs) (count_signals cs) sem (run cs (sem, s)).0
unfolding run
run-Moves [] sem s g = omega arith
run-Moves (waits hnd ∷ cs) sem s g =
    let (m, g') = step-Moves (waits hnd) sem s g in
    let (sem', s') = step (waits hnd) (sem, s) in
    omega (arith, m, run-Moves cs (step (waits hnd) (sem, s)).0 (step (waits hnd) (sem, s)).1 g')
run-Moves (signals ∷ cs) sem s g =
    let (m, g') = step-Moves signals sem s g in
    omega (arith, m, run-Moves cs (step signals (sem, s)).0 (step signals (sem, s)).1 g')

-- Nobody waits while signals are left.
abbrev pub IsSettled : Semaphore → Type 0
IsSettled sem = (sem.handler_list ≡ []) ⊎ (sem.sem_val ≤ℤ pos 0)

step-IsSettled : (c : Call) (st : State) → IsSettled st.0 → IsSettled (step c st).0
unfolding step wait signal signal_list
step-IsSettled (waits hnd) (sem, s) v = ground (arith, -ℤ_parts sem.sem_val (pos 1))
step-IsSettled signals (sem, s) v = ground (arith, +ℤ_parts sem.sem_val (pos 1))

run-IsSettled : (cs : List Call) (st : State) → IsSettled st.0 → IsSettled (run cs st).0
unfolding run
run-IsSettled [] st v = v
run-IsSettled (c ∷ cs) st v = run-IsSettled cs (step c st) (step-IsSettled c st v)

created :
    (ok : Bool) (init_val : ℤ) (new : Semaphore)
    → create ok init_val ≡ some new
    → new ≡ initial init_val
unfolding create
created ok init_val new e = ground (arith, e)

-- After any history of waits and signals on the semaphore that `iosem_create` makes, all
-- allocations granted, the value less the handlers that wait is the first value plus the signals
-- less the waits; and no handler waits while the value is positive.
pub run_balance :
    (ok : Bool) (init_val : ℤ) (new : Semaphore) (cs : List Call) (s : Service)
    → create ok init_val ≡ some new
    → Grants s
    → let sem = (run cs (new, s)).0 in
      (pos_part sem.sem_val + neg_part init_val + count_waits cs
        ≡ neg_part sem.sem_val + pos_part init_val + length sem.handler_list + count_signals cs)
      × IsSettled sem
run_balance ok init_val new cs s e g =
    let same = created ok init_val new e in
    let made = ap (λ z. z.sem_val) same in
    let queue = ap (λ z. z.handler_list) same in
    let none_wait = ap length queue in
    let moved = run-Moves cs new s g in
    (ground (arith, made, none_wait, moved), run-IsSettled cs (new, s) (inl queue))
