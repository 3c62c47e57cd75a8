-- ===== src/Coroutine/Resume.antt =====
-- Entering a block of include/coroutine.h again and again executes it once, in order.
use io_engine.Base.{
  ℕ, zero, suc, ◌≤◌, ◌≡◌, refl, sym, ◌∙◌, ap, ap₂, false, Option, none, some, arith, if◌then◌else◌,
}
use io_engine.Base.Int.{ℤ, pos, negsuc}
use io_engine.Coroutine.{
  Point, plain, branch, await, co_return, finish, Block, coro_is_done, run_point, run_from,
  switch_to, enter,
}

module _ {S : Type 0} where
  unfoldable one_more : Option (S × ℕ) → Option (S × ℕ)
  one_more none = none
  one_more (some (s', n)) = some (s', suc n)

  -- What is done at a point without suspension, and how many awaits are passed.
  unfoldable straight_point : (ℕ → S → Option (S × ℕ)) → Point S → S → Option (S × ℕ)
  unfolding one_more
  straight_point go (plain f next) s = go next (f s)
  straight_point go (branch c then_next else_next) s = go (if c s then then_next else else_next) s
  straight_point go (await label f next) s = one_more (go next (f s))
  straight_point go (co_return label) s = some (s, 0)
  straight_point go finish s = some (s, 0)

  -- The block without suspension, from a point on.
  unfoldable pub straight : ℕ → Block S → ℕ → S → Option (S × ℕ)
  unfolding straight_point
  straight zero block point s = none
  straight (suc fuel) block point s = straight_point (straight fuel block) (block.points point) s

  -- The block entered `n` times.
  unfoldable pub enters : ℕ → ℕ → Block S → S → ℤ → Option (S × ℤ)
  unfolding enter
  enters zero fuel block s state = some (s, state)
  enters (suc n) fuel block s state = elim (enter fuel block s state) [
    | none ↦ none
    | some (s', state') ↦ enters n fuel block s' state'
  ]

  -- The switch goes from the label of each await to the point behind it, and labels are positive.
  abbrev pub IsLabelled : Block S → Type 0
  IsLabelled block =
      (point : ℕ) (label : ℤ) (f : S → S) (next : ℕ)
      → block.points point ≡ await label f next
      → (block.cases label ≡ some next) × (n : ℕ) × (label ≡ pos (suc n))

  -- What an entry leaves, for a block that passes `n` more awaits and ends with the context `s'`: a
  -- coroutine that is done, or one that goes on behind the first of them.
  abbrev Leaves : ℕ → Block S → S → ℕ → S → ℤ → Type 0
  Leaves fuel block s' zero s state = (state ≡ negsuc 0) × (s ≡ s')
  Leaves fuel block s' (suc n) s state =
      (k : ℕ) × (next : ℕ) × (state ≡ pos (suc k))
      × (block.cases (pos (suc k)) ≡ some next)
      × (straight fuel block next s ≡ some (s', n))

  await_rest :
      (o : Option (S × ℕ)) (s' : S) (n : ℕ) → one_more o ≡ some (s', suc n) → o ≡ some (s', n)
  unfolding one_more
  await_rest none s' n e = absurd (ground (arith, e))
  await_rest (some (s1, m)) s' n e = ground (arith, e)

  no_rest : (o : Option (S × ℕ)) (s' : S) → one_more o ≡ some (s', 0) → ⊥
  unfolding one_more
  no_rest none s' e = ground (arith, e)
  no_rest (some (s1, m)) s' e = ground (arith, e)

  rest_more :
      (o o' : Option (S × ℕ)) (r : S × ℕ)
      → ((q : S × ℕ) → o ≡ some q → o' ≡ some q)
      → one_more o ≡ some r
      → one_more o' ≡ some r
  unfolding one_more
  rest_more none o' r h e = absurd (ground (arith, e))
  rest_more (some q) o' r h e = ap one_more (h q refl) ∙ e

  module _ (block : Block S) where
    straight_mono :
        (fuel : ℕ)
        → ((point : ℕ) (s : S) (r : S × ℕ)
            → straight fuel block point s ≡ some r
            → straight (suc fuel) block point s ≡ some r)
        → (p : Point S) (s : S) (r : S × ℕ) → straight_point (straight fuel block) p s ≡ some r
        → straight_point (straight (suc fuel) block) p s ≡ some r
    unfolding straight_point
    straight_mono fuel ih (plain f next) s r e = ih next (f s) r e
    straight_mono fuel ih (branch c then_next else_next) s r e =
        ih (if c s then then_next else else_next) s r e
    straight_mono fuel ih (await label f next) s r e =
        rest_more (straight fuel block next (f s)) (straight (suc fuel) block next (f s)) r
          (ih next (f s)) e
    straight_mono fuel ih (co_return label) s r e = e
    straight_mono fuel ih finish s r e = e

    straight_more :
        (fuel point : ℕ) (s : S) (r : S × ℕ)
        → straight fuel block point s ≡ some r
        → straight (suc fuel) block point s ≡ some r
    unfolding straight
    straight_more zero point s r e = absurd (ground (arith, e))
    straight_more (suc fuel) point s r e =
        straight_mono fuel (straight_more fuel) (block.points point) s r e

    leave_later :
        (fuel : ℕ) (s' : S) (n : ℕ) (s1 : S) (state : ℤ)
        → Leaves fuel block s' n s1 state
        → Leaves (suc fuel) block s' n s1 state
    leave_later fuel s' zero s1 state w = w
    leave_later fuel s' (suc n) s1 state (k, next, e, c, r) =
        (k, next, e, c, straight_more fuel next s1 (s', n) r)

    -- One entry, from a point.
    segment_point :
        (fuel : ℕ)
        → IsLabelled block
        → ((point : ℕ) (s s' : S) (n : ℕ)
            → straight fuel block point s ≡ some (s', n)
            → (s1 : S) × (state : ℤ) × (run_from fuel block point s ≡ some (s1, state))
              × Leaves fuel block s' n s1 state)
        → (point : ℕ) (p : Point S) (s s' : S) (n : ℕ) → block.points point ≡ p
        → straight_point (straight fuel block) p s ≡ some (s', n)
        → (s1 : S) × (state : ℤ) × (run_point (run_from fuel block) p s ≡ some (s1, state))
          × Leaves (suc fuel) block s' n s1 state
    unfolding straight_point run_point
    segment_point fuel lab ih point (plain f next) s s' n at e =
        let (s1, state, r, w) = ih next (f s) s' n e in
        (s1, state, r, leave_later fuel s' n s1 state w)
    segment_point fuel lab ih point (branch c then_next else_next) s s' n at e =
        let (s1, state, r, w) = ih (if c s then then_next else else_next) s s' n e in
        (s1, state, r, leave_later fuel s' n s1 state w)
    segment_point fuel lab ih point (await label f next) s s' zero at e =
        absurd (no_rest (straight fuel block next (f s)) s' e)
    segment_point fuel lab ih point (await label f next) s s' (suc n) at e =
        let (to_next, k, le) = lab point label f next at in
        let rest : straight fuel block next (f s) ≡ some (s', n) =
          await_rest (straight fuel block next (f s)) s' n e in
        (
          f s,
          label,
          refl,
          (
            k,
            next,
            le,
            ap block.cases (sym le) ∙ to_next,
            straight_more fuel next (f s) (s', n) rest,
          ),
        )
    segment_point fuel lab ih point (co_return label) s s' zero at e =
        (s, negsuc 0, refl, (refl, ground (arith, e)))
    segment_point fuel lab ih point (co_return label) s s' (suc n) at e = absurd (ground (arith, e))
    segment_point fuel lab ih point finish s s' zero at e =
        (s, negsuc 0, refl, (refl, ground (arith, e)))
    segment_point fuel lab ih point finish s s' (suc n) at e = absurd (ground (arith, e))

    segment :
        (fuel : ℕ)
        → IsLabelled block
        → (point : ℕ) (s s' : S) (n : ℕ) → straight fuel block point s ≡ some (s', n)
        → (s1 : S) × (state : ℤ) × (run_from fuel block point s ≡ some (s1, state))
          × Leaves fuel block s' n s1 state
    unfolding straight run_from
    segment zero lab point s s' n e = absurd (ground (arith, e))
    segment (suc fuel) lab point s s' n e =
        segment_point fuel lab (segment fuel lab) point (block.points point) s s' n refl e

  -- The coroutine is not done before its last entry.
  abbrev pub Pauses : Block S → ℕ → ℕ → S → ℤ → Type 0
  Pauses block n fuel s state =
      (j : ℕ)
      → j ≤ n
      → (s1 : S) × (state1 : ℤ) × (enters j fuel block s state ≡ some (s1, state1))
        × (coro_is_done state1 ≡ false)

  module _ (block : Block S) (labelled : IsLabelled block) where
    enter-label :
        (fuel : ℕ) (s : S) (k next : ℕ)
        → block.cases (pos k) ≡ some next
        → enter fuel block s (pos k) ≡ run_from fuel block next s
    unfolding enter coro_is_done switch_to
    enter-label fuel s k next e = ground (arith, ap (λ z. switch_to fuel block z s) e)

    enters_step :
        (n fuel : ℕ) (s s1 : S) (state state1 : ℤ)
        → enter fuel block s state ≡ some (s1, state1)
        → enters (suc n) fuel block s state ≡ enters n fuel block s1 state1
    unfolding enters
    enters_step n fuel s s1 state state1 e = ground (arith, e)

    Pauses-first :
        (n fuel : ℕ) (s s1 : S) (k : ℕ) (state1 : ℤ)
        → enter fuel block s (pos k) ≡ some (s1, state1)
        → Pauses block n fuel s1 state1
        → Pauses block (suc n) fuel s (pos k)
    unfolding enters coro_is_done
    Pauses-first n fuel s s1 k state1 e h zero b = (s, pos k, refl, ground arith)
    Pauses-first n fuel s s1 k state1 e h (suc j) b =
        let (s2, state2, e2, d) = h j (omega arith) in
        (s2, state2, enters_step j fuel s s1 (pos k) state1 e ∙ e2, d)

    Pauses-zero : (fuel : ℕ) (s : S) (k : ℕ) → Pauses block 0 fuel s (pos k)
    unfolding enters coro_is_done
    Pauses-zero fuel s k zero b = (s, pos k, refl, ground arith)
    Pauses-zero fuel s k (suc j) b = absurd (omega arith)

    -- Where the block without suspension, from the point that the switch goes to at the state `k`,
    -- ends with the context `s'` and passes `n` awaits, entering the block `n + 1` times ends with
    -- that context and a coroutine that is done, which it is not before the last entry.
    pub enters-straight :
        (n fuel : ℕ) (s s' : S) (k next : ℕ)
        → block.cases (pos k) ≡ some next
        → straight fuel block next s ≡ some (s', n)
        → (enters (suc n) fuel block s (pos k) ≡ some (s', negsuc 0))
          × Pauses block n fuel s (pos k)
    unfolding enters
    enters-straight zero fuel s s' k next c e =
        let (s1, state, r, w) = segment block fuel labelled next s s' zero e in
        let now = enter-label fuel s k next c ∙ r in
        (
          enters_step 0 fuel s s1 (pos k) state now ∙ ap₂ (λ x y. some (x, y)) w.1 w.0,
          Pauses-zero fuel s k,
        )
    enters-straight (suc n) fuel s s' k next c e =
        let (s1, state, r, w) = segment block fuel labelled next s s' (suc n) e in
        let (k1, next1, st, c1, e1) = w in
        let now = enter-label fuel s k next c ∙ r ∙ ap (λ y. some (s1, y)) st in
        let (ends, pauses) = enters-straight n fuel s1 s' (suc k1) next1 c1 e1 in
        (
          enters_step (suc n) fuel s s1 (pos k) (pos (suc k1)) now ∙ ends,
          Pauses-first n fuel s s1 k (pos (suc k1)) now pauses,
        )
