-- ===== src/Cbuffer/Queue.antt =====
-- The circular buffer as a first-in first-out queue of the objects that were written.
use io_engine.Base.{
  ℕ, suc, ◌-◌, ◌≤◌, ◌<◌, ◌≡◌, ◌↔◌, refl, sym, ◌∙◌, ap, ap₂, inl, inr, Bool, true, false, none, some,
  List, [], ◌∷◌, ◌++◌, map, arith, ◌==◌, if◌then◌else◌, tabulate, tabulate-cong, tabulate-suc,
  tabulate_pos, length, length-tabulate, length-map, Bool-cases,
}
use mathlib.Core.List.{map-append}
use io_engine.Cbuffer
use io_engine.Cbuffer.{Cbuffer}
use io_engine.Cbuffer.Refine.{
  Layout, IsValid, peek, contents, Room, init-IsValid, resize-Layout, resize-room, peek-resize,
  not_full-Layout, not_full-room, store-advance-Layout, peek-store-advance, pop-IsValid, peek-pop,
}

module _ {A : Type 0} where
  -- The buffer is sound and holds the objects of `q`, oldest first.
  pub record Represents (c : Cbuffer A) (q : List A) : Type 0 where
    pub sound : IsValid c
    pub holds : contents c ≡ map some q

  contents_snoc :
      (c d : Cbuffer A) (v : A)
      → d.nelems ≡ suc c.nelems
      → ((i : ℕ) → i ≤ c.nelems → peek d i ≡ (if i == c.nelems then some v else peek c i))
      → contents d ≡ contents c ++ some v ∷ []
  unfolding peek
  contents_snoc c d v e h = rw e (
      tabulate-suc (peek d) c.nelems
      ∙ ap₂ (λ xs y. xs ++ y ∷ [])
          (tabulate-cong (peek d) (peek c) c.nelems λ i p. ground (arith, h i))
          (ground (arith, h c.nelems)))

  contents-resize :
      (c : Cbuffer A)
      → IsValid c
      → Cbuffer.is_full c ≡ true
      → contents (Cbuffer.resize c) ≡ contents c
  unfolding Cbuffer.resize
  contents-resize c s h =
      tabulate-cong (peek (Cbuffer.resize c)) (peek c) c.nelems λ i p. peek-resize c i s h p

  -- A reserved and written cell is the newest object.
  write-Represents :
      (c : Cbuffer A) (q : List A) (v : A)
      → Layout c
      → c.nelems < c.limit
      → contents c ≡ map some q
      → Represents (Cbuffer.store c.end v (Cbuffer.advance c)) (q ++ v ∷ [])
  unfolding Cbuffer.store Cbuffer.advance
  write-Represents c q v l p e = record {
    sound = inr (store-advance-Layout c v l p);
    holds =
        contents_snoc c _ v (omega arith) (λ i r. peek-store-advance c v i l p r)
        ∙ ap (λ xs. xs ++ some v ∷ []) e
        ∙ sym (map-append some q (v ∷ []));
  }

  -- `cbuf_push` and the write through its pointer append the object, as long as `malloc` grants
  -- the memory that a full buffer asks for.
  pub push-Represents :
      (granted : Bool) (c : Cbuffer A) (q : List A) (v : A)
      → Represents c q
      → Room granted c
      → (pos : ℕ) × (d : Cbuffer A) × (Cbuffer.push granted c ≡ some (pos, d))
        × Represents (Cbuffer.store pos v d) (q ++ v ∷ [])
  unfolding Cbuffer.push
  push-Represents granted c q v r room = elim (Bool-cases (Cbuffer.is_full c)) [
    | inl full ↦
        let s = Cbuffer.resize c in
        (
          s.end,
          Cbuffer.advance s,
          ground arith,
          write-Represents s q v (resize-Layout c r.sound full) (resize-room c r.sound full)
              (contents-resize c r.sound full ∙ r.holds),
        )
    | inr free ↦
        let l = not_full-Layout c r.sound free in
        (
          c.end,
          Cbuffer.advance c,
          ground arith,
          write-Represents c q v l (not_full-room c l free) r.holds,
        )
  ]

  nelems-length : (c : Cbuffer A) (q : List A) → Represents c q → c.nelems ≡ length q
  nelems-length c q r =
      sym (length-tabulate (peek c) c.nelems) ∙ ap length r.holds ∙ length-map some q

  -- The test for a full buffer holds exactly if the queue has as many objects as there are cells.
  pub is_full-Represents :
      (c : Cbuffer A) (q : List A)
      → Represents c q
      → (Cbuffer.is_full c ≡ true) ↔ (length q ≡ c.limit)
  unfolding Cbuffer.is_full
  is_full-Represents c q r =
      let size : c.nelems ≡ length q = nelems-length c q r in
      elim r.sound [
        | inl f ↦ (λ h. ground arith, λ h. ground arith)
        | inr l ↦ (λ h. ground arith, λ h. ground arith)
      ]

  -- `cbuf_push` on a buffer that represents a queue answers `NULL` exactly if `malloc` refuses and
  -- the queue has as many objects as there are cells.
  pub push-none :
      (granted : Bool) (c : Cbuffer A) (q : List A)
      → Represents c q
      → (Cbuffer.push granted c ≡ none) ↔ ((length q ≡ c.limit) × (granted ≡ false))
  unfolding Cbuffer.push
  push-none granted c q r =
      let (full, filled) = is_full-Represents c q r in
      (λ h. ground (arith, full), λ h. ground (arith, filled))

  front-peek : (c : Cbuffer A) → IsValid c → 0 < c.nelems → Cbuffer.front c ≡ peek c 0
  unfolding Cbuffer.front peek
  front-peek c (inl f) p = absurd (omega arith)
  front-peek c (inr l) p = grind arith

  contents-pop :
      (c : Cbuffer A)
      → IsValid c
      → 0 < c.nelems
      → contents (Cbuffer.pop c) ≡ tabulate (λ i. peek c (suc i)) (c.nelems - 1)
  unfolding Cbuffer.pop
  contents-pop c s p =
      tabulate-cong (peek (Cbuffer.pop c)) (λ i. peek c (suc i)) (c.nelems - 1)
        λ i h. peek-pop c i s (omega arith)

  -- `cbuf_front` reads the oldest object and `cbuf_pop` drops it.
  pub pop-Represents :
      (c : Cbuffer A) (v : A) (q : List A)
      → Represents c (v ∷ q)
      → (Cbuffer.front c ≡ some v) × Represents (Cbuffer.pop c) q
  pop-Represents c v q r =
      let size : c.nelems ≡ suc (length q) = nelems-length c (v ∷ q) r in
      let split = sym (tabulate_pos (peek c) c.nelems (omega arith)) ∙ r.holds in
      (
        front-peek c r.sound (omega arith) ∙ cc split,
        record {
          sound = pop-IsValid c r.sound (omega arith);
          holds = contents-pop c r.sound (omega arith) ∙ cc split;
        },
      )

  pub init-Represents : Represents (Cbuffer.init {A = A}) []
  unfolding Cbuffer.init
  init-Represents = record { sound = init-IsValid; holds = refl }

  -- `cbuf_empty` and `cbuf_size` tell of the queue.
  pub size-Represents :
      (c : Cbuffer A) (q : List A)
      → Represents c q
      → (Cbuffer.size c ≡ length q) × (Cbuffer.empty c ≡ (length q == 0))
  unfolding Cbuffer.size Cbuffer.empty
  size-Represents c q r = let e = nelems-length c q r in (e, rw e)
