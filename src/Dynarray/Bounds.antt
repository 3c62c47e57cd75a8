-- ===== src/Dynarray/Bounds.antt =====
-- The growing array stays within its capacity, and its capacity within twice what it holds.
use io_engine.Base.{
  ℕ, ◌*◌, ◌≤◌, ◌<◌, ◌≡◌, refl, ap, ◌⊎◌, inl, inr, Bool-cases, ◌==◌, ◌↔◌, Bool, true, false, none,
  some, List, [], ◌∷◌, ◌++◌, length, length-append, take, arith,
}
use io_engine.Dynarray
use io_engine.Dynarray.{Dynarray}

module _ {A : Type 0} where
  pub record IsValid (d : Dynarray A) : Type 0 where
    pub fits : length d.items ≤ d.capacity
    pub tight : d.capacity ≤ 2 * length d.items

  -- A new slot stands behind the objects, which `realloc` keeps, inside the capacity.
  pub emplace_back_lem :
      (junk : A) (granted : Bool) (d : Dynarray A)
      → length d.items ≤ d.capacity
      → ((length d.items < d.capacity) ⊎ (granted ≡ true))
      → (e : Dynarray A) × (Dynarray.emplace_back granted junk d ≡ some (length d.items, e))
        × (e.items ≡ d.items ++ junk ∷ [])
        × (length e.items ≤ e.capacity)
        × (d.capacity ≤ e.capacity)
  unfolding Dynarray.emplace_back Dynarray.mx
  emplace_back_lem junk granted d fits room = elim (Bool-cases (length d.items == d.capacity)) [
    | inl full ↦ (
      record { items = d.items ++ junk ∷ []; capacity = Dynarray.mx (2 * d.capacity) 1 },
      ground arith,
      refl,
      grown,
      ground arith,
    )
    | inr free ↦ (
      record { items = d.items ++ junk ∷ []; capacity = d.capacity },
      ground arith,
      refl,
      ground (arith, length-append d.items (junk ∷ [])),
      omega arith,
    )
  ]
    where
      grown : length (d.items ++ junk ∷ []) ≤ Dynarray.mx (2 * d.capacity) 1
      grown = ground (arith, length-append d.items (junk ∷ []))

  pub emplace_back-IsValid :
      (junk : A) (granted : Bool) (d : Dynarray A) {i : ℕ} {e : Dynarray A}
      → IsValid d
      → Dynarray.emplace_back granted junk d ≡ some (i, e)
      → IsValid e
  unfolding Dynarray.emplace_back Dynarray.mx
  emplace_back-IsValid junk granted d v h = ground (arith, length-append d.items (junk ∷ []))

  -- It answers `NULL` exactly when the array is full and `realloc` refuses, and then the array
  -- is as before.
  pub emplace_back-none :
      (junk : A) (granted : Bool) (d : Dynarray A)
      → (Dynarray.emplace_back granted junk d ≡ none)
        ↔ ((length d.items ≡ d.capacity) × (granted ≡ false))
  unfolding Dynarray.emplace_back
  emplace_back-none junk granted d = (λ h. ground arith, λ h. ground arith)

  take-append : (xs ys : List A) → take (length xs) (xs ++ ys) ≡ xs
  take-append [] ys = refl
  take-append (x ∷ xs) ys = ap (◌∷◌ x) (take-append xs ys)

  -- Reserving a slot and dropping it again gives back the objects.
  pub pop_back-emplace_back :
      (junk : A) (granted : Bool) (d : Dynarray A) {i : ℕ} {e : Dynarray A}
      → Dynarray.emplace_back granted junk d ≡ some (i, e)
      → (Dynarray.pop_back e).items ≡ d.items
  unfolding Dynarray.emplace_back Dynarray.pop_back
  pop_back-emplace_back junk granted d h =
      ground (arith, length-append d.items (junk ∷ []), take-append d.items (junk ∷ []))
