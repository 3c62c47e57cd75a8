-- ===== src/Dynarray.antt =====
-- src/dynarray.h and src/dynarray.c: the growing arrays of pollfds and of both deadline heaps.
-- `items` are the `nelems` objects in use. Sizes are taken below the bound at which a `size_t`
-- would wrap, and `obj_size` is the size of one item.
pub mod Bounds
use io_engine.Base.{
  ℕ, ◌+◌, ◌-◌, ◌*◌, Bool, true, false, Option, none, some, List, [], ◌∷◌, ◌++◌, length, get_elem?,
  set, take, ltb, ◌==◌, if◌then◌else◌,
}

pub record Dynarray {ℓ} (A : Type ℓ) : Type ℓ where
  pub items : List A
  pub capacity : ℕ

abbrev pub min_capacity : ℕ
min_capacity = 1

unfoldable pub mx : ℕ → ℕ → ℕ
mx a b = if ltb a b then b else a

module _ {ℓ} {A : Type ℓ} where
  unfoldable pub init : Dynarray A
  init = record { items = []; capacity = 0 }

  unfoldable pub size : Dynarray A → ℕ
  size d = length d.items

  unfoldable pub empty : Dynarray A → Bool
  empty d = length d.items == 0

  -- `granted` is what `realloc` answers if it is called; `junk` is what the reserved slot holds
  -- before the caller writes it. The result is the index of the slot with the new array, or
  -- `none` for `NULL`.
  unfoldable pub emplace_back : Bool → A → Dynarray A → Option (ℕ × Dynarray A)
  unfolding mx
  emplace_back granted junk d =
      let n = length d.items in
      let items = d.items ++ junk ∷ [] in
      let new_capacity = mx (2 * d.capacity) min_capacity in
      if n == d.capacity
      then (if granted then some (n, record { items = items; capacity = new_capacity }) else none)
      else some (n, record { items = items; capacity = d.capacity })

  unfoldable pub pop_back : Dynarray A → Dynarray A
  pop_back d = record d { items = take (length d.items - 1) d.items }

  unfoldable pub at : Dynarray A → ℕ → Option A
  at d i = get_elem? d.items i

  unfoldable pub front : Dynarray A → Option A
  front d = get_elem? d.items 0

  unfoldable pub back : Dynarray A → Option A
  back d = get_elem? d.items (length d.items - 1)

  -- A write through the pointer to a slot.
  unfoldable pub store : ℕ → A → Dynarray A → Dynarray A
  store i v d = record d { items = set d.items i v }

  unfoldable pub clear : Dynarray A → Dynarray A
  clear d = record d { items = [] }
