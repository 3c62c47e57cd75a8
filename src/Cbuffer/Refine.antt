-- ===== src/Cbuffer/Refine.antt =====
-- The circular buffer keeps its invariant and refines a first-in first-out queue.
use io_engine.Base.{
  ℕ, suc, ◌+◌, ◌-◌, ◌≤◌, ◌<◌, ◌≡◌, refl, ◌⊎◌, inl, inr, Bool, true, false, Option, some, List,
  arith, ltb, ◌==◌, if◌then◌else◌, tabulate,
}
use io_engine.Cbuffer
use io_engine.Cbuffer.{Cbuffer}

-- Either nothing was ever pushed, or the objects fill the cells from `begin` up to `end`,
-- perhaps round the end of the storage.
pub record Layout {ℓ} {A : Type ℓ} (c : Cbuffer A) : Type ℓ where
  pub stored : c.allocated ≡ true
  pub begin_in : c.begin < c.limit
  pub end_in : c.end < c.limit
  pub fits : c.nelems ≤ c.limit
  pub span : (c.begin + c.nelems ≡ c.end) ⊎ (c.begin + c.nelems ≡ c.end + c.limit)

pub record Fresh {ℓ} {A : Type ℓ} (c : Cbuffer A) : Type ℓ where
  pub unstored : c.allocated ≡ false
  pub no_room : c.limit ≡ 0
  pub at_start : c.begin ≡ 0
  pub at_end : c.end ≡ 0
  pub no_elems : c.nelems ≡ 0

abbrev pub IsValid {ℓ} : {A : Type ℓ} → Cbuffer A → Type ℓ
IsValid c = Fresh c ⊎ Layout c

module _ {A : Type 0} where
  -- The `i`-th oldest object, `i` counted from the front.
  unfoldable pub peek : Cbuffer A → ℕ → Option A
  peek c i = c.cells (if ltb (c.begin + i) c.limit then c.begin + i else c.begin + i - c.limit)

  -- The queue that the buffer stands for, oldest object first.
  abbrev pub contents : Cbuffer A → List (Option A)
  contents c = tabulate (peek c) c.nelems

  pub init-IsValid : IsValid (Cbuffer.init {A = A})
  unfolding Cbuffer.init
  init-IsValid =
      inl (record {
        unstored = refl;
        no_room = refl;
        at_start = refl;
        at_end = refl;
        no_elems = refl;
      })

  pub resize-Layout :
      (c : Cbuffer A) → IsValid c → Cbuffer.is_full c ≡ true → Layout (Cbuffer.resize c)
  unfolding Cbuffer.resize Cbuffer.is_full Cbuffer.mx
  resize-Layout c (inl f) h = ground arith
  resize-Layout c (inr l) h = ground arith

  pub resize-room :
      (c : Cbuffer A)
      → IsValid c
      → Cbuffer.is_full c ≡ true
      → (Cbuffer.resize c).nelems < (Cbuffer.resize c).limit
  unfolding Cbuffer.resize Cbuffer.is_full Cbuffer.mx
  resize-room c (inl f) h = ground arith
  resize-room c (inr l) h = ground arith

  pub peek-resize :
      (c : Cbuffer A) (i : ℕ)
      → IsValid c
      → Cbuffer.is_full c ≡ true
      → i < c.nelems
      → peek (Cbuffer.resize c) i ≡ peek c i
  unfolding Cbuffer.resize Cbuffer.is_full Cbuffer.mx Cbuffer.memmove peek
  peek-resize c i (inl f) h p = absurd (omega arith)
  peek-resize c i (inr l) h p = grind arith

  -- A call of `push` answers a cell and a buffer, or fails, and it fails only if it asked for
  -- memory.
  abbrev pub Room : Bool → Cbuffer A → Type 0
  Room granted c = (Cbuffer.is_full c ≡ false) ⊎ (granted ≡ true)

  pub not_full-Layout : (c : Cbuffer A) → IsValid c → Cbuffer.is_full c ≡ false → Layout c
  unfolding Cbuffer.is_full
  not_full-Layout c (inl f) h = ground arith
  not_full-Layout c (inr l) h = l

  pub not_full-room : (c : Cbuffer A) → Layout c → Cbuffer.is_full c ≡ false → c.nelems < c.limit
  unfolding Cbuffer.is_full
  not_full-room c l h = grind arith

  pub store-advance-Layout :
      (c : Cbuffer A) (v : A)
      → Layout c
      → c.nelems < c.limit
      → Layout (Cbuffer.store c.end v (Cbuffer.advance c))
  unfolding Cbuffer.store Cbuffer.advance
  store-advance-Layout c v l p = grind arith

  pub peek-store-advance :
      (c : Cbuffer A) (v : A) (i : ℕ)
      → Layout c
      → c.nelems < c.limit
      → i ≤ c.nelems
      → peek (Cbuffer.store c.end v (Cbuffer.advance c)) i
        ≡ (if i == c.nelems then some v else peek c i)
  unfolding Cbuffer.store Cbuffer.advance peek
  peek-store-advance c v i l p q = grind arith

  pub pop-IsValid : (c : Cbuffer A) → IsValid c → 0 < c.nelems → IsValid (Cbuffer.pop c)
  unfolding Cbuffer.pop
  pop-IsValid c (inl f) h = absurd (omega arith)
  pop-IsValid c (inr l) h = inr (grind arith)

  pub peek-pop :
      (c : Cbuffer A) (i : ℕ)
      → IsValid c
      → suc i < c.nelems
      → peek (Cbuffer.pop c) i ≡ peek c (suc i)
  unfolding Cbuffer.pop peek
  peek-pop c i (inl f) h = absurd (omega arith)
  peek-pop c i (inr l) h = grind arith
