-- ===== src/Cbuffer.antt =====
-- src/cbuffer.h and src/cbuffer.c: the circular buffer that queues the posted handlers.
-- Offsets count objects from `data`: every byte offset that the C code forms is a multiple of
-- `obj_size`, so `data_limit - data`, `begin - data` and `end - data` are kept divided by it.
-- Sizes are taken below the bound at which a `size_t` would wrap.
pub mod Refine
pub mod Queue
use io_engine.Base.{
  ℕ, ◌+◌, ◌-◌, ◌*◌, Bool, true, false, not, ◌&&◌, ◌||◌, Option, none, some, ltb, leb, ◌==◌,
  if◌then◌else◌,
}

-- `allocated` is `data != NULL`. A cell that was never written holds `none`.
pub record Cbuffer {ℓ} (A : Type ℓ) : Type ℓ where
  pub allocated : Bool
  pub cells : ℕ → Option A
  pub limit : ℕ
  pub nelems : ℕ
  pub begin : ℕ
  pub end : ℕ

unfoldable pub mx : ℕ → ℕ → ℕ
mx a b = if ltb a b then b else a

module _ {ℓ} {A : Type ℓ} where
  abbrev pub blank : ℕ → Option A
  blank i = none

  unfoldable pub init : Cbuffer A
  init = record { allocated = false; cells = blank; limit = 0; nelems = 0; begin = 0; end = 0 }

  -- `n` cells of `src` from `from` on, copied to `dst` from `to` on.
  unfoldable pub memmove : (ℕ → Option A) → ℕ → (ℕ → Option A) → ℕ → ℕ → ℕ → Option A
  memmove dst to src from n i = if leb to i && ltb i (to + n) then src (from + (i - to)) else dst i

  -- The test of `cbuf_push`: no storage yet, or the storage is full.
  unfoldable pub is_full : Cbuffer A → Bool
  is_full c = not c.allocated || ((c.begin == c.end) && not (c.nelems == 0))

  -- The branch that moves the objects to a block of twice the size.
  unfoldable pub resize : Cbuffer A → Cbuffer A
  unfolding memmove mx
  resize c =
      let fst_copy_size = c.limit - c.begin in
      let scd_copy_size = c.end in
      let new_capacity = mx 1 (2 * c.limit) in
      let first =
        if fst_copy_size == 0 then blank else memmove blank 0 c.cells c.begin fst_copy_size in
      let both =
        if scd_copy_size == 0 then first else memmove first fst_copy_size c.cells 0 scd_copy_size in
      record {
        allocated = true;
        cells = both;
        limit = new_capacity;
        nelems = c.nelems;
        begin = 0;
        end = fst_copy_size + scd_copy_size;
      }

  -- The last lines of `cbuf_push`: reserve the cell at `end`.
  unfoldable pub advance : Cbuffer A → Cbuffer A
  advance c = record c {
    nelems = c.nelems + 1;
    end = if c.end + 1 == c.limit then 0 else c.end + 1;
  }

  -- `granted` is what `malloc` answers if it is called. The result is the offset of the reserved
  -- cell with the new buffer, or `none` for `NULL`.
  unfoldable pub push : Bool → Cbuffer A → Option (ℕ × Cbuffer A)
  unfolding is_full resize advance
  push granted c =
      if is_full c
      then (if granted then some ((resize c).end, advance (resize c)) else none)
      else some (c.end, advance c)

  -- `*pos = v` through the pointer that `push` gave.
  unfoldable pub store : ℕ → A → Cbuffer A → Cbuffer A
  store pos v c = record c { cells = λ i. if i == pos then some v else c.cells i }

  unfoldable pub size : Cbuffer A → ℕ
  size c = c.nelems

  unfoldable pub empty : Cbuffer A → Bool
  empty c = c.nelems == 0

  -- The object that `cbuf_front` points to.
  unfoldable pub front : Cbuffer A → Option A
  front c = c.cells c.begin

  unfoldable pub pop : Cbuffer A → Cbuffer A
  pop c = record c {
    nelems = c.nelems - 1;
    begin = if c.begin + 1 == c.limit then 0 else c.begin + 1;
  }

  unfoldable pub clear : Cbuffer A → Cbuffer A
  clear c = record c { nelems = 0; begin = 0; end = 0 }
