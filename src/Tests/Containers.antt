-- ===== src/Tests/Containers.antt =====
-- The circular buffer, the growing array and the heap of delayed handlers.
use mathlib.Core.List.{Perm}
use io_engine.Base.{
  ℕ, zero, ◌≤◌, ◌≡◌, refl, inr, ◌↔◌, Bool, true, false, [], ◌∷◌, none, some, arith, length,
}
use io_engine.Base.Int.{pos, ◌+ℤ◌}
use io_engine.Types.{null, eio_ok}
use io_engine.Cbuffer
use io_engine.Cbuffer.{Cbuffer}
use io_engine.Cbuffer.Refine.{peek}
use io_engine.Cbuffer.Queue.{Represents, push-Represents, pop-Represents, push-none}
use io_engine.Dynarray
use io_engine.Dynarray.{Dynarray}
use io_engine.Dynarray.Bounds.{IsValid as IsSound, emplace_back_lem, emplace_back-IsValid}
use io_engine.Heap.{sift_up, sift_down, up}
use io_engine.Heap.Order.{Sifted}
use io_engine.Heap.Up.{UpInv, sift_up_lem}
use io_engine.Heap.Down.{DownInv, sift_down_lem}
use io_engine.Service.{DelayEntry, granted, next_block}
use io_engine.Service.Control.{initial}
use io_engine.Service.Timers.{delay_heap}
use io_engine.Service.Post.{post_delay, accepts}
use io_engine.Service.Post.Delayed.{delay_laws, IsDelayHeap, post_delay-IsDelayHeap}
use io_engine.Tests.Samples.{fresh, handler}

-- A full buffer of two objects whose oldest stands behind the newest.
abbrev turned : Cbuffer ℕ
turned = record {
  allocated = true;
  cells = λ i. elim i [ zero ↦ some 8 | _ ↦ some 7 ];
  limit = 2;
  nelems = 2;
  begin = 1;
  end = 1;
}

turned-Represents : Represents turned (7 ∷ 8 ∷ [])
unfolding peek
turned-Represents = record { sound = inr (ground arith); holds = refl }

push-Represents_example :
    (slot : ℕ) × (d : Cbuffer ℕ) × (Cbuffer.push true turned ≡ some (slot, d))
    × Represents (Cbuffer.store slot 9 d) (7 ∷ 8 ∷ 9 ∷ [])
push-Represents_example = push-Represents true turned (7 ∷ 8 ∷ []) 9 turned-Represents (inr refl)

pop-Represents_example : (Cbuffer.front turned ≡ some 7) × Represents (Cbuffer.pop turned) (8 ∷ [])
pop-Represents_example = pop-Represents turned 7 (8 ∷ []) turned-Represents

push-none_example :
    (Cbuffer.push false turned ≡ none) ↔ ((2 ≡ turned.limit) × (◌≡◌ {A = Bool} false false))
push-none_example = push-none false turned (7 ∷ 8 ∷ []) turned-Represents

-- Two entries in an array that is full.
abbrev pair : Dynarray ℕ
pair = record { items = 4 ∷ 5 ∷ []; capacity = 2 }

emplace_back_lem_example :
    (e : Dynarray ℕ) × (Dynarray.emplace_back true 0 pair ≡ some (2, e))
    × (e.items ≡ 4 ∷ 5 ∷ 0 ∷ [])
    × (length e.items ≤ e.capacity)
    × (2 ≤ e.capacity)
emplace_back_lem_example = emplace_back_lem 0 true pair (omega arith) (inr refl)

emplace_back-IsValid_example : IsSound {A = ℕ} (record { items = 4 ∷ 5 ∷ 0 ∷ []; capacity = 4 })
unfolding Dynarray.emplace_back Dynarray.mx
emplace_back-IsValid_example = emplace_back-IsValid 0 true pair (omega arith) refl

entry : ℕ → DelayEntry
entry n = record { deadline = pos n; handler = handler; status = null }

-- The entry at 1 is earlier than its parent.
abbrev unsifted : Dynarray DelayEntry
unsifted = record { items = entry 6 ∷ entry 3 ∷ entry 9 ∷ []; capacity = 4 }

unsifted-UpInv : UpInv delay_heap delay_laws unsifted 1
unfolding delay_heap delay_laws entry Dynarray.size up
unsifted-UpInv = record {
  inside = omega arith;
  edges = λ c p q r. grind arith;
  bridge = λ c p q r t. grind arith;
}

sift_up_lem_example : Sifted delay_heap delay_laws unsifted (sift_up delay_heap unsifted 1)
unfolding delay_laws
sift_up_lem_example = sift_up_lem delay_heap delay_laws unsifted 1 tt unsifted-UpInv

-- The root is later than both its children.
unsifted-DownInv : DownInv delay_heap delay_laws unsifted 0
unfolding delay_heap delay_laws entry Dynarray.size up
unsifted-DownInv = record {
  edges = λ c p q r. grind arith;
  bridge = λ c p q r t. absurd (omega arith);
}

sift_down_lem_example : Sifted delay_heap delay_laws unsifted (sift_down delay_heap unsifted 0)
unfolding delay_laws delay_heap Dynarray.size
sift_down_lem_example =
    sift_down_lem delay_heap delay_laws unsifted 0 (omega arith) tt unsifted-DownInv

post_delay-IsDelayHeap_example :
    let ent : DelayEntry = record { deadline = pos 10 +ℤ pos 5; handler = handler; status = 0 } in
    let (errc, s') = post_delay (pos 10) handler 0 (pos 5) fresh in
    (errc ≡ eio_ok) × IsDelayHeap s'.timed_handlers × Perm s'.timed_handlers.items (ent ∷ [])
unfolding fresh initial Dynarray.init accepts granted next_block
post_delay-IsDelayHeap_example =
    post_delay-IsDelayHeap (pos 10) handler 0 (pos 5) fresh (λ c p q. absurd (omega arith))
      (omega arith) refl (λ e. cc) (omega arith) (inr refl)
