-- ===== src/Service/Post/Delayed.antt =====
-- `iosvc_post_delay` keeps the delayed handlers in a heap by deadline.
use mathlib.Core.List.{Perm, perm_middle, append-nil}
use mathlib.Core.List.Perm
use io_engine.Base.{
  ℕ, ◌+◌, ◌≤◌, ◌<◌, ◌≡◌, refl, ◌∙◌, ◌≢◌, ◌⊎◌, true, false, List, [], ◌∷◌, ◌++◌, arith, ◌==◌,
  if◌then◌else◌, length, length-append, get_or, set, ap, get_or-append,
}
use io_engine.Base.Exchange.{length-exchange, get_or-exchange, exchange-Perm}
use io_engine.Base.Int.{ℤ, pos, ◌≤ℤ◌, ◌+ℤ◌, ltb_ℤ}
use io_engine.Types.{Ptr, null, Handler, eio_ok}
use io_engine.Dynarray
use io_engine.Dynarray.{Dynarray}
use io_engine.Dynarray.Bounds.{emplace_back_lem}
use io_engine.Heap.{sift_up, up}
use io_engine.Heap.Order.{HeapLaws}
use io_engine.Heap.Up.{UpInv, sift_up_lem, sift_up_keeps}
use io_engine.Service.{Service, DelayEntry, granted}
use io_engine.Service.Timers.{blank_delay, delay_at, delay_hp_ent_lt, delay_hp_ent_swp, delay_heap}
use io_engine.Service.Post.{accepts, post_delay}

module _ (h : Dynarray DelayEntry) (i j : ℕ) (p : i < length h.items) (q : j < length h.items) where
  pub swap-length : length (delay_hp_ent_swp h i j).items ≡ length h.items
  unfolding delay_hp_ent_swp
  swap-length = length-exchange blank_delay h.items i j p q

  pub swap-key :
      (c : ℕ)
      → (delay_at (delay_hp_ent_swp h i j) c).deadline ≡ (
          if j == c
          then (delay_at h i).deadline
          else if i == c
          then (delay_at h j).deadline
          else (delay_at h c).deadline)
  unfolding delay_hp_ent_swp
  swap-key c = ground (arith, get_or-exchange blank_delay h.items i j p q c)

  swap-Perm : Perm (delay_hp_ent_swp h i j).items h.items
  unfolding delay_hp_ent_swp
  swap-Perm = exchange-Perm blank_delay h.items i j p q

-- The delayed handlers' heap meets what the heap routines ask for.
unfoldable pub delay_laws : HeapLaws delay_heap
unfolding delay_heap Dynarray.size delay_hp_ent_lt
delay_laws = record {
  Good = λ d. Unit {0};
  key = λ d i. (delay_at d i).deadline;
  lt-key = λ d i j. refl;
  nelems-swap = λ d i j g p q. swap-length d i j p q;
  key-swap = λ d i j g p q c. swap-key d i j p q c;
  swap-Good = λ s i j g p q. tt;
}

-- Delayed handlers stand in a heap by deadline.
abbrev pub IsDelayHeap : Dynarray DelayEntry → Type 0
IsDelayHeap d =
    (c : ℕ) → 0 < c → c < length d.items → (delay_at d (up c)).deadline ≤ℤ (delay_at d c).deadline

-- A new entry at the end of a heap is the only one that may be out of place.
snoc-Perm : (xs : List DelayEntry) (x : DelayEntry) → Perm (xs ++ x ∷ []) (x ∷ xs)
snoc-Perm xs x = rw (append-nil xs) at (perm_middle {a = x} xs [])

append-UpInv :
    (d e : Dynarray DelayEntry) (ent : DelayEntry)
    → IsDelayHeap d
    → e.items ≡ d.items ++ ent ∷ []
    → UpInv delay_heap delay_laws e (length d.items)
unfolding delay_heap Dynarray.size delay_laws up
append-UpInv d e ent h eq =
    let size : length e.items ≡ length d.items + 1 =
      ap length eq ∙ length-append d.items (ent ∷ []) in
    let at = λ (c : ℕ). ap (λ xs. get_or xs c blank_delay) eq in
    record {
      inside = omega arith;
      edges = λ c p q r. ground (
        arith,
        at c,
        at (up c),
        h c,
        get_or-append d.items (ent ∷ []) c blank_delay,
        get_or-append d.items (ent ∷ []) (up c) blank_delay,
      );
      bridge = λ c p q r t. absurd (omega arith);
    }

delay_sift_up :
    (d e : Dynarray DelayEntry) (ent : DelayEntry)
    → IsDelayHeap d
    → e.items ≡ d.items ++ ent ∷ []
    → let f = sift_up delay_heap e (length d.items) in IsDelayHeap f × Perm f.items (ent ∷ d.items)
unfolding delay_heap Dynarray.size delay_laws
delay_sift_up d e ent h eq =
    let v = append-UpInv d e ent h eq in
    let behind : Perm e.items (ent ∷ d.items) = rw eq (snoc-Perm d.items ent) in
    (
      (sift_up_lem delay_heap delay_laws e (length d.items) tt v).ordered,
      sift_up_keeps delay_heap delay_laws (λ f. Perm f.items (ent ∷ d.items))
          (λ f i j g p q k. Perm.trans (swap-Perm f i j p q) k) e (length d.items) tt v.inside
          behind,
    )

store_last :
    (xs : List DelayEntry) (a b : DelayEntry) → set (xs ++ a ∷ []) (length xs) b ≡ xs ++ b ∷ []
store_last [] a b = refl
store_last (x ∷ xs) a b = ap (◌∷◌ x) (store_last xs a b)

-- A handler with a callback and a delay that is not negative, given to a service that accepts
-- work and has the memory that a full array asks for, is accepted: the delayed handlers are the
-- old ones and the new one with its deadline, and they stay a heap by deadline.
pub post_delay-IsDelayHeap :
    (now : ℤ) (hnd : Handler) (status : Ptr) (milliseconds : ℤ) (s : Service)
    → IsDelayHeap s.timed_handlers
    → length s.timed_handlers.items ≤ s.timed_handlers.capacity
    → accepts s.status ≡ true
    → hnd.callback ≢ null
    → pos 0 ≤ℤ milliseconds
    → ((length s.timed_handlers.items < s.timed_handlers.capacity) ⊎ (granted s ≡ true))
    → let ent : DelayEntry = record {
      deadline = now +ℤ milliseconds;
      handler = hnd;
      status = status;
    } in
      let (errc, s') = post_delay now hnd status milliseconds s in
      (errc ≡ eio_ok)
      × IsDelayHeap s'.timed_handlers
      × Perm s'.timed_handlers.items (ent ∷ s.timed_handlers.items)
unfolding post_delay Dynarray.store
post_delay-IsDelayHeap now hnd status milliseconds s h fits a nn ge room =
    let ent : DelayEntry = record {
      deadline = now +ℤ milliseconds;
      handler = hnd;
      status = status;
    } in
    let d = s.timed_handlers in
    let (e, eq, items, fit, grow) = emplace_back_lem blank_delay (granted s) d fits room in
    let e1 : (hnd.callback == null) ≡ false = ground arith in
    let e2 : ltb_ℤ milliseconds (pos 0) ≡ false = ground arith in
    let stored =
      ap (λ xs. set xs (length d.items) ent) items ∙ store_last d.items blank_delay ent in
    let k = delay_sift_up d (Dynarray.store (length d.items) ent e) ent h stored in
    (rw (e1, e2, a, eq) refl, rw (e1, e2, a, eq) k.0, rw (e1, e2, a, eq) k.1)
