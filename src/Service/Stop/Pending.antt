-- ===== src/Service/Stop/Pending.antt =====
-- The pending events when src/io_service.c winds the service up.
pub mod Nodes
use io_engine.Base.{
  ℕ, zero, suc, ◌<◌, ◌≡◌, ◌≢◌, ◌⊎◌, inl, inr, refl, sym, ◌∙◌, ap, subst, List, [], ◌∷◌, ◌++◌,
  Option, none, some, arith, Bool-cases, true, false, ◌==◌, not, if◌then◌else◌,
}
use io_engine.Base.Int.{ℤ, pos, pos_part, ltb_ℤ}
use io_engine.Types.{Ptr, Handler, eio_stopped, null}
use io_engine.Dynarray
use io_engine.Dynarray.{Dynarray}
use io_engine.Rbtree.Node.{RbNode, EventData}
use io_engine.Rbtree.Store.{Tree, load, modify, free}
use io_engine.Service.{Service, AsyncEntry, write_at}
use io_engine.Service.Monad.{Cmd, on_tree, on_tree-step}
use io_engine.Service.Stop.{
  stop_async_ops, stop_handler, stop_scheduled, report_stopped, report_time_left, time_left,
}

-- The event, if there is one and it is scheduled.
unfoldable pub scheduled : Option EventData → List EventData
scheduled none = []
scheduled (some d) = if d.handler.callback == null then [] else d ∷ []

-- Each event with a deadline has an entry in the heap.
unfoldable pub HasEntry : Dynarray AsyncEntry → List EventData → Type 0
HasEntry heap [] = Unit
HasEntry heap (d ∷ ds) =
    ((ltb_ℤ d.ddl_heap_idx (pos 0) ≡ true)
      ⊎ ((ltb_ℤ d.ddl_heap_idx (pos 0) ≡ false)
          × (ent : AsyncEntry) × (Dynarray.at heap (pos_part d.ddl_heap_idx) ≡ some ent)))
    × HasEntry heap ds

pub HasEntry-append :
    (heap : Dynarray AsyncEntry) (ds es : List EventData)
    → HasEntry heap (ds ++ es)
    → HasEntry heap ds × HasEntry heap es
unfolding HasEntry
HasEntry-append heap [] es h = (tt, h)
HasEntry-append heap (d ∷ ds) es (e, h) = let (i, j) = HasEntry-append heap ds es h in ((e, i), j)

-- `t` is `s` once the status variable of the event says `EIO_STOPPED` and the variable with its
-- remaining time, if it has a deadline, what is left at `now`.
pub record Told (d : EventData) (now : ℤ) (s t : Service) : Type 0 where
  pub statuses :
      t.statuses
      ≡ (if d.status == null then s.statuses else write_at s.statuses d.status eio_stopped)
  pub rest : record t { statuses = s.statuses; remaining = s.remaining } ≡ s
  pub untimed : ltb_ℤ d.ddl_heap_idx (pos 0) ≡ true → t.remaining ≡ s.remaining
  pub timed :
      (ent : AsyncEntry)
      → ltb_ℤ d.ddl_heap_idx (pos 0) ≡ false
      → Dynarray.at s.timed_events (pos_part d.ddl_heap_idx) ≡ some ent
      → t.remaining ≡ write_at s.remaining ent.remaining (time_left ent.deadline now)

module _ (call : Handler → Cmd (Unit {0})) (now : ℤ) where
  -- The handlers of the events are called in this order, each once its variables are set, with
  -- memory of the tree freed in between.
  pub data Winds : List EventData → Service → Service → Type 0 where
    wound : {s : Service} → Winds [] s s
    called :
        {d : EventData} {ds : List EventData} {s t : Service} (s0 s1 : Service)
        → Told d now s s0
        → call d.handler s0 ≡ some (tt, s1)
        → Winds ds s1 t
        → Winds (d ∷ ds) s t
    frees :
        {ds : List EventData} {s t : Service} (tree : Tree)
        → Winds ds (record s { tree = tree }) t
        → Winds ds s t

  pub Winds-append :
      (ds es : List EventData) (s t u : Service)
      → Winds ds s t
      → Winds es t u
      → Winds (ds ++ es) s u
  Winds-append _ es s _ u wound v = v
  Winds-append _ es s t u (called {d} {ds} s0 s1 told c w) v =
      called s0 s1 told c (Winds-append ds es s1 t u w v)
  Winds-append ds es s t u (frees tree w) v =
      frees tree (Winds-append ds es (record s { tree = tree }) t u w v)

  handler_step :
      (d : EventData) (s : Service)
      → HasEntry s.timed_events (d ∷ [])
      → (s0 : Service) × (stop_handler call d now s ≡ call d.handler s0)
        × Told d now s s0
        × (s0.tree ≡ s.tree)
        × (s0.timed_events ≡ s.timed_events)
  unfolding HasEntry stop_handler report_stopped report_time_left
  handler_step d s (inl e, h) = (
    record s {
      statuses = if d.status == null then s.statuses else write_at s.statuses d.status eio_stopped;
    },
    ground (arith, e),
    record {
      statuses = refl;
      rest = refl;
      untimed = λ z. refl;
      timed = λ ent z. absurd (ground (arith, e, z));
    },
    refl,
    refl,
  )
  handler_step d s (inr (e, ent, a), h) = (
    record s {
      statuses = if d.status == null then s.statuses else write_at s.statuses d.status eio_stopped;
      remaining = write_at s.remaining ent.remaining (time_left ent.deadline now);
    },
    ground (arith, e, a),
    record {
      statuses = refl;
      rest = refl;
      untimed = λ z. absurd (ground (arith, e, z));
      timed = λ ent' z a'.
          (let same : ent ≡ ent' = ground (arith, sym a ∙ a') in
            ap (λ v. write_at s.remaining v.remaining (time_left v.deadline now)) same);
    },
    refl,
    refl,
  )

  module _
      (quiet : (h : Handler) (s : Service)
        → (s1 : Service) × (call h s ≡ some (tt, s1))
          × (s1.tree ≡ s.tree)
          × (s1.timed_events ≡ s.timed_events)) where
    -- One of a node's events.
    pub stop_scheduled-Winds :
        (o : Option EventData) (s : Service)
        → HasEntry s.timed_events (scheduled o)
        → (t : Service) × (stop_scheduled call o now s ≡ some (tt, t))
          × Winds (scheduled o) s t
          × (t.tree ≡ s.tree)
          × (t.timed_events ≡ s.timed_events)
    unfolding scheduled stop_scheduled
    stop_scheduled-Winds none s h = (s, refl, wound, refl, refl)
    stop_scheduled-Winds (some d) s h = elim (Bool-cases (d.handler.callback == null)) [
      | inl e ↦ rw e (s, refl, wound, refl, refl)
      | inr e ↦
          let (s0, step, told, k0, h0) = handler_step d s (by_entry e h) in
          let (s1, c, k1, h1) = quiet d.handler s0 in
          rw e (s1, step ∙ c, called s0 s1 told c wound, k1 ∙ k0, h1 ∙ h0)
    ]
      where
        by_entry :
            (d.handler.callback == null) ≡ false
            → HasEntry s.timed_events (scheduled (some d))
            → HasEntry s.timed_events (d ∷ [])
        by_entry e i = subst (λ z. HasEntry s.timed_events (if z then [] else d ∷ [])) e i
