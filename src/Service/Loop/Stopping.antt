-- ===== src/Service/Loop/Stopping.antt =====
-- The loop of `iosvc_run` of src/io_service.c once `iosvc_stop` was called.
use io_engine.Base.{
  ℕ, suc, ◌*◌, ◌⊎◌, ◌≡◌, ◌≤◌, refl, sym, ◌∙◌, ap, subst, Bool-cases, true, false, inl, inr, List,
  [], ◌∷◌, length, some, arith,
}
use mathlib.Core.List.{append-nil}
use io_engine.Base.Int.{ℤ}
use io_engine.Types.{Handler, null}
use io_engine.Cbuffer
use io_engine.Cbuffer.Queue.{Represents, pop-Represents, size-Represents}
use io_engine.Dynarray
use io_engine.Dynarray.{Dynarray}
use io_engine.Rbtree.Node.{EventData}
use io_engine.Rbtree.Shape.{Shape, Holds, IsTree, count}
use io_engine.Service.{Service, Status, stopping, PollFd, DelayEntry}
use io_engine.Service.Monad.{Cmd}
use io_engine.Service.Run.{run_sync_handlers}
use io_engine.Service.Run.Drain.{Drains, drained, called, run_sync_handlers-Drains}
use io_engine.Service.Stop.{prep_stop}
use io_engine.Service.Stop.Delayed.{Stops, all_stopped, stopped, told}
use io_engine.Service.Stop.Pending.{HasEntry, Winds, wound, frees, called as wind}
use io_engine.Service.Stop.Pending.Nodes.{pending}
use io_engine.Service.Stop.Ending.{prep_stop-Ended, emptied, ended, Ended}
use io_engine.Service.Loop.{PollAnswer, has_work, is_stopping, run_loop}

-- `t` is `s` but for the variables of clients.
pub record Leaves (s t : Service) : Type 0 where
  pub tree : t.tree ≡ s.tree
  pub timed_events : t.timed_events ≡ s.timed_events
  pub timed_handlers : t.timed_handlers ≡ s.timed_handlers
  pub pollfds : t.pollfds ≡ s.pollfds
  pub sync_handlers : t.sync_handlers ≡ s.sync_handlers
  pub status : t.status ≡ s.status

module _ (call : Handler → Cmd (Unit {0}))
    (quiet : (h : Handler) (s : Service)
      → (s1 : Service) × (call h s ≡ some (tt, s1)) × Leaves s s1) where
  Stops-rest :
      (ents : List DelayEntry) (s t : Service)
      → Stops call ents s t
      → (t.sync_handlers ≡ s.sync_handlers) × (t.status ≡ s.status)
  unfolding told
  Stops-rest _ s _ all_stopped = (refl, refl)
  Stops-rest _ s t (stopped {ent} {ents} s1 c w) =
      let (s1', c', k) = quiet ent.handler (told ent s) in
      let same : s1 ≡ s1' = ground (arith, sym c ∙ c') in
      let (q2, l2) = Stops-rest ents s1 t w in
      (
        q2 ∙ ap (λ z. z.sync_handlers) same ∙ k.sync_handlers,
        l2 ∙ ap (λ z. z.status) same ∙ k.status,
      )

  Winds-rest :
      (now : ℤ) (ds : List EventData) (s t : Service)
      → Winds call now ds s t
      → (t.sync_handlers ≡ s.sync_handlers) × (t.status ≡ s.status)
  Winds-rest now _ s _ wound = (refl, refl)
  Winds-rest now _ s t (wind {d} {ds} s0 s1 told c w) =
      let (s1', c', k) = quiet d.handler s0 in
      let same : s1 ≡ s1' = ground (arith, sym c ∙ c') in
      let (q2, l2) = Winds-rest now ds s1 t w in
      (
        q2 ∙ ap (λ z. z.sync_handlers) same ∙ k.sync_handlers ∙ ap (λ z. z.sync_handlers) told.rest,
        l2 ∙ ap (λ z. z.status) same ∙ k.status ∙ ap (λ z. z.status) told.rest,
      )
  Winds-rest now ds s t (frees tree w) = Winds-rest now ds (record s { tree = tree }) t w

  -- The posted handlers are called, and nothing else changes.
  drain :
      (q : List Handler) (s : Service)
      → Represents s.sync_handlers q
      → (t : Service) × Drains call q s q t
        × Leaves s (record t { sync_handlers = s.sync_handlers })
  drain [] s r = (
    s,
    drained,
    record {
      tree = refl;
      timed_events = refl;
      timed_handlers = refl;
      pollfds = refl;
      sync_handlers = refl;
      status = refl;
    },
  )
  drain (h ∷ q) s r =
      let (s1, c, k) = quiet h s in
      let r1 = subst (λ z. Represents z (h ∷ q)) (sym k.sync_handlers) r in
      let s2 = record s1 { sync_handlers = Cbuffer.pop s1.sync_handlers } in
      let (t, d, l) = drain q s2 (pop-Represents s1.sync_handlers h q r1).1 in
      let e = append-nil q in
      (
        t,
        called [] s1 c (subst (λ z. Represents s1.sync_handlers (h ∷ z)) (sym e) r1)
            (subst (λ z. Drains call z s2 q t) (sym e) d),
        record {
          tree = l.tree ∙ k.tree;
          timed_events = l.timed_events ∙ k.timed_events;
          timed_handlers = l.timed_handlers ∙ k.timed_handlers;
          pollfds = l.pollfds ∙ k.pollfds;
          sync_handlers = refl;
          status = l.status ∙ k.status;
        },
      )

  module _ (clock : ℕ → ℤ) (poll : ℕ → Dynarray PollFd → ℤ → PollAnswer) where
    loop_idle :
        (fuel round : ℕ) (s : Service)
        → has_work s ≡ false
        → run_loop call clock poll (suc fuel) round s ≡ some (tt, s)
    unfolding run_loop
    loop_idle fuel round s e = ground (arith, e)

    loop_stop :
        (fuel round : ℕ) (s t0 t : Service)
        → has_work s ≡ true
        → run_sync_handlers call (suc fuel) s ≡ some (tt, t0)
        → is_stopping t0.status ≡ true
        → prep_stop call (clock (2 * round)) t0 ≡ some (tt, t)
        → run_loop call clock poll (suc fuel) round s ≡ some (tt, t)
    unfolding run_loop
    loop_stop fuel round s t0 t e1 e2 e3 e4 = ground (arith, e1, e2, e3, e4)

    is_stopping-stopping : (l : Status) → l ≡ stopping → is_stopping l ≡ true
    unfolding is_stopping
    is_stopping-stopping l e = ap is_stopping e

    ended_idle :
        (t : Service) → Ended (ended t) → Represents t.sync_handlers [] → has_work (ended t) ≡ false
    unfolding has_work Dynarray.empty Dynarray.size Dynarray.clear
    ended_idle t e r =
        (let none_left = (size-Represents t.sync_handlers [] r).1 in
          let no_delayed = e.no_timed_handlers in ground (arith, none_left, no_delayed))

    -- Where callbacks return and leave the service alone but for the variables of clients, the tree
    -- has at most one node for each pollfd, and each event with a deadline has its entry in the
    -- heap, the loop of `iosvc_run` on a stopping service ends, with fuel for the posted handlers
    -- and one round more: at once and with no change if there is no work, and else by calling the
    -- posted handlers in order and then `iosvc_prep_stop` at the time read in this same round.
    -- Afterwards the service is still stopping and nothing is left to wait for.
    pub run_loop-Stopping :
        (q : List Handler) (round : ℕ) (s : Service) (sh : Shape)
        → Represents s.sync_handlers q
        → s.status ≡ stopping
        → Holds s.tree.cells s.tree.root null sh
        → IsTree sh
        → count sh ≤ Dynarray.size s.pollfds
        → HasEntry s.timed_events (pending s.tree.cells sh)
        → (t : Service) × (run_loop call clock poll (suc (length q)) round s ≡ some (tt, t))
          × (((has_work s ≡ false) × (t ≡ s))
              ⊎ ((has_work s ≡ true)
                  × ((t0 : Service) × Drains call q s q t0
                      × (prep_stop call (clock (2 * round)) t0 ≡ some (tt, t)))))
          × (has_work t ≡ false)
          × (t.status ≡ stopping)
    run_loop-Stopping q round s sh r life hold tree b entries = elim (Bool-cases (has_work s)) [
      | inr idle ↦ (s, loop_idle (length q) round s idle, inl (idle, refl), idle, life)
      | inl busy ↦
          let (t0, d, l) = drain q s r in
          let (e2, r0) = run_sync_handlers-Drains call r d in
          let now = clock (2 * round) in
          let (s1, s3, e4, w1, w3, gone, e) =
            prep_stop-Ended call now
              (λ h v.
                (let (v1, c, k) = quiet h v in
                  (v1, c, k.tree, k.timed_events, k.timed_handlers, k.pollfds)))
              t0 sh (subst (λ z. Holds z.cells z.root null sh) (sym l.tree) hold) tree
              (subst (λ z. count sh ≤ Dynarray.size z) (sym l.pollfds) b)
              (subst (λ z. HasEntry t0.timed_events (pending z.cells sh)) (sym l.tree)
                (subst (λ z. HasEntry z (pending s.tree.cells sh)) (sym l.timed_events) entries)) in
          let (q1, l1) = Stops-rest t0.timed_handlers.items t0 s1 w1 in
          let (q3, l3) = Winds-rest now (pending t0.tree.cells sh) (emptied s1) s3 w3 in
          (
            ended s3,
            loop_stop (length q) round s t0 (ended s3) busy e2
                (is_stopping-stopping t0.status (l.status ∙ life)) e4,
            inr (busy, (t0, d, e4)),
            ended_idle s3 e (subst (λ z. Represents z []) (sym (q3 ∙ q1)) r0),
            l3 ∙ l1 ∙ l.status ∙ life,
          )
    ]
