-- ===== src/Service/Stop/Ending.antt =====
-- `iosvc_prep_stop` of src/io_service.c as a whole.
use io_engine.Base.{◌≡◌, ◌≤◌, refl, sym, ◌∙◌, ap, subst, List, ◌<◌, none, some, arith}
use io_engine.Base.Int.{ℤ}
use io_engine.Types.{Ptr, Handler, null}
use io_engine.Dynarray
use io_engine.Rbtree.Node.{EventData}
use io_engine.Rbtree.Shape.{Shape, Holds, Inside, IsTree, count, height, height_bound}
use io_engine.Service.{Service, DelayEntry}
use io_engine.Service.Monad.{Cmd, tree_fuel}
use io_engine.Service.Stop.{stop_async_ops, stop_delayed, prep_stop}
use io_engine.Service.Stop.Delayed.{Stops, all_stopped, stopped, told, stop_delayed-Stops}
use io_engine.Service.Stop.Pending.{HasEntry, Winds, wound, called, frees}
use io_engine.Service.Stop.Pending.Nodes.{pending, stop_async_ops-Winds}

-- What is left once the service is wound up.
pub record Ended (t : Service) : Type 0 where
  pub no_timed_handlers : Dynarray.size t.timed_handlers ≡ 0
  pub no_timed_events : Dynarray.size t.timed_events ≡ 0
  pub no_pollfds : Dynarray.size t.pollfds ≡ 0
  pub no_tree : t.tree.root ≡ null

-- The service without the delayed handlers.
abbrev pub emptied : Service → Service
emptied s = record s { timed_handlers = Dynarray.clear s.timed_handlers }

-- The service that `iosvc_prep_stop` leaves.
abbrev pub ended : Service → Service
ended s = record s {
  timed_events = Dynarray.clear s.timed_events;
  pollfds = Dynarray.clear s.pollfds;
  tree = record { cells = s.tree.cells; root = null };
}

module _ (call : Handler → Cmd (Unit {0})) (now : ℤ)
    (quiet : (h : Handler) (s : Service)
      → (s1 : Service) × (call h s ≡ some (tt, s1))
        × (s1.tree ≡ s.tree)
        × (s1.timed_events ≡ s.timed_events)
        × (s1.timed_handlers ≡ s.timed_handlers)
        × (s1.pollfds ≡ s.pollfds)) where
  -- The calls of the delayed handlers leave the rest alone.
  Stops-keeps :
      (ents : List DelayEntry) (s t : Service)
      → Stops call ents s t
      → (t.tree ≡ s.tree) × (t.timed_events ≡ s.timed_events) × (t.pollfds ≡ s.pollfds)
  unfolding told
  Stops-keeps _ s _ all_stopped = (refl, refl, refl)
  Stops-keeps _ s t (stopped {ent} {ents} s1 c w) =
      let (s1', c', k, h, th, p) = quiet ent.handler (told ent s) in
      let same : s1 ≡ s1' = ground (arith, sym c ∙ c') in
      let (k2, h2, p2) = Stops-keeps ents s1 t w in
      (
        k2 ∙ ap (λ z. z.tree) same ∙ k,
        h2 ∙ ap (λ z. z.timed_events) same ∙ h,
        p2 ∙ ap (λ z. z.pollfds) same ∙ p,
      )

  Winds-keeps :
      (ds : List EventData) (s t : Service)
      → Winds call now ds s t
      → t.timed_handlers ≡ s.timed_handlers
  Winds-keeps _ s _ wound = refl
  Winds-keeps _ s t (called {d} {ds} s0 s1 told c w) =
      let (s1', c', k, h, th, p) = quiet d.handler s0 in
      let same : s1 ≡ s1' = ground (arith, sym c ∙ c') in
      Winds-keeps ds s1 t w
      ∙ ap (λ z. z.timed_handlers) same
      ∙ th
      ∙ ap (λ z. z.timed_handlers) told.rest
  Winds-keeps ds s t (frees tree w) = Winds-keeps ds (record s { tree = tree }) t w

  prep_steps :
      (s s1 s3 : Service)
      → stop_delayed call (Dynarray.size s.timed_handlers) 0 s ≡ some (tt, s1)
      → stop_async_ops call (tree_fuel (emptied s1)) (emptied s1).tree.root now (emptied s1)
        ≡ some (tt, s3)
      → prep_stop call now s ≡ some (tt, ended s3)
  unfolding prep_stop
  prep_steps s s1 s3 e1 e2 = ground (arith, e1, e2)

  enough :
      (s s1 : Service) (sh : Shape)
      → count sh ≤ Dynarray.size s.pollfds
      → s1.pollfds ≡ s.pollfds
      → height sh < tree_fuel (emptied s1)
  unfolding tree_fuel
  enough s s1 sh b kp = (let low = height_bound sh in let same = ap Dynarray.size kp in omega arith)

  -- Where callbacks return and leave the tree, the deadlines, the delayed handlers and the pollfds
  -- alone, the tree has at most one node for each pollfd, and each event with a deadline has its
  -- entry in the heap, `iosvc_prep_stop` ends: it calls the handlers of the delayed entries in
  -- order and then that of each scheduled event, frees all nodes, and leaves nothing to wait for.
  pub prep_stop-Ended :
      (s : Service) (sh : Shape)
      → Holds s.tree.cells s.tree.root null sh
      → IsTree sh
      → count sh ≤ Dynarray.size s.pollfds
      → HasEntry s.timed_events (pending s.tree.cells sh)
      → (s1 : Service) × (s3 : Service) × (prep_stop call now s ≡ some (tt, ended s3))
        × Stops call s.timed_handlers.items s s1
        × Winds call now (pending s.tree.cells sh) (emptied s1) s3
        × ((q : Ptr) → Inside q sh → s3.tree.cells q ≡ none)
        × Ended (ended s3)
  unfolding Dynarray.size Dynarray.clear
  prep_stop-Ended s sh hold tree b entries =
      let (s1, e1, w1, k1) =
        stop_delayed-Stops call (λ h v. (let (v1, c, k, th, td, p) = quiet h v in (v1, c, td))) s in
      let (kt, ke, kp) = Stops-keeps s.timed_handlers.items s s1 w1 in
      let low = height_bound sh in
      let same = ap (λ z. pending z.cells sh) kt in
      let (s3, e3, w3, f3, k3) =
        stop_async_ops-Winds call now
          (λ h v. (let (v1, c, k, th, td, p) = quiet h v in (v1, c, k, th))) sh
          (tree_fuel (emptied s1)) (emptied s1) s1.tree.root null
          (subst (λ z. Holds z.cells z.root null sh) (sym kt) hold) tree (enough s s1 sh b kp)
          (subst (λ z. HasEntry s1.timed_events z) (sym same)
            (subst (λ z. HasEntry z (pending s.tree.cells sh)) (sym ke) entries)) in
      (
        s1,
        s3,
        prep_steps s s1 s3 e1 e3,
        w1,
        subst (λ z. Winds call now z (emptied s1) s3) same w3,
        f3.gone,
        record {
          no_timed_handlers = ap Dynarray.size (
              Winds-keeps (pending s.tree.cells sh) (emptied s1) s3
                (subst (λ z. Winds call now z (emptied s1) s3) same w3));
          no_timed_events = refl;
          no_pollfds = refl;
          no_tree = refl;
        },
      )
