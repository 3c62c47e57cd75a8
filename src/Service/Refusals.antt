-- ===== src/Service/Refusals.antt =====
-- Where `iosvc_enqueue` of src/iosvc_sched.c and `iosvc_cancel` of src/iosvc_cancel.c refuse, and
-- leave the service as it was.
use io_engine.Base.{
  ◌≡◌, ◌≢◌, ◌<◌, inl, inr, refl, ◌∙◌, sym, ap, true, false, none, some, arith, ◌==◌,
}
use io_engine.Base.Int.{ℤ}
use io_engine.Types.{Ptr, null, Event, Handler, eio_inprogress, eio_noentry}
use io_engine.Dynarray
use io_engine.Rbtree.Node.{RbNode, get_evt_data, rd_wr_slot, slot_data}
use io_engine.Rbtree.Store.{Place, root_ref, read_place, load}
use io_engine.Rbtree.Insert.{rb_probe}
use io_engine.Rbtree.Shape.{
  Shape, Holds, HasAt, IsOrdered, height, count, height_bound, HasAt-unique, HasAt-Has,
}
use io_engine.Rbtree.Search.{Finds, rb_probe-Answers}
use io_engine.Service.{Service, running}
use io_engine.Service.Monad.{Cmd, on_tree-step, on_tree, tree_fuel}
use io_engine.Service.Timers.{find_evt}
use io_engine.Service.Post.{accepts}
use io_engine.Service.Reserve.{is_scheduled, has_callback}
use io_engine.Service.Enqueue.{enqueue, enqueue_allowed, claim_pollfd}
use io_engine.Service.Cancel.{cancel, is_running, evt_of}
use io_engine.Service.Slots.{view, live, is_scheduled-view}

-- The service's nodes make up an ordered tree, with a pollfd for each.
pub record IsIndexed (s : Service) (shape : Shape) : Type 0 where
  pub holds : Holds s.tree.cells s.tree.root null shape
  pub ordered : IsOrdered shape
  pub counted : count shape ≡ Dynarray.size s.pollfds

probe_fuel : (s : Service) (shape : Shape) → IsIndexed s shape → height shape < tree_fuel s
unfolding tree_fuel
probe_fuel s shape i = let b = height_bound shape in let c = i.counted in omega arith

read_root : (s : Service) → read_place root_ref s.tree ≡ some (s.tree.root, s.tree)
unfolding read_place
read_root s = refl

-- The search that scheduling and cancelling begin with.
pub probe-Finds :
    (s : Service) (shape : Shape) (fd : ℤ)
    → IsIndexed s shape
    → (place : Place) × (parent : Ptr) × (on_tree (rb_probe (tree_fuel s) root_ref fd) s
        ≡ some ((place, parent), s))
      × Finds s.tree fd root_ref shape place parent
probe-Finds s shape fd i =
    let enough : height shape < tree_fuel s = probe_fuel s shape i in
    let (place, parent, e, f) =
      rb_probe-Answers s.tree fd shape (tree_fuel s) root_ref s.tree.root null (read_root s) i.holds
        i.ordered enough in
    (place, parent, on_tree-step _ e, f)

found_evt :
    (s : Service) (event : Event) (p : Ptr) (n : RbNode)
    → s.tree.cells p ≡ some n
    → view n event.wait_type ≡ none
    → has_callback (evt_of (find_evt s.tree p event.wait_type)) ≡ false
unfolding find_evt evt_of view live get_evt_data rd_wr_slot slot_data has_callback
found_evt s event p n c v = ground arith

claim_scheduled :
    (s : Service) (p : Ptr) (event : Event) (n : RbNode)
    → p ≢ null
    → s.tree.cells p ≡ some n
    → is_scheduled n event ≡ true
    → claim_pollfd p event s ≡ some (some eio_inprogress, s)
unfolding claim_pollfd on_tree load
claim_scheduled s p event n nz c i = ground arith

-- Scheduling an event that is scheduled already answers `EIO_INPROGRESS` and changes nothing, where
-- the service accepts work and the handler has a callback.
pub enqueue-inprogress :
    (s : Service) (shape : Shape) (event : Event) (hnd : Handler) (status p : Ptr) (n : RbNode)
    → IsIndexed s shape
    → accepts s.status ≡ true
    → hnd.callback ≢ null
    → HasAt event.fd p shape
    → s.tree.cells p ≡ some n
    → view n event.wait_type ≢ none
    → enqueue event hnd status s ≡ some ((eio_inprogress, null), s)
unfolding enqueue enqueue_allowed
enqueue-inprogress s shape event hnd status p n i a h at c v =
    let (place, parent, e, f) = probe-Finds s shape event.fd i in
    elim f.finds [
      | inl (z, absent) ↦ absurd (absent (HasAt-Has event.fd p shape at))
      | inr (at', nz, m, c', k) ↦
          let same : f.target ≡ p = HasAt-unique event.fd f.target p shape i.ordered at' at in
          let sched : is_scheduled n event ≡ true = ground (arith, is_scheduled-view n event) in
          let claimed =
            claim_scheduled s f.target event m nz c'
              (ground (arith, sym c' ∙ ap s.tree.cells same ∙ c)) in
          let calls : (hnd.callback == null) ≡ false = ground arith in
          let reads = on_tree-step (read_place place) {s = s} f.reads in
          ground (arith, e, reads, claimed)
    ]

-- Cancelling an event that is not scheduled, whether its descriptor has a node or not, answers
-- `EIO_NOENTRY` on a running service, calls no handler and changes nothing.
pub cancel-noentry :
    (call : Handler → Cmd (Unit {0})) (s : Service) (shape : Shape) (event : Event)
    → IsIndexed s shape
    → s.status ≡ running
    → ((p : Ptr) (n : RbNode)
        → HasAt event.fd p shape
        → s.tree.cells p ≡ some n
        → view n event.wait_type ≡ none)
    → cancel call event s ≡ some (eio_noentry, s)
unfolding cancel is_running
cancel-noentry call s shape event i r idle =
    let (place, parent, e, f) = probe-Finds s shape event.fd i in
    let reads = on_tree-step (read_place place) {s = s} f.reads in
    elim f.finds [
      | inl (z, absent) ↦
          let none_there : (f.target == null) ≡ true = ground arith in ground (arith, e, reads)
      | inr (at, nz, m, c, k) ↦
          let there : (f.target == null) ≡ false = ground arith in
          ground (arith, e, reads, found_evt s event f.target m c (idle f.target m at c))
    ]
