-- ===== src/Service/Run/Faults.antt =====
-- Where the dispatch of src/io_service.c reads through a null pointer.
use io_engine.Base.{ℕ, suc, ◌≡◌, ◌∙◌, ap, inl, inr, true, false, none, some, arith, get_elem?-lt}
use io_engine.Base.Int.{ℤ}
use io_engine.Types.{Ptr, Handler}
use io_engine.Flags.{pollpri, pollhup, pollnval}
use io_engine.Dynarray
use io_engine.Rbtree.Node.{RbNode, write, get_evt_data, rd_wr_slot, slot_data}
use io_engine.Rbtree.Store.{Place, read_place, root_ref}
use io_engine.Rbtree.Insert.{rb_probe}
use io_engine.Rbtree.Shape.{Shape, HasAt, HasAt-unique, HasAt-Has}
use io_engine.Service.{Service, PollFd}
use io_engine.Service.Monad.{Cmd, on_tree, tree_fuel}
use io_engine.Service.Timers.{find_evt}
use io_engine.Service.Dequeue.{dequeue}
use io_engine.Service.Refusals.{IsIndexed, probe-Finds}
use io_engine.Service.Run.{
  dispatch_valid, dispatch_one, dispatch_ready_events, poll_at, calls_read, has_read, fire,
}

-- What the dispatch of a valid descriptor comes to: whatever callbacks do, it asks `iosvc_dequeue`
-- for a read event of a node with no place for one.
dispatch_valid-none :
    (call : Handler → Cmd (Unit {0})) (i : ℕ) (place : Place) (now : ℤ) (s : Service) (e : PollFd)
    (p : Ptr) (n : RbNode)
    → Dynarray.at s.pollfds i ≡ some e
    → e.revents pollhup ≡ true
    → e.revents pollpri ≡ false
    → read_place place s.tree ≡ some (p, s.tree)
    → s.tree.cells p ≡ some n
    → n.main_ev_type ≡ write
    → n.aux_event ≡ none
    → dispatch_valid call i place now s ≡ none
unfolding dispatch_valid poll_at calls_read has_read fire on_tree dequeue find_evt get_evt_data
    rd_wr_slot slot_data
dispatch_valid-none call i place now s e p n a hup pri rp cell ty aux = ground arith

dispatch_one-none :
    (call : Handler → Cmd (Unit {0})) (i : ℕ) (place : Place) (parent : Ptr) (now : ℤ) (s : Service)
    (e : PollFd)
    → Dynarray.at s.pollfds i ≡ some e
    → e.revents pollnval ≡ false
    → on_tree (rb_probe (tree_fuel s) root_ref e.fd) s ≡ some ((place, parent), s)
    → dispatch_valid call i place now s ≡ none
    → dispatch_one call i now s ≡ none
unfolding dispatch_one poll_at
dispatch_one-none call i place parent now s e a valid probe fault = ground (arith, probe, fault)

-- `dispatch_ready_events`, with the ordered tree of a service that has a pollfd for each node, reads
-- through a null pointer when it comes to a pollfd that reports a hangup, no urgent data and no
-- invalid descriptor, and whose descriptor has a node that waits only to be written and holds no
-- second event: it takes out a read event that the node does not have. The callbacks, the time and
-- the other flags do not matter.
pub dispatch_ready_events-fault :
    (call : Handler → Cmd (Unit {0})) (fuel i : ℕ) (now : ℤ) (s : Service) (shape : Shape)
    (e : PollFd) (p : Ptr) (n : RbNode)
    → IsIndexed s shape
    → Dynarray.at s.pollfds i ≡ some e
    → e.revents pollhup ≡ true
    → e.revents pollpri ≡ false
    → e.revents pollnval ≡ false
    → HasAt e.fd p shape
    → s.tree.cells p ≡ some n
    → n.main_ev_type ≡ write
    → n.aux_event ≡ none
    → dispatch_ready_events call (suc fuel) i now s ≡ none
unfolding dispatch_ready_events Dynarray.size Dynarray.at
dispatch_ready_events-fault call fuel i now s shape e p n ix a hup pri valid at cell ty aux =
    let (place, parent, probe, f) = probe-Finds s shape e.fd ix in
    elim f.finds [
      | inl (z, absent) ↦ absurd (absent (HasAt-Has e.fd p shape at))
      | inr (at', nz, m, c', k) ↦
          let same : f.target ≡ p = HasAt-unique e.fd f.target p shape ix.ordered at' at in
          let reads : read_place place s.tree ≡ some (p, s.tree) =
            f.reads ∙ ap (λ q. some (q, s.tree)) same in
          let fault = dispatch_valid-none call i place now s e p n a hup pri reads cell ty aux in
          let within = get_elem?-lt s.pollfds.items i e a in
          let round = dispatch_one-none call i place parent now s e a valid probe fault in
          ground (arith, round, within)
    ]
