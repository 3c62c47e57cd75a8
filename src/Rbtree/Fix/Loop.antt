-- ===== src/Rbtree/Fix/Loop.antt =====
-- The loop of `fix_insert` of src/rbtree.c, from a red node up to the end.
use io_engine.Base.{
  ℕ, zero, suc, ◌≡◌, ◌<◌, ◌⊎◌, inl, inr, ◌∙◌, ap, refl, true, false, Bool-cases, some, arith,
}
use io_engine.Base.Int.{ℤ}
use io_engine.Types.{Ptr, null}
use io_engine.Rbtree.Store.{Tree, Dir, is_red}
use io_engine.Rbtree.Insert.{fix_insert}
use io_engine.Rbtree.Shape.{Shape, Holds, IsOrdered}
use io_engine.Rbtree.Steps.{load-step}
use io_engine.Rbtree.Rotate.Subtree.{fork, Inside-fork}
use io_engine.Rbtree.Spine.{Spine, top, under, plug, parent_of, root_of, length}
use io_engine.Rbtree.Balance.{red_at, IsBlack, IsRb, RbSpine, Inner, plug-IsRb}
use io_engine.Rbtree.Paint.{is_red-red_at}
use io_engine.Rbtree.Fix.{fix_stop, fix_rotate}
use io_engine.Rbtree.Fix.Query.{plug-Above, root_of-fork, root-IsBlack, plug-get_parent}
use io_engine.Rbtree.Fix.Turn.{Fixed}
use io_engine.Rbtree.Fix.Red.{IsRedRoot, IsRedRoot-root_of, IsRedRoot-Inside, IsRedRoot-IsRb}
use io_engine.Rbtree.Fix.Rotate.{rotate_insert-Fixed}
use io_engine.Rbtree.Fix.Recolour.{fix_insert-Recoloured}

-- The tree already keeps the rules.
done :
    (t : Tree) (π : Spine) (s : Shape) (x : Ptr) (k : ℤ) (h : ℕ)
    → Holds t.cells t.root null (plug π s)
    → IsOrdered (plug π s)
    → IsRedRoot (red_at t.cells) s x k h
    → RbSpine (red_at t.cells) π h
    → (π ≡ top) ⊎ Inner (red_at t.cells) π
    → Fixed t (plug π s)
done t π s x k h hold ord rr sp free =
    let (g, rules) = plug-IsRb (red_at t.cells) π s h sp (IsRedRoot-IsRb _ s x k h rr) (inr free) in
    record { shape = plug π s; holds = hold; ordered = ord; same = refl; height = g; rules = rules }

is_red_null : (t : Tree) → is_red null t ≡ some (false, t)
unfolding is_red
is_red_null t = ground arith

stop_top :
    (fuel : ℕ) (t : Tree) (s : Shape) (x : Ptr) (k : ℤ) (h : ℕ)
    → Holds t.cells t.root null (plug top s)
    → IsOrdered (plug top s)
    → IsRedRoot (red_at t.cells) s x k h
    → (u : Tree) × (fix_insert (suc fuel) x (parent_of top) t ≡ some (tt, u)) × Fixed u (plug top s)
unfolding parent_of RbSpine
stop_top fuel t s x k h hold ord rr =
    (t, fix_stop fuel x null t (is_red_null t), done t top s x k h hold ord rr tt (inl refl))

stop_black :
    (fuel : ℕ) (t : Tree) (e : Dir) (a : Ptr) (ka : ℤ) (sf : Shape) (π : Spine) (s : Shape)
    (x : Ptr) (k : ℤ) (h : ℕ)
    → Holds t.cells t.root null (plug (under e a ka sf π) s)
    → IsOrdered (plug (under e a ka sf π) s)
    → IsRedRoot (red_at t.cells) s x k h
    → RbSpine (red_at t.cells) (under e a ka sf π) h
    → red_at t.cells a ≡ false
    → (u : Tree) × (fix_insert (suc fuel) x a t ≡ some (tt, u))
      × Fixed u (plug (under e a ka sf π) s)
unfolding plug Inner
stop_black fuel t e a ka sf π s x k h hold ord rr sp black =
    let (nz, up, n, c) = plug-get_parent t π e s a ka sf hold in
    (
      t,
      fix_stop fuel x a t (is_red-red_at t a (inr (nz, n, c)) ∙ ap (λ z. some (z, t)) black),
      done t (under e a ka sf π) s x k h hold ord rr sp (inr black),
    )

module _ (t : Tree) (π : Spine) (e d : Dir) (x a b : Ptr) (k ka kb : ℤ) (s sf su : Shape)
    (h : ℕ) where
  abbrev tree : Shape
  tree = plug (under e a ka sf (under d b kb su π)) s

  stop_rotate :
      (fuel : ℕ)
      → Holds t.cells t.root null tree
      → IsOrdered tree
      → IsRedRoot (red_at t.cells) s x k h
      → red_at t.cells a ≡ true
      → red_at t.cells (root_of su) ≡ false
      → IsBlack (red_at t.cells) sf
      → IsRb (red_at t.cells) sf h
      → IsRb (red_at t.cells) su h
      → RbSpine (red_at t.cells) π (suc h)
      → (u : Tree) × (fix_insert (suc fuel) x a t ≡ some (tt, u)) × Fixed u tree
  unfolding plug parent_of
  stop_rotate fuel hold ord rr red_a black_u bsf isf isu sp =
      let (p, ab) =
        plug-Above t e a x ka sf s (under d b kb su π) hold ord (IsRedRoot-root_of _ s x k h rr)
          (IsRedRoot-Inside _ s x k h rr) in
      let (g, bb) =
        plug-Above t d b a kb su (fork e s a ka sf) π hold ord (root_of-fork e s a ka sf)
          (Inside-fork e a s a ka sf (inr (inl refl))) in
      let is_red_a =
        is_red-red_at t a (inr (ab.nonnull, p, ab.at_a)) ∙ ap (λ z. some (z, t)) red_a in
      let is_red_u = is_red-red_at t (root_of su) bb.other_sound ∙ ap (λ z. some (z, t)) black_u in
      let (u, r, f) =
        rotate_insert-Fixed t π d x a b k ka kb s sf su h bsf isf (root-IsBlack _ su black_u) isu sp
          red_a rr e hold ord in
      (
        u,
        fix_rotate fuel x a b (root_of su) d t p g is_red_a (load-step t a p ab.at_a) ab.its_parent
              bb.nonnull (load-step t b g bb.at_a) bb.side bb.other is_red_u
            ∙ r,
        f,
      )

-- `fix_insert` from a red node, with fuel above the distance to the root, ends with a tree by the
-- rules, whose nodes are the same in order.
pub fix_insert-Fixed :
    (fuel : ℕ) (t : Tree) (π : Spine) (s : Shape) (x : Ptr) (k : ℤ) (h : ℕ)
    → length π < fuel
    → Holds t.cells t.root null (plug π s)
    → IsOrdered (plug π s)
    → IsRedRoot (red_at t.cells) s x k h
    → RbSpine (red_at t.cells) π h
    → (u : Tree) × (fix_insert fuel x (parent_of π) t ≡ some (tt, u)) × Fixed u (plug π s)
unfolding parent_of RbSpine length plug Inner
fix_insert-Fixed zero t π s x k h b hold ord rr sp = absurd (ground arith)
fix_insert-Fixed (suc fuel) t top s x k h b hold ord rr sp = stop_top fuel t s x k h hold ord rr
fix_insert-Fixed (suc fuel) t (under e a ka sf π) s x k h b hold ord rr (inr (black, isf, sp)) =
    stop_black fuel t e a ka sf π s x k h hold ord rr (inr (black, isf, sp)) black
fix_insert-Fixed (suc fuel) t (under e a ka sf top) s x k h b hold ord rr
      (inl (red_a, bsf, isf, inner, sp)) =
    absurd inner
fix_insert-Fixed (suc fuel) t (under e a ka sf (under d y kb su π)) s x k h b hold ord rr
      (inl (red_a, bsf, isf, inner, inl rest)) =
    (let red_y = rest.0 in absurd (ground (arith, inner, red_y)))
fix_insert-Fixed (suc fuel) t (under e a ka sf (under d y kb su π)) s x k h b hold ord rr
      (inl (red_a, bsf, isf, inner, inr (black_y, isu, sp))) =
    elim (Bool-cases (red_at t.cells (root_of su))) [
      | inl red_u ↦
          let (t3, step, r) =
            fix_insert-Recoloured t π e d x a y k ka kb s sf su h hold ord red_a red_u rr isf isu
              sp in
          let (u, rest, f) =
            fix_insert-Fixed fuel t3 π (fork d (fork e s a ka sf) y kb su) y kb (suc h)
              (omega arith) r.holds ord r.red_root r.spine in
          (u, step fuel ∙ rest, f)
      | inr black_u ↦
          stop_rotate t π e d x a y k ka kb s sf su h fuel hold ord rr red_a black_u bsf isf isu sp
    ]
