-- ===== src/Rbtree/Unlink/Whole.antt =====
-- `rb_extract` of src/rbtree.c in a tree that keeps the red-black rules.
use io_engine.Base.{
  ℕ, zero, suc, ◌≡◌, ◌≢◌, ◌<◌, ◌≤◌, ◌+◌, ◌⊎◌, inl, inr, sym, ◌∙◌, ap, refl, subst, Bool, true,
  false, Bool-cases, Option, some, arith, ◌++◌,
}
use io_engine.Base.Int.{ℤ, ltb_ℤ, ◌==ℤ◌}
use io_engine.Types.{Ptr, null}
use io_engine.Rbtree.Store.{
  Tree, Dir, left, right, child, to_dir, Place, root_ref, link, read_place,
}
use io_engine.Rbtree.Insert.{rb_probe, rb_probe_loop}
use io_engine.Rbtree.Extract.{rb_extract}
use io_engine.Rbtree.Shape.{Shape, leaf, node, Holds, Has, IsOrdered, height}
use io_engine.Rbtree.Search.{step_found, step_down, read-link, height-below}
use io_engine.Rbtree.Rotate.Subtree.{fork}
use io_engine.Rbtree.Spine.{Spine, top, under, plug, parent_of, place_of, root_of, length}
use io_engine.Rbtree.Nodes.{nodes, before, after}
use io_engine.Rbtree.Balance.{red_at, IsBlack, IsRb, Inner, RbSpine}
use io_engine.Rbtree.Plant.Settle.{RbTree}
use io_engine.Rbtree.Unlink.Rest.{rest, IsSingle}
use io_engine.Rbtree.Unlink.Single.{rb_extract-Without}

-- A subtree of a tree that keeps the rules, and the way up from it.
fork_parts :
    (c : Ptr → Bool) (d : Dir) (s : Shape) (a : Ptr) (k : ℤ) (r : Shape) (π : Spine) (h : ℕ)
    → IsRb c (fork d s a k r) h
    → RbSpine c π h
    → IsBlack c (fork d s a k r) ⊎ Inner c π
    → (g : ℕ) × IsRb c s g
      × RbSpine c (under d a k r π) g
      × (IsBlack c s ⊎ Inner c (under d a k r π))
unfolding fork IsRb IsBlack RbSpine Inner
fork_parts c left s a k r π h (inl (e, bs, br, is, ir)) sp (inl b) = absurd (ground (arith, e, b))
fork_parts c left s a k r π h (inl (e, bs, br, is, ir)) sp (inr inner) =
    (h, is, inl (e, br, ir, inner, sp), inl bs)
fork_parts c left s a k r π h (inr (e, g, hg, is, ir)) sp free =
    (g, is, inr (e, ir, subst (λ z. RbSpine c π z) hg sp), inr e)
fork_parts c right s a k r π h (inl (e, br, bs, ir, is)) sp (inl b) = absurd (ground (arith, e, b))
fork_parts c right s a k r π h (inl (e, br, bs, ir, is)) sp (inr inner) =
    (h, is, inl (e, br, ir, inner, sp), inl bs)
fork_parts c right s a k r π h (inr (e, g, hg, ir, is)) sp free =
    (g, is, inr (e, ir, subst (λ z. RbSpine c π z) hg sp), inr e)

pub unplug-IsRb :
    (c : Ptr → Bool) (π : Spine) (s : Shape) (g : ℕ)
    → IsRb c (plug π s) g
    → IsBlack c (plug π s)
    → (h : ℕ) × IsRb c s h × RbSpine c π h × (IsBlack c s ⊎ Inner c π)
unfolding plug RbSpine
unplug-IsRb c top s g i b = (g, i, tt, inl b)
unplug-IsRb c (under d a k r π) s g i b =
    let (h, j, sp, free) = unplug-IsRb c π (fork d s a k r) g i b in
    fork_parts c d s a k r π h j sp free

-- The search for a descriptor that has a node ends at the pointer to it.
pub record Route (t : Tree) (fd : ℤ) (π : Spine) (s : Shape) (r : Option ((Place × Ptr) × Tree))
    : Type 0 where
  pub way : Spine
  pub lower : Shape
  pub higher : Shape
  pub at : Ptr
  pub whole : plug way (node lower at fd higher) ≡ plug π s
  pub answer : r ≡ some ((place_of way, parent_of way), t)
  pub depth : length way ≤ length π + height s

loop-Route :
    (t : Tree) (fd : ℤ) (s : Shape) (π : Spine) (fuel : ℕ) (p up : Ptr)
    → read_place (place_of π) t ≡ some (p, t)
    → Holds t.cells p up s
    → Has fd s
    → IsOrdered s
    → height s < fuel
    → Route t fd π s (rb_probe_loop fuel (place_of π) (parent_of π) fd t)
unfolding Holds Has IsOrdered plug length parent_of place_of height fork to_dir child
loop-Route t fd s π zero p up e h has o b = absurd (omega arith)
loop-Route t fd leaf π (suc fuel) p up e h has o b = absurd has
loop-Route t fd (node l a k r) π (suc fuel) p up e (pa, nz, n, c, np, nk, hl, hr) has
      (ol, or, lo, hi) b =
    let c' : t.cells p ≡ some n = ap t.cells pa ∙ c in
    let z : p ≢ null = λ i. nz (sym pa ∙ i) in
    elim (Bool-cases (n.fd ==ℤ fd)) [
      | inl same ↦
          let kf : k ≡ fd = ground (arith, nk, same) in
          record {
            way = π;
            lower = l;
            higher = r;
            at = a;
            whole = ap (λ j. plug π (node l a j r)) (sym kf);
            answer =
                step_found t fd fuel (place_of π) (parent_of π) p n e z c' (ground (arith, nk, kf));
            depth = omega arith;
          }
      | inr differs ↦ elim (Bool-cases (ltb_ℤ n.fd fd)) [
        | inl less ↦
            let step =
              step_down t fd fuel (place_of π) (parent_of π) p n true e z c' differs less in
            let below =
              loop-Route t fd r (under right a k l π) fuel n.right a (read-link t fd a n right c) hr
                (elim has [
                  | inl i ↦ (let lt = lo fd i in absurd (ground (arith, nk, less, lt)))
                  | inr (inl i) ↦ absurd (ground (arith, nk, less, i))
                  | inr (inr i) ↦ i
                ])
                or (height-below l r a k fuel b).1 in
            record {
              way = below.way;
              lower = below.lower;
              higher = below.higher;
              at = below.at;
              whole = below.whole;
              answer = step ∙ ap (λ q. rb_probe_loop fuel (link q right) q fd t) pa ∙ below.answer;
              depth = (let d = below.depth in ground (arith, d));
            }
        | inr more ↦
            let step =
              step_down t fd fuel (place_of π) (parent_of π) p n false e z c' differs more in
            let below =
              loop-Route t fd l (under left a k r π) fuel n.left a (read-link t fd a n left c) hl
                (elim has [
                  | inl i ↦ i
                  | inr (inl i) ↦ absurd (ground (arith, nk, differs, i))
                  | inr (inr i) ↦ (let lt = hi fd i in absurd (ground (arith, nk, more, lt)))
                ])
                ol (height-below l r a k fuel b).0 in
            record {
              way = below.way;
              lower = below.lower;
              higher = below.higher;
              at = below.at;
              whole = below.whole;
              answer = step ∙ ap (λ q. rb_probe_loop fuel (link q left) q fd t) pa ∙ below.answer;
              depth = (let d = below.depth in ground (arith, d));
            }
      ]
    ]

-- `rb_probe` for a descriptor that has a node, with fuel above the height, answers the pointer to
-- that node, and the node that the pointer is in, or the root and null.
pub rb_probe-Route :
    (t : Tree) (s : Shape) (fd : ℤ) (fuel : ℕ)
    → RbTree t s
    → Has fd s
    → height s < fuel
    → Route t fd top s (rb_probe fuel root_ref fd t)
unfolding rb_probe place_of parent_of read_place
rb_probe-Route t s fd fuel rb has b =
    loop-Route t fd s top fuel t.root null refl rb.holds has rb.ordered b

-- `rb_extract` of a node with one child at most, at the pointer to it, with fuel for two rounds
-- more than its depth, answers the node; the pointers make up an ordered tree that keeps the
-- red-black rules, with a black root, and that has the other nodes in order.
pub rb_extract-RbTree :
    (fuel : ℕ) (t : Tree) (π : Spine) (s : Shape)
    → RbTree t (plug π s)
    → IsSingle s
    → suc (suc (length π)) < fuel
    → (u : Tree) × (rb_extract fuel (place_of π) (parent_of π) t ≡ some (root_of s, u))
      × ((s' : Shape) × RbTree u s' × (nodes s' ≡ before π ++ (nodes (rest s) ++ after π)))
rb_extract-RbTree fuel t π s rb one b =
    let (h, i, sp, free) = unplug-IsRb (red_at t.cells) π s rb.black_height rb.rules rb.black in
    rb_extract-Without fuel t π s h b rb.holds rb.ordered one i sp
