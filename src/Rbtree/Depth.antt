-- ===== src/Rbtree/Depth.antt =====
-- The height of the trees of src/rbtree.c, and so the rounds of its loops.
use io_engine.Base.{ℕ, zero, suc, ◌≤◌, ◌<◌, ◌+◌, inl, inr, Bool, refl, arith}
use io_engine.Base.Int.{ℤ}
use io_engine.Types.{Ptr, null}
use io_engine.Rbtree.Store.{Tree, root_ref, read_place}
use io_engine.Rbtree.Insert.{rb_probe}
use io_engine.Rbtree.Shape.{Shape, leaf, node, height, count}
use io_engine.Rbtree.Search.{Answers, rb_probe-Answers}
use io_engine.Rbtree.Balance.{red_at, IsBlack, IsRb}
use io_engine.Rbtree.Plant.Settle.{RbTree}

unfoldable pub two_to : ℕ → ℕ
two_to zero = 1
two_to (suc w) = two_to w + two_to w

two_to_pos : (w : ℕ) → 1 ≤ two_to w
unfolding two_to
two_to_pos zero = omega arith
two_to_pos (suc w) = (let i = two_to_pos w in omega arith)

two_to_le : (g w : ℕ) → two_to g ≤ two_to w → g ≤ w
unfolding two_to
two_to_le zero w e = omega arith
two_to_le (suc g) zero e = (let i = two_to_pos g in absurd (omega arith))
two_to_le (suc g) (suc w) e = (let i = two_to_le g w (omega arith) in omega arith)

-- With `h` black nodes on every way down there are at least `2 ^ h - 1` nodes.
IsRb-count : (c : Ptr → Bool) (s : Shape) (h : ℕ) → IsRb c s h → two_to h ≤ suc (count s)
unfolding IsRb count two_to
IsRb-count c leaf h e = ground (arith, e)
IsRb-count c (node l a k r) h (inl (e, bl, br, il, ir)) =
    (let i = IsRb-count c l h il in let j = IsRb-count c r h ir in omega arith)
IsRb-count c (node l a k r) h (inr (e, g, hg, il, ir)) =
    (let i = IsRb-count c l g il in let j = IsRb-count c r g ir in ground (arith, hg))

-- No way down is longer than twice that and one, as red nodes do not follow each other.
IsRb-height :
    (c : Ptr → Bool) (s : Shape) (h : ℕ)
    → IsRb c s h
    → (height s ≤ suc (h + h)) × (IsBlack c s → height s ≤ h + h)
unfolding IsRb IsBlack height
IsRb-height c leaf h e = (omega arith, λ b. omega arith)
IsRb-height c (node l a k r) h (inl (e, bl, br, il, ir)) =
    let i = (IsRb-height c l h il).1 bl in
    let j = (IsRb-height c r h ir).1 br in (ground arith, λ b. absurd (ground (arith, e, b)))
IsRb-height c (node l a k r) h (inr (e, g, hg, il, ir)) =
    let i = (IsRb-height c l g il).0 in
    let j = (IsRb-height c r g ir).0 in (ground arith, λ b. ground arith)

pub RbTree-height :
    (t : Tree) (s : Shape) (w : ℕ) → RbTree t s → count s < two_to w → height s ≤ w + w
RbTree-height t s w rb b =
    let many = IsRb-count (red_at t.cells) s rb.black_height rb.rules in
    let low = two_to_le rb.black_height w (omega arith) in
    let short = (IsRb-height (red_at t.cells) s rb.black_height rb.rules).1 rb.black in omega arith

-- In a tree that keeps the red-black rules and has fewer than `2 ^ w` nodes, `rb_probe` ends
-- within `2 * w + 1` rounds, with the place of the node of the descriptor or a null place.
pub rb_probe-RbTree :
    (t : Tree) (s : Shape) (fd : ℤ) (w : ℕ)
    → RbTree t s
    → count s < two_to w
    → Answers t fd (rb_probe (suc (w + w)) root_ref fd t) root_ref s
unfolding read_place
rb_probe-RbTree t s fd w rb b =
    let low = RbTree-height t s w rb b in
    rb_probe-Answers t fd s (suc (w + w)) root_ref t.root null refl rb.holds rb.ordered
      (omega arith)
