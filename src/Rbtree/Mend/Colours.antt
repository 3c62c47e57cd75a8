-- ===== src/Rbtree/Mend/Colours.antt =====
-- `swap_colors` of src/rbtree.c, and trees that keep the red-black rules with a black root.
use io_engine.Base.{ℕ, suc, ◌≡◌, ◌≢◌, ◌⊎◌, inl, inr, sym, ◌∙◌, Bool, some, arith}
use io_engine.Types.{Ptr, null}
use io_engine.Rbtree.Node.{RbNode}
use io_engine.Rbtree.Store.{Tree, modify, load, swap_colors}
use io_engine.Rbtree.Shape.{Shape, Holds, IsOrdered}
use io_engine.Rbtree.Steps.{modify-Writes, load-step}
use io_engine.Rbtree.Rotate.Subtree.{fork}
use io_engine.Rbtree.Spine.{Spine, top, under, plug}
use io_engine.Rbtree.Nodes.{nodes}
use io_engine.Rbtree.Balance.{red_at, IsBlack, IsRb, Inner, RbSpine, fork-IsBlack, fork-red}
use io_engine.Rbtree.Paint.{Writes-Painted}
use io_engine.Rbtree.Plant.Settle.{RbTree}

-- `u` is `t` with the colours of `a` and `b` exchanged.
pub record Swapped (a b : Ptr) (t u : Tree) : Type 0 where
  pub keeps : (s : Shape) → Holds t.cells t.root null s → Holds u.cells u.root null s
  pub at_a : red_at u.cells a ≡ red_at t.cells b
  pub at_b : red_at u.cells b ≡ red_at t.cells a
  pub others : (q : Ptr) → q ≢ a → q ≢ b → red_at u.cells q ≡ red_at t.cells q

swap_steps :
    (t t1 t2 : Tree) (a b : Ptr) (m n : RbNode)
    → load a t ≡ some (m, t)
    → load b t ≡ some (n, t)
    → modify a (λ k. record k { red = n.red }) t ≡ some (tt, t1)
    → modify b (λ k. record k { red = m.red }) t1 ≡ some (tt, t2)
    → swap_colors a b t ≡ some (tt, t2)
unfolding swap_colors
swap_steps t t1 t2 a b m n e1 e2 e3 e4 = ground (arith, e1, e2, e3, e4)

red_at-stored :
    (t : Tree) (p : Ptr) (n : RbNode) → p ≢ null → t.cells p ≡ some n → red_at t.cells p ≡ n.red
unfolding red_at
red_at-stored t p n nz c = ground (arith, c)

pub swap_colors-Swapped :
    (t : Tree) (a b : Ptr) (m n : RbNode)
    → a ≢ null
    → b ≢ null
    → a ≢ b
    → t.cells a ≡ some m
    → t.cells b ≡ some n
    → (u : Tree) × (swap_colors a b t ≡ some (tt, u)) × Swapped a b t u
swap_colors-Swapped t a b m n az bz ab ca cb =
    let (t1, e1, w1) = modify-Writes t a (λ k. record k { red = n.red }) m ca in
    let (t2, e2, w2) =
      modify-Writes t1 b (λ k. record k { red = m.red }) n (w1.others b (λ z. ab (sym z)) ∙ cb) in
    let p1 = Writes-Painted t t1 a m n.red az ca w1 in
    let p2 = Writes-Painted t1 t2 b n m.red bz (w1.others b (λ z. ab (sym z)) ∙ cb) w2 in
    let ra = red_at-stored t a m az ca in
    let rb = red_at-stored t b n bz cb in
    (
      t2,
      swap_steps t t1 t2 a b m n (load-step t a m ca) (load-step t b n cb) e1 e2,
      record {
        keeps = λ s h. p2.keeps s (p1.keeps s h);
        at_a = ground (arith, p2.painted a, p1.painted a, rb, ab);
        at_b = ground (arith, p2.painted b, ra);
        others = λ q qa qb. ground (arith, p2.painted q, p1.painted q, qa, qb);
      },
    )

-- A subtree that keeps the rules, not red below red nor red at the root.
pub plug-IsBlack :
    (c : Ptr → Bool) (π : Spine) (s : Shape) (h : ℕ)
    → RbSpine c π h
    → IsRb c s h
    → IsBlack c s ⊎ Inner c π
    → (g : ℕ) × IsRb c (plug π s) g × IsBlack c (plug π s)
unfolding RbSpine plug Inner
plug-IsBlack c top s h p i (inl b) = (h, i, b)
plug-IsBlack c top s h p i (inr b) = absurd b
plug-IsBlack c (under d a k r π) s h (inl (e, br, ir, inner, p)) i (inl b) =
    plug-IsBlack c π (fork d s a k r) h p (fork-red c d s a k r h e b br i ir) (inr inner)
plug-IsBlack c (under d a k r π) s h (inl (e, br, ir, inner, p)) i (inr b) =
    absurd (ground (arith, e, b))
plug-IsBlack c (under d a k r π) s h (inr (e, ir, p)) i b =
    let (rb, black) = fork-IsBlack c d s a k r h e i ir in
    plug-IsBlack c π (fork d s a k r) (suc h) p rb (inl black)

-- `u` holds a tree by the red-black rules, with the nodes of `s` in order.
abbrev pub Mended : Tree → Shape → Type 0
Mended u s = (s' : Shape) × RbTree u s' × (nodes s' ≡ nodes s)

pub plug-Mended :
    (u : Tree) (π : Spine) (s s' : Shape) (h : ℕ)
    → Holds u.cells u.root null (plug π s)
    → IsOrdered (plug π s)
    → nodes (plug π s) ≡ nodes s'
    → RbSpine (red_at u.cells) π h
    → IsRb (red_at u.cells) s h
    → IsBlack (red_at u.cells) s ⊎ Inner (red_at u.cells) π
    → Mended u s'
plug-Mended u π s s' h hold ord same sp i b =
    let (g, rules, black) = plug-IsBlack (red_at u.cells) π s h sp i b in
    (
      plug π s,
      record { holds = hold; ordered = ord; black = black; black_height = g; rules = rules },
      same,
    )
