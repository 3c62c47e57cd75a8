-- ===== src/Rbtree/Fix/Turn.antt =====
-- The rotations that end `fix_insert` of src/rbtree.c.
use io_engine.Base.{ℕ, suc, ◌≡◌, ◌≢◌, inl, sym, ◌∙◌, ap, subst, Bool, true, false, some, arith}
use io_engine.Base.Int.{ℤ}
use io_engine.Types.{Ptr, null}
use io_engine.Rbtree.Store.{Tree, Dir, flip, set_red, set_black}
use io_engine.Rbtree.Insert.{rb_rotate}
use io_engine.Rbtree.Shape.{Shape, Holds, IsOrdered}
use io_engine.Rbtree.Frame.{IsOrdered-IsTree}
use io_engine.Rbtree.Rotate.Colours.{red_of}
use io_engine.Rbtree.Rotate.Subtree.{fork}
use io_engine.Rbtree.Spine.{Spine, under, plug}
use io_engine.Rbtree.Spine.Turn.{rb_rotate-plug}
use io_engine.Rbtree.Nodes.{nodes, nodes-plug, nodes-rotate}
use io_engine.Rbtree.Balance.{
  red_at, IsBlack, IsRb, RbSpine, fork-IsBlack, fork-red, plug-IsRb, IsBlack-cong, IsRb-cong,
  RbSpine-cong,
}
use io_engine.Rbtree.Paint.{Painted, set_black-Painted, set_red-Painted}
use io_engine.Rbtree.Fix.Query.{fork-flip, plug-get_parent}
use io_engine.Rbtree.Fix.Apart.{Family, plug-Family}

-- The pointers of `u` make up a tree by the red-black rules, except that its root may be red, with
-- the nodes of `s` in order.
pub record Fixed (u : Tree) (s : Shape) : Type 0 where
  pub shape : Shape
  pub holds : Holds u.cells u.root null shape
  pub ordered : IsOrdered shape
  pub same : nodes shape ≡ nodes s
  pub height : ℕ
  pub rules : IsRb (red_at u.cells) shape height

pub red_at-same :
    (t u : Tree)
    → ((q : Ptr) → q ≢ null → red_of (u.cells q) ≡ red_of (t.cells q))
    → (q : Ptr) → red_at u.cells q ≡ red_at t.cells q
unfolding red_at
red_at-same t u h q = ground (arith, h q)

-- The rules in the rotated tree, for colours that differ at its first node and at the node that
-- moved below.
turned_rules :
    (c c' : Ptr → Bool) (π : Spine) (d : Dir) (a b : Ptr) (ka kb : ℤ) (s sf su : Shape) (h : ℕ)
    → Family s sf su π a b
    → ((q : Ptr) → (q ≢ a) × (q ≢ b) → c' q ≡ c q)
    → c' a ≡ false
    → c' b ≡ true
    → IsRb c s h
    → IsRb c sf h
    → IsBlack c sf
    → IsRb c su h
    → IsBlack c su
    → RbSpine c π (suc h)
    → (g : ℕ) × IsRb c' (plug π (fork (flip d) (fork (flip d) su b kb sf) a ka s)) g
turned_rules c c' π d a b ka kb s sf su h fam keep at_a at_b is isf bsf isu bsu sp =
    let low : IsRb c' (fork (flip d) su b kb sf) h =
      fork-red c' (flip d) su b kb sf h at_b
        (IsBlack-cong c c' su (λ q i. keep q (fam.uncle q i)) bsu)
        (IsBlack-cong c c' sf (λ q i. keep q ((fam.sibling q i).0, (fam.sibling q i).1)) bsf)
        (IsRb-cong c c' su h (λ q i. keep q (fam.uncle q i)) isu)
        (IsRb-cong c c' sf h (λ q i. keep q ((fam.sibling q i).0, (fam.sibling q i).1)) isf) in
    let (rb, black) =
      fork-IsBlack c' (flip d) (fork (flip d) su b kb sf) a ka s h at_a low
        (IsRb-cong c c' s h (λ q i. keep q ((fam.self q i).0, (fam.self q i).1)) is) in
    plug-IsRb c' π (fork (flip d) (fork (flip d) su b kb sf) a ka s) (suc h)
      (RbSpine-cong c c' π (suc h) (λ q i. keep q ((fam.above q i).0, (fam.above q i).1)) sp) rb
      (inl black)

-- The tree after the rotation of `b` and the changes of colour.
record Turned (t u : Tree) (s : Shape) (a b : Ptr) : Type 0 where
  now_holds : Holds u.cells u.root null s
  now_ordered : IsOrdered s
  black_a : red_at u.cells a ≡ false
  red_b : red_at u.cells b ≡ true
  kept : (q : Ptr) → (q ≢ a) × (q ≢ b) → red_at u.cells q ≡ red_at t.cells q

turn_back :
    (d : Dir) (a b : Ptr) (ka kb : ℤ) (s sf su : Shape)
    → fork d (fork d s a ka sf) b kb su ≡ fork (flip d) su b kb (fork (flip d) sf a ka s)
turn_back d a b ka kb s sf su =
    fork-flip d (fork d s a ka sf) b kb su
    ∙ ap (λ z. fork (flip d) su b kb z) (fork-flip d s a ka sf)

repainted :
    (t t2 t3 t4 : Tree) (a b : Ptr) (s : Shape)
    → a ≢ b
    → Holds t2.cells t2.root null s
    → IsOrdered s
    → ((q : Ptr) → q ≢ null → red_of (t2.cells q) ≡ red_of (t.cells q))
    → Painted b true t2 t3
    → Painted a false t3 t4
    → Turned t t4 s a b
repainted t t2 t3 t4 a b s ab h o same p3 p4 = record {
  now_holds = p4.keeps s (p3.keeps s h);
  now_ordered = o;
  black_a = ground (arith, p4.painted a);
  red_b = ground (arith, p4.painted b, p3.painted b);
  kept = λ q ne. ground (arith, p4.painted q, p3.painted q, red_at-same t t2 same q);
}

module _ (t : Tree) (π : Spine) (d : Dir) (a b : Ptr) (ka kb : ℤ) (s sf su : Shape) where
  abbrev whole : Shape
  whole = plug π (fork d (fork d s a ka sf) b kb su)

  abbrev turned : Shape
  turned = plug π (fork (flip d) (fork (flip d) su b kb sf) a ka s)

  turn_steps :
      Holds t.cells t.root null whole
      → IsOrdered whole
      → a ≢ b
      → (t2 : Tree) × (t3 : Tree) × (t4 : Tree) × (rb_rotate b (flip d) t ≡ some (tt, t2))
        × (set_red b t2 ≡ some (tt, t3))
        × (set_black a t3 ≡ some (tt, t4))
        × Turned t t4 turned a b
  unfolding plug
  turn_steps hold ord ab =
      let e = turn_back d a b ka kb s sf su in
      let (t2, e2, h2, o2, c2) =
        rb_rotate-plug t π (flip d) b a kb ka su sf s
          (subst (λ z. Holds t.cells t.root null (plug π z)) e hold)
          (subst (λ z. IsOrdered (plug π z)) e ord) in
      let (bnz, bp, bn, bc) = plug-get_parent t2 (under (flip d) a ka s π) (flip d) su b kb sf h2 in
      let (t3, e3, p3) = set_red-Painted t2 b bn bnz bc in
      let (anz, ap', an, ac) =
        plug-get_parent t3 π (flip d) (fork (flip d) su b kb sf) a ka s (p3.keeps turned h2) in
      let (t4, e4, p4) = set_black-Painted t3 a an anz ac in
      (t2, t3, t4, e2, e3, e4, repainted t t2 t3 t4 a b turned ab h2 o2 c2 p3 p4)

  nodes-turned : nodes turned ≡ nodes whole
  nodes-turned = sym (
      nodes-plug π _ _
        (ap nodes (turn_back d a b ka kb s sf su) ∙ nodes-rotate (flip d) su sf s b a kb ka))

  Turned-Fixed :
      (u : Tree) (g : ℕ) → Turned t u turned a b → IsRb (red_at u.cells) turned g → Fixed u whole
  Turned-Fixed u g w rules = record {
    shape = turned;
    holds = w.now_holds;
    ordered = w.now_ordered;
    same = nodes-turned;
    height = g;
    rules = rules;
  }

  family : Holds t.cells t.root null whole → IsOrdered whole → Family s sf su π a b
  unfolding plug
  family hold ord =
      plug-Family d d s sf su π a b ka kb (IsOrdered-IsTree t.cells whole t.root null hold ord)

  -- The rotation of the grandparent and the change of colours.
  pub turn_Fixed :
      (h : ℕ)
      → Holds t.cells t.root null whole
      → IsOrdered whole
      → IsRb (red_at t.cells) s h
      → IsRb (red_at t.cells) sf h
      → IsBlack (red_at t.cells) sf
      → IsRb (red_at t.cells) su h
      → IsBlack (red_at t.cells) su
      → RbSpine (red_at t.cells) π (suc h)
      → (t2 : Tree) × (t3 : Tree) × (t4 : Tree) × (rb_rotate b (flip d) t ≡ some (tt, t2))
        × (set_red b t2 ≡ some (tt, t3))
        × (set_black a t3 ≡ some (tt, t4))
        × Fixed t4 whole
  turn_Fixed h hold ord is isf bsf isu bsu sp =
      let fam = family hold ord in
      let (t2, t3, t4, e2, e3, e4, w) = turn_steps hold ord fam.a_b in
      let (g, rules) =
        turned_rules (red_at t.cells) (red_at t4.cells) π d a b ka kb s sf su h fam w.kept w.black_a
          w.red_b is isf bsf isu bsu sp in
      (t2, t3, t4, e2, e3, e4, Turned-Fixed t4 g w rules)
