-- ===== src/Rbtree/Plant/Settle.antt =====
-- The end of `rb_insert` of src/rbtree.c: the root is painted black.
use io_engine.Base.{
  ℕ, suc, ◌≡◌, ◌≢◌, inl, inr, sym, ◌∙◌, ap, refl, subst, Bool, Bool-cases, false, Option, some,
  arith, ◌==◌,
}
use io_engine.Types.{Ptr, null}
use io_engine.Rbtree.Node.{RbNode}
use io_engine.Rbtree.Store.{Tree, set_black}
use io_engine.Rbtree.Shape.{Shape, leaf, node, Holds, IsOrdered}
use io_engine.Rbtree.Frame.{Holds-root, IsOrdered-IsTree}
use io_engine.Rbtree.Spine.{root_of, Holds-root_of}
use io_engine.Rbtree.Balance.{red_at, IsBlack, IsRb, IsRb-cong}
use io_engine.Rbtree.Paint.{set_black-Painted}
use io_engine.Rbtree.Fix.Query.{blacken, root-IsBlack}

-- The store holds an ordered tree with a black root, in which no red node has a red child and all
-- ways down pass as many black nodes.
pub record RbTree (t : Tree) (s : Shape) : Type 0 where
  pub holds : Holds t.cells t.root null s
  pub ordered : IsOrdered s
  pub black : IsBlack (red_at t.cells) s
  pub black_height : ℕ
  pub rules : IsRb (red_at t.cells) s black_height

-- The root of the tree is painted black at the end.
settled_rules :
    (c c' : Ptr → Bool) (s : Shape) (h : ℕ)
    → c null ≡ false
    → c' (root_of s) ≡ false
    → ((q : Ptr) → q ≢ root_of s → c' q ≡ c q)
    → (t : Tree) → Holds t.cells t.root null s
    → IsOrdered s
    → IsRb c s h
    → (g : ℕ) × IsRb c' s g
settled_rules c c' s h nb black same t hold ord i = elim (Bool-cases (c (root_of s))) [
  | inl red ↦ (
    suc h,
    (blacken c c' s h (IsOrdered-IsTree t.cells s t.root null hold ord) nb red black
        (λ q j ne. same q ne) i).0,
  )
  | inr e ↦ (
    h,
    IsRb-cong c c' s h
        (λ q j. elim (Bool-cases (q == root_of s)) [
          | inl z ↦
              (let qr : q ≡ root_of s = ground arith in ap c' qr ∙ black ∙ sym e ∙ ap c (sym qr))
          | inr z ↦ same q (λ w. ground (arith, w))
        ])
        i,
  )
]

leaf_root : (cells : Ptr → Option RbNode) (s : Shape) (up : Ptr) → Holds cells null up s → s ≡ leaf
unfolding Holds
leaf_root cells leaf up h = refl
leaf_root cells (node l a k r) up h = absurd (h.1 (sym h.0))

pub settle :
    (t : Tree) (s : Shape)
    → Holds t.cells t.root null s
    → IsOrdered s
    → (s ≡ leaf → ⊥)
    → (h : ℕ) → IsRb (red_at t.cells) s h
    → (u : Tree) × (set_black t.root t ≡ some (tt, u)) × RbTree u s
unfolding red_at
settle t s hold ord full h i = elim (Holds-root t.cells s t.root null hold) [
  | inl z ↦ absurd (full (leaf_root t.cells s null (subst (λ q. Holds t.cells q null s) z hold)))
  | inr (nz, inside, n, c) ↦
      let (u, e, p) = set_black-Painted t t.root n nz c in
      let rr = Holds-root_of t.cells t.root s t.root null hold in
      let black : red_at u.cells (root_of s) ≡ false =
        (let at_root = p.painted (root_of s) in ground (arith, at_root)) in
      let (g, rules) =
        settled_rules (red_at t.cells) (red_at u.cells) s h refl black
          (λ q ne. (let at_q = p.painted q in ground (arith, at_q, ne, rr))) t hold ord i in
      (
        u,
        e,
        record {
          holds = p.keeps s hold;
          ordered = ord;
          black = root-IsBlack (red_at u.cells) s black;
          black_height = g;
          rules = rules;
        },
      )
]
