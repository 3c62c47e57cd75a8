-- ===== src/Rbtree/Paint.antt =====
-- Changes of colour in the trees of src/rbtree.c.
use io_engine.Base.{
  ◌≡◌, ◌≢◌, inl, inr, sym, ◌∙◌, ap, subst, Bool, true, false, Bool-cases, Option, some, arith, ◌==◌,
  if◌then◌else◌,
}
use io_engine.Types.{Ptr, null}
use io_engine.Rbtree.Node.{RbNode}
use io_engine.Rbtree.Store.{Tree, load, is_red, set_red, set_black}
use io_engine.Rbtree.Shape.{Shape, leaf, node, Holds}
use io_engine.Rbtree.Steps.{Writes, IsSound, modify-Writes}
use io_engine.Rbtree.Balance.{red_at}

-- A tree stays where only colours change.
pub Holds-recolored :
    (cells after : Ptr → Option RbNode) (s : Shape) (p up : Ptr)
    → ((w : Ptr) (n : RbNode)
        → cells w ≡ some n
        → (b : Bool) × (after w ≡ some (record n { red = b })))
    → Holds cells p up s
    → Holds after p up s
unfolding Holds
Holds-recolored cells after leaf p up k h = h
Holds-recolored cells after (node l a j r) p up k (pa, nz, n, c, np, nk, hl, hr) =
    let (b, c') = k a n c in
    (
      pa,
      nz,
      record n { red = b },
      c',
      np,
      nk,
      Holds-recolored cells after l n.left a k hl,
      Holds-recolored cells after r n.right a k hr,
    )

pub Writes-recolored :
    (t u : Tree) (r : Ptr) (m : RbNode) (b : Bool)
    → t.cells r ≡ some m
    → Writes r (record m { red = b }) t u
    → (w : Ptr) (n : RbNode) → t.cells w ≡ some n
    → (c : Bool) × (u.cells w ≡ some (record n { red = c }))
Writes-recolored t u r m b e k w n c = elim (Bool-cases (w == r)) [
  | inl same ↦
      let wr : w ≡ r = ground arith in
      (b, ap u.cells wr ∙ k.written ∙ ground (arith, sym e ∙ ap t.cells (sym wr) ∙ c))
  | inr differs ↦ (n.red, k.others w (λ i. ground arith) ∙ c)
]

-- `u` is `t` with the node at `p` in the colour `b`.
pub record Painted (p : Ptr) (b : Bool) (t u : Tree) : Type 0 where
  pub keeps : (s : Shape) → Holds t.cells t.root null s → Holds u.cells u.root null s
  pub painted : (q : Ptr) → red_at u.cells q ≡ (if q == p then b else red_at t.cells q)

pub Writes-Painted :
    (t u : Tree) (p : Ptr) (n : RbNode) (b : Bool)
    → p ≢ null
    → t.cells p ≡ some n
    → Writes p (record n { red = b }) t u
    → Painted p b t u
unfolding red_at
Writes-Painted t u p n b nz c w = record {
  keeps = λ s h.
      subst (λ r. Holds u.cells r null s) (sym w.same_root)
        (Holds-recolored t.cells u.cells s t.root null (Writes-recolored t u p n b c w) h);
  painted = λ q. elim (Bool-cases (q == p)) [
    | inl e ↦
        let qp : q ≡ p = ground arith in
        let at_q : u.cells q ≡ some (record n { red = b }) = ap u.cells qp ∙ w.written in
        ground (arith, at_q)
    | inr e ↦ ground (arith, w.others q)
  ];
}

pub set_black-Painted :
    (t : Tree) (p : Ptr) (n : RbNode)
    → p ≢ null
    → t.cells p ≡ some n
    → (u : Tree) × (set_black p t ≡ some (tt, u)) × Painted p false t u
unfolding set_black
set_black-Painted t p n nz c =
    let (u, e, w) = modify-Writes t p (λ m. record m { red = false }) n c in
    (u, e, Writes-Painted t u p n false nz c w)

pub set_red-Painted :
    (t : Tree) (p : Ptr) (n : RbNode)
    → p ≢ null
    → t.cells p ≡ some n
    → (u : Tree) × (set_red p t ≡ some (tt, u)) × Painted p true t u
unfolding set_red
set_red-Painted t p n nz c =
    let (u, e, w) = modify-Writes t p (λ m. record m { red = true }) n c in
    (u, e, Writes-Painted t u p n true nz c w)

-- `is_red` answers the colour.
pub is_red-red_at : (t : Tree) (p : Ptr) → IsSound t p → is_red p t ≡ some (red_at t.cells p, t)
unfolding is_red red_at load
is_red-red_at t p (inl z) = ground arith
is_red-red_at t p (inr (nz, n, c)) = ground arith
