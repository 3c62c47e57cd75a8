-- ===== src/Rbtree/Plant/Found.antt =====
-- A search in the tree that `rb_insert` of src/rbtree.c leaves.
use io_engine.Base.{
  ℕ, suc, ◌≡◌, ◌<◌, ◌⊎◌, inl, inr, sym, ◌∙◌, ap, refl, subst, Bool-cases, List, [], ◌∷◌, ◌++◌, some,
  arith,
}
use io_engine.Base.Int.{ℤ, ltb_ℤ}
use io_engine.Types.{Ptr, null}
use io_engine.Rbtree.Store.{Tree, Place, root_ref, read_place}
use io_engine.Rbtree.Insert.{rb_probe, rb_insert}
use io_engine.Rbtree.Shape.{
  Shape, leaf, node, Has, HasAt, HasAt-Has, HasAt-unique, IsOrdered, height,
}
use io_engine.Rbtree.Search.{Finds, rb_probe-Answers}
use io_engine.Rbtree.Grow.{insert}
use io_engine.Rbtree.Nodes.{nodes}
use io_engine.Rbtree.Plant.Link.{NewNode}
use io_engine.Rbtree.Plant.Settle.{RbTree}
use io_engine.Rbtree.Plant.Rebalance.{rb_insert-RbTree}

unfoldable Listed : ℤ → Ptr → List (ℤ × Ptr) → Type 0
Listed k p [] = ⊥
Listed k p (e ∷ es) = ((k ≡ e.0) × (p ≡ e.1)) ⊎ Listed k p es

Listed-append :
    (k : ℤ) (p : Ptr) (es fs : List (ℤ × Ptr))
    → (Listed k p es ⊎ Listed k p fs → Listed k p (es ++ fs))
      × (Listed k p (es ++ fs) → Listed k p es ⊎ Listed k p fs)
unfolding Listed
Listed-append k p [] fs = ((λ h. elim h [ inl i ↦ absurd i | inr i ↦ i ]), λ h. inr h)
Listed-append k p (e ∷ es) fs =
    let (to, back) = Listed-append k p es fs in
    (
      (λ h. elim h [
        | inl (inl i) ↦ inl i
        | inl (inr i) ↦ inr (to (inl i))
        | inr i ↦ inr (to (inr i))
      ]),
      λ h. elim h [
        | inl i ↦ inl (inl i)
        | inr i ↦ elim (back i) [ inl j ↦ inl (inr j) | inr j ↦ inr j ]
      ],
    )

-- The list has the nodes of the tree.
Listed-nodes :
    (k : ℤ) (p : Ptr) (s : Shape)
    → (HasAt k p s → Listed k p (nodes s)) × (Listed k p (nodes s) → HasAt k p s)
unfolding Listed HasAt nodes
Listed-nodes k p leaf = ((λ h. h), λ h. h)
Listed-nodes k p (node l a j r) =
    let (to, back) = Listed-append k p (nodes l) ((j, a) ∷ nodes r) in
    let (tl, bl) = Listed-nodes k p l in
    let (tr, br) = Listed-nodes k p r in
    (
      (λ h. to (elim h [
        | inl i ↦ inl (tl i)
        | inr (inl i) ↦ inr (inl i)
        | inr (inr i) ↦ inr (inr (tr i))
      ])),
      λ h. elim (back h) [
        | inl i ↦ inl (bl i)
        | inr (inl i) ↦ inr (inl i)
        | inr (inr i) ↦ inr (inr (br i))
      ],
    )

HasAt-insert : (fd : ℤ) (x : Ptr) (s : Shape) → HasAt fd x (insert fd x s)
unfolding HasAt insert
HasAt-insert fd x leaf = inr (inl (refl, refl))
HasAt-insert fd x (node l a k r) = elim (Bool-cases (ltb_ℤ k fd)) [
  | inl c ↦ rw c (inr (inr (HasAt-insert fd x r)))
  | inr c ↦ rw c (inl (HasAt-insert fd x l))
]

found :
    (u : Tree) (fd : ℤ) (x : Ptr) (s : Shape) (place : Place) (parent : Ptr)
    → Finds u fd root_ref s place parent
    → HasAt fd x s
    → IsOrdered s
    → read_place place u ≡ some (x, u)
found u fd x s place parent f at ord = elim f.finds [
  | inl (z, lacks) ↦ absurd (lacks (HasAt-Has fd x s at))
  | inr there ↦ f.reads ∙ ap (λ z. some (z, u)) (HasAt-unique fd f.target x s ord there.0 at)
]

-- After `rb_probe` and `rb_insert` of a red node for a descriptor that the tree does not have, a
-- search for the descriptor, with fuel for the new height and one more, ends at a pointer to that
-- node.
pub rb_probe-rb_insert :
    (t : Tree) (s : Shape) (fd : ℤ) (x : Ptr) (fuel : ℕ)
    → RbTree t s
    → (Has fd s → ⊥)
    → NewNode t s fd x
    → height s < suc fuel
    → (place : Place) × (parent : Ptr) × (u : Tree) × (s' : Shape) × (rb_probe
          (suc fuel)
          root_ref
          fd
          t
        ≡ some ((place, parent), t))
      × (rb_insert (suc fuel) x place parent t ≡ some (tt, u))
      × ((place' : Place) × (parent' : Ptr) × (rb_probe (suc (height s')) root_ref fd u
            ≡ some ((place', parent'), u))
          × (read_place place' u ≡ some (x, u)))
unfolding read_place
rb_probe-rb_insert t s fd x fuel rb out new b =
    let (place, parent, u, s', probe, grow, rb', same) =
      rb_insert-RbTree t s fd x fuel rb out new b in
    let at = (Listed-nodes fd x s').1 (
      subst (λ z. Listed fd x z) (sym same)
        ((Listed-nodes fd x (insert fd x s)).0 (HasAt-insert fd x s))) in
    let (place', parent', e, f) =
      rb_probe-Answers u fd s' (suc (height s')) root_ref u.root null refl rb'.holds rb'.ordered
        (omega arith) in
    (
      place,
      parent,
      u,
      s',
      probe,
      grow,
      (place', parent', e, found u fd x s' place' parent' f at rb'.ordered),
    )
