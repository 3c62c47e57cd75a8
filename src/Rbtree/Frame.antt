-- ===== src/Rbtree/Frame.antt =====
-- Which changes of the store keep the trees in it.
use io_engine.Base.{◌≡◌, ◌≢◌, ◌⊎◌, inl, inr, sym, ◌∙◌, ap, refl, subst, Option, some, arith}
use io_engine.Types.{Ptr, null}
use io_engine.Rbtree.Node.{RbNode}
use io_engine.Rbtree.Shape.{Shape, leaf, node, Holds, Has, IsOrdered, Inside, IsTree}

module _ (cells : Ptr → Option RbNode) where
  -- A node of the tree is stored, and the tree has its descriptor.
  pub Inside-Has :
      (s : Shape) (p up q : Ptr)
      → Holds cells p up s
      → Inside q s
      → (q ≢ null) × (m : RbNode) × (cells q ≡ some m) × Has m.fd s
  unfolding Holds Has Inside
  Inside-Has leaf p up q h i = absurd i
  Inside-Has (node l a k r) p up q (pa, nz, n, c, np, nk, hl, hr) (inl i) =
      let (z, m, e, has) = Inside-Has l n.left a q hl i in (z, m, e, inl has)
  Inside-Has (node l a k r) p up q (pa, nz, n, c, np, nk, hl, hr) (inr (inl i)) =
      ((λ z. nz (sym i ∙ z)), n, ap cells i ∙ c, inr (inl nk))
  Inside-Has (node l a k r) p up q (pa, nz, n, c, np, nk, hl, hr) (inr (inr i)) =
      let (z, m, e, has) = Inside-Has r n.right a q hr i in (z, m, e, inr (inr has))

  same_node : (q r : Ptr) (m n : RbNode) → q ≡ r → cells q ≡ some m → cells r ≡ some n → m.fd ≡ n.fd
  same_node q r m n e c d = ground (arith, sym c ∙ ap cells e ∙ d)

  -- Since its descriptors are in order, a tree has each node once.
  pub IsOrdered-IsTree : (s : Shape) (p up : Ptr) → Holds cells p up s → IsOrdered s → IsTree s
  unfolding Holds IsOrdered IsTree
  IsOrdered-IsTree leaf p up h o = tt
  IsOrdered-IsTree (node l a k r) p up (pa, nz, n, c, np, nk, hl, hr) (ol, or, lo, hi) = (
    (λ i.
        let (z, m, e, has) = Inside-Has l n.left a a hl i in
        ground (arith, lo m.fd has, same_node a a m n refl e c)),
    (λ i.
        let (z, m, e, has) = Inside-Has r n.right a a hr i in
        ground (arith, hi m.fd has, same_node a a m n refl e c)),
    (λ q i j.
        let (z, m, e, has) = Inside-Has l n.left a q hl i in
        let (z', m', e', has') = Inside-Has r n.right a q hr j in
        ground (arith, lo m.fd has, hi m'.fd has', same_node q q m m' refl e e')),
    IsOrdered-IsTree l n.left a hl ol,
    IsOrdered-IsTree r n.right a hr or,
  )

  -- A pointer to a tree is null or points into it.
  pub Holds-root :
      (s : Shape) (p up : Ptr)
      → Holds cells p up s
      → (p ≡ null) ⊎ ((p ≢ null) × Inside p s × (n : RbNode) × (cells p ≡ some n))
  unfolding Holds Inside
  Holds-root leaf p up h = inl h
  Holds-root (node l a k r) p up (pa, nz, n, c, np, nk, hl, hr) =
      inr ((λ z. nz (sym pa ∙ z)), inr (inl pa), n, ap cells pa ∙ c)

  module _ (after : Ptr → Option RbNode) where
    -- A tree stays where no node of it changes.
    pub Holds-others :
        (s : Shape) (p up : Ptr)
        → Holds cells p up s
        → ((q : Ptr) → Inside q s → after q ≡ cells q)
        → Holds after p up s
    unfolding Holds Inside
    Holds-others leaf p up h same = h
    Holds-others (node l a k r) p up (pa, nz, n, c, np, nk, hl, hr) same = (
      pa,
      nz,
      n,
      same a (inr (inl refl)) ∙ c,
      np,
      nk,
      Holds-others l n.left a hl (λ q i. same q (inl i)),
      Holds-others r n.right a hr (λ q i. same q (inr (inr i))),
    )

    -- A tree has another parent once its first node has.
    pub Holds-adopted :
        (s : Shape) (p up x : Ptr)
        → Holds cells p up s
        → IsTree s
        → ((m : RbNode) → p ≢ null → cells p ≡ some m → after p ≡ some (record m { parent = x }))
        → ((q : Ptr) → Inside q s → q ≢ p → after q ≡ cells q)
        → Holds after p x s
    unfolding Holds Inside IsTree
    Holds-adopted leaf p up x h d moved same = h
    Holds-adopted (node l a k r) p up x (pa, nz, n, c, np, nk, hl, hr) (dl, dr, da, tl, tr) moved
          same =
        (
          pa,
          nz,
          record n { parent = x },
          ap after (sym pa) ∙ moved n (λ z. nz (sym pa ∙ z)) (ap cells pa ∙ c),
          refl,
          nk,
          Holds-others l n.left a hl
              (λ q i. same q (inl i) (λ e. dl (subst (λ z. Inside z l) (e ∙ pa) i))),
          Holds-others r n.right a hr
              (λ q i. same q (inr (inr i)) (λ e. dr (subst (λ z. Inside z r) (e ∙ pa) i))),
        )
