-- ===== src/Rbtree/Search.antt =====
-- `rb_probe` of src/rbtree.c finds the node of a descriptor, or the place where it belongs.
use io_engine.Base.{
  ℕ, zero, suc, ◌≡◌, ◌≢◌, ◌<◌, ◌⊎◌, inl, inr, refl, ◌∙◌, sym, ap, Bool-cases, Bool, true, false,
  Option, some, arith,
}
use io_engine.Base.Int.{ℤ, ◌==ℤ◌, ltb_ℤ}
use io_engine.Types.{Ptr, null}
use io_engine.Rbtree.Node.{RbNode}
use io_engine.Rbtree.Store.{Tree, Dir, left, right, to_dir, child, Place, link, read_place, load}
use io_engine.Rbtree.Insert.{rb_probe, rb_probe_loop}
use io_engine.Rbtree.Shape.{Shape, leaf, node, Holds, Has, HasAt, IsOrdered, height}

pub height-below :
    (l r : Shape) (a : Ptr) (k : ℤ) (fuel : ℕ)
    → height (node l a k r) < suc fuel
    → (height l < fuel) × (height r < fuel)
unfolding height
height-below l r a k fuel b = (ground arith, ground arith)

module _ (t : Tree) (fd : ℤ) where
  pub step_null :
      (fuel : ℕ) (place : Place) (parent : Ptr)
      → read_place place t ≡ some (null, t)
      → rb_probe_loop (suc fuel) place parent fd t ≡ some ((place, parent), t)
  unfolding rb_probe_loop
  step_null fuel place parent e = ground arith

  pub step_found :
      (fuel : ℕ) (place : Place) (parent p : Ptr) (n : RbNode)
      → read_place place t ≡ some (p, t)
      → p ≢ null
      → t.cells p ≡ some n
      → n.fd ≡ fd
      → rb_probe_loop (suc fuel) place parent fd t ≡ some ((place, parent), t)
  unfolding rb_probe_loop load
  step_found fuel place parent p n e z c k = ground arith

  pub step_down :
      (fuel : ℕ) (place : Place) (parent p : Ptr) (n : RbNode) (b : Bool)
      → read_place place t ≡ some (p, t)
      → p ≢ null
      → t.cells p ≡ some n
      → (n.fd ==ℤ fd) ≡ false
      → ltb_ℤ n.fd fd ≡ b
      → rb_probe_loop (suc fuel) place parent fd t ≡ rb_probe_loop fuel (link p (to_dir b)) p fd t
  unfolding rb_probe_loop load
  step_down fuel place parent p n b e z c k l = ground arith

  pub read-link :
      (p : Ptr) (n : RbNode) (d : Dir)
      → t.cells p ≡ some n
      → read_place (link p d) t ≡ some (child n d, t)
  unfolding read_place load
  read-link p n d c = ground arith

  -- What a search in a tree of shape `s` may answer: the place that holds the descriptor's node,
  -- or a null place if there is none. `parent` is the node that the place is in, unless the place
  -- is the one where the search began.
  pub record Finds (start : Place) (s : Shape) (place : Place) (parent : Ptr) : Type 0 where
    pub target : Ptr
    pub reads : read_place place t ≡ some (target, t)
    pub within : ((place ≡ start) × (parent ≡ null)) ⊎ ((d : Dir) × (place ≡ link parent d))
    pub finds :
        ((target ≡ null) × (Has fd s → ⊥))
        ⊎ (HasAt fd target s
            × (target ≢ null)
            × (n : RbNode) × (t.cells target ≡ some n)
            × (n.fd ≡ fd))

  -- The answer of a search.
  abbrev pub Answers : Option ((Place × Ptr) × Tree) → Place → Shape → Type 0
  Answers r start s =
      (place : Place) × (parent : Ptr) × (r ≡ some ((place, parent), t))
      × Finds start s place parent

  abbrev Within : Place → Place → Ptr → Type 0
  Within start place parent =
      ((place ≡ start) × (parent ≡ null)) ⊎ ((d : Dir) × (place ≡ link parent d))

  widen-left :
      (start : Place) (l r : Shape) (a : Ptr) (k : ℤ) (place : Place) (parent : Ptr)
      → (Has fd (node l a k r) → Has fd l)
      → Finds start l place parent
      → Finds start (node l a k r) place parent
  unfolding HasAt
  widen-left start l r a k place parent only f = record {
    target = f.target;
    reads = f.reads;
    within = f.within;
    finds = elim f.finds [
      | inl (z, h) ↦ inl (z, λ i. h (only i))
      | inr (h, z, n, c, e) ↦ inr (inl h, z, n, c, e)
    ];
  }

  widen-right :
      (start : Place) (l r : Shape) (a : Ptr) (k : ℤ) (place : Place) (parent : Ptr)
      → (Has fd (node l a k r) → Has fd r)
      → Finds start r place parent
      → Finds start (node l a k r) place parent
  unfolding HasAt
  widen-right start l r a k place parent only f = record {
    target = f.target;
    reads = f.reads;
    within = f.within;
    finds = elim f.finds [
      | inl (z, h) ↦ inl (z, λ i. h (only i))
      | inr (h, z, n, c, e) ↦ inr (inr (inr h), z, n, c, e)
    ];
  }

  goes-right :
      (l r : Shape) (a : Ptr) (k : ℤ)
      → IsOrdered (node l a k r)
      → ltb_ℤ k fd ≡ true
      → Has fd (node l a k r)
      → Has fd r
  unfolding IsOrdered Has
  goes-right l r a k (ol, or, lo, hi) c (inl h) = absurd (ground (arith, lo fd h))
  goes-right l r a k (ol, or, lo, hi) c (inr (inl h)) = absurd (ground arith)
  goes-right l r a k (ol, or, lo, hi) c (inr (inr h)) = h

  goes-left :
      (l r : Shape) (a : Ptr) (k : ℤ)
      → IsOrdered (node l a k r)
      → ltb_ℤ k fd ≡ false
      → (k ==ℤ fd) ≡ false
      → Has fd (node l a k r)
      → Has fd l
  unfolding IsOrdered Has
  goes-left l r a k (ol, or, lo, hi) c ne (inl h) = h
  goes-left l r a k (ol, or, lo, hi) c ne (inr (inl h)) = absurd (ground arith)
  goes-left l r a k (ol, or, lo, hi) c ne (inr (inr h)) = absurd (ground (arith, hi fd h))

  loop-Answers :
      (start : Place) (s : Shape) (fuel : ℕ) (place : Place) (parent p up : Ptr)
      → Within start place parent
      → read_place place t ≡ some (p, t)
      → Holds t.cells p up s
      → IsOrdered s
      → height s < fuel
      → Answers (rb_probe_loop fuel place parent fd t) start s
  unfolding Holds Has HasAt IsOrdered child to_dir
  loop-Answers start s zero place parent p up w e h o b = absurd (omega arith)
  loop-Answers start leaf (suc fuel) place parent p up w e h o b = (
    place,
    parent,
    step_null fuel place parent (e ∙ ap (λ q. some (q, t)) h),
    record { target = p; reads = e; within = w; finds = inl (h, λ i. i) },
  )
  loop-Answers start (node l a k r) (suc fuel) place parent p up w e (pa, nz, n, c, np, nk, hl, hr)
        o b =
      let c' : t.cells p ≡ some n = ground arith in
      let z : p ≢ null = ground arith in
      elim (Bool-cases (n.fd ==ℤ fd)) [
        | inl same ↦
            let k' : n.fd ≡ fd = ground arith in
            (
              place,
              parent,
              step_found fuel place parent p n e z c' k',
              record {
                target = p;
                reads = e;
                within = w;
                finds = inr (inr (inl (sym k' ∙ nk, pa)), z, n, c', k');
              },
            )
        | inr differs ↦ elim (Bool-cases (ltb_ℤ n.fd fd)) [
          | inl less ↦
              let (place', parent', e', f) =
                loop-Answers start r fuel (link p right) p n.right a (inr (right, refl))
                  (read-link p n right c') hr o.1 (height-below l r a k fuel b).1 in
              (
                place',
                parent',
                step_down fuel place parent p n true e z c' differs less ∙ e',
                widen-right start l r a k place' parent' (goes-right l r a k o (ground arith)) f,
              )
          | inr more ↦
              let (place', parent', e', f) =
                loop-Answers start l fuel (link p left) p n.left a (inr (left, refl))
                  (read-link p n left c') hl o.0 (height-below l r a k fuel b).0 in
              (
                place',
                parent',
                step_down fuel place parent p n false e z c' differs more ∙ e',
                widen-left start l r a k place' parent'
                    (goes-left l r a k o (ground arith) (ground arith)) f,
              )
        ]
      ]

  -- In an ordered tree at any place `rb_probe`, with fuel above the height, changes nothing and
  -- answers the node of the descriptor if there is one, and else a null place. `*out_parent` is
  -- the node that the place is in, except that it is `NULL` where the search ends at once.
  pub rb_probe-Answers :
      (s : Shape) (fuel : ℕ) (place : Place) (p up : Ptr)
      → read_place place t ≡ some (p, t)
      → Holds t.cells p up s
      → IsOrdered s
      → height s < fuel
      → Answers (rb_probe fuel place fd t) place s
  unfolding rb_probe
  rb_probe-Answers s fuel place p up e h o b =
      loop-Answers place s fuel place null p up (inl (refl, refl)) e h o b
