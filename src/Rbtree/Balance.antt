-- ===== src/Rbtree/Balance.antt =====
-- The red-black rules, for the trees that src/rbtree.c keeps: no red node has a red child, and all
-- ways down pass as many black nodes.
use io_engine.Base.{
  ℕ, suc, ◌≡◌, ◌⊎◌, inl, inr, ◌∙◌, refl, Bool, true, false, Option, if◌then◌else◌, ◌==◌, arith,
}
use io_engine.Base.Int.{ℤ}
use io_engine.Types.{Ptr, null}
use io_engine.Rbtree.Node.{RbNode}
use io_engine.Rbtree.Store.{Dir, left, right}
use io_engine.Rbtree.Shape.{Shape, leaf, node, Inside}
use io_engine.Rbtree.Rotate.Colours.{red_of}
use io_engine.Rbtree.Rotate.Subtree.{fork}
use io_engine.Rbtree.Spine.{Spine, top, under, plug, OnSpine}

-- The colour of a node, as `is_red` answers it: a null pointer is black.
unfoldable pub red_at : (Ptr → Option RbNode) → Ptr → Bool
red_at cells q = if q == null then false else red_of (cells q)

-- The first node is black.
unfoldable pub IsBlack : (Ptr → Bool) → Shape → Type 0
IsBlack c leaf = Unit
IsBlack c (node l a k r) = c a ≡ false

-- The rules hold, and ways down pass `h` black nodes.
unfoldable pub IsRb : (Ptr → Bool) → Shape → ℕ → Type 0
unfolding IsBlack
IsRb c leaf h = h ≡ 0
IsRb c (node l a k r) h =
    ((c a ≡ true) × IsBlack c l × IsBlack c r × IsRb c l h × IsRb c r h)
    ⊎ ((c a ≡ false) × (g : ℕ) × (h ≡ suc g) × IsRb c l g × IsRb c r g)

-- The node above is there and black.
unfoldable pub Inner : (Ptr → Bool) → Spine → Type 0
Inner c top = ⊥
Inner c (under d a k r π) = c a ≡ false

-- The rules hold on the way up and beside it, for a subtree whose ways down pass `h` black nodes.
unfoldable pub RbSpine : (Ptr → Bool) → Spine → ℕ → Type 0
unfolding IsRb Inner
RbSpine c top h = Unit
RbSpine c (under d a k r π) h =
    ((c a ≡ true) × IsBlack c r × IsRb c r h × Inner c π × RbSpine c π h)
    ⊎ ((c a ≡ false) × IsRb c r h × RbSpine c π (suc h))

pub fork-IsBlack :
    (c : Ptr → Bool) (d : Dir) (s : Shape) (a : Ptr) (k : ℤ) (r : Shape) (h : ℕ)
    → c a ≡ false
    → IsRb c s h
    → IsRb c r h
    → IsRb c (fork d s a k r) (suc h) × IsBlack c (fork d s a k r)
unfolding IsRb fork
fork-IsBlack c left s a k r h e i j = (inr (e, h, refl, i, j), e)
fork-IsBlack c right s a k r h e i j = (inr (e, h, refl, j, i), e)

pub fork-red :
    (c : Ptr → Bool) (d : Dir) (s : Shape) (a : Ptr) (k : ℤ) (r : Shape) (h : ℕ)
    → c a ≡ true
    → IsBlack c s
    → IsBlack c r
    → IsRb c s h
    → IsRb c r h
    → IsRb c (fork d s a k r) h
unfolding IsRb fork
fork-red c left s a k r h e bs br i j = inl (e, bs, br, i, j)
fork-red c right s a k r h e bs br i j = inl (e, br, bs, j, i)

-- A subtree that keeps the rules below a way up that keeps them, not red below red.
pub plug-IsRb :
    (c : Ptr → Bool) (π : Spine) (s : Shape) (h : ℕ)
    → RbSpine c π h
    → IsRb c s h
    → IsBlack c s ⊎ ((π ≡ top) ⊎ Inner c π)
    → (g : ℕ) × IsRb c (plug π s) g
unfolding RbSpine plug
plug-IsRb c top s h p i b = (h, i)
plug-IsRb c (under d a k r π) s h (inl (e, br, ir, inner, p)) i (inl b) =
    plug-IsRb c π (fork d s a k r) h p (fork-red c d s a k r h e b br i ir) (inr (inr inner))
plug-IsRb c (under d a k r π) s h (inl (e, br, ir, inner, p)) i (inr (inl b)) = absurd (under_top b)
  where
    under_top : under d a k r π ≡ top → ⊥
    under_top z = ground arith
plug-IsRb c (under d a k r π) s h (inl (e, br, ir, inner, p)) i (inr (inr b)) =
    absurd (ground (arith, e, b))
plug-IsRb c (under d a k r π) s h (inr (e, ir, p)) i b =
    let (rb, black) = fork-IsBlack c d s a k r h e i ir in
    plug-IsRb c π (fork d s a k r) (suc h) p rb (inl black)

module _ (c c' : Ptr → Bool) where
  pub IsBlack-cong :
      (s : Shape) → ((q : Ptr) → Inside q s → c' q ≡ c q) → IsBlack c s → IsBlack c' s
  unfolding IsBlack Inside
  IsBlack-cong leaf same b = tt
  IsBlack-cong (node l a k r) same b = same a (inr (inl refl)) ∙ b

  pub IsRb-cong :
      (s : Shape) (h : ℕ) → ((q : Ptr) → Inside q s → c' q ≡ c q) → IsRb c s h → IsRb c' s h
  unfolding IsRb Inside
  IsRb-cong leaf h same i = i
  IsRb-cong (node l a k r) h same (inl (e, bl, br, il, ir)) = inl (
    same a (inr (inl refl)) ∙ e,
    IsBlack-cong l (λ q j. same q (inl j)) bl,
    IsBlack-cong r (λ q j. same q (inr (inr j))) br,
    IsRb-cong l h (λ q j. same q (inl j)) il,
    IsRb-cong r h (λ q j. same q (inr (inr j))) ir,
  )
  IsRb-cong (node l a k r) h same (inr (e, g, hg, il, ir)) = inr (
    same a (inr (inl refl)) ∙ e,
    g,
    hg,
    IsRb-cong l g (λ q j. same q (inl j)) il,
    IsRb-cong r g (λ q j. same q (inr (inr j))) ir,
  )

  pub Inner-cong : (π : Spine) → ((q : Ptr) → OnSpine q π → c' q ≡ c q) → Inner c π → Inner c' π
  unfolding Inner OnSpine
  Inner-cong top same i = i
  Inner-cong (under d a k r π) same i = same a (inl refl) ∙ i

  pub RbSpine-cong :
      (π : Spine) (h : ℕ) → ((q : Ptr) → OnSpine q π → c' q ≡ c q) → RbSpine c π h → RbSpine c' π h
  unfolding RbSpine OnSpine
  RbSpine-cong top h same p = tt
  RbSpine-cong (under d a k r π) h same (inl (e, br, ir, inner, p)) = inl (
    same a (inl refl) ∙ e,
    IsBlack-cong r (λ q j. same q (inr (inl j))) br,
    IsRb-cong r h (λ q j. same q (inr (inl j))) ir,
    Inner-cong π (λ q j. same q (inr (inr j))) inner,
    RbSpine-cong π h (λ q j. same q (inr (inr j))) p,
  )
  RbSpine-cong (under d a k r π) h same (inr (e, ir, p)) = inr (
    same a (inl refl) ∙ e,
    IsRb-cong r h (λ q j. same q (inr (inl j))) ir,
    RbSpine-cong π (suc h) (λ q j. same q (inr (inr j))) p,
  )
