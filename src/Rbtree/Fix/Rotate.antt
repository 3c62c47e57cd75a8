-- ===== src/Rbtree/Fix/Rotate.antt =====
-- The branch of `fix_insert` of src/rbtree.c for a black uncle.
use io_engine.Base.{
  ℕ, suc, ◌≡◌, ◌⊎◌, inl, inr, sym, ◌∙◌, ap, refl, subst, fun_ext, Bool, true, some,
}
use io_engine.Base.Int.{ℤ}
use io_engine.Types.{Ptr, null}
use io_engine.Rbtree.Store.{Tree, Dir, left, right, flip}
use io_engine.Rbtree.Insert.{rb_rotate, rotate_insert}
use io_engine.Rbtree.Shape.{Shape, Holds, IsOrdered}
use io_engine.Rbtree.Steps.{load-step}
use io_engine.Rbtree.Rotate.Subtree.{fork}
use io_engine.Rbtree.Spine.{Spine, under, plug}
use io_engine.Rbtree.Spine.Turn.{rb_rotate-plug}
use io_engine.Rbtree.Nodes.{nodes, nodes-plug, nodes-rotate}
use io_engine.Rbtree.Balance.{red_at, IsBlack, IsRb, RbSpine, fork-red}
use io_engine.Rbtree.Fix.{rotate_steps, mixed_same, mixed_other}
use io_engine.Rbtree.Fix.Query.{plug-Above}
use io_engine.Rbtree.Fix.Turn.{Fixed, turn_Fixed, red_at-same}
use io_engine.Rbtree.Fix.Red.{IsRedRoot, IsRedRoot-root_of, IsRedRoot-Inside, IsRedRoot-IsRb}

pub Fixed-nodes : (u : Tree) (s s' : Shape) → nodes s ≡ nodes s' → Fixed u s → Fixed u s'
Fixed-nodes u s s' e f = record {
  shape = f.shape;
  holds = f.holds;
  ordered = f.ordered;
  same = f.same ∙ e;
  height = f.height;
  rules = f.rules;
}

Dir-cases : (e d : Dir) → (e ≡ d) ⊎ (e ≡ flip d)
unfolding flip
Dir-cases left left = inl refl
Dir-cases left right = inr refl
Dir-cases right left = inr refl
Dir-cases right right = inl refl

pub fork-unflip :
    (d : Dir) (s : Shape) (a : Ptr) (k : ℤ) (r : Shape) → fork (flip d) s a k r ≡ fork d r a k s
unfolding fork flip
fork-unflip left s a k r = refl
fork-unflip right s a k r = refl

module _ (t : Tree) (π : Spine) (d : Dir) (x a b : Ptr) (k ka kb : ℤ) (s sf su : Shape) (h : ℕ)
    (bsf : IsBlack (red_at t.cells) sf) (isf : IsRb (red_at t.cells) sf h)
    (bsu : IsBlack (red_at t.cells) su) (isu : IsRb (red_at t.cells) su h)
    (sp : RbSpine (red_at t.cells) π (suc h)) (red_a : red_at t.cells a ≡ true)
    (rr : IsRedRoot (red_at t.cells) s x k h) where
  abbrev family_tree : Dir → Shape
  family_tree e = plug (under e a ka sf (under d b kb su π)) s

  rotate_same :
      Holds t.cells t.root null (family_tree d)
      → IsOrdered (family_tree d)
      → (u : Tree) × (rotate_insert x a b d t ≡ some (tt, u)) × Fixed u (family_tree d)
  unfolding plug
  rotate_same hold ord =
      let (p, ab) =
        plug-Above t d a x ka sf s (under d b kb su π) hold ord (IsRedRoot-root_of _ s x k h rr)
          (IsRedRoot-Inside _ s x k h rr) in
      let (t2, t3, t4, e2, e3, e4, f) =
        turn_Fixed t π d a b ka kb s sf su h hold ord (IsRedRoot-IsRb _ s x k h rr) isf bsf isu bsu
          sp in
      (
        t4,
        rotate_steps x a b a d d t t t2 t3 t4 p (load-step t a p ab.at_a) ab.side
            (mixed_same x a d t) e2 e3 e4,
        f,
      )

  -- The first rotation of the other case, which leads to the first case.
  mixed_turn :
      (s1 s2 : Shape)
      → s ≡ fork d s1 x k s2
      → Holds t.cells t.root null (family_tree (flip d))
      → IsOrdered (family_tree (flip d))
      → (t1 : Tree) × (rb_rotate a d t ≡ some (tt, t1))
        × Holds t1.cells t1.root null (plug π (fork d (fork d (fork d sf a ka s1) x k s2) b kb su))
        × IsOrdered (plug π (fork d (fork d (fork d sf a ka s1) x k s2) b kb su))
        × (red_at t1.cells ≡ red_at t.cells)
        × (nodes (plug π (fork d (fork d (fork d sf a ka s1) x k s2) b kb su))
            ≡ nodes (family_tree (flip d)))
  unfolding plug
  mixed_turn s1 s2 e hold ord =
      let e' : fork (flip d) s a ka sf ≡ fork d sf a ka (fork d s1 x k s2) =
        fork-unflip d s a ka sf ∙ ap (λ z. fork d sf a ka z) e in
      let up = under d b kb su π in
      let (t1, e1, h1, o1, c1) =
        rb_rotate-plug t up d a x ka k sf s1 s2
          (subst (λ z. Holds t.cells t.root null (plug up z)) e' hold)
          (subst (λ z. IsOrdered (plug up z)) e' ord) in
      (
        t1,
        e1,
        h1,
        o1,
        fun_ext (red_at-same t t1 c1),
        sym (nodes-plug up _ _ (ap nodes e' ∙ nodes-rotate d sf s1 s2 a x ka k)),
      )

  rotate_mixed :
      Holds t.cells t.root null (family_tree (flip d))
      → IsOrdered (family_tree (flip d))
      → (u : Tree) × (rotate_insert x a b d t ≡ some (tt, u)) × Fixed u (family_tree (flip d))
  unfolding plug
  rotate_mixed hold ord =
      let (s1, s2, e, b1, b2, i1, i2) = rr.seen d in
      let (p, ab) =
        plug-Above t (flip d) a x ka sf s (under d b kb su π) hold ord
          (IsRedRoot-root_of _ s x k h rr) (IsRedRoot-Inside _ s x k h rr) in
      let (t1, e1, h1, o1, c1, n1) = mixed_turn s1 s2 e hold ord in
      let now = λ (P : (Ptr → Bool) → Type 0) (y : P (red_at t.cells)). subst P (sym c1) y in
      let low = fork-red (red_at t.cells) d sf a ka s1 h red_a bsf b1 isf i1 in
      let (t2, t3, t4, e2, e3, e4, f) =
        turn_Fixed t1 π d x b k kb (fork d sf a ka s1) s2 su h h1 o1
          (now (λ c. IsRb c (fork d sf a ka s1) h) low) (now (λ c. IsRb c s2 h) i2)
          (now (λ c. IsBlack c s2) b2) (now (λ c. IsRb c su h) isu) (now (λ c. IsBlack c su) bsu)
          (now (λ c. RbSpine c π (suc h)) sp) in
      (
        t4,
        rotate_steps x a b x d (flip d) t t1 t2 t3 t4 p (load-step t a p ab.at_a) ab.side
            (mixed_other x a d t t1 e1) e2 e3 e4,
        Fixed-nodes t4 _ _ n1 f,
      )

  -- Whatever side the parent is on, the branch ends with a tree by the rules.
  pub rotate_insert-Fixed :
      (e : Dir)
      → Holds t.cells t.root null (family_tree e)
      → IsOrdered (family_tree e)
      → (u : Tree) × (rotate_insert x a b d t ≡ some (tt, u)) × Fixed u (family_tree e)
  rotate_insert-Fixed e hold ord = elim (Dir-cases e d) [
    | inl z ↦
        subst (λ q. (u : Tree) × (rotate_insert x a b d t ≡ some (tt, u)) × Fixed u (family_tree q))
          (sym z)
          (rotate_same (subst (λ q. Holds t.cells t.root null (family_tree q)) z hold)
            (subst (λ q. IsOrdered (family_tree q)) z ord))
    | inr z ↦
        subst (λ q. (u : Tree) × (rotate_insert x a b d t ≡ some (tt, u)) × Fixed u (family_tree q))
          (sym z)
          (rotate_mixed (subst (λ q. Holds t.cells t.root null (family_tree q)) z hold)
            (subst (λ q. IsOrdered (family_tree q)) z ord))
  ]
