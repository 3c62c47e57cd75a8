-- ===== src/Rbtree/Fix/Apart.antt =====
-- The four trees around a node, its parent and its grandparent, in `fix_insert` of src/rbtree.c,
-- share no node.
use io_engine.Base.{◌≢◌, inl, inr, subst}
use io_engine.Base.Int.{ℤ}
use io_engine.Types.{Ptr}
use io_engine.Rbtree.Store.{Dir}
use io_engine.Rbtree.Shape.{Shape, Inside, IsTree}
use io_engine.Rbtree.Spine.{Spine, under, plug, OnSpine, IsSpine, unplug-IsTree}

-- `s` is below `a`, whose other subtree is `sf`, and `a` below `b`, whose other subtree is `su`.
pub record Family (s sf su : Shape) (π : Spine) (a b : Ptr) : Type 0 where
  pub a_b : a ≢ b
  pub self : (q : Ptr) → Inside q s → (q ≢ a) × (q ≢ b) × (Inside q su → ⊥)
  pub sibling : (q : Ptr) → Inside q sf → (q ≢ a) × (q ≢ b) × (Inside q su → ⊥)
  pub uncle : (q : Ptr) → Inside q su → (q ≢ a) × (q ≢ b)
  pub above : (q : Ptr) → OnSpine q π → (q ≢ a) × (q ≢ b) × (Inside q su → ⊥)
  pub uncle_tree : IsTree su

pub plug-Family :
    (e d : Dir) (s sf su : Shape) (π : Spine) (a b : Ptr) (ka kb : ℤ)
    → IsTree (plug (under e a ka sf (under d b kb su π)) s)
    → Family s sf su π a b
unfolding OnSpine IsSpine
plug-Family e d s sf su π a b ka kb t =
    let (ts, out, (af, aup, fup, tf, (bu, bup, uup, tu, tπ))) =
      unplug-IsTree (under e a ka sf (under d b kb su π)) s t in
    record {
      a_b = λ z. aup (inl z);
      self = λ q i. (
        (λ z. out q i (inl z)),
        (λ z. out q i (inr (inr (inl z)))),
        (λ j. out q i (inr (inr (inr (inl j))))),
      );
      sibling = λ q i. (
        (λ z. af (subst (λ w. Inside w sf) z i)),
        (λ z. fup q i (inl z)),
        (λ j. fup q i (inr (inl j))),
      );
      uncle = λ q i. (
        (λ z. aup (inr (inl (subst (λ w. Inside w su) z i)))),
        (λ z. bu (subst (λ w. Inside w su) z i)),
      );
      above = λ q i. (
        (λ z. aup (inr (inr (subst (λ w. OnSpine w π) z i)))),
        (λ z. bup (subst (λ w. OnSpine w π) z i)),
        (λ j. uup q j i),
      );
      uncle_tree = tu;
    }
