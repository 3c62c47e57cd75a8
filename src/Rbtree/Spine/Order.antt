-- ===== src/Rbtree/Spine/Order.antt =====
-- The order of a tree, seen from one of its subtrees.
use io_engine.Base.{inl, inr}
use io_engine.Base.Int.{ℤ}
use io_engine.Types.{Ptr}
use io_engine.Rbtree.Store.{Dir, left, right}
use io_engine.Rbtree.Shape.{Shape, Has, IsOrdered}
use io_engine.Rbtree.Rotate.Subtree.{fork}
use io_engine.Rbtree.Spine.{Spine, top, under, plug}

-- Two trees with the same descriptors.
abbrev pub SameKeys : Shape → Shape → Type 0
SameKeys s s' = (k : ℤ) → (Has k s → Has k s') × (Has k s' → Has k s)

Has-fork :
    (d : Dir) (s s' r : Shape) (a : Ptr) (j : ℤ)
    → ((k : ℤ) → Has k s → Has k s')
    → (k : ℤ) → Has k (fork d s a j r)
    → Has k (fork d s' a j r)
unfolding Has fork
Has-fork left s s' r a j h k (inl i) = inl (h k i)
Has-fork left s s' r a j h k (inr i) = inr i
Has-fork right s s' r a j h k (inl i) = inl i
Has-fork right s s' r a j h k (inr (inl e)) = inr (inl e)
Has-fork right s s' r a j h k (inr (inr i)) = inr (inr (h k i))

IsOrdered-fork :
    (d : Dir) (s s' r : Shape) (a : Ptr) (j : ℤ)
    → ((k : ℤ) → Has k s' → Has k s)
    → IsOrdered s'
    → IsOrdered (fork d s a j r)
    → IsOrdered (fork d s' a j r)
unfolding IsOrdered fork
IsOrdered-fork left s s' r a j h o (ol, or, lo, hi) = (o, or, (λ k i. lo k (h k i)), hi)
IsOrdered-fork right s s' r a j h o (ol, or, lo, hi) = (ol, o, lo, λ k i. hi k (h k i))

fork-IsOrdered :
    (d : Dir) (s r : Shape) (a : Ptr) (j : ℤ) → IsOrdered (fork d s a j r) → IsOrdered s
unfolding IsOrdered fork
fork-IsOrdered left s r a j (ol, or, lo, hi) = ol
fork-IsOrdered right s r a j (ol, or, lo, hi) = or

pub SameKeys-plug : (π : Spine) (s s' : Shape) → SameKeys s s' → SameKeys (plug π s) (plug π s')
unfolding plug
SameKeys-plug top s s' h = h
SameKeys-plug (under d a j r π) s s' h =
    SameKeys-plug π (fork d s a j r) (fork d s' a j r)
      λ k. (Has-fork d s s' r a j (λ i. (h i).0) k, Has-fork d s' s r a j (λ i. (h i).1) k)

pub unplug-IsOrdered : (π : Spine) (s : Shape) → IsOrdered (plug π s) → IsOrdered s
unfolding plug
unplug-IsOrdered top s o = o
unplug-IsOrdered (under d a j r π) s o =
    fork-IsOrdered d s r a j (unplug-IsOrdered π (fork d s a j r) o)

-- Another ordered subtree with the same descriptors keeps the order.
pub plug-IsOrdered :
    (π : Spine) (s s' : Shape)
    → SameKeys s s'
    → IsOrdered s'
    → IsOrdered (plug π s)
    → IsOrdered (plug π s')
unfolding plug
plug-IsOrdered top s s' h o' o = o'
plug-IsOrdered (under d a j r π) s s' h o' o =
    plug-IsOrdered π (fork d s a j r) (fork d s' a j r)
      (λ k. (Has-fork d s s' r a j (λ i. (h i).0) k, Has-fork d s' s r a j (λ i. (h i).1) k))
      (IsOrdered-fork d s s' r a j (λ i. (h i).1) o' (unplug-IsOrdered π (fork d s a j r) o)) o

-- A rotation keeps the descriptors.
pub SameKeys-rotate :
    (d : Dir) (c b a : Shape) (x y : Ptr) (kx ky : ℤ)
    → SameKeys (fork d c x kx (fork d b y ky a)) (fork d (fork d c x kx b) y ky a)
unfolding Has fork
SameKeys-rotate left c b a x y kx ky k = (
  (λ h. elim h [
    | inl i ↦ inl (inl i)
    | inr (inl e) ↦ inl (inr (inl e))
    | inr (inr (inl i)) ↦ inl (inr (inr i))
    | inr (inr (inr i)) ↦ inr i
  ]),
  (λ h. elim h [
    | inl (inl i) ↦ inl i
    | inl (inr (inl e)) ↦ inr (inl e)
    | inl (inr (inr i)) ↦ inr (inr (inl i))
    | inr i ↦ inr (inr (inr i))
  ]),
)
SameKeys-rotate right c b a x y kx ky k = (
  (λ h. elim h [
    | inl (inl i) ↦ inl i
    | inl (inr (inl e)) ↦ inr (inl e)
    | inl (inr (inr i)) ↦ inr (inr (inl i))
    | inr i ↦ inr (inr (inr i))
  ]),
  (λ h. elim h [
    | inl i ↦ inl (inl i)
    | inr (inl e) ↦ inl (inr (inl e))
    | inr (inr (inl i)) ↦ inl (inr (inr i))
    | inr (inr (inr i)) ↦ inr i
  ]),
)

-- An ordered subtree with no other descriptors keeps the order.
pub narrow-IsOrdered :
    (π : Spine) (s s' : Shape)
    → ((k : ℤ) → Has k s' → Has k s)
    → IsOrdered s'
    → IsOrdered (plug π s)
    → IsOrdered (plug π s')
unfolding plug
narrow-IsOrdered top s s' h o' o = o'
narrow-IsOrdered (under d a j r π) s s' h o' o =
    narrow-IsOrdered π (fork d s a j r) (fork d s' a j r) (Has-fork d s' s r a j h)
      (IsOrdered-fork d s s' r a j h o' (unplug-IsOrdered π (fork d s a j r) o)) o
