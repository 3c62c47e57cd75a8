-- ===== src/Rbtree/Nodes.antt =====
-- The nodes of a tree in order.
use io_engine.Base.{◌≡◌, ◌∙◌, sym, ap, List, [], ◌∷◌, ◌++◌}
use io_engine.Base.Int.{ℤ}
use io_engine.Types.{Ptr}
use mathlib.Core.List.{append_assoc, append-nil}
use io_engine.Rbtree.Store.{Dir, left, right}
use io_engine.Rbtree.Shape.{Shape, leaf, node}
use io_engine.Rbtree.Rotate.Subtree.{fork}
use io_engine.Rbtree.Spine.{Spine, top, under, plug}

unfoldable pub nodes : Shape → List (ℤ × Ptr)
nodes leaf = []
nodes (node l a k r) = nodes l ++ (k, a) ∷ nodes r

nodes-fork :
    (d : Dir) (s s' r : Shape) (a : Ptr) (k : ℤ)
    → nodes s ≡ nodes s'
    → nodes (fork d s a k r) ≡ nodes (fork d s' a k r)
unfolding nodes fork
nodes-fork left s s' r a k e = ap (λ z. z ++ (k, a) ∷ nodes r) e
nodes-fork right s s' r a k e = ap (λ z. nodes r ++ (k, a) ∷ z) e

pub nodes-plug :
    (π : Spine) (s s' : Shape) → nodes s ≡ nodes s' → nodes (plug π s) ≡ nodes (plug π s')
unfolding plug
nodes-plug top s s' e = e
nodes-plug (under d a k r π) s s' e =
    nodes-plug π (fork d s a k r) (fork d s' a k r) (nodes-fork d s s' r a k e)

pub nodes-rotate :
    (d : Dir) (c b a : Shape) (x y : Ptr) (kx ky : ℤ)
    → nodes (fork d c x kx (fork d b y ky a)) ≡ nodes (fork d (fork d c x kx b) y ky a)
unfolding nodes fork
nodes-rotate left c b a x y kx ky =
    sym (append_assoc (nodes c) ((kx, x) ∷ nodes b) ((ky, y) ∷ nodes a))
nodes-rotate right c b a x y kx ky = append_assoc (nodes a) ((ky, y) ∷ nodes b) ((kx, x) ∷ nodes c)

-- The nodes before and after a subtree.
unfoldable pub before : Spine → List (ℤ × Ptr)
unfolding nodes
before top = []
before (under left a k r π) = before π
before (under right a k r π) = before π ++ (nodes r ++ (k, a) ∷ [])

unfoldable pub after : Spine → List (ℤ × Ptr)
unfolding nodes
after top = []
after (under left a k r π) = ((k, a) ∷ nodes r) ++ after π
after (under right a k r π) = after π

pub nodes-plug_around :
    (π : Spine) (s : Shape) → nodes (plug π s) ≡ before π ++ (nodes s ++ after π)
unfolding before after plug nodes fork
nodes-plug_around top s = sym (append-nil (nodes s))
nodes-plug_around (under left a k r π) s =
    nodes-plug_around π (node s a k r)
    ∙ ap (λ z. before π ++ z) (append_assoc (nodes s) ((k, a) ∷ nodes r) (after π))
nodes-plug_around (under right a k r π) s =
    nodes-plug_around π (node r a k s)
    ∙ ap (λ z. before π ++ z)
        (append_assoc (nodes r) ((k, a) ∷ nodes s) (after π)
          ∙ sym (append_assoc (nodes r) ((k, a) ∷ []) (nodes s ++ after π)))
    ∙ sym (append_assoc (before π) (nodes r ++ (k, a) ∷ []) (nodes s ++ after π))
