-- ===== src/Service/Monad.antt =====
-- Commands on the service. `none` is a fault: a read or write through a pointer to nothing.
use io_engine.Base.{◌≡◌, arith, ℕ, ◌+◌, ◌*◌, Bool, Option, none, some, if◌then◌else◌}
use io_engine.Dynarray
use io_engine.Service.{Service}
use io_engine.Rbtree.Store

abbrev pub Cmd : Type 0 → Type 0
Cmd A = Service → Option (A × Service)

abbrev pub pure : {A : Type 0} → A → Cmd A
pure a s = some (a, s)

infixl 5 ◌>>=◌ ◌>>◌
abbrev pub ◌>>=◌ : {A B : Type 0} → Cmd A → (A → Cmd B) → Cmd B
◌>>=◌ m f s = elim (m s) [ none ↦ none | some (a, s') ↦ f a s' ]

abbrev pub ◌>>◌ : {B : Type 0} → Cmd (Unit {0}) → Cmd B → Cmd B
m >> k = m >>= λ _. k

abbrev pub get : Cmd Service
get s = some (s, s)

abbrev pub put : Service → Cmd (Unit {0})
put s' s = some (tt, s')

abbrev pub or_fault : {A : Type 0} → Option A → Cmd A
or_fault o s = elim o [ none ↦ none | some a ↦ some (a, s) ]

abbrev pub when : Bool → Cmd (Unit {0}) → Cmd (Unit {0})
when b m = if b then m else pure tt

-- A command of the tree, on the service's tree.
unfoldable pub on_tree : {A : Type 0} → Store.M A → Cmd A
on_tree m s = elim (m s.tree) [ none ↦ none | some (a, t) ↦ some (a, record s { tree = t }) ]

-- The tree holds one node for each pollfd: this is more than the rounds that any loop on it makes.
unfoldable pub tree_fuel : Service → ℕ
tree_fuel s = 2 * Dynarray.size s.pollfds + 3

pub on_tree-step :
    {A : Type 0} (m : Store.M A) {s : Service} {a : A} {t : Store.Tree}
    → m s.tree ≡ some (a, t)
    → on_tree m s ≡ some (a, record s { tree = t })
unfolding on_tree
on_tree-step m e = ground (arith, e)
