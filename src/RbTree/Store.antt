-- ===== src/RbTree/Store.antt =====
-- c/src/rb_tree.h: the nodes `as_rb_node_t` at their addresses, the tree's `root`, and commands that
-- read and write them. Reading or writing through NULL, or through an address that holds no node,
-- is a fault.
use artorias.Prelude.{ℕ, Bool, true, false, Option, none, some, ◌==◌, if◌then◌else◌}

abbrev pub Ptr : Type 0
Ptr = ℕ

abbrev pub null : Ptr
null = 0

pub data Color : Type 0 where
  red : Color
  black : Color

-- Which of two children: the macros of rb_tree.c take `left` and `right` as words.
pub data Side : Type 0 where
  left : Side
  right : Side

abbrev pub other : Side → Side
other left = right
other right = left

pub record Node : Type 0 where
  pub parent : Ptr
  pub left_child : Ptr
  pub right_child : Ptr
  pub color : Color

abbrev pub child : Side → Node → Ptr
child left n = n.left_child
child right n = n.right_child

pub record Store : Type 0 where
  pub root : Ptr
  pub cell : Ptr → Option Node

-- How a command ends.
pub data Run (A : Type 0) : Type 0 where
  done : A → Store → Run A
  fault : Run A
  out_of_fuel : Run A

abbrev pub Cmd : Type 0 → Type 0
Cmd A = Store → Run A

abbrev pub return : {A : Type 0} → A → Cmd A
return a s = done a s

abbrev pub run_on : {A B : Type 0} → Run A → (A → Cmd B) → Run B
run_on (done a s) k = k a s
run_on fault k = fault
run_on out_of_fuel k = out_of_fuel

infixl 5 ◌>>=◌ ◌>>◌
abbrev pub ◌>>=◌ : {A B : Type 0} → Cmd A → (A → Cmd B) → Cmd B
◌>>=◌ m k s = run_on (m s) k

abbrev pub ◌>>◌ : {A B : Type 0} → Cmd A → Cmd B → Cmd B
◌>>◌ m k s = run_on (m s) (λ _. k)

unfoldable pub put : Ptr → Node → (Ptr → Option Node) → Ptr → Option Node
put p n c q = if q == p then some n else c q

abbrev pub read : Ptr → Option Node → Cmd Node
read p none s = fault
read p (some n) s = done n s

-- `*p`
unfoldable pub load : Ptr → Cmd Node
load p s = if p == null then fault else read p (s.cell p) s

-- `*p = n`, for a node that has been read
abbrev pub store : Ptr → Node → Cmd (Unit {0})
store p n s = done tt (record s { cell = put p n s.cell })

unfoldable pub get_root : Cmd Ptr
get_root s = done s.root s

unfoldable pub set_root : Ptr → Cmd (Unit {0})
set_root p s = done tt (record s { root = p })

unfoldable pub set_parent : Ptr → Ptr → Cmd (Unit {0})
unfolding load
set_parent p q = do n ← load p; store p (record n { parent = q })

unfoldable pub set_color : Ptr → Color → Cmd (Unit {0})
unfolding load
set_color p c = do n ← load p; store p (record n { color = c })

abbrev with_child : Side → Ptr → Node → Node
with_child left q n = record n { left_child = q }
with_child right q n = record n { right_child = q }

unfoldable pub set_child : Side → Ptr → Ptr → Cmd (Unit {0})
unfolding load
set_child side p q = do n ← load p; store p (with_child side q n)

-- `if (p != NULL) p->parent = q;`
unfoldable pub adopt : Ptr → Ptr → Cmd (Unit {0})
unfolding set_parent
adopt p q = if p == null then return tt else set_parent p q

-- Puts `new` where the child `old` of `fa` was, or at the root if `fa` is NULL.
unfoldable pub replace : Ptr → Ptr → Ptr → Cmd (Unit {0})
unfolding load set_root set_child
replace fa old new = if fa == null then set_root new else (do
  f ← load fa
  if f.left_child == old then set_child left fa new else set_child right fa new)

abbrev pub is_red : Color → Bool
is_red red = true
is_red black = false

-- `is_null_or_black`
unfoldable pub is_null_or_black : Ptr → Cmd Bool
unfolding load
is_null_or_black p =
    if p == null
    then return true
    else (do n ← load p; return (if is_red n.color then false else true))
