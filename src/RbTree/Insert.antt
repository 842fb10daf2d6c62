-- ===== src/RbTree/Insert.antt =====
-- c/src/rb_tree.h and c/src/rb_tree.c: insertion. The first step links the new node below a leaf, the
-- second repairs the colours.
use artorias.Prelude.{ℕ, zero, suc, Bool, false, ◌==◌, ◌&&◌, if◌then◌else◌}
use artorias.RbTree.Store.{
  Ptr, null, red, black, Side, left, right, child, Cmd, return, out_of_fuel, ◌>>=◌, ◌>>◌, load,
  store, get_root, set_root, set_parent, set_color, set_child, is_red,
}
use artorias.RbTree.Rotate.{uncle, rotate_right, rotate_left}

-- Writes all the fields of the node `n`, which may hold anything before.
abbrev init_node : Ptr → Ptr → Cmd (Unit {0})
init_node n fa =
    store n (record { parent = fa; left_child = null; right_child = null; color = red })

-- The loop of `rb_tree_insert` at the node `p`: the new node `n` is linked at the first free place.
unfoldable pub insert_below : (Ptr → Ptr → Bool) → ℕ → Ptr → Ptr → Cmd (Unit {0})
unfolding load set_child set_parent
insert_below lt zero n p = λ _. out_of_fuel
insert_below lt (suc fuel) n p = do
  set_parent n p
  pn ← load p
  let side = if lt n p then left else right
  if child side pn == null then set_child side p n else insert_below lt fuel n (child side pn)

-- `rb_tree_insert`; `lt` is the macro's argument `_lt_`.
unfoldable pub rb_tree_insert : (Ptr → Ptr → Bool) → ℕ → Ptr → Cmd (Unit {0})
unfolding insert_below get_root set_root
rb_tree_insert lt fuel n = do
  root ← get_root
  init_node n null
  if root == null then set_root n else insert_below lt fuel n root

-- `rb_tree_find`, from the node `p`; NULL if the key is not there.
unfoldable pub find_below : (Ptr → Bool) → (Ptr → Bool) → ℕ → Ptr → Cmd Ptr
unfolding load
find_below eq lt zero p = λ _. out_of_fuel
find_below eq lt (suc fuel) p = if p == null then return null else (do
  pn ← load p
  if eq p then return p else find_below eq lt fuel (if lt p then pn.left_child else pn.right_child))

unfoldable pub rb_tree_find : (Ptr → Bool) → (Ptr → Bool) → ℕ → Cmd Ptr
unfolding find_below get_root
rb_tree_find eq lt fuel = do root ← get_root; find_below eq lt fuel root

-- `uc && uc->color == RED`
unfoldable pub red_node : Ptr → Cmd Bool
unfolding load
red_node p = if p == null then return false else (do n ← load p; return (is_red n.color))

-- The last lines of a round without a red uncle: `fa` and `gf` change their colours, and `gf` is
-- turned towards the other side.
unfoldable pub turn_grandfather : Ptr → Cmd (Unit {0})
unfolding load set_color rotate_right rotate_left
turn_grandfather n = do
  nn ← load n
  fn ← load nn.parent
  set_color nn.parent black
  set_color fn.parent red
  fn' ← load nn.parent
  if n == fn'.left_child then rotate_right fn.parent else rotate_left fn.parent

-- The loop of `rb_tree_insert_case` at `n`, and the line behind it.
unfoldable pub insert_case_loop : ℕ → Ptr → Cmd (Unit {0})
unfolding load get_root set_color red_node uncle turn_grandfather rotate_right rotate_left
insert_case_loop zero n = λ _. out_of_fuel
insert_case_loop (suc fuel) n = do
  nn ← load n
  let fa = nn.parent
  fa_red ← red_node fa
  if fa_red
      then (do
        uc ← uncle n
        uc_red ← red_node uc
        if uc_red
            then (do
              set_color fa black
              set_color uc black
              fn ← load fa
              set_color fn.parent red
              insert_case_loop fuel fn.parent)
            else (do
              fn ← load fa
              gn ← load fn.parent
              if n == fn.right_child && fa == gn.left_child
                  then (do
                    rotate_left fa
                    nn' ← load n
                    turn_grandfather nn'.left_child
                    insert_case_loop fuel nn'.left_child)
                  else if n == fn.left_child && fa == gn.right_child
                  then (do
                    rotate_right fa
                    nn' ← load n
                    turn_grandfather nn'.right_child
                    insert_case_loop fuel nn'.right_child)
                  else (turn_grandfather n >> insert_case_loop fuel n)))
      else (do root ← get_root; set_color root black)

unfoldable pub rb_tree_insert_case : ℕ → Ptr → Cmd (Unit {0})
unfolding insert_case_loop
rb_tree_insert_case fuel n = if n == null then return tt else insert_case_loop fuel n

-- The loop of the two functions below, at the node `p`.
insert_most : Side → ℕ → Ptr → Ptr → Cmd (Unit {0})
unfolding load set_parent set_child
insert_most side zero n p = λ _. out_of_fuel
insert_most side (suc fuel) n p = do
  set_parent n p
  pn ← load p
  if child side pn == null then set_child side p n else insert_most side fuel n (child side pn)

-- `rb_tree_insert_to_most_left` and `rb_tree_insert_to_most_right`. Where `p` is NULL, only the
-- caller's own variable is written.
unfoldable pub rb_tree_insert_to_most : Side → ℕ → Ptr → Ptr → Cmd (Unit {0})
unfolding insert_most
rb_tree_insert_to_most side fuel n p = do
  init_node n null
  if p == null then return tt else insert_most side fuel n p
