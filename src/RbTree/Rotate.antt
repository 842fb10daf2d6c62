-- ===== src/RbTree/Rotate.antt =====
-- c/src/rb_tree.c: `uncle`, `rotate_right` and `rotate_left`.
use artorias.Prelude.{◌==◌, if◌then◌else◌}
use artorias.RbTree.Store.{
  Ptr, null, Side, left, right, Cmd, return, ◌>>=◌, ◌>>◌, load, set_parent, set_child, adopt,
  replace,
}

unfoldable pub uncle : Ptr → Cmd Ptr
unfolding load
uncle n = do
  node ← load n
  fa ← load node.parent
  g ← load fa.parent
  return (if node.parent == g.right_child then g.left_child else g.right_child)

unfoldable pub rotate_right : Ptr → Cmd (Unit {0})
unfolding load adopt set_child replace set_parent
rotate_right q = do
  qn ← load q
  pn ← load qn.left_child
  adopt pn.right_child q
  set_child left q pn.right_child
  qn' ← load q
  replace qn'.parent q qn.left_child
  set_child right qn.left_child q
  set_parent qn.left_child qn'.parent
  set_parent q qn.left_child

unfoldable pub rotate_left : Ptr → Cmd (Unit {0})
unfolding load adopt set_child replace set_parent
rotate_left p = do
  pn ← load p
  if pn.right_child == null then return tt else (do
    qn ← load pn.right_child
    adopt qn.left_child p
    set_child right p qn.left_child
    pn' ← load p
    replace pn'.parent p pn.right_child
    set_child left pn.right_child p
    set_parent pn.right_child pn'.parent
    set_parent p pn.right_child)

-- `rotate_##_lr_`
abbrev pub rotate : Side → Ptr → Cmd (Unit {0})
rotate left = rotate_left
rotate right = rotate_right
