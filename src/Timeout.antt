-- ===== src/Timeout.antt =====
-- c/src/thread.c: `asthread_remove_timeout_threads` takes threads whose time has come out of a pool,
-- the red-black tree of their nodes `p_idx` ordered by `et`. `et p` is the time of the thread whose
-- node is `p`, and `now` is what `time(NULL)` returns.
pub mod Split
pub mod Expired
pub mod Cut
pub mod Crash
pub mod Remove
mod Tests
use artorias.Prelude.{ℕ, zero, suc, Bool, ◌&&◌, not, ◌==◌, leb, ltb, if◌then◌else◌}
use artorias.RbTree.Store.{
  Ptr, null, black, right, Cmd, return, out_of_fuel, ◌>>=◌, ◌>>◌, load, get_root, set_root,
  set_parent, set_color, set_child,
}
use artorias.RbTree.Delete.{rb_tree_remove_subtree}

module _ (et : Ptr → ℕ) (now : ℕ) where
  -- `while (n->right != NULL && now >= rb_node_to_thread(n->right)->et) n = n->right;`
  pub last_expired : ℕ → Ptr → Cmd Ptr
  unfolding load
  last_expired zero n = λ _. out_of_fuel
  last_expired (suc fuel) n = do
    nn ← load n
    if not (nn.right_child == null) && leb (et nn.right_child) now
        then last_expired fuel nn.right_child
        else return n

  -- `while (ret != NULL && rb_node_to_thread(ret)->et > now) ret = ret->left;`
  pub first_expired : ℕ → Ptr → Cmd Ptr
  unfolding load
  first_expired zero p = λ _. out_of_fuel
  first_expired (suc fuel) p =
      if p == null
      then return null
      else if ltb now (et p)
      then (do n ← load p; first_expired fuel n.left_child)
      else return p

  -- The branch where the root's time has come: the tree is cut behind the last node of the right spine
  -- whose time has come.
  pub cut_root : ℕ → Ptr → Cmd Ptr
  unfolding load set_root set_parent set_color set_child last_expired
  cut_root fuel root = do
    n ← last_expired fuel root
    nn ← load n
    set_root nn.right_child
    if nn.right_child == null
        then return tt
        else (do set_parent nn.right_child null; set_color nn.right_child black)
    set_child right n null
    return root

  -- The other branch: a subtree on the left spine is removed.
  pub cut_left : ℕ → Ptr → Cmd Ptr
  unfolding load first_expired rb_tree_remove_subtree
  cut_left fuel root = do
    rn ← load root
    ret ← first_expired fuel rn.left_child
    if ret == null then return tt else rb_tree_remove_subtree fuel ret
    return ret

  unfoldable pub asthread_remove_timeout_threads : ℕ → Cmd Ptr
  unfolding get_root cut_root cut_left
  asthread_remove_timeout_threads fuel = do
    root ← get_root
    if root == null
        then return null
        else if leb (et root) now
        then cut_root fuel root
        else cut_left fuel root
