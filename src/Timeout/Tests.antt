-- ===== src/Timeout/Tests.antt =====
-- c/src/thread.c: `asthread_remove_timeout_threads` on concrete pools.
use artorias.Prelude.{
  ℕ, ◌*◌, ◌≤◌, ◌≡◌, refl, Option, none, some, ◌++◌, arith, ◌==◌, ◌||◌, if◌then◌else◌,
}
use artorias.RbTree.Store.{Ptr, null, red, black, Node, Store, Run, done, fault, out_of_fuel, put}
use artorias.RbTree.Shape.{Tree, leaf, node, inorder, mk_node, Spells, IsSimple}
use artorias.Timeout.{asthread_remove_timeout_threads}
use artorias.Timeout.Split.{Every, IsOrdered, taken, kept}
use artorias.Timeout.Cut.{IsCut}
use artorias.Timeout.Remove.{remove_timeout-IsCut}
use artorias.Timeout.Crash.{remove_timeout-fault}

-- The thread at the address `p` ends at the time `10 * p`.
abbrev et : Ptr → ℕ
et p = 10 * p

abbrev tree : Tree
tree = node (node leaf 1 red leaf) 2 black (node leaf 3 red leaf)

cells : Ptr → Option Node
cells p =
    if p == 2
    then some (mk_node null 1 3 black)
    else if p == 1 || p == 3
    then some (mk_node 2 null null red)
    else none

abbrev store : Store
store = record { root = 2; cell = cells }

spelled : Spells cells null tree
unfolding cells
spelled = (omega arith, refl, (omega arith, refl, tt, tt), (omega arith, refl, tt, tt))

simple : IsSimple tree
simple = (
  refl,
  refl,
  (λ x h. ground arith),
  (refl, refl, (λ x h. refl), tt, tt),
  (refl, refl, (λ x h. refl), tt, tt),
)

ordered : IsOrdered et tree
ordered = ((omega arith, tt, tt), (omega arith, tt, tt), (tt, tt, tt, tt), (tt, tt, tt, tt))

remove_timeout-IsCut_example :
    IsCut et 25 tree (asthread_remove_timeout_threads et 25 2 store)
    × Every (λ x. et x ≤ 25) (taken et 25 tree)
    × (inorder (taken et 25 tree) ++ inorder (kept et 25 tree) ≡ inorder tree)
remove_timeout-IsCut_example =
    remove_timeout-IsCut et 25 2 tree store simple ordered refl spelled refl (omega arith)

lone : Ptr → Option Node
lone p =
    if p == 2
    then some (mk_node null 1 null black)
    else if p == 1
    then some (mk_node 2 null null red)
    else none

lone_root : lone 2 ≡ some (mk_node null 1 null black)
unfolding lone
lone_root = refl

lone_left : lone 1 ≡ some (mk_node 2 null null red)
unfolding lone
lone_left = refl

remove_timeout-fault_example :
    asthread_remove_timeout_threads et 15 5 (record { root = 2; cell = lone }) ≡ fault
remove_timeout-fault_example =
    remove_timeout-fault et 15 4 (record { root = 2; cell = lone }) 1 null null black red
      (omega arith) (omega arith) lone_root lone_left (omega arith) (omega arith)

-- Below the root 10, which has not come to its time, hang 1, whose time has come, and below it 5,
-- whose time has not come.
late : Ptr → Option Node
late p =
    if p == 10
    then some (mk_node null 1 12 black)
    else if p == 1
    then some (mk_node 10 null 5 black)
    else if p == 12
    then some (mk_node 10 null null black)
    else if p == 5
    then some (mk_node 1 null null red)
    else none

right_of : Run Ptr → Option Ptr
right_of (done p s) = elim (s.cell p) [ none ↦ none | some n ↦ some n.right_child ]
right_of fault = none
right_of out_of_fuel = none

-- The subtree that is returned still holds 5.
removed_late :
    right_of (asthread_remove_timeout_threads et 20 9 (record { root = 10; cell = late })) ≡ some 5
unfolding late right_of asthread_remove_timeout_threads put
removed_late = refl
