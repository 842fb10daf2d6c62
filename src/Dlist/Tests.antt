-- ===== src/Dlist/Tests.antt =====
-- c/src/dlist.c: the three operations on a concrete list.
use artorias.Prelude.{◌≡◌, refl, ◌==◌, false, Option, none, some, [], ◌∷◌, if◌then◌else◌, arith}
use artorias.Dlist.{Ptr, null, Node, links, Dlist, dlist_add_to_head, dlist_add_to_tail, dlist_del}
use artorias.Dlist.Segment.{has}
use artorias.Dlist.Laws.{IsDlist, dlist_add-IsDlist}
use artorias.Dlist.Remove.{dlist_del-IsDlist}

-- The nodes 1, 2 and 3 are linked, and 4 is not.
cells : Ptr → Option Node
cells p =
    if p == 1
    then some (links null 2)
    else if p == 2
    then some (links 1 3)
    else if p == 3
    then some (links 2 null)
    else if p == 4
    then some (links 7 7)
    else none

abbrev three : Dlist
three = record { head = 1; tail = 3; cell = cells }

three-IsDlist : IsDlist three (1 ∷ 2 ∷ 3 ∷ [])
unfolding cells
three-IsDlist = record {
  head = refl;
  tail = refl;
  nodes = (omega arith, refl, refl, (omega arith, refl, refl, (omega arith, refl, refl, tt)));
}

cell_4 : cells 4 ≡ some (links 7 7)
unfolding cells
cell_4 = refl

dlist_add-IsDlist_example :
    ((d : Dlist) × (dlist_add_to_head three 4 ≡ some d) × IsDlist d (4 ∷ 1 ∷ 2 ∷ 3 ∷ []))
    × ((d : Dlist) × (dlist_add_to_tail three 4 ≡ some d) × IsDlist d (1 ∷ 2 ∷ 3 ∷ 4 ∷ []))
dlist_add-IsDlist_example =
    dlist_add-IsDlist three 4 (links 7 7) (omega arith) cell_4 (1 ∷ 2 ∷ 3 ∷ []) three-IsDlist refl

dlist_del-IsDlist_example :
    (d : Dlist) × (dlist_del three 2 ≡ some d)
    × IsDlist d (1 ∷ 3 ∷ [])
    × ((a : Ptr) → has a (1 ∷ 3 ∷ []) ≡ false → d.cell a ≡ cells a)
dlist_del-IsDlist_example = dlist_del-IsDlist three (1 ∷ []) 2 (3 ∷ []) three-IsDlist
