-- ===== src/Dlist/Laws.antt =====
-- c/src/dlist.c: the two functions that add a node, as operations on the list of the nodes.
use artorias.Prelude.{
  ◌≡◌, ◌≢◌, refl, sym, ap, subst, ◌∙◌, ◌==◌, true, false, Option, some, List, [], ◌∷◌, ◌++◌, arith,
  Bool-cases, inl, inr,
}
use artorias.Dlist.{
  Ptr, null, Node, links, Dlist, put, load, set_next, set_prev, dlist_add_to_head,
  dlist_add_to_tail,
}
use artorias.Dlist.Segment.{
  has, first, last, Segment, Segment-put, Segment-set_prev, Segment-set_next, append-Segment,
  put_ne, put_self, last_ne, last-append,
}

-- The list holds the nodes `xs`.
pub record IsDlist (d : Dlist) (xs : List Ptr) : Type 0 where
  pub head : d.head ≡ first null xs
  pub tail : d.tail ≡ last null xs
  pub nodes : Segment d.cell null xs null

pub load-some : (d : Dlist) (p : Ptr) (n : Node) → p ≢ null → d.cell p ≡ some n → load d p ≡ some n
unfolding load
load-some d p n ne cell = let test : (p == null) ≡ false = ground arith in rw test cell

pub set_next-some :
    (d : Dlist) (p q : Ptr) (n : Node)
    → p ≢ null
    → d.cell p ≡ some n
    → set_next d p q ≡ some (record d { cell = put p (links n.prev q) d.cell })
unfolding set_next
set_next-some d p q n ne cell = rw (load-some d p n ne cell)

pub set_prev-some :
    (d : Dlist) (p q : Ptr) (n : Node)
    → p ≢ null
    → d.cell p ≡ some n
    → set_prev d p q ≡ some (record d { cell = put p (links q n.next) d.cell })
unfolding set_prev
set_prev-some d p q n ne cell = rw (load-some d p n ne cell)

pub last-null_ne :
    (c : Ptr → Option Node) (p x : Ptr) (xs : List Ptr) (q : Ptr)
    → Segment c p (x ∷ xs) q
    → last x xs ≢ null
last-null_ne c p x [] q (ne, cell, once, rest) = ne
last-null_ne c p x (y ∷ ys) q (ne, cell, once, rest) = last-null_ne c x y ys q rest

apart_one :
    (a x : Ptr) (xs : List Ptr) → has x xs ≡ false → has a xs ≡ true → has a (x ∷ []) ≡ false
apart_one a x xs out inside = elim (Bool-cases (a == x)) [
  | inl same ↦
      let e : a ≡ x = ground arith in
      let both : has x xs ≡ true = ap (λ b. has b xs) (sym e) ∙ inside in cc
  | inr differ ↦ ground arith
]

module _ (d : Dlist) (x : Ptr) (n : Node) (ne : x ≢ null) (cell : d.cell x ≡ some n) where
  -- For a node that memory holds and the list does not, `dlist_add_to_head` stays within the memory
  -- of nodes, and the list then holds the node in front of the others.
  dlist_add_to_head-IsDlist :
      (xs : List Ptr)
      → IsDlist d xs
      → has x xs ≡ false
      → (d' : Dlist) × (dlist_add_to_head d x ≡ some d') × IsDlist d' (x ∷ xs)
  unfolding dlist_add_to_head
  dlist_add_to_head-IsDlist [] is out =
      let c1 = put x (links null n.next) d.cell in
      let c2 = put x (links null d.head) c1 in
      let d1 : Dlist = record d { cell = c1 } in
      let test : (d.head == null) ≡ true = ground (arith, is.head) in
      (
        record { head = x; tail = x; cell = c2 },
        rw (
          set_prev-some d x null n ne cell,
          set_next-some d1 x d.head (links null n.next) ne (put_self x _ d.cell),
          test,
        ),
        record {
          head = refl;
          tail = refl;
          nodes = (ne, put_self x _ c1 ∙ ap (λ h. some (links null h)) is.head, refl, tt);
        },
      )
  dlist_add_to_head-IsDlist (y ∷ ys) is out =
      let c1 = put x (links null n.next) d.cell in
      let c2 = put x (links null d.head) c1 in
      let d1 : Dlist = record d { cell = c1 } in
      let (y_ne, y_cell, once, rest) = is.nodes in
      let nodes1 : Segment c2 null (y ∷ ys) null =
        Segment-put c1 x _ null (y ∷ ys) null out
          (Segment-put d.cell x _ null (y ∷ ys) null out is.nodes) in
      let c3 = put d.head (links x (first null ys)) c2 in
      let nodes2 : Segment c3 x (y ∷ ys) null =
        subst (λ h. Segment (put h (links x (first null ys)) c2) x (y ∷ ys) null) (sym is.head)
          (Segment-set_prev c2 null x y ys null nodes1) in
      let head_cell : c2 d.head ≡ some (links null (first null ys)) = ap c2 is.head ∙ nodes1.1 in
      let x_ne : x ≢ d.head = λ e. ground (arith, out, is.head) in
      let test : (d.head == null) ≡ false = ground arith in
      (
        record { head = x; tail = d.tail; cell = c3 },
        rw (
          set_prev-some d x null n ne cell,
          set_next-some d1 x d.head (links null n.next) ne (put_self x _ d.cell),
          test,
          head_cell,
        ),
        record {
          head = refl;
          tail = is.tail;
          nodes = (
            ne,
            put_ne d.head x _ c2 x_ne ∙ put_self x _ c1 ∙ ap (λ h. some (links null h)) is.head,
            out,
            nodes2,
          );
        },
      )

  -- For a node that memory holds and the list does not, `dlist_add_to_tail` stays within the memory
  -- of nodes, and the list then holds the node behind the others.
  dlist_add_to_tail-IsDlist :
      (xs : List Ptr)
      → IsDlist d xs
      → has x xs ≡ false
      → (d' : Dlist) × (dlist_add_to_tail d x ≡ some d') × IsDlist d' (xs ++ (x ∷ []))
  unfolding dlist_add_to_tail
  dlist_add_to_tail-IsDlist [] is out =
      let c1 = put x (links n.prev null) d.cell in
      let c2 = put x (links d.tail null) c1 in
      let d1 : Dlist = record d { cell = c1 } in
      let test : (d.head == null) ≡ true = ground (arith, is.head) in
      (
        record { head = x; tail = x; cell = c2 },
        rw (
          set_next-some d x null n ne cell,
          set_prev-some d1 x d.tail (links n.prev null) ne (put_self x _ d.cell),
          test,
        ),
        record {
          head = refl;
          tail = refl;
          nodes = (ne, put_self x _ c1 ∙ ap (λ h. some (links h null)) is.tail, refl, tt);
        },
      )
  dlist_add_to_tail-IsDlist (y ∷ ys) is out =
      let c1 = put x (links n.prev null) d.cell in
      let c2 = put x (links d.tail null) c1 in
      let d1 : Dlist = record d { cell = c1 } in
      let d2 : Dlist = record d { cell = c2 } in
      let (y_ne, y_cell, once, rest) = is.nodes in
      let nodes1 : Segment c2 null (y ∷ ys) null =
        Segment-put c1 x _ null (y ∷ ys) null out
          (Segment-put d.cell x _ null (y ∷ ys) null out is.nodes) in
      let (r, last_cell, nodes2) = Segment-set_next c2 null y ys null x nodes1 in
      let c3 = put d.tail (links r x) c2 in
      let nodes3 : Segment c3 null (y ∷ ys) x =
        subst (λ h. Segment (put h (links r x) c2) null (y ∷ ys) x) (sym is.tail) nodes2 in
      let tail_ne : d.tail ≢ null =
        λ e. last-null_ne d.cell null y ys null is.nodes (sym is.tail ∙ e) in
      let tail_cell : c2 d.tail ≡ some (links r null) = ap c2 is.tail ∙ last_cell in
      let x_ne : x ≢ d.tail = λ e. last_ne x y ys out (e ∙ is.tail) in
      let head_ne : (d.head == null) ≡ false = ground (arith, is.head) in
      (
        record { head = d.head; tail = x; cell = c3 },
        rw (
          set_next-some d x null n ne cell,
          set_prev-some d1 x d.tail (links n.prev null) ne (put_self x _ d.cell),
          head_ne,
          set_next-some d2 d.tail x _ tail_ne tail_cell,
        ),
        record {
          head = is.head;
          tail = sym (last-append y ys (x ∷ []));
          nodes =
              append-Segment c3 null (y ∷ ys) (x ∷ []) null (λ a h. apart_one a x (y ∷ ys) out h)
                nodes3
                (
                  ne,
                  put_ne d.tail x _ c2 x_ne
                      ∙ put_self x _ c1
                      ∙ ap (λ h. some (links h null)) is.tail,
                  refl,
                  tt,
                );
        },
      )

  -- For a node that memory holds and the list does not, `dlist_add_to_head` and `dlist_add_to_tail`
  -- stay within the memory of nodes, and the list then holds the node in front of the others, or
  -- behind them.
  pub dlist_add-IsDlist :
      (xs : List Ptr)
      → IsDlist d xs
      → has x xs ≡ false
      → ((d' : Dlist) × (dlist_add_to_head d x ≡ some d') × IsDlist d' (x ∷ xs))
        × ((d' : Dlist) × (dlist_add_to_tail d x ≡ some d') × IsDlist d' (xs ++ (x ∷ [])))
  dlist_add-IsDlist xs is out =
      (dlist_add_to_head-IsDlist xs is out, dlist_add_to_tail-IsDlist xs is out)
