-- ===== src/Dlist/Remove.antt =====
-- c/src/dlist.c: `dlist_del` takes one node out of the list.
use artorias.Prelude.{
  ◌≡◌, ◌≢◌, refl, sym, ap, ◌∙◌, ◌==◌, true, false, Option, some, List, [], ◌∷◌, ◌++◌, if◌then◌else◌,
  ◌>>=◌, arith, Bool-cases, inl, inr,
}
use artorias.Dlist.{Ptr, null, Node, links, Dlist, put, load, set_next, set_prev, dlist_del}
use artorias.Dlist.Segment.{
  has, first, last, Segment, Segment-set_prev, Segment-set_next, Segment-append, append-Segment,
  Segment-apart, Segment-same, put_ne, last_ne, has-append, last-append,
}
use artorias.Dlist.Laws.{IsDlist, load-some, set_next-some, set_prev-some, last-null_ne}

-- What one of the two writes to the neighbours leaves: the nodes `xs` with their new neighbours.
record Relinked (e : Dlist) (p : Ptr) (xs : List Ptr) (q : Ptr) (r : Option Dlist) : Type 0 where
  cell : Ptr → Option Node
  run : r ≡ some (record e { cell = cell })
  nodes : Segment cell p xs q
  others : (a : Ptr) → has a xs ≡ false → cell a ≡ e.cell a

Relinked-left :
    (e : Dlist) (xs : List Ptr) (q z : Ptr)
    → Segment e.cell null xs q
    → Relinked e null xs z (if last null xs == null then some e else set_next e (last null xs) z)
Relinked-left e [] q z s = record { cell = e.cell; run = refl; nodes = tt; others = λ a h. refl }
Relinked-left e (x ∷ xs) q z s =
    let (r, at, s') = Segment-set_next e.cell null x xs q z s in
    let ne = last-null_ne e.cell null x xs q s in
    let test : (last x xs == null) ≡ false = ground arith in
    record {
      cell = put (last x xs) (links r z) e.cell;
      run = rw test (set_next-some e (last x xs) z (links r q) ne at);
      nodes = s';
      others = λ a out. put_ne (last x xs) a _ e.cell (last_ne a x xs out);
    }

Relinked-right :
    (e : Dlist) (p w : Ptr) (ys : List Ptr)
    → Segment e.cell p ys null
    → Relinked e w ys null (if first null ys == null then some e else set_prev e (first null ys) w)
Relinked-right e p w [] s = record { cell = e.cell; run = refl; nodes = tt; others = λ a h. refl }
Relinked-right e p w (y ∷ ys) s =
    let (ne, at, once, rest) = s in
    let test : (y == null) ≡ false = ground arith in
    record {
      cell = put y (links w (first null ys)) e.cell;
      run = rw test (set_prev-some e y w (links p (first null ys)) ne at);
      nodes = Segment-set_prev e.cell p w y ys null s;
      others = λ a out. put_ne y a _ e.cell (λ q. ground arith);
    }

module _ (d : Dlist) (x : Ptr) (n : Node) (ne : x ≢ null) (cell : d.cell x ≡ some n) where
  new_head :
      (xs ys : List Ptr)
      → d.head ≡ first null (xs ++ (x ∷ ys))
      → n.next ≡ first null ys
      → Segment d.cell null (xs ++ (x ∷ ys)) null
      → (if d.head == x then (load d x >>= λ n. some (record d { head = n.next })) else some d)
        ≡ some (record d { head = first null (xs ++ ys) })
  new_head [] ys h next s =
      let test : (d.head == x) ≡ true = ground arith in
      rw (test, load-some d x n ne cell) (ap (λ p. some (record d { head = p })) next)
  new_head (w ∷ ws) ys h next (w_ne, w_cell, once, rest) =
      let test : (d.head == x) ≡ false = ground (arith, has-append w ws (x ∷ ys)) in
      rw test (ap (λ p. some (record d { head = p })) h)

  new_tail :
      (h : Ptr) (xs ys : List Ptr)
      → d.tail ≡ last x ys
      → n.prev ≡ last null xs
      → has x ys ≡ false
      → (let e : Dlist = record d { head = h } in
          if d.tail == x then (load e x >>= λ n. some (record e { tail = n.prev })) else some e)
        ≡ some (record d { head = h; tail = last null (xs ++ ys) })
  new_tail h xs [] t prev once =
      let test : (d.tail == x) ≡ true = ground arith in
      let e : Dlist = record d { head = h } in
      rw (test, load-some e x n ne cell)
        (ap (λ p. some (record e { tail = p })) (prev ∙ sym (last-append null xs [])))
  new_tail h xs (y ∷ ys) t prev once =
      let other : x ≢ last y ys = last_ne x y ys once in
      let test : (d.tail == x) ≡ false = ground arith in
      rw test
        (ap (λ p. some (record d { head = h; tail = p })) (t ∙ sym (last-append null xs (y ∷ ys))))

-- On a list that holds the nodes `xs`, `x` and `ys` in this order, `dlist_del` of `x` stays within
-- the memory of nodes; the list then holds `xs` and `ys`, and the memory at every other address,
-- also at `x`, is as before.
pub dlist_del-IsDlist :
    (d : Dlist) (xs : List Ptr) (x : Ptr) (ys : List Ptr)
    → IsDlist d (xs ++ (x ∷ ys))
    → (d' : Dlist) × (dlist_del d x ≡ some d')
      × IsDlist d' (xs ++ ys)
      × ((a : Ptr) → has a (xs ++ ys) ≡ false → d'.cell a ≡ d.cell a)
unfolding dlist_del
dlist_del-IsDlist d xs x ys is =
    let (before, from_x) = Segment-append d.cell null xs (x ∷ ys) null is.nodes in
    let (ne, cell, once, rest) : Segment d.cell (last null xs) (x ∷ ys) null = from_x in
    let n = links (last null xs) (first null ys) in
    let h = first null (xs ++ ys) in
    let e : Dlist = record d { head = h; tail = last null (xs ++ ys) } in
    let a = Relinked-left e xs x (first null ys) before in
    let e' : Dlist = record e { cell = a.cell } in
    let rest' : Segment a.cell x ys null =
      Segment-same d.cell a.cell x ys null (λ b inside. a.others b (outside b inside)) rest in
    let b = Relinked-right e' x (last null xs) ys rest' in
    let e'' : Dlist = record e' { cell = b.cell } in
    let left' : Segment b.cell null xs (first null ys) =
      Segment-same a.cell b.cell null xs (first null ys) (λ c inside. b.others c (after c inside))
        a.nodes in
    (
      e'',
      rw (
        new_head d x n ne cell xs ys is.head refl is.nodes,
        new_tail d x n ne cell h xs ys (is.tail ∙ last-append null xs (x ∷ ys)) refl once,
        load-some e x n ne cell,
        a.run,
        b.run,
      ),
      record {
        head = refl;
        tail = refl;
        nodes = append-Segment b.cell null xs ys null (λ c inside. after c inside) left' b.nodes;
      },
      λ c out.
          b.others c (ground (arith, has-append c xs ys))
          ∙ a.others c (ground (arith, has-append c xs ys)),
    )
  where
    after : (c : Ptr) → has c xs ≡ true → has c ys ≡ false
    after c inside = ground (arith, Segment-apart d.cell null xs (x ∷ ys) null is.nodes c inside)

    outside : (b : Ptr) → has b ys ≡ true → has b xs ≡ false
    outside b inside = elim (Bool-cases (has b xs)) [ inl both ↦ cc (after b both) | inr out ↦ out ]
