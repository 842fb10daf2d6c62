-- ===== src/Dlist/Segment.antt =====
-- c/src/dlist.h: the stretch of a list that nodes of the memory form.
use artorias.Prelude.{
  ◌≡◌, ◌≢◌, refl, ap, ◌∙◌, ◌==◌, Bool, true, false, ◌||◌, Option, some, List, [], ◌∷◌, ◌++◌, arith,
}
use artorias.Dlist.{Ptr, null, Node, links, put}

abbrev pub has : Ptr → List Ptr → Bool
has a [] = false
has a (x ∷ xs) = (a == x) || has a xs

abbrev pub first : Ptr → List Ptr → Ptr
first q [] = q
first q (x ∷ xs) = x

abbrev pub last : Ptr → List Ptr → Ptr
last p [] = p
last p (x ∷ xs) = last x xs

-- The nodes `xs` follow each other, from `p` in front of them to `q` behind them.
abbrev pub Segment : (Ptr → Option Node) → Ptr → List Ptr → Ptr → Type 0
Segment c p [] q = Unit
Segment c p (x ∷ xs) q =
    (x ≢ null) × (c x ≡ some (links p (first q xs))) × (has x xs ≡ false) × Segment c x xs q

module _ (c : Ptr → Option Node) (a : Ptr) (n : Node) where
  pub Segment-put :
      (p : Ptr) (xs : List Ptr) (q : Ptr)
      → has a xs ≡ false
      → Segment c p xs q
      → Segment (put a n c) p xs q
  unfolding put
  Segment-put p [] q out s = tt
  Segment-put p (x ∷ xs) q out (ne, cell, once, rest) =
      (ne, ground arith, once, Segment-put x xs q (ground arith) rest)

-- The first node gets another one in front.
pub Segment-set_prev :
    (c : Ptr → Option Node) (p p' x : Ptr) (xs : List Ptr) (q : Ptr)
    → Segment c p (x ∷ xs) q
    → Segment (put x (links p' (first q xs)) c) p' (x ∷ xs) q
unfolding put
Segment-set_prev c p p' x xs q (ne, cell, once, rest) =
    (ne, ground arith, once, Segment-put c x (links p' (first q xs)) x xs q once rest)

-- The last of the nodes is one of them.
has-last : (x : Ptr) (xs : List Ptr) → has (last x xs) (x ∷ xs) ≡ true
has-last x [] = ground arith
has-last x (y ∷ ys) = ground (arith, has-last y ys)

pub last_ne : (a x : Ptr) (xs : List Ptr) → has a (x ∷ xs) ≡ false → a ≢ last x xs
last_ne a x xs out e =
    let inside : has a (x ∷ xs) ≡ true = ap (λ b. has b (x ∷ xs)) e ∙ has-last x xs in cc

pub put_ne : (a b : Ptr) (n : Node) (c : Ptr → Option Node) → b ≢ a → put a n c b ≡ c b
unfolding put
put_ne a b n c ne = ground arith

pub put_self : (a : Ptr) (n : Node) (c : Ptr → Option Node) → put a n c a ≡ some n
unfolding put
put_self a n c = ground arith

-- The last node gets another one behind.
pub Segment-set_next :
    (c : Ptr → Option Node) (p x : Ptr) (xs : List Ptr) (q q' : Ptr)
    → Segment c p (x ∷ xs) q
    → (r : Ptr) × (c (last x xs) ≡ some (links r q))
      × Segment (put (last x xs) (links r q') c) p (x ∷ xs) q'
unfolding put
Segment-set_next c p x [] q q' (ne, cell, once, rest) = (p, cell, (ne, ground arith, refl, tt))
Segment-set_next c p x (y ∷ ys) q q' (ne, cell, once, rest) =
    let (r, at, s) = Segment-set_next c x y ys q q' rest in
    (r, at, (ne, put_ne (last y ys) x _ c (last_ne x y ys once) ∙ cell, once, s))

first-append : (q : Ptr) (xs ys : List Ptr) → first q (xs ++ ys) ≡ first (first q ys) xs
first-append q [] ys = refl
first-append q (x ∷ xs) ys = refl

pub has-append : (a : Ptr) (xs ys : List Ptr) → has a (xs ++ ys) ≡ has a xs || has a ys
has-append a [] ys = refl
has-append a (x ∷ xs) ys = ground (arith, has-append a xs ys)

pub last-append : (p : Ptr) (xs ys : List Ptr) → last p (xs ++ ys) ≡ last (last p xs) ys
last-append p [] ys = refl
last-append p (x ∷ xs) ys = last-append x xs ys

pub Segment-append :
    (c : Ptr → Option Node) (p : Ptr) (xs ys : List Ptr) (q : Ptr)
    → Segment c p (xs ++ ys) q
    → Segment c p xs (first q ys) × Segment c (last p xs) ys q
Segment-append c p [] ys q s = (tt, s)
Segment-append c p (x ∷ xs) ys q (ne, cell, once, rest) =
    let (s, t) = Segment-append c x xs ys q rest in
    ((ne, rw (first-append q xs ys) at cell, ground (arith, has-append x xs ys), s), t)

-- Two stretches without a common node, one behind the other.
pub append-Segment :
    (c : Ptr → Option Node) (p : Ptr) (xs ys : List Ptr) (q : Ptr)
    → ((a : Ptr) → has a xs ≡ true → has a ys ≡ false)
    → Segment c p xs (first q ys)
    → Segment c (last p xs) ys q
    → Segment c p (xs ++ ys) q
append-Segment c p [] ys q apart s t = t
append-Segment c p (x ∷ xs) ys q apart (ne, cell, once, rest) t = (
  ne,
  rw (first-append q xs ys) cell,
  ground (arith, has-append x xs ys, apart x),
  append-Segment c x xs ys q (λ a h. apart a (ground arith)) rest t,
)

pub Segment-apart :
    (c : Ptr → Option Node) (p : Ptr) (xs ys : List Ptr) (q : Ptr)
    → Segment c p (xs ++ ys) q
    → (a : Ptr) → has a xs ≡ true
    → has a ys ≡ false
Segment-apart c p [] ys q s a h = cc
Segment-apart c p (x ∷ xs) ys q (ne, cell, once, rest) a h =
    ground (arith, has-append x xs ys, Segment-apart c x xs ys q rest a)

-- A segment reads its own nodes only.
pub Segment-same :
    (c c' : Ptr → Option Node) (p : Ptr) (xs : List Ptr) (q : Ptr)
    → ((a : Ptr) → has a xs ≡ true → c' a ≡ c a)
    → Segment c p xs q
    → Segment c' p xs q
Segment-same c c' p [] q same s = tt
Segment-same c c' p (x ∷ xs) q same (ne, cell, once, rest) = (
  ne,
  same x (ground arith) ∙ cell,
  once,
  Segment-same c c' x xs q (λ a h. same a (ground arith)) rest,
)
