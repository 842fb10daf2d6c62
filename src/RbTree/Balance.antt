-- ===== src/RbTree/Balance.antt =====
-- c/src/rb_tree.c: red-black trees, and trails with a place for a red-black tree.
use artorias.Prelude.{
  ℕ, ◌+◌, ◌≡◌, refl, sym, ◌∙◌, ap, subst, Option, none, some, [], ◌∷◌, ◌++◌, arith,
}
use artorias.RbTree.Store.{Ptr, Color, red, black, Side, left, right}
use artorias.RbTree.Shape.{Tree, leaf, node, inorder}
use artorias.RbTree.Trail.{frame, Trail, plug}

abbrev pub weight : Color → ℕ
weight red = 0
weight black = 1

-- The black nodes on the way down the left side.
abbrev pub black_height : Tree → ℕ
black_height leaf = 0
black_height (node l a c r) = weight c + black_height l

-- A leaf counts as black.
abbrev pub color_of : Tree → Color
color_of leaf = black
color_of (node l a c r) = c

abbrev pub Below : Color → Tree → Tree → Type 0
Below red l r = (color_of l ≡ black) × (color_of r ≡ black)
Below black l r = Unit

-- A red node has black children, and both sides of every node have the same black height.
abbrev pub IsRedBlack : Tree → Type 0
IsRedBlack leaf = Unit
IsRedBlack (node l a c r) =
    (black_height l ≡ black_height r) × Below c l r × IsRedBlack l × IsRedBlack r

abbrev top_color : Trail → Option Color
top_color [] = none
top_color (frame side a c t ∷ up) = some c

abbrev Beside : Color → Tree → Trail → Type 0
Beside red t up = (color_of t ≡ black) × (top_color up ≡ some black)
Beside black t up = Unit

-- With a red-black tree of black height `h` and a black root at the place, the whole is one. Its root
-- is black.
abbrev pub Takes : Trail → ℕ → Type 0
Takes [] h = Unit
Takes (frame side a c t ∷ up) h =
    (black_height t ≡ h) × IsRedBlack t × Beside c t up × Takes up (weight c + h)

-- A red-black tree of the black height `h` whose root is black.
pub record Part (t : Tree) (h : ℕ) : Type 0 where
  pub height : black_height t ≡ h
  pub balanced : IsRedBlack t
  pub black_root : color_of t ≡ black

-- May a subtree stand under the trail?
abbrev pub Fits : Color → Trail → Type 0
Fits red up = top_color up ≡ some black
Fits black up = Unit

Fits-red :
    (t : Tree) (side : Side) (a : Ptr) (r : Tree) (up : Trail)
    → Fits (color_of t) (frame side a red r ∷ up)
    → color_of t ≡ black
Fits-red leaf side a r up fits = refl
Fits-red (node l b black r') side a r up fits = refl
Fits-red (node l b red r') side a r up fits = cc

pub Takes-at : (up : Trail) (h h' : ℕ) → h ≡ h' → Takes up h → Takes up h'
Takes-at up h h' e = subst (λ n. Takes up n) e

-- The whole tree.
pub plug-IsRedBlack :
    (up : Trail) (t : Tree)
    → IsRedBlack t
    → Takes up (black_height t)
    → Fits (color_of t) up
    → IsRedBlack (plug up t)
plug-IsRedBlack [] t rb takes fits = rb
plug-IsRedBlack (frame left a red r ∷ up) t rb (even, rb', (b, top), takes) fits =
    plug-IsRedBlack up (node t a red r) (sym even, (Fits-red t left a r up fits, b), rb, rb')
      (Takes-at up _ _ (omega arith) takes) top
plug-IsRedBlack (frame right a red l ∷ up) t rb (even, rb', (b, top), takes) fits =
    plug-IsRedBlack up (node l a red t) (even, (b, Fits-red t right a l up fits), rb', rb)
      (Takes-at up _ _ (omega arith) takes) top
plug-IsRedBlack (frame left a black r ∷ up) t rb (even, rb', b, takes) fits =
    plug-IsRedBlack up (node t a black r) (sym even, tt, rb, rb')
      (Takes-at up _ _ (omega arith) takes) tt
plug-IsRedBlack (frame right a black l ∷ up) t rb (even, rb', b, takes) fits =
    plug-IsRedBlack up (node l a black t) (even, tt, rb', rb) (Takes-at up _ _ (omega arith) takes)
      tt

-- The colour of the place's root does not show in the order.
pub inorder-plug :
    (up : Trail) (t t' : Tree) → inorder t ≡ inorder t' → inorder (plug up t) ≡ inorder (plug up t')
inorder-plug [] t t' e = e
inorder-plug (frame left a c r ∷ up) t t' e =
    inorder-plug up (node t a c r) (node t' a c r) (ap (λ xs. xs ++ (a ∷ inorder r)) e)
inorder-plug (frame right a c l ∷ up) t t' e =
    inorder-plug up (node l a c t) (node l a c t') (ap (λ xs. inorder l ++ (a ∷ xs)) e)

pub red-IsRedBlack :
    (l : Tree) (n : Ptr) (r : Tree) (h : ℕ) → Part l h → Part r h → IsRedBlack (node l n red r)
red-IsRedBlack l n r h pl pr =
    (pl.height ∙ sym pr.height, (pl.black_root, pr.black_root), pl.balanced, pr.balanced)

-- A black node with two red children.
pub plug-four :
    (up : Trail) (a1 a2 b1 b2 : Tree) (x m y : Ptr) (h : ℕ)
    → Part a1 h
    → Part a2 h
    → Part b1 h
    → Part b2 h
    → Takes up (1 + h)
    → IsRedBlack (plug up (node (node a1 x red a2) m black (node b1 y red b2)))
plug-four up a1 a2 b1 b2 x m y h p1 p2 q1 q2 takes =
    let e1 = p1.height in
    let e2 = p2.height in
    let e3 = q1.height in
    let e4 = q2.height in
    plug-IsRedBlack up (node (node a1 x red a2) m black (node b1 y red b2))
      (
        omega arith,
        tt,
        (omega arith, (p1.black_root, p2.black_root), p1.balanced, p2.balanced),
        (omega arith, (q1.black_root, q2.black_root), q1.balanced, q2.balanced),
      )
      (Takes-at up _ _ (omega arith) takes) tt

-- The way down.
pub Beside-left : (c : Color) (l r : Tree) (up : Trail) → Below c l r → Fits c up → Beside c r up
Beside-left red l r up (bl, br) fits = (br, fits)
Beside-left black l r up below fits = tt

pub Beside-right : (c : Color) (l r : Tree) (up : Trail) → Below c l r → Fits c up → Beside c l up
Beside-right red l r up (bl, br) fits = (bl, fits)
Beside-right black l r up below fits = tt

pub black-Fits : (t : Tree) (up : Trail) → color_of t ≡ black → Fits (color_of t) up
black-Fits leaf up e = tt
black-Fits (node l a black r) up e = tt
black-Fits (node l a red r) up e = absurd cc

under_black-Fits :
    (c : Color) (side : Side) (a : Ptr) (r : Tree) (up : Trail) → Fits c (frame side a black r ∷ up)
under_black-Fits red side a r up = refl
under_black-Fits black side a r up = tt

pub lower_left-Fits :
    (c : Color) (side : Side) (l r : Tree) (a : Ptr) (up : Trail)
    → Below c l r
    → Fits (color_of l) (frame side a c r ∷ up)
lower_left-Fits red side l r a up (bl, br) = black-Fits l _ bl
lower_left-Fits black side l r a up below = under_black-Fits (color_of l) side a r up

pub lower_right-Fits :
    (c : Color) (side : Side) (l r : Tree) (a : Ptr) (up : Trail)
    → Below c l r
    → Fits (color_of r) (frame side a c l ∷ up)
lower_right-Fits red side l r a up (bl, br) = black-Fits r _ br
lower_right-Fits black side l r a up below = under_black-Fits (color_of r) side a l up
