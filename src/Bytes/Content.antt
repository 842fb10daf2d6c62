-- ===== src/Bytes/Content.antt =====
-- c/src/bytes.c: the bytes that a buffer holds, and `bytes_offset`.
use artorias.Prelude.{
  ℕ, zero, suc, ◌+◌, ◌-◌, ◌%◌, ◌^◌, ◌≤◌, ◌<◌, ◌≡◌, refl, sym, ap, ◌∙◌, inl, inr, Option, none, some,
  List, [], ◌∷◌, ◌++◌, ltb, arith, Bool-cases, length, get_elem?, length-append,
}
use artorias.Bytes.{Block, Bytes, offset_in, bytes_offset}

abbrev pub content : List Block → List ℕ
content [] = []
content (b ∷ bs) = b.d ++ content bs

-- Each block says how many bytes it holds, and has room for them.
abbrev pub AreFilled : List Block → Type 0
AreFilled [] = Unit
AreFilled (b ∷ bs) = (b.used ≡ length b.d) × (b.used ≤ b.size) × AreFilled bs

-- The sizes of the blocks.
abbrev pub room_of : List Block → ℕ
room_of [] = 0
room_of (b ∷ bs) = b.size + room_of bs

-- A buffer that holds `xs`, with its three counts right.
pub record HasContent (xs : List ℕ) (bs : Bytes) : Type 0 where
  pub holds : content bs.dl ≡ xs
  pub filled : AreFilled bs.dl
  pub counted : bs.used ≡ length xs
  pub sized : bs.size ≡ room_of bs.dl % 2 ^ 64
  pub blocks : bs.cnt ≡ length bs.dl % 2 ^ 32

-- The byte `m` of the block `i`.
abbrev byte_at : List Block → ℕ → ℕ → Option ℕ
byte_at [] i m = none
byte_at (b ∷ bs) zero m = get_elem? b.d m
byte_at (b ∷ bs) (suc i) m = byte_at bs i m

get_elem?-append-left :
    (xs ys : List ℕ) (i : ℕ) → i < length xs → get_elem? (xs ++ ys) i ≡ get_elem? xs i
get_elem?-append-left [] ys i h = elim h [ ]
get_elem?-append-left (x ∷ xs) ys zero h = refl
get_elem?-append-left (x ∷ xs) ys (suc i) h = get_elem?-append-left xs ys i (omega arith)

get_elem?-append-right :
    (xs ys : List ℕ) (i : ℕ) → length xs ≤ i → get_elem? (xs ++ ys) i ≡ get_elem? ys (i - length xs)
get_elem?-append-right [] ys i h = let e : i - 0 ≡ i = omega arith in ap (get_elem? ys) (sym e)
get_elem?-append-right (x ∷ xs) ys zero h = absurd (omega arith)
get_elem?-append-right (x ∷ xs) ys (suc i) h =
    let e : suc i - suc (length xs) ≡ i - length xs = omega arith in
    get_elem?-append-right xs ys i (omega arith) ∙ ap (get_elem? ys) (sym e)

-- Where the loop stops is the byte `offset` of the content.
abbrev FoundIn : List Block → ℕ → ℕ → Option (ℕ × ℕ) → Type 0
FoundIn bs offset n none = length (content bs) ≤ offset
FoundIn bs offset n (some (i, m)) =
    (n ≤ i)
    × (byte_at bs (i - n) m ≡ get_elem? (content bs) offset)
    × (offset < length (content bs))

passed :
    (b : Block) (bs : List Block) (offset n : ℕ) (r : Option (ℕ × ℕ))
    → b.used ≡ length b.d
    → b.used ≤ offset
    → FoundIn bs (offset - b.used) (n + 1) r
    → FoundIn (b ∷ bs) offset n r
passed b bs offset n none used over h = omega (arith, length-append b.d (content bs))
passed b bs offset n (some (i, m)) used over (le, at, lt) =
    let next : i - n ≡ suc (i - (n + 1)) = omega arith in
    let same : offset - length b.d ≡ offset - b.used = omega arith in
    (
      omega arith,
      ap (λ j. byte_at (b ∷ bs) j m) next
          ∙ at
          ∙ ap (get_elem? (content bs)) (sym same)
          ∙ sym (get_elem?-append-right b.d (content bs) offset (omega arith)),
      omega (arith, length-append b.d (content bs)),
    )

offset_in-FoundIn :
    (bs : List Block) (offset n : ℕ) → AreFilled bs → FoundIn bs offset n (offset_in bs offset n)
unfolding offset_in
offset_in-FoundIn [] offset n h = omega arith
offset_in-FoundIn (b ∷ bs) offset n (used, room, filled) = elim (Bool-cases (ltb offset b.used)) [
  | inl here ↦
      let lt : offset < length b.d = ground arith in
      let first : n - n ≡ 0 = omega arith in
      rw here (
        omega arith,
        ap (λ j. byte_at (b ∷ bs) j offset) first
            ∙ sym (get_elem?-append-left b.d (content bs) offset lt),
        omega (arith, length-append b.d (content bs)),
      )
  | inr past ↦ rw past (
      passed b bs offset n _ used (ground arith)
        (offset_in-FoundIn bs (offset - b.used) (n + 1) filled))
]

-- Where `bytes_offset` puts the place `offset`.
abbrev IsPlace : List ℕ → Bytes → ℕ → Option (ℕ × ℕ) → Type 0
IsPlace xs bs offset none = length xs ≤ offset
IsPlace xs bs offset (some (i, m)) =
    (byte_at bs.dl i m ≡ get_elem? xs offset) × (offset < length xs)

-- For a buffer that holds some bytes, with its counts right, `bytes_offset` either finds nothing,
-- and the offset is not below their number, or it finds a block and a place in it where the byte at
-- that offset stands.
bytes_offset-IsPlace :
    (xs : List ℕ) (bs : Bytes) (offset : ℕ)
    → HasContent xs bs
    → IsPlace xs bs offset (bytes_offset bs offset)
unfolding bytes_offset
bytes_offset-IsPlace xs bs offset h = elim (Bool-cases (ltb offset bs.used)) [
  | inl inside ↦
      rw inside (place (offset_in bs.dl offset 0) (offset_in-FoundIn bs.dl offset 0 h.filled))
  | inr outside ↦ rw outside (ground (arith, h.counted))
]
  where
    place : (r : Option (ℕ × ℕ)) → FoundIn bs.dl offset 0 r → IsPlace xs bs offset r
    place none le = rw h.holds at le
    place (some (i, m)) (le, at, lt) =
        let none_before : i - 0 ≡ i = omega arith in
        (
          ap (λ j. byte_at bs.dl j m) (sym none_before)
              ∙ at
              ∙ ap (λ ys. get_elem? ys offset) h.holds,
          rw h.holds at lt,
        )
