-- ===== src/Prelude/Bits.antt =====
-- Binary digits of native numbers, and what the bit operations do to them, at every position.
use Prim.Native.Nat.{ℕ, zero, suc, ◌+◌, ◌-◌, ◌*◌, ◌/◌, ◌%◌, ◌^◌, ◌≤◌, ◌<◌, min, max}
use Prim.Native.Nat.{bit_and, bit_or, bitwise, digits, bit_and-bitwise, bit_or-bitwise}
use mathlib.Core.Path.{◌≡◌, refl, ap, ◌∙◌}
use native.Mathlib.Omega.{arith}
use native.Mathlib.Nat.{le_refl, pow-suc, one-le-pow}

-- The digit at position `k`, from the lowest.
abbrev pub bit : ℕ → ℕ → ℕ
bit x zero = x % 2
bit x (suc k) = bit (x / 2) k

-- More fuel than the first number changes nothing.
module _ (below : ℕ → ℕ) (op : ℕ → ℕ → ℕ) where
  digits_more :
      (fuel x y : ℕ) → x ≤ fuel → digits below op (suc fuel) x y ≡ digits below op fuel x y
  digits_more zero zero y h = refl
  digits_more (suc fuel) zero y h = refl
  digits_more zero (suc x) y h = absurd (omega arith)
  digits_more (suc fuel) (suc x) y h =
      ap (λ r. r * 2 + op (suc x % 2) (y % 2)) (digits_more fuel (suc x / 2) (y / 2) (omega arith))

  digits_surplus :
      (extra fuel x y : ℕ) → fuel ≡ extra + x → digits below op fuel x y ≡ digits below op x x y
  digits_surplus zero fuel x y h =
      let e : fuel ≡ x = omega arith in ap (λ n. digits below op n x y) e
  digits_surplus (suc extra) zero x y h = absurd (omega arith)
  digits_surplus (suc extra) (suc fuel) x y h =
      digits_more fuel x y (omega arith) ∙ digits_surplus extra fuel x y (omega arith)

  bitwise_halves :
      (x y : ℕ)
      → bitwise below op (suc x) y
        ≡ op (suc x % 2) (y % 2) + 2 * bitwise below op (suc x / 2) (y / 2)
  bitwise_halves x y =
      let half = suc x / 2 in
      let less = digits_surplus (x - half) x half (y / 2) (omega arith) in omega (arith, less)

bit_or_halves : (x y : ℕ) → bit_or x y ≡ max (x % 2) (y % 2) + 2 * bit_or (x / 2) (y / 2)
bit_or_halves zero y = omega (arith, bit_or-bitwise 0 y, bit_or-bitwise 0 (y / 2))
bit_or_halves (suc x) y = omega (
  arith,
  bit_or-bitwise (suc x) y,
  bit_or-bitwise (suc x / 2) (y / 2),
  bitwise_halves (λ d. d) max x y,
)

bit_and_halves : (x y : ℕ) → bit_and x y ≡ min (x % 2) (y % 2) + 2 * bit_and (x / 2) (y / 2)
bit_and_halves zero y = omega (arith, bit_and-bitwise 0 y, bit_and-bitwise 0 (y / 2))
bit_and_halves (suc x) y = omega (
  arith,
  bit_and-bitwise (suc x) y,
  bit_and-bitwise (suc x / 2) (y / 2),
  bitwise_halves (λ d. 0) min x y,
)

pub bit-zero : (k : ℕ) → bit 0 k ≡ 0
bit-zero zero = refl
bit-zero (suc k) = bit-zero k

pub bit-le : (k x : ℕ) → bit x k ≤ 1
bit-le zero x = omega arith
bit-le (suc k) x = bit-le k (x / 2)

pub bit-bit_or : (k x y : ℕ) → bit (bit_or x y) k ≡ max (bit x k) (bit y k)
bit-bit_or zero x y = omega (arith, bit_or_halves x y)
bit-bit_or (suc k) x y =
    let e : bit_or x y / 2 ≡ bit_or (x / 2) (y / 2) = omega (arith, bit_or_halves x y) in
    rw e (bit-bit_or k (x / 2) (y / 2))

pub bit-bit_and : (k x y : ℕ) → bit (bit_and x y) k ≡ min (bit x k) (bit y k)
bit-bit_and zero x y = omega (arith, bit_and_halves x y)
bit-bit_and (suc k) x y =
    let e : bit_and x y / 2 ≡ bit_and (x / 2) (y / 2) = omega (arith, bit_and_halves x y) in
    rw e (bit-bit_and k (x / 2) (y / 2))

-- The complement in a word of `w` bits.
pub bit_complement : (w k x : ℕ) → k < w → x < 2 ^ w → bit (2 ^ w - 1 - x) k ≡ 1 - bit x k
bit_complement zero k x h l = absurd (omega arith)
bit_complement (suc w) zero x h l = omega (arith, pow-suc 2 w)
bit_complement (suc w) (suc k) x h l =
    let e : (2 ^ suc w - 1 - x) / 2 ≡ 2 ^ w - 1 - x / 2 = omega (arith, pow-suc 2 w) in
    rw e (bit_complement w k (x / 2) (omega arith) (omega (arith, pow-suc 2 w)))

-- A cast to a byte keeps the eight lowest digits.
pub bit-byte : (x k : ℕ) → k < 8 → bit (x % 256) k ≡ bit x k
bit-byte x zero h = omega arith
bit-byte x (suc zero) h = omega arith
bit-byte x (suc (suc zero)) h = omega arith
bit-byte x (suc (suc (suc zero))) h = omega arith
bit-byte x (suc (suc (suc (suc zero)))) h = omega arith
bit-byte x (suc (suc (suc (suc (suc zero))))) h = omega arith
bit-byte x (suc (suc (suc (suc (suc (suc zero)))))) h = omega arith
bit-byte x (suc (suc (suc (suc (suc (suc (suc zero))))))) h = omega arith
bit-byte x (suc (suc (suc (suc (suc (suc (suc (suc k)))))))) h = absurd (omega arith)

bit_and-zero : (k a : ℕ) → a ≤ k → bit_and a 0 ≡ 0
bit_and-zero k zero h = refl
bit_and-zero zero (suc a) h = absurd (omega arith)
bit_and-zero (suc k) (suc a) h =
    omega (arith, bit_and_halves (suc a) 0, bit_and-zero k (suc a / 2) (omega arith))

mul_double : (q k : ℕ) → q * 2 ^ suc k ≡ 2 * (q * 2 ^ k)
mul_double q k = omega (arith, ap (λ (t : ℕ). q * t) (pow-suc 2 k))

unit : (q : ℕ) → q * 2 ^ 0 ≡ q
unit q = omega arith

-- A mask of `k` ones keeps the `k` lowest digits.
pub bit_and-ones : (k q r : ℕ) → r < 2 ^ k → bit_and (q * 2 ^ k + r) (2 ^ k - 1) ≡ r
bit_and-ones zero q r h = omega (arith, bit_and-zero (q * 1 + r) (q * 1 + r) (le_refl _))
bit_and-ones (suc k) q r h = ground (
  arith,
  bit_and_halves (q * 2 ^ suc k + r) (2 ^ suc k - 1),
  mul_double q k,
  pow-suc 2 k,
  one-le-pow k 2,
  bit_and-ones k q (r / 2) (omega (arith, pow-suc 2 k)),
)

-- A mask shifted left by `k` looks at the rest of the digits.
pub bit_and-shifted :
    (k q r m : ℕ) → r < 2 ^ k → bit_and (q * 2 ^ k + r) (m * 2 ^ k) ≡ bit_and q m * 2 ^ k
bit_and-shifted zero q r m h =
    let e : r ≡ 0 = omega arith in
    rw (e, unit m, unit (bit_and q m)) (ap (λ t. bit_and t m) (omega arith))
bit_and-shifted (suc k) q r m h = ground (
  arith,
  bit_and_halves (q * 2 ^ suc k + r) (m * 2 ^ suc k),
  mul_double q k,
  mul_double m k,
  mul_double (bit_and q m) k,
  bit_and-shifted k q (r / 2) m (omega (arith, pow-suc 2 k)),
)

bit_and-le_fuel : (n a b : ℕ) → a ≤ n → bit_and a b ≤ a
bit_and-le_fuel n zero b h = omega (arith, bit_and_halves 0 b, bit_and-bitwise 0 b)
bit_and-le_fuel zero (suc a) b h = absurd (omega arith)
bit_and-le_fuel (suc n) (suc a) b h =
    omega (arith, bit_and_halves (suc a) b, bit_and-le_fuel n (suc a / 2) (b / 2) (omega arith))

pub bit_and-le : (a b : ℕ) → bit_and a b ≤ a
bit_and-le a b = bit_and-le_fuel a a b (le_refl a)
