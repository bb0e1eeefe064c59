-- ===== src/Base/Bits.antt =====
-- The bits of a word: `&`, `|`, `~` and `1 << j` of C, bit by bit.
use Prim.Native.Nat.{
  ℕ, zero, suc, ◌+◌, ◌-◌, ◌*◌, ◌/◌, ◌%◌, ◌^◌, ◌≤◌, ◌<◌, min, max, bit_and, bit_or, digits,
  bit_and-bitwise, bit_or-bitwise,
}
use mathlib.Core.Path.{◌≡◌, refl, ap}
use mathlib.Core.Logic.{◌≢◌}
use native.Mathlib.Omega.{arith}
use native.Mathlib.Nat.{pow-suc}
use native.Mathlib.Decide.{ℕ_discrete}
use ap_pa.Base.Tests.{◌==◌, if◌then◌else◌}

-- Fuel beyond the first operand adds no digit.
module _ (zero_case : ℕ → ℕ) (on_digits : ℕ → ℕ → ℕ) where
  enough_fuel :
      (fuel more a b : ℕ)
      → a ≤ fuel
      → a ≤ more
      → digits zero_case on_digits fuel a b ≡ digits zero_case on_digits more a b
  enough_fuel zero zero zero b h k = refl
  enough_fuel zero (suc more) zero b h k = refl
  enough_fuel (suc fuel) zero zero b h k = refl
  enough_fuel (suc fuel) (suc more) zero b h k = refl
  enough_fuel zero more (suc a) b h k = absurd (omega arith)
  enough_fuel (suc fuel) zero (suc a) b h k = absurd (omega arith)
  enough_fuel (suc fuel) (suc more) (suc a) b h k =
      rw (enough_fuel fuel more (suc a / 2) (b / 2) (omega arith) (omega arith))

pub bit_or_digit : (a b : ℕ) → bit_or a b ≡ 2 * bit_or (a / 2) (b / 2) + max (a % 2) (b % 2)
bit_or_digit zero b = simp bit_or-bitwise (omega arith)
bit_or_digit (suc a) b = simp bit_or-bitwise (
    omega (
      arith,
      enough_fuel (λ y. y) max a (suc a / 2) (suc a / 2) (b / 2) (omega arith) (omega arith),
    ))

pub bit_and_digit : (a b : ℕ) → bit_and a b ≡ 2 * bit_and (a / 2) (b / 2) + min (a % 2) (b % 2)
bit_and_digit zero b = simp bit_and-bitwise (omega arith)
bit_and_digit (suc a) b = simp bit_and-bitwise (
    omega (
      arith,
      enough_fuel (λ y. 0) min a (suc a / 2) (suc a / 2) (b / 2) (omega arith) (omega arith),
    ))

-- Bit `j` of a word.
pub bit : ℕ → ℕ → ℕ
bit zero w = w % 2
bit (suc j) w = bit j (w / 2)

pub bit-le-one : (j w : ℕ) → bit j w ≤ 1
unfolding bit
bit-le-one zero w = omega arith
bit-le-one (suc j) w = bit-le-one j (w / 2)

pub bit-bit_or : (j a b : ℕ) → bit j (bit_or a b) ≡ max (bit j a) (bit j b)
unfolding bit
bit-bit_or zero a b = omega (arith, bit_or_digit a b)
bit-bit_or (suc j) a b =
    let e : bit_or a b / 2 ≡ bit_or (a / 2) (b / 2) = omega (arith, bit_or_digit a b) in
    rw e (bit-bit_or j (a / 2) (b / 2))

pub bit-bit_and : (j a b : ℕ) → bit j (bit_and a b) ≡ min (bit j a) (bit j b)
unfolding bit
bit-bit_and zero a b = omega (arith, bit_and_digit a b)
bit-bit_and (suc j) a b =
    let e : bit_and a b / 2 ≡ bit_and (a / 2) (b / 2) = omega (arith, bit_and_digit a b) in
    rw e (bit-bit_and j (a / 2) (b / 2))

pub bit-zero : (j : ℕ) → bit j 0 ≡ 0
unfolding bit
bit-zero zero = refl
bit-zero (suc j) = bit-zero j

-- `1 << j`
pub bit-pow : (k j : ℕ) → bit k (2 ^ j) ≡ (if j == k then 1 else 0)
unfolding bit
bit-pow zero zero = refl
bit-pow (suc k) zero = ground (arith, bit-zero k)
bit-pow zero (suc j) = ground (arith, pow-suc 2 j)
bit-pow (suc k) (suc j) =
    let e : 2 ^ suc j / 2 ≡ 2 ^ j = omega (arith, pow-suc 2 j) in rw e (ground (arith, bit-pow k j))

-- `~x`, in `n` bits
pub bit-compl : (n k x : ℕ) → x < 2 ^ n → k < n → bit k (2 ^ n - 1 - x) ≡ 1 - bit k x
unfolding bit
bit-compl zero k x h lt = absurd (omega arith)
bit-compl (suc n) zero x h lt = omega (arith, pow-suc 2 n)
bit-compl (suc n) (suc k) x h lt =
    let e : (2 ^ suc n - 1 - x) / 2 ≡ 2 ^ n - 1 - x / 2 = omega (arith, pow-suc 2 n) in
    rw e (bit-compl n k (x / 2) (omega (arith, pow-suc 2 n)) (omega arith))

pub bit_and-zero : (j a : ℕ) → a < 2 ^ j → bit_and a 0 ≡ 0
bit_and-zero zero a h = let e : a ≡ 0 = omega arith in rw e
bit_and-zero (suc j) a h =
    omega (arith, bit_and_digit a 0, bit_and-zero j (a / 2) (omega (arith, pow-suc 2 j)))

-- `w & (1 << j)` is nonzero exactly when bit `j` is set.
pub bit_and-pow : (n j w : ℕ) → w < 2 ^ n → bit_and w (2 ^ j) ≡ 2 ^ j * bit j w
unfolding bit
bit_and-pow zero j w h =
    let e : w ≡ 0 = omega arith in
    rw e (omega (arith, bit_and-bitwise 0 (2 ^ j), ap (λ (b : ℕ). 2 ^ j * b) (bit-zero j)))
bit_and-pow (suc n) zero w h =
    omega (arith, bit_and_digit w 1, bit_and-zero n (w / 2) (omega (arith, pow-suc 2 n)))
bit_and-pow (suc n) (suc j) w h =
    let e : 2 ^ suc j / 2 ≡ 2 ^ j = omega (arith, pow-suc 2 j) in
    omega (
      arith,
      pow-suc 2 j,
      rw e at (bit_and_digit w (2 ^ suc j)),
      (bit_and-pow n j (w / 2) (omega (arith, pow-suc 2 n))),
      ap (λ (t : ℕ). t * bit j (w / 2)) (pow-suc 2 j),
    )

pub bit_or-lt : (n a b : ℕ) → a < 2 ^ n → b < 2 ^ n → bit_or a b < 2 ^ n
bit_or-lt zero a b h k =
    let e : a ≡ 0 = omega arith in let f : b ≡ 0 = omega arith in rw (e, f) (omega arith)
bit_or-lt (suc n) a b h k = omega (
  arith,
  pow-suc 2 n,
  bit_or_digit a b,
  bit_or-lt n (a / 2) (b / 2) (omega (arith, pow-suc 2 n)) (omega (arith, pow-suc 2 n)),
)

pub bit_and-lt : (n a b : ℕ) → a < 2 ^ n → bit_and a b < 2 ^ n
bit_and-lt zero a b h = let e : a ≡ 0 = omega arith in rw e (omega (arith, bit_and-bitwise 0 b))
bit_and-lt (suc n) a b h = omega (
  arith,
  pow-suc 2 n,
  bit_and_digit a b,
  bit_and-lt n (a / 2) (b / 2) (omega (arith, pow-suc 2 n)),
)

-- A word that is not all ones has a zero bit, and one that is has none.
pub bit-ones : (n k : ℕ) → k < n → bit k (2 ^ n - 1) ≡ 1
unfolding bit
bit-ones zero k lt = absurd (omega arith)
bit-ones (suc n) zero lt = omega (arith, pow-suc 2 n, bit_pos n)
  where
    bit_pos : (n : ℕ) → 0 < 2 ^ n
    bit_pos zero = omega arith
    bit_pos (suc n) = omega (arith, pow-suc 2 n, bit_pos n)
bit-ones (suc n) (suc k) lt =
    let e : (2 ^ suc n - 1) / 2 ≡ 2 ^ n - 1 = omega (arith, pow-suc 2 n) in
    rw e (bit-ones n k (omega arith))

pub zero_bit : (n w : ℕ) → w < 2 ^ n → w ≢ 2 ^ n - 1 → (j : ℕ) × (j < n) × (bit j w ≡ 0)
unfolding bit
zero_bit zero w h ne = absurd (ne (omega arith))
zero_bit (suc n) w h ne = elim (ℕ_discrete (w % 2) 0) [
  | yes even ↦ (0, omega arith, even)
  | no odd ↦
      let (j, lt, e) =
        zero_bit n (w / 2) (omega (arith, pow-suc 2 n)) (λ q. ne (omega (arith, pow-suc 2 n))) in
      (suc j, omega arith, e)
]
