-- ===== src/Base/Mask.antt =====
-- Masks: the low bits of a word, the bits above them, and what `|` adds below them.
use Prim.Native.Nat.{
  ℕ, zero, suc, ◌+◌, ◌-◌, ◌*◌, ◌/◌, ◌%◌, ◌^◌, ◌≤◌, ◌<◌, bit_and, bit_or, bit_or-bitwise,
}
use mathlib.Core.Path.{◌≡◌, refl, ap, ◌∙◌}
use native.Mathlib.Omega.{arith}
use native.Mathlib.Nat.{pow-suc}
use ap_pa.Base.Bits.{bit_and_digit, bit_or_digit}

bit_and_none : (n w : ℕ) → w ≤ n → bit_and w 0 ≡ 0
bit_and_none n zero h = refl
bit_and_none zero (suc w) h = absurd (omega arith)
bit_and_none (suc n) (suc w) h =
    omega (arith, bit_and_digit (suc w) 0, bit_and_none n (suc w / 2) (omega arith))

pub bit_and_one : (w : ℕ) → bit_and w 1 ≡ w % 2
bit_and_one w = omega (arith, bit_and_digit w 1, bit_and_none (w / 2) (w / 2) (omega arith))

-- Masks of ones, four more bits at a time.
pub bit_and_nibble : (w : ℕ) → bit_and w 0xF ≡ w % 16
bit_and_nibble w = omega (
  arith,
  bit_and_digit w 15,
  bit_and_digit (w / 2) 7,
  bit_and_digit (w / 2 / 2) 3,
  bit_and_one (w / 2 / 2 / 2),
)

pub bit_and_byte : (w : ℕ) → bit_and w 0xFF ≡ w % 256
bit_and_byte w = omega (
  arith,
  bit_and_digit w 255,
  bit_and_digit (w / 2) 127,
  bit_and_digit (w / 2 / 2) 63,
  bit_and_digit (w / 2 / 2 / 2) 31,
  bit_and_nibble (w / 2 / 2 / 2 / 2),
)

-- `w & 0xFFF`
pub bit_and_low : (w : ℕ) → bit_and w 0xFFF ≡ w % 4096
bit_and_low w = omega (
  arith,
  bit_and_digit w 4095,
  bit_and_digit (w / 2) 2047,
  bit_and_digit (w / 2 / 2) 1023,
  bit_and_digit (w / 2 / 2 / 2) 511,
  bit_and_byte (w / 2 / 2 / 2 / 2),
)

-- `w & 0xFFFF`
pub bit_and_half : (w : ℕ) → bit_and w 0xFFFF ≡ w % 65536
bit_and_half w = omega (
  arith,
  bit_and_digit w 65535,
  bit_and_digit (w / 2) 32767,
  bit_and_digit (w / 2 / 2) 16383,
  bit_and_digit (w / 2 / 2 / 2) 8191,
  bit_and_low (w / 2 / 2 / 2 / 2),
)

bit_and_ones : (n w : ℕ) → w < 2 ^ n → bit_and w (2 ^ n - 1) ≡ w
bit_and_ones zero zero h = refl
bit_and_ones zero (suc w) h = absurd (omega arith)
bit_and_ones (suc n) w h =
    let half : (2 ^ suc n - 1) / 2 ≡ 2 ^ n - 1 = omega (arith, pow-suc 2 n) in
    let odd : (2 ^ suc n - 1) % 2 ≡ 1 = omega (arith, pow-suc 2 n) in
    let rest = bit_and_ones n (w / 2) (omega (arith, pow-suc 2 n)) in
    omega (arith, odd, rest, ap (bit_and (w / 2)) half, bit_and_digit w (2 ^ suc n - 1))

shifted : (w m : ℕ) → m % 2 ≡ 0 → bit_and w m ≡ bit_and (w / 2) (m / 2) * 2
shifted w m even = omega (arith, bit_and_digit w m)

-- `w & 0xFFFFF000`, of a 32-bit word.
pub bit_and_high : (w : ℕ) → w < 2 ^ 32 → bit_and w 0xFFFFF000 ≡ w / 4096 * 4096
bit_and_high w h = omega (
  arith,
  bit_and_digit w 4294963200,
  bit_and_digit (w / 2) 2147481600,
  bit_and_digit (w / 2 / 2) 1073740800,
  bit_and_digit (w / 2 / 2 / 2) 536870400,
  middle (w / 2 / 2 / 2 / 2) (omega arith),
)
  where
    top : (w : ℕ) → w < 2 ^ 24 → bit_and w 0xFFFFF0 ≡ w / 16 * 16
    top w h = omega (
      arith,
      bit_and_digit w 16777200,
      bit_and_digit (w / 2) 8388600,
      bit_and_digit (w / 2 / 2) 4194300,
      bit_and_digit (w / 2 / 2 / 2) 2097150,
      bit_and_ones 20 (w / 2 / 2 / 2 / 2) (omega arith),
    )

    middle : (w : ℕ) → w < 2 ^ 28 → bit_and w 0xFFFFF00 ≡ w / 256 * 256
    middle w h = omega (
      arith,
      bit_and_digit w 268435200,
      bit_and_digit (w / 2) 134217600,
      bit_and_digit (w / 2 / 2) 67108800,
      bit_and_digit (w / 2 / 2 / 2) 33554400,
      top (w / 2 / 2 / 2 / 2) (omega arith),
    )

pub bit_or-zero : (n w : ℕ) → w ≤ n → bit_or w 0 ≡ w
bit_or-zero n zero h = refl
bit_or-zero zero (suc w) h = absurd (omega arith)
bit_or-zero (suc n) (suc w) h =
    omega (arith, bit_or_digit (suc w) 0, bit_or-zero n (suc w / 2) (omega arith))

pub zero-bit_or : (w : ℕ) → bit_or 0 w ≡ w
zero-bit_or w = bit_or-bitwise 0 w

pub bit_or_one : (w : ℕ) → bit_or w 1 ≡ w / 2 * 2 + 1
bit_or_one w = omega (arith, bit_or_digit w 1, bit_or-zero (w / 2) (w / 2) (omega arith))

-- `|` of bits below a number whose low bits are clear.
pub bit_or-add : (n a b : ℕ) → b < 2 ^ n → bit_or (2 ^ n * a) b ≡ 2 ^ n * a + b
bit_or-add zero a zero h = bit_or-zero (1 * a) (1 * a) (omega arith) ∙ omega arith
bit_or-add zero a (suc b) h = absurd (omega arith)
bit_or-add (suc n) a b h =
    let doubled : 2 ^ suc n * a ≡ 2 * (2 ^ n * a) =
      omega (arith, ap (λ (t : ℕ). t * a) (pow-suc 2 n)) in
    let half : 2 ^ suc n * a / 2 ≡ 2 ^ n * a = omega arith in
    let rest = bit_or-add n a (b / 2) (omega (arith, pow-suc 2 n)) in
    omega (arith, doubled, rest, bit_or_digit (2 ^ suc n * a) b, ap (λ t. bit_or t (b / 2)) half)

-- The high half of a byte.
bit_and_upper : (w : ℕ) → w < 256 → bit_and w 0xF0 ≡ 16 * (w / 16)
bit_and_upper w h = omega (
  arith,
  bit_and_digit w 240,
  bit_and_digit (w / 2) 120,
  bit_and_digit (w / 2 / 2) 60,
  bit_and_digit (w / 2 / 2 / 2) 30,
  bit_and_nibble (w / 2 / 2 / 2 / 2),
)

-- `|` of bits above the low four.
bit_or_low : (b a : ℕ) → b < 16 → bit_or b (16 * a) ≡ 16 * a + b
bit_or_low b a h = omega (
  arith,
  bit_or_digit b (16 * a),
  bit_or_digit (b / 2) (16 * a / 2),
  bit_or_digit (b / 2 / 2) (16 * a / 2 / 2),
  bit_or_digit (b / 2 / 2 / 2) (16 * a / 2 / 2 / 2),
  zero_or (b / 2 / 2 / 2 / 2) (16 * a / 2 / 2 / 2 / 2) (omega arith),
)
  where
    zero_or : (z c : ℕ) → z ≡ 0 → bit_or z c ≡ c
    zero_or z c e = ap (λ z. bit_or z c) e ∙ zero-bit_or c

-- A byte from the low half of one number and the high half of a byte.
pub bit_or_nibbles :
    (v w : ℕ) → w < 256 → bit_or (bit_and v 0xF) (bit_and w 0xF0) ≡ 16 * (w / 16) + v % 16
bit_or_nibbles v w h =
    ap (λ n. bit_or n (bit_and w 0xF0)) (bit_and_nibble v)
    ∙ ap (λ n. bit_or (v % 16) n) (bit_and_upper w h)
    ∙ bit_or_low (v % 16) (w / 16) (omega arith)
