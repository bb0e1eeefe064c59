-- ===== src/Pmm/Frames.antt =====
-- One bit stands for one frame: setting or clearing it changes what is read of no other frame.
use ap_pa.Base.{
  ℕ, zero, suc, ◌-◌, ◌/◌, ◌%◌, ◌^◌, ◌<◌, ◌≡◌, ap, ◌∙◌, true, false, not, inl, inr, arith, length,
  ◌==◌, if◌then◌else◌, Bool-cases, get_or-set, length-set, bit_and, bit_or, bit, bit-le-one,
  bit_and-pow, bit-bit_or, bit-bit_and, bit-pow, bit-compl, bit_or-lt, bit_and-lt,
}
use native.Mathlib.Nat.{pow-suc}
use ap_pa.Pmm.{Pmm, word, set_frame, clear_frame, test_frame}

-- The shape of the state: 128 words for 4096 frames.
pub record IsBitmap (p : Pmm) : Type 0 where
  pub frames : p.total_frames ≡ 4096
  pub size : p.bitmap_size ≡ 128
  pub stored : length p.bitmap ≡ 128
  pub words : (i : ℕ) → word p i < 2 ^ 32

pow_pos : (j : ℕ) → 0 < 2 ^ j
pow_pos zero = omega arith
pow_pos (suc j) = omega (arith, pow-suc 2 j, pow_pos j)

pow-lt : (n j : ℕ) → j < n → 2 ^ j < 2 ^ n
pow-lt zero j h = absurd (omega arith)
pow-lt (suc n) zero h = omega (arith, pow-suc 2 n, pow_pos n)
pow-lt (suc n) (suc j) h = omega (arith, pow-suc 2 n, pow-suc 2 j, pow-lt n j (omega arith))

pub zero_iff_bit : (w j : ℕ) → w < 2 ^ 32 → (bit_and w (2 ^ j) == 0) ≡ (bit j w == 0)
zero_iff_bit w j h = rw (bit_and-pow 32 j w h) (elim (Bool-cases (bit j w == 0)) [
  | inl e ↦ let z : bit j w ≡ 0 = ground arith in rw z (ground arith)
  | inr e ↦ let o : bit j w ≡ 1 = ground (arith, bit-le-one j w) in rw o (ground (arith, pow_pos j))
])

pub test-bit :
    {p : Pmm} → IsBitmap p → (f : ℕ) → test_frame p f ≡ not (bit (f % 32) (word p (f / 32)) == 0)
unfolding test_frame
test-bit {p} b f = ap not (zero_iff_bit (word p (f / 32)) (f % 32) (b.words (f / 32)))

mask : ℕ → ℕ
mask f = 2 ^ 32 - 1 - 2 ^ (f % 32)

module _ {p : Pmm} (b : IsBitmap p) (f : ℕ) (in_range : f < 4096) where
  word-set_frame :
      (i : ℕ)
      → word (set_frame p f) i
        ≡ (if f / 32 == i then bit_or (word p (f / 32)) (2 ^ (f % 32)) else word p i)
  unfolding set_frame
  word-set_frame i =
      get_or-set p.bitmap (f / 32) i (bit_or (word p (f / 32)) (2 ^ (f % 32))) 0
        (omega (arith, b.stored))

  word-clear_frame :
      (i : ℕ)
      → word (clear_frame p f) i
        ≡ (if f / 32 == i then bit_and (word p (f / 32)) (mask f) else word p i)
  unfolding clear_frame mask
  word-clear_frame i =
      get_or-set p.bitmap (f / 32) i (bit_and (word p (f / 32)) (2 ^ 32 - 1 - 2 ^ (f % 32))) 0
        (omega (arith, b.stored))

  pub set_frame-IsBitmap : IsBitmap (set_frame p f)
  unfolding set_frame
  set_frame-IsBitmap = record {
    frames = b.frames;
    size = b.size;
    stored = length-set p.bitmap (f / 32) _ ∙ b.stored;
    words = λ i. ground (
      arith,
      word-set_frame i,
      b.words i,
      bit_or-lt 32 (word p (f / 32)) (2 ^ (f % 32)) (b.words (f / 32))
          (pow-lt 32 (f % 32) (omega arith)),
    );
  }

  pub clear_frame-IsBitmap : IsBitmap (clear_frame p f)
  unfolding clear_frame
  clear_frame-IsBitmap = record {
    frames = b.frames;
    size = b.size;
    stored = length-set p.bitmap (f / 32) _ ∙ b.stored;
    words = λ i. ground (
      arith,
      word-clear_frame i,
      b.words i,
      bit_and-lt 32 (word p (f / 32)) (mask f) (b.words (f / 32)),
    );
  }

  -- After `pmm_set_frame` that frame reads as used, and every other as before.
  pub test-set_frame :
      (g : ℕ) → test_frame (set_frame p f) g ≡ (if f == g then true else test_frame p g)
  test-set_frame g =
      rw (test-bit set_frame-IsBitmap g, test-bit b g, word-set_frame (g / 32))
        (elim (Bool-cases (f / 32 == g / 32)) [
          | inr other ↦ rw other (ground arith)
          | inl same ↦
              rw
                (
                  same,
                  bit-bit_or (g % 32) (word p (f / 32)) (2 ^ (f % 32)),
                  bit-pow (g % 32) (f % 32),
                )
                (let e : f / 32 ≡ g / 32 = ground arith in
                  rw e (ground (arith, bit-le-one (g % 32) (word p (g / 32)))))
        ])

  pub test-clear_frame :
      (g : ℕ) → test_frame (clear_frame p f) g ≡ (if f == g then false else test_frame p g)
  unfolding mask
  test-clear_frame g =
      rw (test-bit clear_frame-IsBitmap g, test-bit b g, word-clear_frame (g / 32))
        (elim (Bool-cases (f / 32 == g / 32)) [
          | inr other ↦ rw other (ground arith)
          | inl same ↦
              rw
                (
                  same,
                  bit-bit_and (g % 32) (word p (f / 32)) (mask f),
                  bit-compl 32 (g % 32) (2 ^ (f % 32)) (pow-lt 32 (f % 32) (omega arith))
                      (omega arith),
                  bit-pow (g % 32) (f % 32),
                )
                (let e : f / 32 ≡ g / 32 = ground arith in
                  rw e (ground (arith, bit-le-one (g % 32) (word p (g / 32)))))
        ])
