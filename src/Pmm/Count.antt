-- ===== src/Pmm/Count.antt =====
-- `used_frames` counts the frames whose bit is set.
use ap_pa.Base.{
  ℕ, zero, suc, ◌+◌, ◌≤◌, ◌<◌, ◌≡◌, refl, ap, Bool, true, false, inl, inr, arith, ◌==◌,
  if◌then◌else◌, Bool-cases,
}
use ap_pa.Pmm.{Pmm, set_frame, clear_frame, test_frame}
use ap_pa.Pmm.Frames.{
  IsBitmap, set_frame-IsBitmap, clear_frame-IsBitmap, test-set_frame, test-clear_frame,
}

-- How many of the frames below `n` are used.
pub count : ℕ → (ℕ → Bool) → ℕ
count zero used = 0
count (suc n) used = (if used n then 1 else 0) + count n used

pub count-le : (n : ℕ) (used : ℕ → Bool) → count n used ≤ n
unfolding count
count-le zero used = omega arith
count-le (suc n) used = ground (arith, count-le n used)

pub count_ext :
    (n : ℕ) (used used' : ℕ → Bool)
    → ((i : ℕ) → i < n → used i ≡ used' i)
    → count n used ≡ count n used'
unfolding count
count_ext zero used used' e = refl
count_ext (suc n) used used' e =
    rw (e n (omega arith), count_ext n used used' (λ i h. e i (omega arith)))

pub count_none : (n : ℕ) → count n (λ _. false) ≡ 0
unfolding count
count_none zero = refl
count_none (suc n) = omega (arith, count_none n)

-- One more frame is used.
pub count_add :
    (n f : ℕ) (used used' : ℕ → Bool)
    → f < n
    → used f ≡ false
    → ((g : ℕ) → used' g ≡ (if f == g then true else used g))
    → count n used' ≡ count n used + 1
unfolding count
count_add zero f used used' h free e = absurd (omega arith)
count_add (suc n) f used used' h free e = elim (Bool-cases (f == n)) [
  | inl here ↦
      let at : f ≡ n = ground arith in
      ground (arith, e n, count_ext n used' used (λ i lt. ground (arith, e i)), ap used at)
  | inr there ↦ ground (arith, e n, count_add n f used used' (ground arith) free e)
]

pub count_drop :
    (n f : ℕ) (used used' : ℕ → Bool)
    → f < n
    → used f ≡ true
    → ((g : ℕ) → used' g ≡ (if f == g then false else used g))
    → count n used' + 1 ≡ count n used
unfolding count
count_drop zero f used used' h full e = absurd (omega arith)
count_drop (suc n) f used used' h full e = elim (Bool-cases (f == n)) [
  | inl here ↦
      let at : f ≡ n = ground arith in
      ground (arith, e n, count_ext n used' used (λ i lt. ground (arith, e i)), ap used at)
  | inr there ↦ ground (arith, e n, count_drop n f used used' (ground arith) full e)
]

-- The invariant of the allocator.
pub record IsPmm (p : Pmm) : Type 0 where
  pub bitmap : IsBitmap p
  pub counted : p.used_frames ≡ count 4096 (test_frame p)

module _ {p : Pmm} (v : IsPmm p) (f : ℕ) (in_range : f < 4096) where
  pub set_frame-IsPmm : test_frame p f ≡ false → IsPmm (set_frame p f)
  unfolding set_frame
  set_frame-IsPmm free = record {
    bitmap = set_frame-IsBitmap v.bitmap f in_range;
    counted = omega (
      arith,
      v.counted,
      count-le 4096 (test_frame p),
      count_add 4096 f (test_frame p) (test_frame (set_frame p f)) in_range free
          (test-set_frame v.bitmap f in_range),
    );
  }

  pub clear_frame-IsPmm : test_frame p f ≡ true → IsPmm (clear_frame p f)
  unfolding clear_frame
  clear_frame-IsPmm full = record {
    bitmap = clear_frame-IsBitmap v.bitmap f in_range;
    counted = omega (
      arith,
      v.counted,
      count-le 4096 (test_frame p),
      count_drop 4096 f (test_frame p) (test_frame (clear_frame p f)) in_range full
          (test-clear_frame v.bitmap f in_range),
    );
  }
