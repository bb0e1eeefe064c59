-- ===== src/Pmm/Scan.antt =====
-- The scans: `pmm_first_free_frame` finds the lowest free frame, and the scan of `alloc_pages` the
-- first run of free frames that is long enough.
use ap_pa.Base.{
  ℕ, zero, suc, ◌+◌, ◌-◌, ◌*◌, ◌/◌, ◌%◌, ◌^◌, ◌≤◌, ◌<◌, ◌≡◌, ◌≢◌, refl, true, false, not, ◌⊎◌, inl,
  inr, Option, none, some, arith, ◌==◌, if◌then◌else◌, Bool-cases, set, bit_and, bit, zero_bit,
  bit-ones, bit-le-one, range_first, range_last,
}
use native.Mathlib.Decide.{dec_lt}
use ap_pa.Pmm.{Pmm, word, test_frame, bit_loop, word_loop, first_free_frame, run_loop}
use ap_pa.Pmm.Frames.{IsBitmap, test-bit, zero_iff_bit}

-- The frames from `lo` up to `hi` are used.
abbrev pub AllUsed : Pmm → ℕ → ℕ → Type 0
AllUsed p lo hi = (g : ℕ) → lo ≤ g → g < hi → test_frame p g ≡ true

abbrev pub AllFree : Pmm → ℕ → ℕ → Type 0
AllFree p lo hi = (g : ℕ) → lo ≤ g → g < hi → test_frame p g ≡ false

pub record IsFirstFree (p : Pmm) (lo r : ℕ) : Type 0 where
  pub ge : lo ≤ r
  pub le : r ≤ 4096
  pub before : AllUsed p lo r
  pub ends : (r ≡ 4096) ⊎ (test_frame p r ≡ false)

data Bits (w j hi : ℕ) : Option ℕ → Type 0 where
  all_ones : ((i : ℕ) → j ≤ i → i < hi → bit i w ≡ 1) → Bits w j hi none
  first_zero :
      (r : ℕ)
      → j ≤ r
      → r < hi
      → bit r w ≡ 0
      → ((i : ℕ) → j ≤ i → i < r → bit i w ≡ 1)
      → Bits w j hi (some r)

bit_loop-Bits : (k w j hi : ℕ) → w < 2 ^ 32 → j + k ≡ hi → Bits w j hi (bit_loop k w j)
unfolding bit_loop
bit_loop-Bits zero w j hi h e = all_ones (λ i p q. absurd (omega arith))
bit_loop-Bits (suc k) w j hi h e = elim (Bool-cases (bit_and w (2 ^ j) == 0)) [
  | inl clear ↦ rw clear (
      first_zero j (omega arith) (omega arith) (ground (arith, zero_iff_bit w j h))
        (λ i p q. absurd (omega arith)))
  | inr set ↦ rw set (
      go (bit_loop k w (j + 1)) (ground (arith, zero_iff_bit w j h, bit-le-one j w))
        (bit_loop-Bits k w (j + 1) hi h (omega arith)))
]
  where
    go : (o : Option ℕ) → bit j w ≡ 1 → Bits w (j + 1) hi o → Bits w j hi o
    go o here (all_ones more) = all_ones (range_first (λ i. bit i w ≡ 1) j hi here more)
    go o here (first_zero r p q z more) =
        first_zero r (omega arith) q z (range_first (λ i. bit i w ≡ 1) j r here more)

module _ {p : Pmm} (b : IsBitmap p) where
  -- The bits of word `i` are the frames from `32 * i` on.
  test-word :
      (g i : ℕ)
      → 32 * i ≤ g
      → g < 32 * i + 32
      → test_frame p g ≡ not (bit (g - 32 * i) (word p i) == 0)
  test-word g i lo hi =
      let q : g / 32 ≡ i = omega arith in
      let r : g % 32 ≡ g - 32 * i = omega arith in rw (test-bit b g, q, r) refl

  full_word : (i : ℕ) → ((j : ℕ) → j < 32 → bit j (word p i) ≡ 1) → AllUsed p (32 * i) (32 * i + 32)
  full_word i ones g lo hi = rw (test-word g i lo hi, ones (g - 32 * i) (omega arith)) refl

  -- A word that is not all ones has its first zero bit where the inner loop finds it.
  free_word :
      (i : ℕ) (o : Option ℕ)
      → word p i ≢ 0xFFFFFFFF
      → Bits (word p i) 0 32 o
      → (j : ℕ) × (o ≡ some j)
        × (j < 32)
        × (test_frame p (i * 32 + j) ≡ false)
        × AllUsed p (32 * i) (i * 32 + j)
  free_word i o ne (all_ones ones) =
      let (j, lt, e) = zero_bit 32 (word p i) (b.words i) ne in
      absurd (omega (arith, ones j (omega arith) lt))
  free_word i o ne (first_zero j p q z ones) = (
    j,
    refl,
    q,
    (let e : i * 32 + j - 32 * i ≡ j = omega arith in
        rw (test-word (i * 32 + j) i (omega arith) (omega arith), e, z) refl),
    λ g lo hi.
        rw (test-word g i lo (omega arith), ones (g - 32 * i) (omega arith) (omega arith)) refl,
  )

  AllUsed-append : (lo mid hi : ℕ) → AllUsed p lo mid → AllUsed p mid hi → AllUsed p lo hi
  AllUsed-append lo mid hi u v g s t = elim (dec_lt g mid) [
    | yes below ↦ u g s below
    | no above ↦ v g (omega arith) t
  ]

  word_loop-IsFirstFree : (k i : ℕ) → i + k ≡ 128 → IsFirstFree p (32 * i) (word_loop k p i)
  unfolding word_loop
  word_loop-IsFirstFree zero i e = record {
    ge = omega arith;
    le = omega arith;
    before = λ g s t. absurd (omega arith);
    ends = inl refl;
  }
  word_loop-IsFirstFree (suc k) i e = elim (Bool-cases (word p i == 0xFFFFFFFF)) [
    | inl full ↦
        let w : word p i ≡ 2 ^ 32 - 1 = ground arith in
        let next = word_loop-IsFirstFree k (i + 1) (omega arith) in
        rw full (record {
          ge = omega (arith, next.ge);
          le = next.le;
          before =
              AllUsed-append (32 * i) (32 * (i + 1)) _
                (let u = full_word i (λ j lt. rw w (bit-ones 32 j lt)) in
                  λ g s t. u g s (omega arith))
                next.before;
          ends = next.ends;
        })
    | inr other ↦
        let (j, found, lt, free, used) =
          free_word i (bit_loop 32 (word p i) 0) (ground arith)
            (bit_loop-Bits 32 (word p i) 0 32 (b.words i) refl) in
        rw (other, found)
          (record { ge = omega arith; le = omega arith; before = used; ends = inr free })
  ]

  -- `pmm_first_free_frame` returns the lowest free frame, and 4096 if there is none.
  pub first_free_frame-IsFirstFree : IsFirstFree p 0 (first_free_frame p)
  unfolding first_free_frame
  first_free_frame-IsFirstFree = word_loop-IsFirstFree p.bitmap_size 0 (omega (arith, b.size))

-- What the scan for `count` consecutive free frames returns.
pub data Run (p : Pmm) (count : ℕ) : Option ℕ → Type 0 where
  no_run : ((s : ℕ) → s + count ≤ 4096 → AllFree p s (s + count) → ⊥) → Run p count none
  first_run :
      (s : ℕ)
      → s + count ≤ 4096
      → AllFree p s (s + count)
      → ((t : ℕ) → t < s → AllFree p t (t + count) → ⊥)
      → Run p count (some s)

module _ (p : Pmm) (count : ℕ) where
  -- `base` is where the current run of free frames begins; no long enough run begins before it.
  run_loop-Run :
      (k frame start consecutive base : ℕ)
      → frame + k ≡ 4096
      → base + consecutive ≡ frame
      → consecutive < count
      → (if consecutive == 0 then frame else start) ≡ base
      → AllFree p base frame
      → ((t : ℕ) → t < base → AllFree p t (t + count) → ⊥)
      → Run p count (run_loop k p count frame start consecutive)
  unfolding run_loop
  run_loop-Run zero frame start c base e width short at free none_before =
      no_run (λ s inside run. none_before s (omega arith) run)
  run_loop-Run (suc k) frame start c base e width short at free none_before =
      elim (Bool-cases (test_frame p frame)) [
        | inl used ↦ rw used (
            run_loop-Run k (frame + 1) start 0 (frame + 1) (omega arith) (omega arith) (omega arith)
              refl (λ g lo hi. absurd (omega arith))
              (λ t before run. elim (dec_lt t base) [
                | yes below ↦ none_before t below run
                | no above ↦ cc (used, run frame (omega arith) (omega arith))
              ]))
        | inr unused ↦
            let free' = range_last (λ g. test_frame p g ≡ false) base frame unused free in
            rw (unused, at)
              (elim (Bool-cases (c + 1 == count)) [
                | inl enough ↦
                    let long : base + count ≡ frame + 1 = ground arith in
                    rw enough (first_run base (omega arith) (rw long free') none_before)
                | inr more ↦ rw more (
                    run_loop-Run k (frame + 1) base (c + 1) base (omega arith) (omega arith)
                      (ground arith) (ground arith) free' none_before)
              ])
      ]

  pub run_loop-first : IsBitmap p → 0 < count → Run p count (run_loop p.total_frames p count 0 0 0)
  run_loop-first b pos =
      run_loop-Run p.total_frames 0 0 0 0 (omega (arith, b.frames)) refl pos refl
        (λ g lo hi. absurd (omega arith)) (λ t before run. absurd (omega arith))
