-- ===== src/Timer/Uptime.antt =====
-- The text of the uptime says how long the system is up, and fits its buffers.
use native.Mathlib.Nat.{pow-suc}
use ap_pa.Base.{
  ℕ, zero, suc, ◌/◌, ◌%◌, ◌^◌, ◌≤◌, ◌<◌, ◌≡◌, ap, arith, List, [], ◌∷◌, ◌++◌, inl, inr, true, false,
  Bool-cases, ltb, ltb→lt, ◌==◌, if_true, if_false, length, length-append,
}
use ap_pa.Stdio.{utoa, digits_loop, reverse}
use ap_pa.Stdio.Digits.{read, utoa-read, length-reverse}
use ap_pa.CString.Number.{uitoa, uitoa-utoa}
use ap_pa.Timer.{Timer, get_uptime_seconds, get_uptime_string}

digits_loop-length : (k d value : ℕ) → value < 10 ^ d → length (digits_loop k value 10) ≤ d
unfolding digits_loop
digits_loop-length zero d value h = omega arith
digits_loop-length (suc k) zero value h =
    let e : (value == 0) ≡ true = ground arith in rw e (omega arith)
digits_loop-length (suc k) (suc d) value h = elim (Bool-cases (value == 0)) [
  | inl e ↦ rw e (omega arith)
  | inr e ↦
      let rest = digits_loop-length k d (value / 10) (omega (arith, pow-suc 10 d)) in
      rw e (omega arith)
]

utoa_zero : (value : ℕ) → (value == 0) ≡ true → utoa value 10 ≡ 48 ∷ []
unfolding utoa
utoa_zero value e = if_true (value == 0) _ _ e

utoa_nonzero :
    (value : ℕ) → (value == 0) ≡ false → utoa value 10 ≡ reverse (digits_loop 33 value 10)
unfolding utoa
utoa_nonzero value e = if_false (value == 0) _ _ e

utoa-length : (value : ℕ) → value < 2 ^ 32 → length (utoa value 10) ≤ 10
utoa-length value h = elim (Bool-cases (value == 0)) [
  | inl e ↦ let same = ap length (utoa_zero value e) in omega arith
  | inr e ↦
      let same = ap length (utoa_nonzero value e) in
      omega (
        arith,
        length-reverse (digits_loop 33 value 10),
        digits_loop-length 33 10 value (omega arith),
      )
]

-- The text is the number in decimal, of at most 10 digits.
pub record Says (text : List ℕ) (n : ℕ) : Type 0 where
  pub value : read 10 text (length text) ≡ n
  pub short : length text ≤ 10

uitoa-Says : (n : ℕ) → n < 2 ^ 32 → Says (uitoa n 10) n
uitoa-Says n h =
    rw (uitoa-utoa n 10 (omega arith) (omega arith) h)
      (record { value = utoa-read n 10 (omega arith) (omega arith) h; short = utoa-length n h })

-- The three forms of the text.
pub data Shown (total : ℕ) : List ℕ → Type 0 where
  seconds : {s : List ℕ} → total < 60 → Says s total → Shown total (s ++ (b's' ∷ []))
  minutes :
      {m s : List ℕ}
      → 60 ≤ total
      → total < 3600
      → Says m (total / 60)
      → Says s (total % 60)
      → Shown total (m ++ (b'm' ∷ b' ' ∷ (s ++ (b's' ∷ []))))
  hours :
      {h m : List ℕ}
      → 3600 ≤ total
      → Says h (total / 3600)
      → Says m (total % 3600 / 60)
      → Shown total (h ++ (b'h' ∷ b' ' ∷ (m ++ (b'm' ∷ []))))

Shown-length : (total : ℕ) (text : List ℕ) → Shown total text → length text < 32
Shown-length total _ (seconds {s = s} _ a) = omega (arith, length-append s (b's' ∷ []), a.short)
Shown-length total _ (minutes {m = m} {s = s} _ _ a b) = omega (
  arith,
  length-append m (b'm' ∷ b' ' ∷ (s ++ (b's' ∷ []))),
  length-append s (b's' ∷ []),
  a.short,
  b.short,
)
Shown-length total _ (hours {h = h} {m = m} _ a b) = omega (
  arith,
  length-append h (b'h' ∷ b' ' ∷ (m ++ (b'm' ∷ []))),
  length-append m (b'm' ∷ []),
  a.short,
  b.short,
)

uptime-Shown :
    (t : Timer) → t.timer_ticks < 2 ^ 32 → Shown (t.timer_ticks / 100) (get_uptime_string t)
unfolding get_uptime_string
uptime-Shown t h =
    let total = t.timer_ticks / 100 in
    elim (Bool-cases (ltb total 60)) [
      | inl e ↦ rw e (seconds (ltb→lt total 60 e) (uitoa-Says total (omega arith)))
      | inr e ↦ elim (Bool-cases (ltb total 3600)) [
        | inl f ↦
            rw (e, f)
              (minutes (ground arith) (ltb→lt total 3600 f) (uitoa-Says (total / 60) (omega arith))
                (uitoa-Says (total % 60) (omega arith)))
        | inr f ↦
            rw (e, f)
              (hours (ground arith) (uitoa-Says (total / 3600) (omega arith))
                (uitoa-Says (total % 3600 / 60) (omega arith)))
      ]
    ]

-- The text of the uptime holds the seconds below a minute, the minutes and the rest in seconds below an
-- hour, and the hours and the rest in whole minutes above, each as a decimal number of at most 10
-- digits; with its NUL it fits the 32 bytes that the caller must give.
pub get_uptime_string-Shown :
    (t : Timer)
    → t.timer_ticks < 2 ^ 32
    → Shown (get_uptime_seconds t) (get_uptime_string t) × (length (get_uptime_string t) < 32)
unfolding get_uptime_seconds
get_uptime_string-Shown t h =
    (uptime-Shown t h, Shown-length (t.timer_ticks / 100) (get_uptime_string t) (uptime-Shown t h))
