-- ===== src/Klog/Plain.antt =====
-- `klog` with a format that has no specifier.
use mathlib.Core.List.{append_assoc, append-nil}
use ap_pa.Base.{
  ℕ, ◌+◌, ◌-◌, ◌^◌, ◌≤◌, ◌<◌, ◌≡◌, ◌≢◌, refl, ap, sym, ◌∙◌, false, not, ◌||◌, ◌&&◌, List, [], ◌∷◌,
  ◌++◌, Option, none, some, ltb, ◌==◌, length, length-append, ==_false, arith, if_false,
}
use ap_pa.Klog.{Klog, Entry, Level, Arg, klog, format_loop, log_message}
use ap_pa.Klog.Ring.{IsLog, entry_of, log_message-IsLog}
use ap_pa.CString.Compare.{IsText}

-- No character is a NUL or a percent sign.
abbrev pub IsPlain : List ℕ → Type 0
IsPlain [] = Unit
IsPlain (c ∷ text) = (c ≢ 0) × (c ≢ 37) × IsPlain text

IsPlain-IsText : (text : List ℕ) → IsPlain text → IsText text
IsPlain-IsText [] p = tt
IsPlain-IsText (c ∷ text) p = (p.0, IsPlain-IsText text p.2)

format_loop-end :
    (r : List ℕ) (args : List Arg) (temp : List ℕ) → format_loop (0 ∷ r) args temp ≡ some temp
unfolding format_loop
format_loop-end [] args temp = refl
format_loop-end (d ∷ r) args temp = refl

format_loop-step :
    (c d : ℕ) (format : List ℕ) (args : List Arg) (temp : List ℕ)
    → c ≢ 0
    → c ≢ 37
    → length temp < 127
    → format_loop (c ∷ d ∷ format) args temp ≡ format_loop (d ∷ format) args (temp ++ c ∷ [])
unfolding format_loop
format_loop-step c d format args temp nonzero plain room =
    let on : (c == 0 || not (ltb (length temp) 127)) ≡ false =
      ground (arith, ==_false c 0 nonzero) in
    let char : (c == 37 && not (d == 0)) ≡ false =
      ap (λ b. b && not (d == 0)) (==_false c 37 plain) in
    if_false _ _ _ on ∙ if_false _ _ _ char

format_loop-plain :
    (text r : List ℕ) (args : List Arg) (temp : List ℕ)
    → IsPlain text
    → length temp + length text ≤ 127
    → format_loop (text ++ 0 ∷ r) args temp ≡ some (temp ++ text)
format_loop-plain [] r args temp p h = format_loop-end r args temp ∙ ap some (sym (append-nil temp))
format_loop-plain (c ∷ []) r args temp p h =
    format_loop-step c 0 r args temp p.0 p.1 (omega arith) ∙ format_loop-end r args (temp ++ c ∷ [])
format_loop-plain (c ∷ d ∷ text) r args temp p h =
    let room : length (temp ++ c ∷ []) + length (d ∷ text) ≤ 127 =
      omega (arith, length-append temp (c ∷ [])) in
    format_loop-step c d (text ++ 0 ∷ r) args temp p.0 p.1 (omega arith)
    ∙ format_loop-plain (d ∷ text) r args (temp ++ c ∷ []) p.2 room
    ∙ ap some (append_assoc temp (c ∷ []) (d ∷ text))

-- On a log of the messages `hist`, fewer than 2 ^ 32 - 1, `klog` with a format of at most 127
-- characters, none of them a percent sign, returns with the log of that text in front of `hist`.
pub klog-IsLog :
    (s : Klog) (level : Level) (text r : List ℕ) (args : List Arg) (hist : List Entry)
    → IsLog s hist
    → IsPlain text
    → length text < 128
    → length hist < 2 ^ 32 - 1
    → (s' : Klog) × (klog s level (text ++ 0 ∷ r) args ≡ some s')
      × IsLog s' (entry_of s level text ∷ hist)
unfolding klog
klog-IsLog s level text r args hist v p h few =
    let formatted = format_loop-plain text r args [] p (omega arith) in
    let (s', stored, v') = log_message-IsLog s level text hist v (IsPlain-IsText text p) h few in
    (
      s',
      ap (λ o. elim o as (λ o. Option Klog) [ none ↦ none | some temp ↦ log_message s level temp ])
            formatted
          ∙ stored,
      v',
    )
