-- ===== src/UserStdio/Tests.antt =====
-- Runs of `vsnprintf`, and the theorem applied to one.
use ap_pa.Base.{ℕ, ◌≡◌, ◌≢◌, refl, List, [], ◌∷◌, some, arith}
use ap_pa.UserStdio.{done, no_fuel, Arg, vsnprintf, vsprintf, vprintf, print_hex}
use ap_pa.UserStdio.Terminates.{vsnprintf_terminates}
use ap_pa.UserStdio.Truncate.{format_text, vsnprintf-ended}

-- `[%-4d|%05x]`
abbrev mixed : List ℕ
mixed = 91 ∷ 37 ∷ 45 ∷ 52 ∷ 100 ∷ 124 ∷ 37 ∷ 48 ∷ 53 ∷ 120 ∷ 93 ∷ 0 ∷ []

abbrev numbers : List Arg
numbers = Arg.number 4294967289 ∷ Arg.number 255 ∷ []

-- `[-7  |000ff]`
abbrev expected : List ℕ
expected = 91 ∷ 45 ∷ 55 ∷ 32 ∷ 32 ∷ 124 ∷ 48 ∷ 48 ∷ 48 ∷ 102 ∷ 102 ∷ 93 ∷ []

described : format_text 13 mixed numbers ≡ done expected
unfolding format_text
described = refl

-- A buffer of five bytes takes four characters and the NUL.
vsnprintf-ended_example :
    vsnprintf (9 ∷ 9 ∷ 9 ∷ 9 ∷ 9 ∷ 9 ∷ []) 5 mixed numbers
    ≡ done (91 ∷ 45 ∷ 55 ∷ 32 ∷ 0 ∷ 9 ∷ [], 12)
vsnprintf-ended_example =
    vsnprintf-ended (9 ∷ 9 ∷ 9 ∷ 9 ∷ 9 ∷ 9 ∷ []) 5 mixed numbers expected (omega arith)
      (omega arith) (omega arith) described (omega arith)

-- A size of 0 does not keep `out_char` from writing: the limit `size - 1` wraps.
zero_size : vsnprintf (9 ∷ []) 0 (65 ∷ 0 ∷ []) [] ≡ done (65 ∷ [], 1)
unfolding vsnprintf
zero_size = refl

-- `%s` with a precision, `%c` and a literal percent sign; and the other entry points.
strings :
    vsprintf
      (9 ∷ 9 ∷ 9 ∷ 9 ∷ 9 ∷ [])
      (37 ∷ 46 ∷ 50 ∷ 115 ∷ 37 ∷ 99 ∷ 37 ∷ 37 ∷ 0 ∷ [])
      (Arg.string (some (97 ∷ 98 ∷ 99 ∷ 0 ∷ [])) ∷ Arg.number 33 ∷ [])
    ≡ done (97 ∷ 98 ∷ 33 ∷ 37 ∷ 0 ∷ [], 4)
unfolding vsprintf
strings = refl

shown :
    (vprintf (9 ∷ 9 ∷ []) (65 ∷ 0 ∷ []) [] ≡ done (65 ∷ [], 1))
    × (print_hex 31 ≡ 48 ∷ 120 ∷ 48 ∷ 48 ∷ 48 ∷ 48 ∷ 48 ∷ 48 ∷ 49 ∷ 102 ∷ [])
unfolding vprintf print_hex
shown = (refl, refl)

vsnprintf_terminates_example : vsnprintf [] 1 (65 ∷ 0 ∷ []) [] ≢ no_fuel
vsnprintf_terminates_example = vsnprintf_terminates [] 1 (65 ∷ 0 ∷ []) []

-- `%.3d` and `%o`.
digits :
    (vsnprintf (9 ∷ 9 ∷ 9 ∷ 9 ∷ []) 4 (37 ∷ 46 ∷ 51 ∷ 100 ∷ 0 ∷ []) (Arg.number 7 ∷ [])
      ≡ done (48 ∷ 48 ∷ 55 ∷ 0 ∷ [], 3))
    × (vsnprintf (9 ∷ 9 ∷ 9 ∷ []) 3 (37 ∷ 111 ∷ 0 ∷ []) (Arg.number 8 ∷ [])
        ≡ done (49 ∷ 48 ∷ 0 ∷ [], 2))
unfolding vsnprintf
digits = (refl, refl)
