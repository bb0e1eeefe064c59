-- ===== src/Stdio.antt =====
-- klibc/stdio.c: `utoa` and `itoa`, with the in-place `reverse`. The result is the text in `str`,
-- without its NUL; a signed argument is its 32-bit word. The digit loops take fuel: 33 rounds are
-- more than the binary digits of a word.
pub mod Digits
mod Tests
use ap_pa.Base.{
  ℕ, zero, suc, ◌+◌, ◌-◌, ◌/◌, ◌%◌, ◌^◌, Bool, true, false, List, [], ◌∷◌, ◌++◌, ◌&&◌, Option, none,
  some, ltb, leb, ◌==◌, if◌then◌else◌, length, get_or, set, sub32,
}

-- `str[start]` and `str[end]` change places.
unfoldable pub reverse_loop : ℕ → List ℕ → (start end : ℕ) → List ℕ
reverse_loop zero str start end = str
reverse_loop (suc k) str start end =
    let swapped = set (set str start (get_or str end 0)) end (get_or str start 0) in
    let rest = reverse_loop k swapped (start + 1) (end - 1) in if ltb start end then rest else str

-- With an `end` of -1, for no text, the loop does not run.
unfoldable pub reverse : List ℕ → List ℕ
unfolding reverse_loop
reverse str = if length str == 0 then str else reverse_loop (length str) str 0 (length str - 1)

unfoldable pub digit : ℕ → ℕ
digit rem = if ltb 9 rem then rem - 10 + 97 else rem + 48

-- The digits, the last one first.
unfoldable pub digits_loop : ℕ → (value base : ℕ) → List ℕ
unfolding digit
digits_loop zero value base = []
digits_loop (suc k) value base =
    let rest = digits_loop k (value / base) base in
    if value == 0 then [] else digit (value % base) ∷ rest

unfoldable pub utoa : (value base : ℕ) → List ℕ
unfolding digits_loop reverse
utoa value base = if value == 0 then 48 ∷ [] else reverse (digits_loop 33 value base)

unfoldable pub itoa : (value base : ℕ) → List ℕ
unfolding digits_loop reverse
itoa value base =
    if value == 0
    then 48 ∷ []
    else if leb (2 ^ 31) value && base == 10
    then reverse (digits_loop 33 (sub32 0 value) base ++ 45 ∷ [])
    else reverse (digits_loop 33 value base)
