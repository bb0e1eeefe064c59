-- ===== src/CString/Number.antt =====
-- `uitoa` of klibc/string.c, and that it writes what `utoa` of klibc/stdio.c writes. The result is the
-- text in `str`, without its NUL; 33 rounds are more than the binary digits of a word.
use native.Mathlib.Nat.{pow-suc, mod-add-div, mod-lt, div-lt_iff_lt-mul, mul-le-mul_left}
use ap_pa.Base.{
  ℕ, zero, suc, ◌+◌, ◌-◌, ◌*◌, ◌/◌, ◌%◌, ◌^◌, ◌≤◌, ◌<◌, ◌≡◌, ◌≢◌, refl, sym, ap, ◌∙◌, arith, List,
  [], ◌∷◌, ◌==◌, ==_iff, ==_false, if◌then◌else◌, if_true, if_false, get_or, inl, inr, Bool-cases,
  ==_ne,
}
use ap_pa.Stdio.{digit, digits_loop, reverse, utoa}

abbrev hex_digits : List ℕ
hex_digits =
    b'0' ∷ b'1' ∷ b'2' ∷ b'3' ∷ b'4' ∷ b'5' ∷ b'6' ∷ b'7' ∷ b'8' ∷ b'9' ∷ b'a' ∷ b'b' ∷ b'c' ∷ b'd'
    ∷ b'e' ∷ b'f' ∷ []

-- The `do … while (value)` loop: the digits, the last one first.
unfoldable pub uitoa_loop : ℕ → (value base : ℕ) → List ℕ
uitoa_loop zero value base = []
uitoa_loop (suc k) value base =
    let value' = value / base in
    let rest = uitoa_loop k value' base in
    get_or hex_digits (value - value' * base) 0 ∷ (if value' == 0 then [] else rest)

unfoldable pub uitoa : (value base : ℕ) → List ℕ
unfolding uitoa_loop reverse
uitoa value base = if value == 0 then b'0' ∷ [] else reverse (uitoa_loop 33 value base)

hex_digit : (r : ℕ) → r < 16 → get_or hex_digits r 0 ≡ digit r
unfolding digit
hex_digit zero h = refl
hex_digit (suc zero) h = refl
hex_digit (suc (suc zero)) h = refl
hex_digit (suc (suc (suc zero))) h = refl
hex_digit (suc (suc (suc (suc zero)))) h = refl
hex_digit (suc (suc (suc (suc (suc zero))))) h = refl
hex_digit (suc (suc (suc (suc (suc (suc zero)))))) h = refl
hex_digit (suc (suc (suc (suc (suc (suc (suc zero))))))) h = refl
hex_digit (suc (suc (suc (suc (suc (suc (suc (suc zero)))))))) h = refl
hex_digit (suc (suc (suc (suc (suc (suc (suc (suc (suc zero))))))))) h = refl
hex_digit (suc (suc (suc (suc (suc (suc (suc (suc (suc (suc zero)))))))))) h = refl
hex_digit (suc (suc (suc (suc (suc (suc (suc (suc (suc (suc (suc zero))))))))))) h = refl
hex_digit (suc (suc (suc (suc (suc (suc (suc (suc (suc (suc (suc (suc zero)))))))))))) h = refl
hex_digit (suc (suc (suc (suc (suc (suc (suc (suc (suc (suc (suc (suc (suc zero))))))))))))) h =
    refl
hex_digit (suc (suc (suc (suc (suc (suc (suc (suc (suc (suc (suc (suc (suc (suc zero))))))))))))))
      h =
    refl
hex_digit
      (suc (suc (suc (suc (suc (suc (suc (suc (suc (suc (suc (suc (suc (suc (suc zero)))))))))))))))
      h =
    refl
hex_digit
      (suc
        (suc (suc (suc (suc (suc (suc (suc (suc (suc (suc (suc (suc (suc (suc (suc r))))))))))))))))
      h =
    absurd (omega arith)

digits_loop-zero : (k value base : ℕ) → value ≡ 0 → digits_loop k value base ≡ []
unfolding digits_loop
digits_loop-zero zero value base e = refl
digits_loop-zero (suc k) value base e = if_true (value == 0) _ _ ((==_iff value 0).1 e)

uitoa_loop-digits_loop :
    (k value base : ℕ)
    → 2 ≤ base
    → base ≤ 16
    → value < 2 ^ k
    → value ≢ 0
    → uitoa_loop k value base ≡ digits_loop k value base
unfolding uitoa_loop digits_loop
uitoa_loop-digits_loop zero value base lo hi h nz = absurd (omega arith)
uitoa_loop-digits_loop (suc k) value base lo hi h nz =
    let double : 2 ^ k * 2 ≤ 2 ^ k * base = mul-le-mul_left (2 ^ k) lo in
    let bound : value < 2 ^ k * base = omega (arith, pow-suc 2 k) in
    let less : value / base < 2 ^ k = (div-lt_iff_lt-mul {k = base} (omega arith)).1 bound in
    let small : value % base < 16 = omega (arith, mod-lt value {m = base} (omega arith)) in
    let split = mod-add-div value base in
    let rem : value - value / base * base ≡ value % base =
      remainder (value / base) (value % base) split in
    let c = ap (λ r. get_or hex_digits r 0) rem ∙ hex_digit (value % base) small in
    let rest =
      tail_lem (value / base) (λ ne. uitoa_loop-digits_loop k (value / base) base lo hi less ne) in
    sym (
      if_false (value == 0) [] (digit (value % base) ∷ digits_loop k (value / base) base)
        (==_false value 0 nz)
      ∙ cc (c, rest))
  where
    remainder : (q r : ℕ) → r + base * q ≡ value → value - q * base ≡ r
    remainder q r e = let t : q * base ≡ base * q = omega arith in omega arith

    tail_lem :
        (v : ℕ)
        → (v ≢ 0 → uitoa_loop k v base ≡ digits_loop k v base)
        → (if v == 0 then [] else uitoa_loop k v base) ≡ digits_loop k v base
    tail_lem v same = elim (Bool-cases (v == 0)) [
      | inl e ↦ if_true (v == 0) _ _ e ∙ sym (digits_loop-zero k v base ((==_iff v 0).0 e))
      | inr e ↦ if_false (v == 0) _ _ e ∙ same (==_ne v 0 e)
    ]

-- In every base from 2 to 16 and for every 32-bit number, `uitoa`, which looks its digits up in a table
-- and takes them by subtraction, writes the text that `utoa` writes.
pub uitoa-utoa :
    (value base : ℕ) → 2 ≤ base → base ≤ 16 → value < 2 ^ 32 → uitoa value base ≡ utoa value base
unfolding uitoa utoa
uitoa-utoa value base lo hi h = elim (Bool-cases (value == 0)) [
  | inl e ↦ if_true (value == 0) _ _ e ∙ sym (if_true (value == 0) _ _ e)
  | inr e ↦
      if_false (value == 0) _ _ e
      ∙ ap reverse (uitoa_loop-digits_loop 33 value base lo hi (omega arith) (==_ne value 0 e))
      ∙ sym (if_false (value == 0) _ _ e)
]
