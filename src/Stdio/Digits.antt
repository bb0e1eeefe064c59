-- ===== src/Stdio/Digits.antt =====
-- The digits that `utoa` writes stand for its argument.
use native.Mathlib.Nat.{pow-suc, mod-lt, mod-add-div, div-lt_iff_lt-mul, mul-le-mul_left}
use ap_pa.Base.{
  ◌⊎◌, ℕ, zero, suc, ◌+◌, ◌-◌, ◌*◌, ◌/◌, ◌%◌, ◌^◌, ◌≤◌, ◌<◌, ◌≡◌, ◌≢◌, refl, ap, sym, ◌∙◌, false,
  List, [], ◌∷◌, ltb, ◌==◌, length, length-set, get_or, set, get_or-set, ==_false, ==_iff, ==_ne,
  arith, if_true, if_false, if◌then◌else◌, Bool-cases, inl, inr,
}
use ap_pa.Stdio.{utoa, digits_loop, digit, reverse, reverse_loop}

-- The number that a digit character stands for, and the one of a text whose last digit comes first.
abbrev pub digit_value : ℕ → ℕ
digit_value c = if ltb c 58 then c - 48 else c - 87

pub number_of : (base : ℕ) → List ℕ → ℕ
number_of base [] = 0
number_of base (c ∷ text) = digit_value c + base * number_of base text

digit-value : (rem : ℕ) → rem < 36 → digit_value (digit rem) ≡ rem
unfolding digit
digit-value rem lt = ground arith

-- The loop with enough fuel.
digits_loop-number_of :
    (k value base : ℕ)
    → 2 ≤ base
    → base ≤ 36
    → value < 2 ^ k
    → number_of base (digits_loop k value base) ≡ value
unfolding digits_loop number_of
digits_loop-number_of zero value base lo hi h = omega arith
digits_loop-number_of (suc k) value base lo hi h = elim (Bool-cases (value == 0)) [
  | inl e ↦ ap (number_of base) (if_true (value == 0) _ _ e) ∙ sym ((==_iff value 0).0 e)
  | inr e ↦
      let double : 2 ^ k * 2 ≤ 2 ^ k * base = mul-le-mul_left (2 ^ k) lo in
      let small : value < 2 ^ k * base = omega (arith, pow-suc 2 k) in
      let rest =
        digits_loop-number_of k (value / base) base lo hi
          ((div-lt_iff_lt-mul {k = base} (omega arith)).1 small) in
      let rem : value % base < 36 = omega (arith, mod-lt value {m = base} (omega arith)) in
      ap (number_of base) (if_false (value == 0) _ _ e)
      ∙ ap (λ d. d + base * number_of base (digits_loop k (value / base) base))
          (digit-value (value % base) rem)
      ∙ ap (λ n. value % base + base * n) rest
      ∙ mod-add-div value base
]

-- `str` with the characters at `start` and `end` in each other's place.
abbrev exchanged : List ℕ → (start end : ℕ) → List ℕ
exchanged str start end = set (set str start (get_or str end 0)) end (get_or str start 0)

exchanged-get :
    (str : List ℕ) (start end j : ℕ)
    → start < end
    → end < length str
    → get_or (exchanged str start end) j 0 ≡ (
        if end == j
        then get_or str start 0
        else if start == j
        then get_or str end 0
        else get_or str j 0)
exchanged-get str start end j lt inside =
    let first = set str start (get_or str end 0) in
    let room : end < length first = omega (arith, length-set str start (get_or str end 0)) in
    get_or-set first end j (get_or str start 0) 0 room
    ∙ ap (λ c. if end == j then get_or str start 0 else c)
        (get_or-set str start j (get_or str end 0) 0 (omega arith))

length-exchanged : (str : List ℕ) (start end : ℕ) → length (exchanged str start end) ≡ length str
length-exchanged str start end =
    length-set (set str start (get_or str end 0)) end (get_or str start 0)
    ∙ length-set str start (get_or str end 0)

length-reverse_loop :
    (k : ℕ) (str : List ℕ) (start end : ℕ) → length (reverse_loop k str start end) ≡ length str
unfolding reverse_loop
length-reverse_loop zero str start end = refl
length-reverse_loop (suc k) str start end = elim (Bool-cases (ltb start end)) [
  | inl e ↦
      ap length (if_true (ltb start end) _ _ e)
      ∙ length-reverse_loop k (exchanged str start end) (start + 1) (end - 1)
      ∙ length-exchanged str start end
  | inr e ↦ ap length (if_false (ltb start end) _ _ e)
]

reverse_loop_outside :
    (k : ℕ) (str : List ℕ) (start end j : ℕ)
    → end < length str
    → (j < start) ⊎ (end < j)
    → get_or (reverse_loop k str start end) j 0 ≡ get_or str j 0
unfolding reverse_loop
reverse_loop_outside zero str start end j inside out = refl
reverse_loop_outside (suc k) str start end j inside out = elim (Bool-cases (ltb start end)) [
  | inl e ↦
      let lt : start < end = ground arith in
      let not_end : end ≢ j = λ q. elim out [ inl a ↦ omega arith | inr b ↦ omega arith ] in
      let not_start : start ≢ j = λ q. elim out [ inl a ↦ omega arith | inr b ↦ omega arith ] in
      let out' : (j < start + 1) ⊎ (end - 1 < j) = elim out [
        | inl a ↦ inl (omega arith)
        | inr b ↦ inr (omega arith)
      ] in
      ap (λ l. get_or l j 0) (if_true (ltb start end) _ _ e)
      ∙ reverse_loop_outside k (exchanged str start end) (start + 1) (end - 1) j
          (omega (arith, length-exchanged str start end)) out'
      ∙ exchanged-get str start end j lt inside
      ∙ if_false _ _ _ (==_false end j not_end)
      ∙ if_false _ _ _ (==_false start j not_start)
  | inr e ↦ ap (λ l. get_or l j 0) (if_false (ltb start end) _ _ e)
]

reverse_loop_inside :
    (k : ℕ) (str : List ℕ) (start end j : ℕ)
    → end < length str
    → end < start + k
    → start ≤ j
    → j ≤ end
    → get_or (reverse_loop k str start end) j 0 ≡ get_or str (start + end - j) 0
unfolding reverse_loop
reverse_loop_inside zero str start end j inside fuel lo hi = absurd (omega arith)
reverse_loop_inside (suc k) str start end j inside fuel lo hi = elim (Bool-cases (ltb start end)) [
  | inr e ↦
      let same : j ≡ start + end - j = ground arith in
      ap (λ l. get_or l j 0) (if_false (ltb start end) _ _ e) ∙ ap (λ i. get_or str i 0) same
  | inl e ↦
      let lt : start < end = ground arith in
      let room : end - 1 < length (exchanged str start end) =
        omega (arith, length-exchanged str start end) in
      ap (λ l. get_or l j 0) (if_true (ltb start end) _ _ e) ∙ elim (Bool-cases (end == j)) [
        | inl at_end ↦
            let q : end ≡ j = (==_iff end j).0 at_end in
            let there : start ≡ start + end - j = omega arith in
            reverse_loop_outside k (exchanged str start end) (start + 1) (end - 1) j room
              (inr (omega arith))
            ∙ exchanged-get str start end j lt inside
            ∙ if_true _ _ _ at_end
            ∙ ap (λ i. get_or str i 0) there
        | inr not_end ↦ elim (Bool-cases (start == j)) [
          | inl at_start ↦
              let q : start ≡ j = (==_iff start j).0 at_start in
              let there : end ≡ start + end - j = omega arith in
              reverse_loop_outside k (exchanged str start end) (start + 1) (end - 1) j room
                (inl (omega arith))
              ∙ exchanged-get str start end j lt inside
              ∙ if_false _ _ _ not_end
              ∙ if_true _ _ _ at_start
              ∙ ap (λ i. get_or str i 0) there
          | inr not_start ↦
              let n1 = ==_ne end j not_end in
              let n2 = ==_ne start j not_start in
              middle lt n1 n2 (
                reverse_loop_inside k (exchanged str start end) (start + 1) (end - 1) j room
                  (omega arith) (omega arith) (omega arith))
        ]
      ]
]
  where
    middle :
        start < end
        → end ≢ j
        → start ≢ j
        → get_or (reverse_loop k (exchanged str start end) (start + 1) (end - 1)) j 0
          ≡ get_or (exchanged str start end) (start + 1 + (end - 1) - j) 0
        → get_or (reverse_loop k (exchanged str start end) (start + 1) (end - 1)) j 0
          ≡ get_or str (start + end - j) 0
    middle lt ne nf turned =
        let i = start + end - j in
        let shifted : start + 1 + (end - 1) - j ≡ i = omega arith in
        let apart : end ≢ i = omega arith in
        let apart' : start ≢ i = omega arith in
        turned
        ∙ ap (λ i. get_or (exchanged str start end) i 0) shifted
        ∙ exchanged-get str start end i lt inside
        ∙ if_false _ _ _ (==_false end i apart)
        ∙ if_false _ _ _ (==_false start i apart')

-- `reverse` in place reverses.
pub reverse-get :
    (str : List ℕ) (j : ℕ)
    → j < length str
    → get_or (reverse str) j 0 ≡ get_or str (length str - 1 - j) 0
unfolding reverse
reverse-get str j lt =
    let some_char : (length str == 0) ≡ false = ==_false (length str) 0 (omega arith) in
    let i : 0 + (length str - 1) - j ≡ length str - 1 - j = omega arith in
    ap (λ l. get_or l j 0) (if_false (length str == 0) _ _ some_char)
    ∙ reverse_loop_inside (length str) str 0 (length str - 1) j (omega arith) (omega arith)
        (omega arith) (omega arith)
    ∙ ap (λ i. get_or str i 0) i

pub length-reverse : (str : List ℕ) → length (reverse str) ≡ length str
unfolding reverse
length-reverse str = elim (Bool-cases (length str == 0)) [
  | inl e ↦ ap length (if_true (length str == 0) _ _ e)
  | inr e ↦
      ap length (if_false (length str == 0) _ _ e)
      ∙ length-reverse_loop (length str) str 0 (length str - 1)
]

-- The number that the first `n` characters of a text stand for, read from the left.
abbrev pub read : (base : ℕ) → List ℕ → ℕ → ℕ
read base text zero = 0
read base text (suc n) = read base text n * base + digit_value (get_or text n 0)

read-number_of :
    (base : ℕ) (text digits : List ℕ)
    → ((j : ℕ) → j < length digits → get_or text j 0 ≡ get_or digits (length digits - 1 - j) 0)
    → read base text (length digits) ≡ number_of base digits
unfolding number_of
read-number_of base text [] same = refl
read-number_of base text (c ∷ digits) same =
    let n = length digits in
    let last : get_or text n 0 ≡ c =
      same n (omega arith) ∙ ap (λ i. get_or (c ∷ digits) i 0) (front n) in
    ap (λ r. r * base + digit_value (get_or text n 0))
      (read-number_of base text digits
        (λ j lt. same j (omega arith) ∙ ap (λ i. get_or (c ∷ digits) i 0) (inner n j lt)))
    ∙ ap (λ d. number_of base digits * base + digit_value d) last
    ∙ swap (number_of base digits) (digit_value c)
  where
    front : (n : ℕ) → suc n - 1 - n ≡ 0
    front n = omega arith

    inner : (n j : ℕ) → j < n → suc n - 1 - j ≡ suc (n - 1 - j)
    inner n j lt = omega arith

    swap : (n d : ℕ) → n * base + d ≡ d + base * n
    swap n d = omega arith

-- In every base from 2 to 36, the text that `utoa` writes for a 32-bit number, read from the left,
-- stands for the number.
pub utoa-read :
    (value base : ℕ)
    → 2 ≤ base
    → base ≤ 36
    → value < 2 ^ 32
    → read base (utoa value base) (length (utoa value base)) ≡ value
unfolding utoa
utoa-read value base lo hi h = elim (Bool-cases (value == 0)) [
  | inl e ↦
      ap (λ text. read base text (length text)) (if_true (value == 0) _ _ e)
      ∙ none_before
      ∙ sym ((==_iff value 0).0 e)
  | inr e ↦
      let digits = digits_loop 33 value base in
      ap (λ text. read base text (length text)) (if_false (value == 0) _ _ e)
      ∙ ap (read base (reverse digits)) (length-reverse digits)
      ∙ read-number_of base (reverse digits) digits (λ j lt. reverse-get digits j lt)
      ∙ digits_loop-number_of 33 value base lo hi (omega arith)
]
  where
    none_before : 0 * base + 0 ≡ 0
    none_before = omega arith
