-- ===== src/UserStdio.antt =====
-- libc/stdio.c: the formatter `vsnprintf` of the user library. `buf` is the memory from the pointer
-- on, `fmt` the format from the current character on, with its NUL. `fault` is an access outside an
-- object, a missing argument or an overflow of an `int`; `no_fuel` cannot be returned
-- (UserStdio/Terminates). The signed argument of `%d` is its 32-bit word. What the wrappers hand to
-- `sys_write` is returned.
pub mod Emit
pub mod Truncate
pub mod Terminates
mod Tests
use ap_pa.Base.{
  ℕ, zero, suc, ◌+◌, ◌-◌, ◌*◌, ◌/◌, ◌%◌, ◌^◌, Bool, true, false, not, ◌||◌, ◌&&◌, List, [], ◌∷◌,
  ◌++◌, map, Option, none, some, ltb, leb, ◌==◌, if◌then◌else◌, length, set, take, replicate, add32,
  sub32,
}
use ap_pa.CString.{strlen}
use ap_pa.Stdio.{digits_loop, reverse}

pub data Outcome {ℓ} (A : Type ℓ) : Type ℓ where
  done : A → Outcome A
  fault : Outcome A
  no_fuel : Outcome A

infixl 5 ◌>>=◌
abbrev pub ◌>>=◌ {ℓ κ} : {A : Type ℓ} {B : Type κ} → Outcome A → (A → Outcome B) → Outcome B
done a >>= f = f a
fault >>= f = fault
no_fuel >>= f = no_fuel

infixl 5 ◌>>◌
abbrev pub ◌>>◌ {ℓ} : {B : Type ℓ} → Outcome (Unit {0}) → Outcome B → Outcome B
m >> k = m >>= λ _. k

abbrev pub or_fault {ℓ} : {A : Type ℓ} → Option A → Outcome A
or_fault none = fault
or_fault (some a) = done a

-- What `va_arg` takes: a 32-bit number, or a string with its NUL, which may be the null pointer.
pub data Arg : Type 0 where
  number : ℕ → Arg
  string : Option (List ℕ) → Arg

abbrev pub Args : Type 0
Args = List Arg

-- The same code as in klibc/stdio.c.
pub libc_utoa : (value base : ℕ) → List ℕ
unfolding digits_loop reverse
libc_utoa value base = if value == 0 then 48 ∷ [] else reverse (digits_loop 33 value base)

-- The buffer, and the position, which counts on when the buffer is full.
pub record Out : Type 0 where
  pub buf : List ℕ
  pub pos : ℕ

pub out_char : (size : ℕ) → Out → ℕ → Outcome Out
out_char size o c =
    let moved = add32 o.pos 1 in
    if ltb o.pos (sub32 size 1)
    then (if ltb o.pos (length o.buf)
        then done (record { buf = set o.buf o.pos c; pos = moved })
        else fault)
    else done (record o { pos = moved })

-- The loops that call `out_char` for the characters of a text in turn.
pub out_all : (size : ℕ) → Out → List ℕ → Outcome Out
unfolding out_char
out_all size o [] = done o
out_all size o (c ∷ text) = do o' ← out_char size o c; out_all size o' text

abbrev pub dash : ℕ
dash = 45

abbrev pub percent : ℕ
percent = 37

abbrev pub space : ℕ
space = 32

abbrev pub digit_zero : ℕ
digit_zero = 48

pub record Flags : Type 0 where
  pub left : Bool
  pub zeros : Bool

-- The flags before "left-justify overrides zero-pad", and the rest of the format.
pub parse_flags : List ℕ → Flags → Outcome (Flags × List ℕ)
parse_flags [] f = fault
parse_flags (c ∷ fmt) f =
    let rest =
      parse_flags fmt (record { left = f.left || c == dash; zeros = f.zeros || c == digit_zero }) in
    if c == dash || c == digit_zero then rest else done (f, c ∷ fmt)

pub is_digit : ℕ → Bool
is_digit c = leb digit_zero c && leb c 57

-- `while (isdigit) n = n * 10 + …`; an `int` that overflows is a fault.
pub parse_number : List ℕ → ℕ → Outcome (ℕ × List ℕ)
unfolding is_digit
parse_number [] n = fault
parse_number (c ∷ fmt) n =
    let next = n * 10 + (c - digit_zero) in
    let rest = parse_number fmt next in
    if is_digit c then (if ltb next (2 ^ 31) then rest else fault) else done (n, c ∷ fmt)

-- `has_prec` and `prec`: `none` without a precision.
pub parse_precision : List ℕ → Outcome (Option ℕ × List ℕ)
unfolding parse_number
parse_precision [] = fault
parse_precision (c ∷ fmt) =
    if c == 46
    then (do (prec, rest) ← parse_number fmt 0; done (some prec, rest))
    else done (none, c ∷ fmt)

pub parse_length : List ℕ → Outcome (List ℕ)
parse_length [] = fault
parse_length (c ∷ fmt) = if c == 108 then done fmt else done (c ∷ fmt)

-- `conv` up to `conv_len`, with `is_negative` and `is_number`.
pub record Conv : Type 0 where
  pub text : List ℕ
  pub is_negative : Bool
  pub is_number : Bool

-- A field to be padded, or characters to be emitted as they are.
pub data Spec : Type 0 where
  field : Conv → Spec
  literal : List ℕ → Spec

pub upper : ℕ → ℕ
upper c = if leb 97 c && leb c 102 then c - 32 else c

-- The conversions that take a number, but for the smallest `int` in `%d`.
pub convert_number : (d val : ℕ) → Conv
unfolding libc_utoa upper
convert_number d val =
    let unsigned = λ (base : ℕ).
      let c : Conv = record { text = libc_utoa val base; is_negative = false; is_number = true } in
      c in
    if d == 100 || d == 105
    then (if leb (2 ^ 31) val
        then record { text = libc_utoa (sub32 0 val) 10; is_negative = true; is_number = true }
        else unsigned 10)
    else if d == 117
    then unsigned 10
    else if d == 120
    then unsigned 16
    else if d == 88
    then record { text = map upper (libc_utoa val 16); is_negative = false; is_number = true }
    else if d == 111
    then unsigned 8
    else if d == 99
    then record { text = val % 256 ∷ []; is_negative = false; is_number = false }
    else record { text = 48 ∷ 120 ∷ libc_utoa val 16; is_negative = false; is_number = false }

-- `%s`: the precision cuts the string off.
pub convert_string : Option ℕ → Option (List ℕ) → Outcome Conv
unfolding strlen
convert_string prec str =
    let chars = elim str as (λ o. List ℕ) [
      | some s ↦ s
      | none ↦ 40 ∷ 110 ∷ 117 ∷ 108 ∷ 108 ∷ 41 ∷ 0 ∷ []
    ] in
    do
      len ← or_fault (strlen chars)
      let len' = elim prec as (λ o. ℕ) [ some p ↦ if ltb p len then p else len | none ↦ len ]
      done (record { text = take len' chars; is_negative = false; is_number = false })

-- Whether the conversion `d` takes a number.
pub takes_number : ℕ → Bool
takes_number d =
    d == 100 || d == 105 || d == 117 || d == 120 || d == 88 || d == 111 || d == 99 || d == 112

-- The negation of the smallest `int` overflows.
abbrev pub overflows : (d val : ℕ) → Bool
overflows d val = (d == 100 || d == 105) && val == 2 ^ 31

pub convert_arg : (d : ℕ) → Option ℕ → Arg → Outcome Conv
unfolding takes_number convert_number convert_string
convert_arg d prec (Arg.number val) =
    if takes_number d && not (overflows d val) then done (convert_number d val) else fault
convert_arg d prec (Arg.string str) = if takes_number d then fault else convert_string prec str

pub take_arg : Args → Outcome (Arg × Args)
take_arg [] = fault
take_arg (a ∷ args) = done (a, args)

-- The `switch` on the specifier.
pub convert : (d : ℕ) → Option ℕ → Args → Outcome (Spec × Args)
unfolding convert_arg take_arg
convert d prec args =
    if takes_number d || d == 115
    then (do (a, rest) ← take_arg args; conv ← convert_arg d prec a; done (Spec.field conv, rest))
    else if d == percent
    then done (Spec.literal (percent ∷ []), args)
    else done (Spec.literal (percent ∷ d ∷ []), args)

-- The zeros that the precision asks of a number.
pub zero_prefix : Option ℕ → Conv → ℕ
zero_prefix none c = 0
zero_prefix (some prec) c = if c.is_number then prec - length c.text else 0

-- An `int` that is too large is a fault.
abbrev pub guard_int : ℕ → Outcome (Unit {0})
guard_int n = if ltb n (2 ^ 31) then done tt else fault

-- Left padding, sign, zero padding, precision zeros, payload, right padding.
pub emit_field : (size : ℕ) → Flags → (width : ℕ) → Option ℕ → Conv → Out → Outcome Out
unfolding zero_prefix out_all
emit_field size f width prec c o =
    let zeros = zero_prefix prec c in
    let flag_zero = f.zeros && not f.left && zeros == 0 in
    let sign = if c.is_negative then 1 else 0 in
    let field_len = length c.text + zeros + sign in
    let pad = width - field_len in
    do
      guard_int field_len
      o₁ ← out_all size o (if f.left || flag_zero then [] else replicate pad space)
      o₂ ← out_all size o₁ (replicate sign dash)
      o₃ ← out_all size o₂ (if flag_zero then replicate pad digit_zero else [])
      o₄ ← out_all size o₃ (replicate zeros digit_zero)
      o₅ ← out_all size o₄ c.text
      out_all size o₅ (if f.left then replicate pad space else [])

pub emit : (size : ℕ) → Flags → (width : ℕ) → Option ℕ → Spec → Out → Outcome Out
unfolding emit_field
emit size f width prec (Spec.field c) o = emit_field size f width prec c o
emit size f width prec (Spec.literal text) o = out_all size o text

-- What stands behind the `%`.
pub record Directive : Type 0 where
  pub flags : Flags
  pub width : ℕ
  pub prec : Option ℕ
  pub spec : Spec
  pub args : Args
  pub rest : List ℕ

pub parse_specifier : List ℕ → Flags → (width : ℕ) → Option ℕ → Args → Outcome Directive
unfolding convert
parse_specifier [] flags width prec args = fault
parse_specifier (d ∷ rest) flags width prec args = do
  (spec, args') ← convert d prec args
  done
      (record { flags = flags; width = width; prec = prec; spec = spec; args = args'; rest = rest })

pub parse_directive : List ℕ → Args → Outcome Directive
unfolding parse_flags parse_number parse_precision parse_length parse_specifier
parse_directive fmt args = do
  (flags, fmt₁) ← parse_flags fmt (record { left = false; zeros = false })
  (width, fmt₂) ← parse_number fmt₁ 0
  (prec, fmt₃) ← parse_precision fmt₂
  fmt₄ ← parse_length fmt₃
  parse_specifier fmt₄ flags width prec args

-- The loop over the format. A `%` before the NUL ends it.
pub format_loop : ℕ → (size : ℕ) → List ℕ → Args → Out → Outcome Out
unfolding out_char parse_directive emit
format_loop zero size fmt args o = no_fuel
format_loop (suc k) size [] args o = fault
format_loop (suc k) size (c ∷ fmt) args o =
    let plain = (do o' ← out_char size o c; format_loop k size fmt args o') in
    let directive = (do
      d ← parse_directive fmt args
      o' ← emit size d.flags d.width d.prec d.spec o
      format_loop k size d.rest d.args o') in
    if c == 0
    then done o
    else if not (c == percent)
    then plain
    else elim fmt as (λ l. Outcome Out) [
      | [] ↦ fault
      | n ∷ r ↦ if n == 0 then done o else directive
    ]

-- The NUL at the end.
pub terminate : (size : ℕ) → Out → Outcome (List ℕ × ℕ)
terminate size o =
    let last = if ltb o.pos size then o.pos else size - 1 in
    if ltb 0 size
    then (if ltb last (length o.buf) then done (set o.buf last 0, o.pos) else fault)
    else done (o.buf, o.pos)

-- The buffer and the number that is returned.
pub vsnprintf : (buf : List ℕ) (size : ℕ) (fmt : List ℕ) → Args → Outcome (List ℕ × ℕ)
unfolding format_loop terminate
vsnprintf buf size fmt args = do
  o ← format_loop (suc (length fmt)) size fmt args (record { buf = buf; pos = 0 })
  terminate size o

-- `snprintf` is `vsnprintf` on its arguments; `sprintf` and `vsprintf` pass the size (size_t)-1.
pub vsprintf : (buf fmt : List ℕ) → Args → Outcome (List ℕ × ℕ)
unfolding vsnprintf
vsprintf buf fmt args = vsnprintf buf (2 ^ 32 - 1) fmt args

abbrev pub printf_bufsz : ℕ
printf_bufsz = 256

-- What is written, and the number that is returned; `buf` is the content of the local array.
pub vprintf : (buf fmt : List ℕ) → Args → Outcome (List ℕ × ℕ)
unfolding vsnprintf
vprintf buf fmt args = do
  (buf', n) ← vsnprintf buf printf_bufsz fmt args
  let len = if ltb n printf_bufsz then n else printf_bufsz - 1
  done ((if ltb 0 n && ltb n (2 ^ 31) then take len buf' else []), n)

-- `hex[val & 0xF]`, from the last digit on.
hex_loop : ℕ → (val : ℕ) → List ℕ → List ℕ
hex_loop zero val text = text
hex_loop (suc k) val text =
    hex_loop k (val / 16) ((if ltb (val % 16) 10 then val % 16 + 48 else val % 16 + 87) ∷ text)

pub print_hex : ℕ → List ℕ
unfolding hex_loop
print_hex val = 48 ∷ 120 ∷ hex_loop 8 val []
