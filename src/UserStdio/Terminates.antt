-- ===== src/UserStdio/Terminates.antt =====
-- The fuel of `vsnprintf` suffices: every directive takes a character of the format.
use ap_pa.Base.{
  ◌&&◌, ℕ, zero, suc, ◌+◌, ◌-◌, ◌*◌, ◌^◌, ◌≤◌, ◌<◌, ◌≢◌, Bool, true, false, not, ◌||◌, List, [],
  ◌∷◌, Option, none, some, ltb, ◌==◌, if◌then◌else◌, length, arith, sub32, Option-cases, Bool-cases,
  inl, inr,
}
use ap_pa.UserStdio.{
  overflows, Outcome, done, fault, no_fuel, ◌>>=◌, guard_int, or_fault, Out, Flags, Spec, Args, Arg,
  Directive, out_char, out_all, emit, parse_flags, parse_number, parse_precision, parse_length,
  parse_specifier, parse_directive, is_digit, convert, convert_arg, convert_string, take_arg,
  takes_number, format_loop, terminate, vsnprintf, percent, zero_prefix, dash, digit_zero,
}
use ap_pa.CString.{strlen}
use ap_pa.UserStdio.Emit.{emission, field_text, emit-emission}

-- The outcome is not the end of the fuel, and a result has the property.
abbrev pub Ends {ℓ} : {A : Type ℓ} → (A → Type 0) → Outcome A → Type 0
Ends P (done a) = P a
Ends P fault = Unit
Ends P no_fuel = ⊥

Ends-bind {ℓ κ} :
    {A : Type ℓ} {B : Type κ} (P : A → Type 0) (Q : B → Type 0) (m : Outcome A) (f : A → Outcome B)
    → Ends P m
    → ((a : A) → P a → Ends Q (f a))
    → Ends Q (m >>= f)
Ends-bind P Q (done a) f u v = v a u
Ends-bind P Q fault f u v = tt
Ends-bind P Q no_fuel f u v = absurd u

Ends-if {ℓ} :
    {A : Type ℓ} (P : A → Type 0) (b : Bool) (x y : Outcome A)
    → Ends P x
    → Ends P y
    → Ends P (if b then x else y)
Ends-if P true x y u v = u
Ends-if P false x y u v = v

abbrev Any {ℓ} : {A : Type ℓ} → A → Type 0
Any a = Unit

-- The rest of a format of `n` characters.
abbrev Rest {ℓ} : {A : Type ℓ} → ℕ → A × List ℕ → Type 0
Rest n r = length r.1 ≤ n

Ends-weaken {ℓ} :
    {A : Type ℓ} (n : ℕ) (m : Outcome (A × List ℕ)) → Ends (Rest n) m → Ends (Rest (suc n)) m
Ends-weaken n (done (a, r)) u = omega arith
Ends-weaken n fault u = tt
Ends-weaken n no_fuel u = u

parse_flags-Ends : (fmt : List ℕ) (f : Flags) → Ends (Rest (length fmt)) (parse_flags fmt f)
unfolding parse_flags
parse_flags-Ends [] f = tt
parse_flags-Ends (c ∷ fmt) f =
    Ends-if (Rest (suc (length fmt))) (c == dash || c == digit_zero) _ _
      (Ends-weaken (length fmt) _ (parse_flags-Ends fmt _)) (omega arith)

parse_number-Ends : (fmt : List ℕ) (n : ℕ) → Ends (Rest (length fmt)) (parse_number fmt n)
unfolding parse_number
parse_number-Ends [] n = tt
parse_number-Ends (c ∷ fmt) n =
    Ends-if (Rest (suc (length fmt))) (is_digit c) _ _
      (Ends-if (Rest (suc (length fmt))) (ltb (n * 10 + (c - digit_zero)) (2 ^ 31)) _ _
        (Ends-weaken (length fmt) _ (parse_number-Ends fmt (n * 10 + (c - digit_zero)))) tt)
      (omega arith)

parse_precision-Ends : (fmt : List ℕ) → Ends (Rest (length fmt)) (parse_precision fmt)
unfolding parse_precision
parse_precision-Ends [] = tt
parse_precision-Ends (c ∷ fmt) =
    Ends-if (Rest (suc (length fmt))) (c == 46) _ _
      (Ends-bind (Rest (length fmt)) (Rest (suc (length fmt))) (parse_number fmt 0) _
        (parse_number-Ends fmt 0) (λ r h. omega arith))
      (omega arith)

parse_length-Ends : (fmt : List ℕ) → Ends (λ r. length r ≤ length fmt) (parse_length fmt)
unfolding parse_length
parse_length-Ends [] = tt
parse_length-Ends (c ∷ fmt) =
    Ends-if (λ r. length r ≤ suc (length fmt)) (c == 108) _ _ (omega arith) (omega arith)

or_fault-Ends {ℓ} : {A : Type ℓ} (o : Option A) → Ends Any (or_fault o)
or_fault-Ends none = tt
or_fault-Ends (some a) = tt

convert_string-Ends : (prec : Option ℕ) (str : Option (List ℕ)) → Ends Any (convert_string prec str)
unfolding convert_string
convert_string-Ends prec none = tt
convert_string-Ends prec (some s) = elim (Option-cases (strlen s)) [
  | inl e ↦ rw (e, strlen) tt
  | inr (n, e) ↦ rw (e, strlen) tt
]

convert_arg-Ends : (d : ℕ) (prec : Option ℕ) (a : Arg) → Ends Any (convert_arg d prec a)
unfolding convert_arg
convert_arg-Ends d prec (Arg.number val) =
    Ends-if Any (takes_number d && not (overflows d val)) _ _ tt tt
convert_arg-Ends d prec (Arg.string str) =
    Ends-if Any (takes_number d) _ _ tt (convert_string-Ends prec str)

take_arg-Ends : (args : Args) → Ends Any (take_arg args)
unfolding take_arg
take_arg-Ends [] = tt
take_arg-Ends (a ∷ args) = tt

convert-Ends : (d : ℕ) (prec : Option ℕ) (args : Args) → Ends Any (convert d prec args)
unfolding convert
convert-Ends d prec args =
    Ends-if Any (takes_number d || d == 115) _ _
      (Ends-bind Any Any (take_arg args) _ (take_arg-Ends args) (λ r u.
        Ends-bind Any Any (convert_arg d prec r.0) _ (convert_arg-Ends d prec r.0) (λ c u. tt)))
      (Ends-if Any (d == percent) _ _ tt tt)

abbrev Shorter : ℕ → Directive → Type 0
Shorter n d = length d.rest < n

parse_specifier-Ends :
    (fmt : List ℕ) (f : Flags) (width : ℕ) (prec : Option ℕ) (args : Args)
    → Ends (Shorter (length fmt)) (parse_specifier fmt f width prec args)
unfolding parse_specifier
parse_specifier-Ends [] f width prec args = tt
parse_specifier-Ends (d ∷ fmt) f width prec args =
    Ends-bind Any (Shorter (suc (length fmt))) (convert d prec args) _ (convert-Ends d prec args)
      (λ r u. omega arith)

Shorter-weaken : (m : Outcome Directive) (k n : ℕ) → k ≤ n → Ends (Shorter k) m → Ends (Shorter n) m
Shorter-weaken (done d) k n le u = omega arith
Shorter-weaken fault k n le u = tt
Shorter-weaken no_fuel k n le u = u

parse_directive-Ends :
    (fmt : List ℕ) (args : Args) → Ends (Shorter (length fmt)) (parse_directive fmt args)
unfolding parse_directive
parse_directive-Ends fmt args =
    let P = Shorter (length fmt) in
    Ends-bind (Rest (length fmt)) P (parse_flags fmt _) _ (parse_flags-Ends fmt _) (λ r h.
      Ends-bind (Rest (length r.1)) P (parse_number r.1 0) _ (parse_number-Ends r.1 0) (λ w i.
        Ends-bind (Rest (length w.1)) P (parse_precision w.1) _ (parse_precision-Ends w.1) (λ p j.
          Ends-bind (λ l. length l ≤ length p.1) P (parse_length p.1) _ (parse_length-Ends p.1)
            (λ l k.
              Shorter-weaken (parse_specifier l r.0 w.0 p.0 args) (length l) (length fmt)
                (omega arith) (parse_specifier-Ends l r.0 w.0 p.0 args)))))

out_char-Ends : (size : ℕ) (o : Out) (c : ℕ) → Ends Any (out_char size o c)
unfolding out_char
out_char-Ends size o c = elim (Bool-cases (ltb o.pos (sub32 size 1))) [
  | inl e ↦ elim (Bool-cases (ltb o.pos (length o.buf))) [
    | inl f ↦ rw (e, f) tt
    | inr f ↦ rw (e, f) tt
  ]
  | inr e ↦ rw e tt
]

guard_int-Ends : (n : ℕ) → Ends Any (guard_int n)
guard_int-Ends n = elim (Bool-cases (ltb n (2 ^ 31))) [ inl e ↦ rw e tt | inr e ↦ rw e tt ]

terminate-Ends : (size : ℕ) (o : Out) → Ends Any (terminate size o)
unfolding terminate
terminate-Ends size o = elim (Bool-cases (ltb 0 size)) [
  | inl e ↦
      let last = if ltb o.pos size then o.pos else size - 1 in
      elim (Bool-cases (ltb last (length o.buf))) [ inl f ↦ rw (e, f) tt | inr f ↦ rw (e, f) tt ]
  | inr e ↦ rw e tt
]

out_all-Ends : (size : ℕ) (o : Out) (text : List ℕ) → Ends Any (out_all size o text)
unfolding out_all
out_all-Ends size o [] = tt
out_all-Ends size o (c ∷ text) =
    Ends-bind Any Any (out_char size o c) _ (out_char-Ends size o c)
      (λ o' u. out_all-Ends size o' text)

emission-Ends :
    (f : Flags) (width : ℕ) (prec : Option ℕ) (spec : Spec) → Ends Any (emission f width prec spec)
unfolding emission
emission-Ends f width prec (Spec.field c) =
    let n = length c.text + zero_prefix prec c + (if c.is_negative then 1 else 0) in
    Ends-bind Any Any (guard_int n) (λ u. done (field_text f width prec c)) (guard_int-Ends n)
      (λ u v. tt)
emission-Ends f width prec (Spec.literal text) = tt

emit-Ends :
    (size : ℕ) (f : Flags) (width : ℕ) (prec : Option ℕ) (spec : Spec) (o : Out)
    → Ends Any (emit size f width prec spec o)
emit-Ends size f width prec spec o = rw (emit-emission size f width prec spec o) (
    Ends-bind Any Any (emission f width prec spec) _ (emission-Ends f width prec spec)
      (λ text u. out_all-Ends size o text))

format_loop-Ends :
    (k size : ℕ) (fmt : List ℕ) (args : Args) (o : Out)
    → length fmt < k
    → Ends Any (format_loop k size fmt args o)
unfolding format_loop
format_loop-Ends zero size fmt args o h = absurd (omega arith)
format_loop-Ends (suc k) size [] args o h = tt
format_loop-Ends (suc k) size (c ∷ []) args o h = Ends-if Any (c == 0) _ _ tt (
    Ends-if Any (not (c == percent)) _ _
      (Ends-bind Any Any (out_char size o c) _ (out_char-Ends size o c)
        (λ o' u. format_loop-Ends k size [] args o' (omega arith)))
      tt)
format_loop-Ends (suc k) size (c ∷ n ∷ r) args o h = Ends-if Any (c == 0) _ _ tt (
    Ends-if Any (not (c == percent)) _ _
      (Ends-bind Any Any (out_char size o c) _ (out_char-Ends size o c)
        (λ o' u. format_loop-Ends k size (n ∷ r) args o' (omega arith)))
      (Ends-if Any (n == 0) _ _ tt (
        Ends-bind (Shorter (suc (length r))) Any (parse_directive (n ∷ r) args) _
          (parse_directive-Ends (n ∷ r) args)
          (λ d lt.
            Ends-bind Any Any (emit size d.flags d.width d.prec d.spec o) _
              (emit-Ends size d.flags d.width d.prec d.spec o)
              (λ o' u. format_loop-Ends k size d.rest d.args o' (omega arith))))))

Ends-ne {ℓ} : {A : Type ℓ} (m : Outcome A) → Ends Any m → m ≢ no_fuel
Ends-ne (done a) u e = cc
Ends-ne fault u e = cc
Ends-ne no_fuel u e = u

-- `vsnprintf` ends on every buffer, size, format and list of arguments: with a result, or at a read
-- or write outside an object, a missing argument or an overflow of an `int`.
pub vsnprintf_terminates :
    (buf : List ℕ) (size : ℕ) (fmt : List ℕ) (args : Args) → vsnprintf buf size fmt args ≢ no_fuel
unfolding vsnprintf
vsnprintf_terminates buf size fmt args = Ends-ne (vsnprintf buf size fmt args) (
    Ends-bind Any Any (format_loop (suc (length fmt)) size fmt args (record { buf = buf; pos = 0 }))
      _
      (format_loop-Ends (suc (length fmt)) size fmt args (record { buf = buf; pos = 0 })
        (omega arith))
      (λ o u. terminate-Ends size o))
