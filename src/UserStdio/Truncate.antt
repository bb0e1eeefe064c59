-- ===== src/UserStdio/Truncate.antt =====
-- `vsnprintf` cuts the text of the format off to the buffer.
use mathlib.Core.List.{append_assoc, append-nil}
use ap_pa.Base.{
  ℕ, zero, suc, ◌+◌, ◌-◌, ◌^◌, ◌≤◌, ◌<◌, ◌≡◌, refl, ap, sym, ◌∙◌, Bool, true, false, not, List, [],
  ◌∷◌, ◌++◌, ltb, ◌==◌, if◌then◌else◌, length, take, drop, set, ltb→lt, lt→ltb, length-append,
  arith, Bool-cases, inl, inr, if_true, if_false,
}
use ap_pa.UserStdio.{
  Outcome, done, fault, no_fuel, ◌>>=◌, Out, Args, Directive, out_char, out_all, emit,
  parse_directive, format_loop, terminate, vsnprintf, percent,
}
use ap_pa.UserStdio.Emit.{
  truncated, written, length-truncated, truncated-nil, truncated_short, truncated_long,
  out_char-written, out_all-written, emission, emit-emission,
}

-- The text of a format with no buffer and no bound: the directives are parsed and converted as the
-- code does it.
unfoldable pub format_text : ℕ → List ℕ → Args → Outcome (List ℕ)
unfolding parse_directive emission
format_text zero fmt args = no_fuel
format_text (suc k) [] args = fault
format_text (suc k) (c ∷ fmt) args =
    let plain = (do more ← format_text k fmt args; done (c ∷ more)) in
    let directive = (do
      d ← parse_directive fmt args
      text ← emission d.flags d.width d.prec d.spec
      more ← format_text k d.rest d.args
      done (text ++ more)) in
    if c == 0
    then done []
    else if not (c == percent)
    then plain
    else elim fmt as (λ l. Outcome (List ℕ)) [
      | [] ↦ fault
      | n ∷ r ↦ if n == 0 then done [] else directive
    ]

pub >>=-eq-done {ℓ κ} :
    {A : Type ℓ} {B : Type κ} (m : Outcome A) (f : A → Outcome B) {b : B}
    → (m >>= f) ≡ done b
    → (a : A) × (m ≡ done a) × (f a ≡ done b)
>>=-eq-done (done a) f h = (a, refl, h)
>>=-eq-done fault f h = cc
>>=-eq-done no_fuel f h = cc

done_inj {ℓ} : {A : Type ℓ} {a b : A} → done a ≡ done b → a ≡ b
done_inj h = cc

module _ (room : ℕ) (init : List ℕ) (fits : room < length init) (small : room < 2 ^ 32 - 1) where
  -- Where the text is described, the run on the buffer writes it behind what is there.
  abbrev pub Agrees : Outcome (List ℕ) → (Out → Outcome Out) → Type 0
  Agrees spec run =
      (text more : List ℕ)
      → spec ≡ done more
      → length text + length more < 2 ^ 32
      → run (written room init text) ≡ done (written room init (text ++ more))

  Agrees-done : Agrees (done []) done
  Agrees-done text more e h =
      ap (λ t. done (written room init t))
        (sym (append-nil text) ∙ ap (λ m. text ++ m) (done_inj e))

  Agrees-fault : (run : Out → Outcome Out) → Agrees fault run
  Agrees-fault run text more e h = cc

  Agrees-if :
      (b : Bool) (spec spec' : Outcome (List ℕ)) (run run' : Out → Outcome Out)
      → Agrees spec run
      → Agrees spec' run'
      → Agrees (if b then spec else spec') (λ o. if b then run o else run' o)
  Agrees-if true spec spec' run run' u v = u
  Agrees-if false spec spec' run run' u v = v

  Agrees-char :
      (c : ℕ) (spec : Outcome (List ℕ)) (run : Out → Outcome Out)
      → Agrees spec run
      → Agrees (spec >>= λ m. done (c ∷ m)) (λ o. out_char (suc room) o c >>= run)
  Agrees-char c spec run u text more e h =
      let (m, described, q) = >>=-eq-done spec (λ m. done (c ∷ m)) e in
      let parts : c ∷ m ≡ more = done_inj q in
      let sizes : suc (length m) ≡ length more = ap length parts in
      ap (λ x. x >>= run) (out_char-written room init fits small text c (omega arith))
      ∙ u (text ++ c ∷ []) m described (omega (arith, length-append text (c ∷ [])))
      ∙ ap (λ t. done (written room init t))
          (append_assoc text (c ∷ []) m ∙ ap (λ m. text ++ m) parts)

  Agrees-directive :
      (parsed : Outcome Directive) (spec : Directive → Outcome (List ℕ))
      (run : Directive → Out → Outcome Out)
      → ((d : Directive) → Agrees (spec d) (run d))
      → Agrees
          (parsed >>= λ d.
            emission d.flags d.width d.prec d.spec >>= λ t. spec d >>= λ m. done (t ++ m))
          (λ o. parsed >>= λ d. emit (suc room) d.flags d.width d.prec d.spec o >>= run d)
  Agrees-directive parsed spec run u text more e h =
      let (d, is_d, e₁) = >>=-eq-done parsed _ e in
      let (t, is_t, e₂) = >>=-eq-done (emission d.flags d.width d.prec d.spec) _ e₁ in
      let (m, is_m, e₃) = >>=-eq-done (spec d) _ e₂ in
      let parts : t ++ m ≡ more = done_inj e₃ in
      let sizes : length (t ++ m) ≡ length more = ap length parts in
      let emitted : emit (suc room) d.flags d.width d.prec d.spec (written room init text)
          ≡ done (written room init (text ++ t)) =
        emit-emission (suc room) d.flags d.width d.prec d.spec (written room init text)
        ∙ ap (λ x. x >>= out_all (suc room) (written room init text)) is_t
        ∙ out_all-written room init fits small t text (omega (arith, length-append t m)) in
      ap
        (λ x. x >>= λ d.
          emit (suc room) d.flags d.width d.prec d.spec (written room init text) >>= run d)
        is_d
      ∙ ap (λ x. x >>= run d) emitted
      ∙ u d (text ++ t) m is_m (omega (arith, length-append t m, length-append text t))
      ∙ ap (λ t. done (written room init t)) (append_assoc text t m ∙ ap (λ m. text ++ m) parts)

  format_loop-Agrees :
      (k : ℕ) (fmt : List ℕ) (args : Args)
      → Agrees (format_text k fmt args) (format_loop k (suc room) fmt args)
  unfolding format_loop format_text
  format_loop-Agrees zero fmt args = λ text more e h. absurd cc
  format_loop-Agrees (suc k) [] args = Agrees-fault (format_loop (suc k) (suc room) [] args)
  format_loop-Agrees (suc k) (c ∷ []) args =
      let plain = λ (o : Out). out_char (suc room) o c >>= format_loop k (suc room) [] args in
      let other = λ (o : Out). if not (c == percent) then plain o else fault in
      Agrees-if (c == 0) _ _ done other Agrees-done (
        Agrees-if (not (c == percent)) _ _ plain (λ o. fault)
          (Agrees-char c (format_text k [] args) (format_loop k (suc room) [] args)
            (format_loop-Agrees k [] args))
          (Agrees-fault (λ o. fault)))
  format_loop-Agrees (suc k) (c ∷ n ∷ r) args =
      let plain = λ (o : Out). out_char (suc room) o c >>= format_loop k (suc room) (n ∷ r) args in
      let directive = λ (o : Out). parse_directive (n ∷ r) args >>= λ d.
      emit (suc room) d.flags d.width d.prec d.spec o >>= format_loop k (suc room) d.rest d.args in
      let special = λ (o : Out). if n == 0 then done o else directive o in
      let other = λ (o : Out). if not (c == percent) then plain o else special o in
      Agrees-if (c == 0) _ _ done other Agrees-done (
        Agrees-if (not (c == percent)) _ _ plain special
          (Agrees-char c (format_text k (n ∷ r) args) (format_loop k (suc room) (n ∷ r) args)
            (format_loop-Agrees k (n ∷ r) args))
          (Agrees-if (n == 0) _ _ done directive Agrees-done (
            Agrees-directive (parse_directive (n ∷ r) args) (λ d. format_text k d.rest d.args)
              (λ d. format_loop k (suc room) d.rest d.args)
              (λ d. format_loop-Agrees k d.rest d.args))))

-- The buffer with the text and a NUL: all of the text, or the first `size - 1` characters of it.
abbrev pub ended : (size : ℕ) → (buf text : List ℕ) → List ℕ
ended size buf text =
    if ltb (length text) size
    then text ++ 0 ∷ drop (suc (length text)) buf
    else take (size - 1) text ++ 0 ∷ drop size buf

terminate-ended :
    (room : ℕ) (buf text : List ℕ)
    → room < length buf
    → terminate (suc room) (written room buf text) ≡ done (ended (suc room) buf text, length text)
unfolding terminate
terminate-ended room buf text fits = elim (Bool-cases (ltb (length text) (suc room))) [
  | inl e ↦
      let lt = ltb→lt _ _ e in
      let n = length text in
      let inside : ltb (if ltb n (suc room) then n else suc room - 1)
            (length (truncated room buf text))
          ≡ true =
        ap (λ i. ltb i (length (truncated room buf text))) (if_true _ _ _ e)
        ∙ lt→ltb _ _ (omega (arith, length-truncated room buf text)) in
      if_true (ltb 0 (suc room)) _ _ (lt→ltb _ _ (omega arith))
      ∙ if_true _ _ _ inside
      ∙ ap (λ i. done (set (truncated room buf text) i 0, n)) (if_true _ _ _ e)
      ∙ ap (λ b. done (b, n))
          (truncated_short room buf text (omega arith) (omega arith) ∙ sym (if_true _ _ _ e))
  | inr e ↦
      let n = length text in
      let ge : suc room ≤ n = ground arith in
      let last : (if ltb n (suc room) then n else suc room - 1) ≡ room =
        if_false _ _ _ e ∙ omega arith in
      let inside : ltb (if ltb n (suc room) then n else suc room - 1)
            (length (truncated room buf text))
          ≡ true =
        ap (λ i. ltb i (length (truncated room buf text))) last
        ∙ lt→ltb _ _ (omega (arith, length-truncated room buf text)) in
      if_true (ltb 0 (suc room)) _ _ (lt→ltb _ _ (omega arith))
      ∙ if_true _ _ _ inside
      ∙ ap (λ i. done (set (truncated room buf text) i 0, n)) last
      ∙ ap (λ b. done (b, n))
          (truncated_long room buf text fits (omega arith)
            ∙ ap (λ r. take r text ++ 0 ∷ drop (suc room) buf) (omega arith)
            ∙ sym (if_false _ _ _ e))
]

-- Let `text`, of fewer than 2^31 characters, be what the parser and the conversions of the code give for
-- a format when there is no buffer. With a buffer of at least `size` bytes, `size` from 1 on,
-- `vsnprintf` writes `text`, or its first `size - 1` characters, and a NUL, leaves the bytes behind the
-- NUL or behind `size` as they were, and returns the length of the whole text. Which text a directive
-- stands for is not stated.
pub vsnprintf-ended :
    (buf : List ℕ) (size : ℕ) (fmt : List ℕ) (args : Args) (text : List ℕ)
    → 0 < size
    → size ≤ length buf
    → size < 2 ^ 32
    → format_text (suc (length fmt)) fmt args ≡ done text
    → length text < 2 ^ 31
    → vsnprintf buf size fmt args ≡ done (ended size buf text, length text)
unfolding vsnprintf
vsnprintf-ended buf zero fmt args text pos room word e small = absurd (omega arith)
vsnprintf-ended buf (suc r) fmt args text pos room word e small =
    ap
      (λ b.
        format_loop (suc (length fmt)) (suc r) fmt args (record { buf = b; pos = 0 })
        >>= terminate (suc r))
      (sym (truncated-nil r buf))
    ∙ ap (λ m. m >>= terminate (suc r))
        (format_loop-Agrees r buf (omega arith) (omega arith) (suc (length fmt)) fmt args [] text e
          (omega arith))
    ∙ terminate-ended r buf text (omega arith)
