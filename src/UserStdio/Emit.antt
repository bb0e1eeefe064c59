-- ===== src/UserStdio/Emit.antt =====
-- Emission into a bounded buffer: what `out_char` has done to the buffer after a text.
use mathlib.Core.List.{append_assoc, append-nil}
use mathlib.Core.Path.{fun_ext}
use ap_pa.Base.{
  ℕ, zero, suc, ◌+◌, ◌-◌, ◌^◌, ◌≤◌, ◌<◌, ◌≡◌, inl, inr, refl, ap, sym, ◌∙◌, true, not, ◌||◌, ◌&&◌,
  List, [], ◌∷◌, ◌++◌, Option, ltb, ◌==◌, if◌then◌else◌, length, set, take, drop, replicate, add32,
  sub32, length-append, arith, Bool-cases, ltb→lt, if_true, if_false,
}
use ap_pa.UserStdio.{
  Outcome, done, fault, no_fuel, ◌>>=◌, ◌>>◌, guard_int, Out, out_char, out_all, Flags, Conv, Spec,
  zero_prefix, emit_field, emit, dash, space, digit_zero,
}

-- The memory `init` with the text written over its front, cut off after `room` characters.
pub truncated : (room : ℕ) → (init text : List ℕ) → List ℕ
truncated zero init text = init
truncated (suc room) [] text = []
truncated (suc room) (x ∷ init) [] = x ∷ init
truncated (suc room) (x ∷ init) (c ∷ text) = c ∷ truncated room init text

pub truncated-nil : (room : ℕ) (init : List ℕ) → truncated room init [] ≡ init
unfolding truncated
truncated-nil zero init = refl
truncated-nil (suc room) [] = refl
truncated-nil (suc room) (x ∷ init) = refl

pub length-truncated :
    (room : ℕ) (init text : List ℕ) → length (truncated room init text) ≡ length init
unfolding truncated
length-truncated zero init text = refl
length-truncated (suc room) [] text = refl
length-truncated (suc room) (x ∷ init) [] = refl
length-truncated (suc room) (x ∷ init) (c ∷ text) = ap suc (length-truncated room init text)

truncated_room :
    (room : ℕ) (init text : List ℕ) (c : ℕ)
    → length text < room
    → set (truncated room init text) (length text) c ≡ truncated room init (text ++ c ∷ [])
unfolding truncated
truncated_room zero init text c h = absurd (omega arith)
truncated_room (suc room) [] [] c h = refl
truncated_room (suc room) [] (d ∷ text) c h = refl
truncated_room (suc room) (x ∷ init) [] c h = ap (λ l. c ∷ l) (sym (truncated-nil room init))
truncated_room (suc room) (x ∷ init) (d ∷ text) c h =
    ap (λ l. d ∷ l) (truncated_room room init text c (omega arith))

truncated_full :
    (room : ℕ) (init text : List ℕ) (c : ℕ)
    → room ≤ length text
    → truncated room init text ≡ truncated room init (text ++ c ∷ [])
unfolding truncated
truncated_full zero init text c h = refl
truncated_full (suc room) [] text c h = refl
truncated_full (suc room) (x ∷ init) [] c h = absurd (omega arith)
truncated_full (suc room) (x ∷ init) (d ∷ text) c h =
    ap (λ l. d ∷ l) (truncated_full room init text c (omega arith))

-- The NUL that ends it, behind the text or in the last place.
pub truncated_short :
    (room : ℕ) (init text : List ℕ)
    → length text < length init
    → length text ≤ room
    → set (truncated room init text) (length text) 0 ≡ text ++ 0 ∷ drop (suc (length text)) init
unfolding truncated
truncated_short room [] text h k = absurd (omega arith)
truncated_short zero (x ∷ init) [] h k = refl
truncated_short zero (x ∷ init) (c ∷ text) h k = absurd (omega arith)
truncated_short (suc room) (x ∷ init) [] h k = refl
truncated_short (suc room) (x ∷ init) (c ∷ text) h k =
    ap (λ l. c ∷ l) (truncated_short room init text (omega arith) (omega arith))

pub truncated_long :
    (room : ℕ) (init text : List ℕ)
    → room < length init
    → room ≤ length text
    → set (truncated room init text) room 0 ≡ take room text ++ 0 ∷ drop (suc room) init
unfolding truncated
truncated_long room [] text h k = absurd (omega arith)
truncated_long zero (x ∷ init) text h k = refl
truncated_long (suc room) (x ∷ init) [] h k = absurd (omega arith)
truncated_long (suc room) (x ∷ init) (c ∷ text) h k =
    ap (λ l. c ∷ l) (truncated_long room init text (omega arith) (omega arith))

-- The state after a text.
abbrev pub written : (room : ℕ) → (init text : List ℕ) → Out
written room init text = record { buf = truncated room init text; pos = length text }

module _ (room : ℕ) (init : List ℕ) (fits : room < length init) (small : room < 2 ^ 32 - 1) where
  pub out_char-written :
      (text : List ℕ) (c : ℕ)
      → length text < 2 ^ 32 - 1
      → out_char (suc room) (written room init text) c ≡ done (written room init (text ++ c ∷ []))
  unfolding out_char
  out_char-written text c h =
      let long = length-truncated room init text in
      let one = length-append text (c ∷ []) in
      let moved : add32 (length text) 1 ≡ length (text ++ c ∷ []) = omega (arith, one) in
      let n = length text in
      let inside : ltb n (sub32 (suc room) 1) ≡ ltb n room = ap (ltb n) (omega (arith, small)) in
      elim (Bool-cases (ltb n room)) [
        | inl e ↦
            let bounded : ltb n (length (truncated room init text)) ≡ true =
              ground (arith, long, fits) in
            if_true _ _ _ (inside ∙ e)
            ∙ if_true _ _ _ bounded
            ∙ ap (λ p. done (record { buf = set (truncated room init text) n c; pos = p })) moved
            ∙ ap (λ b. done (record { buf = b; pos = length (text ++ c ∷ []) }))
                (truncated_room room init text c (ltb→lt _ _ e))
        | inr e ↦
            if_false _ _ _ (inside ∙ e)
            ∙ ap (λ p. done (record { buf = truncated room init text; pos = p })) moved
            ∙ ap (λ b. done (record { buf = b; pos = length (text ++ c ∷ []) }))
                (truncated_full room init text c (ground arith))
      ]

  pub out_all-written :
      (more text : List ℕ)
      → length text + length more < 2 ^ 32
      → out_all (suc room) (written room init text) more ≡ done (written room init (text ++ more))
  unfolding out_all
  out_all-written [] text h = ap (λ l. done (written room init l)) (sym (append-nil text))
  out_all-written (c ∷ more) text h =
      ap (λ m. m >>= λ o. out_all (suc room) o more) (out_char-written text c (omega arith))
      ∙ out_all-written more (text ++ c ∷ []) (omega (arith, length-append text (c ∷ [])))
      ∙ ap (λ l. done (written room init l)) (append_assoc text (c ∷ []) more)

>>=_assoc {ℓ κ μ} :
    {A : Type ℓ} {B : Type κ} {C : Type μ} (m : Outcome A) (f : A → Outcome B) (g : B → Outcome C)
    → ((m >>= f) >>= g) ≡ (m >>= λ a. f a >>= g)
>>=_assoc (done a) f g = refl
>>=_assoc fault f g = refl
>>=_assoc no_fuel f g = refl

-- One loop after another.
out_all-append :
    (size : ℕ) (o : Out) (xs ys : List ℕ)
    → (out_all size o xs >>= λ o'. out_all size o' ys) ≡ out_all size o (xs ++ ys)
unfolding out_all
out_all-append size o [] ys = refl
out_all-append size o (x ∷ xs) ys =
    >>=_assoc (out_char size o x) (λ o'. out_all size o' xs) (λ o'. out_all size o' ys)
    ∙ ap (λ f. out_char size o x >>= f) (fun_ext (λ o'. out_all-append size o' xs ys))

out_all-append_six :
    (size : ℕ) (o : Out) (ps bs cs ds es fs : List ℕ)
    → (out_all size o ps >>= λ o₁. out_all size o₁ bs >>= λ o₂. out_all size o₂ cs >>= λ o₃.
        out_all size o₃ ds >>= λ o₄. out_all size o₄ es >>= λ o₅. out_all size o₅ fs)
      ≡ out_all size o (ps ++ (bs ++ (cs ++ (ds ++ (es ++ fs)))))
out_all-append_six size o ps bs cs ds es fs = simp out_all-append

-- The text of a field.
unfoldable pub field_text : Flags → (width : ℕ) → Option ℕ → Conv → List ℕ
unfolding zero_prefix
field_text f width prec c =
    let zeros = zero_prefix prec c in
    let flag_zero = f.zeros && not f.left && zeros == 0 in
    let sign = if c.is_negative then 1 else 0 in
    let pad = width - (length c.text + zeros + sign) in
    (if f.left || flag_zero then [] else replicate pad space)
    ++ (replicate sign dash
        ++ ((if flag_zero then replicate pad digit_zero else [])
            ++ (replicate zeros digit_zero
                ++ (c.text ++ (if f.left then replicate pad space else [])))))

-- The text of what a directive prints; `fault` where a length overflows an `int`.
unfoldable pub emission : Flags → (width : ℕ) → Option ℕ → Spec → Outcome (List ℕ)
unfolding zero_prefix field_text
emission f width prec (Spec.field c) =
    guard_int (length c.text + zero_prefix prec c + (if c.is_negative then 1 else 0))
    >> done (field_text f width prec c)
emission f width prec (Spec.literal text) = done text

guard_then {ℓ} :
    {A : Type ℓ} (n : ℕ) (text : List ℕ) (k : List ℕ → Outcome A)
    → (guard_int n >> k text) ≡ ((guard_int n >> done text) >>= k)
guard_then n text k = elim (Bool-cases (ltb n (2 ^ 31))) [ inl e ↦ rw e refl | inr e ↦ rw e refl ]

pub emit-emission :
    (size : ℕ) (f : Flags) (width : ℕ) (prec : Option ℕ) (spec : Spec) (o : Out)
    → emit size f width prec spec o ≡ (emission f width prec spec >>= out_all size o)
unfolding emit emit_field emission field_text
emit-emission size f width prec (Spec.field c) o =
    let n = length c.text + zero_prefix prec c + (if c.is_negative then 1 else 0) in
    let zeros = zero_prefix prec c in
    let flag_zero = f.zeros && not f.left && zeros == 0 in
    let sign = if c.is_negative then 1 else 0 in
    let pad = width - n in
    ap (λ k. guard_int n >> k)
      (out_all-append_six size o (if f.left || flag_zero then [] else replicate pad space)
        (replicate sign dash) (if flag_zero then replicate pad digit_zero else [])
        (replicate zeros digit_zero) c.text (if f.left then replicate pad space else []))
    ∙ guard_then n (field_text f width prec c) (out_all size o)
emit-emission size f width prec (Spec.literal text) o = refl
