-- ===== src/Shell/Edit.antt =====
-- The line editor refines a line of at most 255 characters.
use ap_pa.Base.{
  ℕ, zero, suc, ◌+◌, ◌-◌, ◌≤◌, ◌<◌, ◌≡◌, refl, sym, ap, ◌∙◌, inl, inr, Option, none, some, List, [],
  ◌∷◌, ◌++◌, arith, ltb, ◌==◌, if◌then◌else◌, Bool-cases, length, set, take, drop, length-set,
  length-take, lt→ltb, if_true,
}
use mathlib.Core.Option
use ap_pa.Shell.{Shell, store_char, erase_char, enter_line, add_char, shell_input}

take-set_ge : (b : List ℕ) (n i v : ℕ) → n ≤ i → take n (set b i v) ≡ take n b
take-set_ge b zero i v h = refl
take-set_ge [] (suc n) i v h = refl
take-set_ge (x ∷ b) (suc n) zero v h = absurd (omega arith)
take-set_ge (x ∷ b) (suc n) (suc i) v h = ap (λ l. x ∷ l) (take-set_ge b n i v (omega arith))

take-set_self :
    (b : List ℕ) (n v : ℕ) → n < length b → take (suc n) (set b n v) ≡ take n b ++ v ∷ []
take-set_self [] n v h = absurd (omega arith)
take-set_self (x ∷ b) zero v h = refl
take-set_self (x ∷ b) (suc n) v h = ap (λ l. x ∷ l) (take-set_self b n v (omega arith))

take-take : (b : List ℕ) (n k : ℕ) → n ≤ k → take n (take k b) ≡ take n b
take-take b zero k h = refl
take-take b (suc n) zero h = absurd (omega arith)
take-take [] (suc n) (suc k) h = refl
take-take (x ∷ b) (suc n) (suc k) h = ap (λ l. x ∷ l) (take-take b n k (omega arith))

set_split : (b : List ℕ) (n v : ℕ) → n < length b → set b n v ≡ take n b ++ v ∷ drop (suc n) b
set_split [] n v h = absurd (omega arith)
set_split (x ∷ b) zero v h = refl
set_split (x ∷ b) (suc n) v h = ap (λ l. x ∷ l) (set_split b n v (omega arith))

-- The buffer has its 256 bytes, and room for the NUL behind what is typed.
pub record IsShell (s : Shell) : Type 0 where
  pub stored : length s.command_buffer ≡ 256
  pub room : s.buffer_pos ≤ 255

-- What is typed so far.
abbrev pub typed : Shell → List ℕ
typed s = take s.buffer_pos s.command_buffer

-- The editor as a user sees it: the new line, and the line that is executed.
unfoldable pub edit : List ℕ → ℕ → List ℕ × Option (List ℕ)
edit line c =
    if c == 8
    then (take (length line - 1) line, none)
    else if c == 10
    then ([], if ltb 0 (length line) then some line else none)
    else if ltb (length line) 255
    then (line ++ c ∷ [], none)
    else (line, none)

-- The buffer that is executed holds the line, with a NUL behind it.
pub data Executes : Option (List ℕ) → Option (List ℕ) → Type 0 where
  idle : Executes none none
  runs :
      {buffer : List ℕ} (line rest : List ℕ)
      → buffer ≡ line ++ 0 ∷ rest
      → Executes (some buffer) (some line)

length-typed : {s : Shell} → IsShell s → length (typed s) ≡ s.buffer_pos
length-typed {s} v = omega (arith, length-take s.buffer_pos s.command_buffer, v.stored, v.room)

-- The key with every write inside the buffer.
unfoldable written : Shell → ℕ → Shell × Option (List ℕ)
written s c =
    let p = s.buffer_pos in
    let b = s.command_buffer in
    let line = set b p 0 in
    if c == 8
    then (if ltb 0 p
        then (record { command_buffer = set b (p - 1) 0; buffer_pos = p - 1 }, none)
        else (s, none))
    else if c == 10
    then (
      record { command_buffer = set line 0 0; buffer_pos = 0 },
      if ltb 0 p then some line else none,
    )
    else if ltb p 255
    then (record { command_buffer = set (set b p c) (p + 1) 0; buffer_pos = p + 1 }, none)
    else (s, none)

store_char-inside : (b : List ℕ) (i v : ℕ) → i < length b → store_char b i v ≡ some (set b i v)
unfolding store_char
store_char-inside b i v h = if_true (ltb i (length b)) _ _ (lt→ltb i (length b) h)

erase_char-inside :
    (b : List ℕ) (p : ℕ)
    → 0 < p
    → p ≤ length b
    → erase_char b p ≡ some (record { command_buffer = set b (p - 1) 0; buffer_pos = p - 1 }, none)
unfolding erase_char
erase_char-inside b zero pos h = absurd (omega arith)
erase_char-inside b (suc p) pos h =
    let start : suc p - 1 ≡ p = omega arith in
    rw (store_char-inside b p 0 (omega arith), start) refl

enter_line-inside :
    (b : List ℕ) (p : ℕ)
    → p < length b
    → enter_line b p
      ≡ some (
        record { command_buffer = set (set b p 0) 0 0; buffer_pos = 0 },
        if ltb 0 p then some (set b p 0) else none,
      )
unfolding enter_line
enter_line-inside b p h =
    ap
      (λ o. elim o as (λ o. Option (Shell × Option (List ℕ))) [
        | none ↦ none
        | some line ↦
            Option.map
              (λ b'. (
                record { command_buffer = b'; buffer_pos = 0 },
                if ltb 0 p then some line else none,
              ))
              (store_char line 0 0)
      ])
      (store_char-inside b p 0 h)
    ∙ ap
        (Option.map (λ b'. (
          record { command_buffer = b'; buffer_pos = 0 },
          if ltb 0 p then some (set b p 0) else none,
        )))
        (store_char-inside (set b p 0) 0 0 (omega (arith, length-set b p 0)))

add_char-inside :
    (b : List ℕ) (p c : ℕ)
    → p + 1 < length b
    → add_char b p c
      ≡ some (record { command_buffer = set (set b p c) (p + 1) 0; buffer_pos = p + 1 }, none)
unfolding add_char
add_char-inside b p c h =
    ap
      (λ o. elim o as (λ o. Option (Shell × Option (List ℕ))) [
        | none ↦ none
        | some b' ↦
            Option.map (λ b''. (record { command_buffer = b''; buffer_pos = p + 1 }, none))
              (store_char b' (p + 1) 0)
      ])
      (store_char-inside b p c (omega arith))
    ∙ ap (Option.map (λ b'. (record { command_buffer = b'; buffer_pos = p + 1 }, none)))
        (store_char-inside (set b p c) (p + 1) 0 (omega (arith, length-set b p c)))

-- No write leaves the buffer.
shell_input-written : {s : Shell} (c : ℕ) → IsShell s → shell_input s c ≡ some (written s c)
unfolding shell_input written
shell_input-written {s} c v =
    let p = s.buffer_pos in
    let b = s.command_buffer in
    elim (Bool-cases (c == 8)) [
      | inl back ↦ elim (Bool-cases (ltb 0 p)) [
        | inl e ↦
            rw (back, e) (erase_char-inside b p (ground arith) (omega (arith, v.stored, v.room)))
        | inr e ↦ rw (back, e) refl
      ]
      | inr other ↦ elim (Bool-cases (c == 10)) [
        | inl e ↦ rw (other, e) (enter_line-inside b p (omega (arith, v.stored, v.room)))
        | inr key ↦ elim (Bool-cases (ltb p 255)) [
          | inl e ↦ rw (other, key, e) (add_char-inside b p c (ground (arith, v.stored)))
          | inr e ↦ rw (other, key, e) refl
        ]
      ]
    ]

-- What is written refines the line.
written-edit :
    {s : Shell} (c : ℕ)
    → IsShell s
    → let (s', out) = written s c in
      let (line, run) = edit (typed s) c in IsShell s' × (typed s' ≡ line) × Executes out run
unfolding written edit
written-edit {s} c v =
    let p = s.buffer_pos in
    let b = s.command_buffer in
    elim (Bool-cases (c == 8)) [
      | inl back ↦
          rw (back, length-typed v)
            (elim (Bool-cases (ltb 0 p)) [
              | inl some_text ↦ rw some_text (
                record { stored = length-set b (p - 1) 0 ∙ v.stored; room = omega (arith, v.room) },
                take-set_ge b (p - 1) (p - 1) 0 (omega arith)
                    ∙ sym (take-take b (p - 1) p (omega arith)),
                idle,
              )
              | inr no_text ↦
                  let start : p - 1 ≡ p = ground arith in
                  rw no_text (v, rw start (sym (take-take b p p (omega arith))), idle)
            ])
      | inr other ↦
          rw (other, length-typed v)
            (elim (Bool-cases (c == 10)) [
              | inl enter ↦ rw enter (
                record {
                  stored = length-set (set b p 0) 0 0 ∙ length-set b p 0 ∙ v.stored;
                  room = omega arith;
                },
                refl,
                elim (Bool-cases (ltb 0 p)) [
                  | inl some_text ↦ rw some_text (
                      runs (take p b) (drop (suc p) b)
                        (set_split b p 0 (omega (arith, v.stored, v.room))))
                  | inr no_text ↦ rw no_text idle
                ],
              )
              | inr key ↦ rw key (elim (Bool-cases (ltb p 255)) [
                | inl fits ↦
                    let lt : p < 255 = ground arith in
                    let next : p + 1 ≡ suc p = omega arith in
                    rw fits (
                      record {
                        stored = length-set (set b p c) (p + 1) 0 ∙ length-set b p c ∙ v.stored;
                        room = omega arith;
                      },
                      take-set_ge (set b p c) (p + 1) (p + 1) 0 (omega arith)
                          ∙ ap (λ k. take k (set b p c)) next
                          ∙ take-set_self b p c (omega (arith, v.stored)),
                      idle,
                    )
                | inr full ↦ rw full (v, refl, idle)
              ])
            ])
    ]

-- Each key does to a shell in a valid state what it does to the line typed so far: Backspace drops
-- its last character, Enter executes it if it is not empty and starts afresh, and any other key is
-- appended unless 255 characters are there. No write leaves the buffer, and the state stays valid.
pub shell_input-edit :
    {s : Shell} (c : ℕ)
    → IsShell s
    → let (line, run) = edit (typed s) c in
      (s' : Shell) × (out : Option (List ℕ)) × (shell_input s c ≡ some (s', out))
      × IsShell s'
      × (typed s' ≡ line)
      × Executes out run
shell_input-edit {s} c v =
    let (valid, same, runs_line) = written-edit c v in
    ((written s c).0, (written s c).1, shell_input-written c v, valid, same, runs_line)
