-- ===== src/Keyboard/Shift.antt =====
-- The modifier state over a sequence of scan codes, and the characters that reach the shell.
use mathlib.Core.List.{reverse, reverse_aux}
use ap_pa.Base.{
  ℕ, zero, suc, ◌+◌, ◌<◌, ◌≡◌, refl, Bool, true, false, not, ◌||◌, List, [], ◌∷◌, ◌==◌,
  if◌then◌else◌, arith,
}
use ap_pa.Keyboard.{key_lshift, key_rshift, scancode_to_ascii, keyboard_handler}

-- A scan code that presses or releases a shift key, as the state that it leaves.
pub data Event : Type 0 where
  pressed released other : Event

pub event : ℕ → Event
event s =
    if s == key_lshift || s == key_rshift
    then Event.pressed
    else if s == 128 + key_lshift || s == 128 + key_rshift
    then Event.released
    else Event.other

-- Whether the last shift event of the sequence, newest first, was a press.
pub last_shift : List ℕ → Bool
unfolding event
last_shift [] = false
last_shift (s ∷ older) = elim (event s) [
  | Event.pressed ↦ true
  | Event.released ↦ false
  | Event.other ↦ last_shift older
]

pub handle_all : Bool → List ℕ → Bool
unfolding keyboard_handler
handle_all shift [] = shift
handle_all shift (s ∷ newer) = handle_all (keyboard_handler shift s).0 newer

-- Whether `test` holds of the codes from 0 up to, not including, `limit`.
every_code : (test : ℕ → Bool) → (limit : ℕ) → Bool
every_code test zero = true
every_code test (suc limit) = let rest = every_code test limit in if test limit then rest else false

every_code_lem :
    (limit : ℕ) (test : ℕ → Bool) (code : ℕ)
    → code < limit
    → every_code test limit ≡ true
    → test code ≡ true
unfolding every_code
every_code_lem zero test code below all = absurd (omega arith)
every_code_lem (suc limit) test code below all = ground (arith, every_code_lem limit test code)

same : Bool → Bool → Bool
same true b = b
same false b = not b

same_iff : (a b : Bool) → same a b ≡ true → a ≡ b
unfolding same
same_iff true b h = ground arith
same_iff false b h = ground arith

step_table :
    (b : Bool)
    → every_code
        (λ s.
          same
            (keyboard_handler b s).0
            (elim (event s) [ Event.pressed ↦ true | Event.released ↦ false | Event.other ↦ b ]))
        256
      ≡ true
unfolding keyboard_handler event every_code same scancode_to_ascii
step_table true = refl
step_table false = refl

handler-event :
    (b : Bool) (s : ℕ)
    → s < 256
    → (keyboard_handler b s).0
      ≡ elim (event s) [ Event.pressed ↦ true | Event.released ↦ false | Event.other ↦ b ]
handler-event b s h = same_iff _ _ (every_code_lem 256 _ s h (step_table b))

abbrev pub IsBytes : List ℕ → Type 0
IsBytes [] = Unit
IsBytes (s ∷ l) = (s < 256) × IsBytes l

handle_all-reverse :
    (done rest : List ℕ)
    → IsBytes rest
    → handle_all (last_shift done) rest ≡ last_shift (reverse_aux rest done)
unfolding handle_all last_shift
handle_all-reverse done [] h = refl
handle_all-reverse done (s ∷ rest) h =
    rw (handler-event (last_shift done) s h.0) (handle_all-reverse (s ∷ done) rest h.1)

-- After any sequence of scan codes, from shift not pressed, the handler holds shift as pressed exactly if the last shift key
-- event of the sequence was a press, of either key: releasing one of two held keys ends the shift.
pub handle_all-last_shift :
    (codes : List ℕ) → IsBytes codes → handle_all false codes ≡ last_shift (reverse codes)
unfolding last_shift
handle_all-last_shift codes h = handle_all-reverse [] codes h
