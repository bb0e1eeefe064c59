-- ===== src/Keyboard/Tests.antt =====
-- Keys of the US layout.
use mathlib.Core.List.{reverse}
use ap_pa.Base.{ℕ, ◌≡◌, refl, true, false, List, [], ◌∷◌, arith}
use ap_pa.Keyboard.{scancode_to_ascii, apply_shift, input, dump_log, keyboard_handler}
use ap_pa.Keyboard.Shift.{handle_all, last_shift, handle_all-last_shift}

shifted_key : keyboard_handler true 0x1E ≡ (true, input b'A')
unfolding keyboard_handler scancode_to_ascii
shifted_key = refl

function_key : keyboard_handler false 0x3B ≡ (false, dump_log)
unfolding keyboard_handler
function_key = refl

at_sign : apply_shift b'2' ≡ b'@'
unfolding apply_shift
at_sign = refl

abbrev both_held : List ℕ
both_held = 0x2A ∷ 0x36 ∷ 0x1E ∷ 0xB6 ∷ []

handle_all-last_shift_example : handle_all false both_held ≡ last_shift (reverse both_held)
handle_all-last_shift_example = handle_all-last_shift both_held (omega arith)
