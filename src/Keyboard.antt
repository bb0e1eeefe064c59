-- ===== src/Keyboard.antt =====
-- drivers/keyboard.c and keyboard.h: the PS/2 keyboard handler. A run of the handler takes the scan
-- code that it reads from port 0x60 and says what it does with the key; the calls of `klog_dump`,
-- `kprint` and `shell_input` stand in that action. The set-up of the controller in `keyboard_init`
-- is port I/O and is not modelled.
pub mod Shift
mod Tests
use ap_pa.Base.{
  ℕ, ◌+◌, ◌-◌, ◌≡◌, Bool, true, false, not, ◌&&◌, ◌||◌, List, [], ◌∷◌, ltb, leb, ◌==◌,
  if◌then◌else◌, bit_and, get_or,
}

abbrev pub key_lshift : ℕ
key_lshift = 0x2A

abbrev pub key_rshift : ℕ
key_rshift = 0x36

-- US layout, unshifted; 0 is a key with no character. Characters are written by their codes.
pub scancode_to_ascii : List ℕ
scancode_to_ascii =
    0 ∷ 0 ∷ 49 ∷ 50 ∷ 51 ∷ 52 ∷ 53 ∷ 54 ∷ 55 ∷ 56 ∷ 57 ∷ 48 ∷ 45 ∷ 61 ∷ 8 ∷ 9 ∷ 113 ∷ 119 ∷ 101
    ∷ 114 ∷ 116 ∷ 121 ∷ 117 ∷ 105 ∷ 111 ∷ 112 ∷ 91 ∷ 93 ∷ 10 ∷ 0 ∷ 97 ∷ 115 ∷ 100 ∷ 102 ∷ 103 ∷ 104
    ∷ 106 ∷ 107 ∷ 108 ∷ 59 ∷ 39 ∷ 96 ∷ 0 ∷ 92 ∷ 122 ∷ 120 ∷ 99 ∷ 118 ∷ 98 ∷ 110 ∷ 109 ∷ 44 ∷ 46 ∷ 47
    ∷ 0 ∷ 42 ∷ 0 ∷ 32 ∷ 0 ∷ 0 ∷ 0 ∷ 0 ∷ 0 ∷ 0 ∷ 0 ∷ 0 ∷ 0 ∷ 0 ∷ 0 ∷ 0 ∷ 0 ∷ 55 ∷ 56 ∷ 57 ∷ 45 ∷ 52
    ∷ 53 ∷ 54 ∷ 43 ∷ 49 ∷ 50 ∷ 51 ∷ 48 ∷ 46 ∷ 0 ∷ 0 ∷ 0 ∷ 0 ∷ 0 ∷ 0 ∷ 0 ∷ 0 ∷ 0 ∷ 0 ∷ 0 ∷ 0 ∷ 0 ∷ 0
    ∷ 0 ∷ 0 ∷ 0 ∷ 0 ∷ 0 ∷ 0 ∷ 0 ∷ 0 ∷ 0 ∷ 0 ∷ 0 ∷ 0 ∷ 0 ∷ 0 ∷ 0 ∷ 0 ∷ 0 ∷ 0 ∷ 0 ∷ 0 ∷ 0 ∷ 0 ∷ 0 ∷ 0
    ∷ 0 ∷ 0 ∷ 0 ∷ 0 ∷ 0 ∷ 0 ∷ []

shift_table : List (ℕ × ℕ)
shift_table =
    (49, 33)
    ∷ (50, 64)
    ∷ (51, 35)
    ∷ (52, 36)
    ∷ (53, 37)
    ∷ (54, 94)
    ∷ (55, 38)
    ∷ (56, 42)
    ∷ (57, 40)
    ∷ (48, 41)
    ∷ (45, 95)
    ∷ (61, 43)
    ∷ (91, 123)
    ∷ (93, 125)
    ∷ (59, 58)
    ∷ (39, 34)
    ∷ (96, 126)
    ∷ (92, 124)
    ∷ (44, 60)
    ∷ (46, 62)
    ∷ (47, 63)
    ∷ []

-- The `switch`: the first case for the character, or the character itself.
pub switch : List (ℕ × ℕ) → ℕ → ℕ
switch [] c = c
switch ((from, to) ∷ cases) c = if c == from then to else switch cases c

pub apply_shift : ℕ → ℕ
unfolding switch shift_table
apply_shift c = if leb b'a' c && leb c b'z' then c - 32 else switch shift_table c

pub data Action : Type 0 where
  nothing : Action
  dump_log : Action
  input : ℕ → Action

-- The new value of `shift_pressed`, and what is done with the key.
pub keyboard_handler : Bool → ℕ → Bool × Action
unfolding apply_shift
keyboard_handler shift_pressed scancode =
    let release_code = bit_and scancode 0x7F in
    let ascii = get_or scancode_to_ascii scancode 0 in
    if not (bit_and scancode 0x80 == 0)
    then (if release_code == key_lshift || release_code == key_rshift
        then (false, nothing)
        else (shift_pressed, nothing))
    else if scancode == key_lshift || scancode == key_rshift
    then (true, nothing)
    else if scancode == 0x3B
    then (shift_pressed, dump_log)
    else if not (ascii == 0)
    then (shift_pressed, input (if shift_pressed then apply_shift ascii else ascii))
    else (shift_pressed, nothing)
