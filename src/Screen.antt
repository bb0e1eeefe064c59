-- ===== src/Screen.antt =====
-- drivers/screen.c: text on the VGA screen. `vidmem` gives the byte at an offset of the video memory,
-- `cursor` is the position in the cursor registers of the controller, 16 bits, and `serial` what was
-- sent to the serial port. A position is a column and a row, or `none` where one of them is negative.
pub mod Cursor
mod Tests
use mathlib.Core.Option
use ap_pa.Base.{
  ℕ, zero, suc, ◌+◌, ◌-◌, ◌*◌, ◌/◌, ◌%◌, ◌^◌, Bool, true, false, List, [], ◌∷◌, ◌++◌, Option, none,
  some, ltb, leb, ◌==◌, if◌then◌else◌,
}
use ap_pa.Stdio.{digits_loop, reverse}

abbrev pub max_rows : ℕ
max_rows = 25

abbrev pub max_cols : ℕ
max_cols = 80

pub record Screen : Type 0 where
  pub vidmem : ℕ → ℕ
  pub cursor : ℕ
  pub current_color : ℕ
  pub serial : List ℕ

abbrev pub put_byte : (ℕ → ℕ) → (offset v : ℕ) → ℕ → ℕ
put_byte vidmem offset v o = if o == offset then v else vidmem o

-- `2 * (row * MAX_COLS + col)`
abbrev pub cell_offset : (col row : ℕ) → ℕ
cell_offset col row = 2 * (row * max_cols + col)

-- An `int` that is not negative; `none` is an overflow.
unfoldable pub int : ℕ → Option ℕ
int n = if ltb n (2 ^ 31) then some n else none

-- Where the column and the row are on the screen this is `cell_offset`, which then stands for it.
unfoldable pub get_offset : (col row : ℕ) → Option ℕ
unfolding int
get_offset col row = int (cell_offset col row)

abbrev pub get_offset_row : ℕ → ℕ
get_offset_row offset = offset / (2 * max_cols)

abbrev pub get_offset_col : ℕ → ℕ
get_offset_col offset = offset / 2 - get_offset_row offset * max_cols

pub get_cursor_offset : Screen → ℕ
get_cursor_offset s = s.cursor * 2

-- The two registers take the low bytes of the position.
pub set_cursor_offset : Screen → (offset : ℕ) → Screen
set_cursor_offset s offset = record s { cursor = offset / 2 % 2 ^ 16 }

-- The loops over the columns: a line moved up, and a line cleared.
move_loop : (k col row : ℕ) → (ℕ → ℕ) → ℕ → ℕ
move_loop zero col row vidmem = vidmem
move_loop (suc k) col row vidmem =
    let src = cell_offset col row in
    let dst = cell_offset col (row - 1) in
    let moved = put_byte vidmem dst (vidmem src) in
    move_loop k (col + 1) row (put_byte moved (dst + 1) (moved (src + 1)))

rows_loop : (k row : ℕ) → (ℕ → ℕ) → ℕ → ℕ
unfolding move_loop
rows_loop zero row vidmem = vidmem
rows_loop (suc k) row vidmem = rows_loop k (row + 1) (move_loop max_cols 0 row vidmem)

-- `k` cells from `offset` on become spaces.
blank_loop : (k offset color : ℕ) → (ℕ → ℕ) → ℕ → ℕ
blank_loop zero offset color vidmem = vidmem
blank_loop (suc k) offset color vidmem =
    blank_loop k (offset + 2) color (put_byte (put_byte vidmem offset 32) (offset + 1) color)

pub scroll_screen : Screen → Screen
unfolding rows_loop blank_loop
scroll_screen s =
    let moved = rows_loop (max_rows - 1) 1 s.vidmem in
    record s { vidmem = blank_loop max_cols (cell_offset 0 (max_rows - 1)) s.current_color moved }

pub clear_screen : Screen → Screen
unfolding blank_loop set_cursor_offset
clear_screen s =
    set_cursor_offset
      (record s { vidmem = blank_loop (max_cols * max_rows) 0 s.current_color s.vidmem })
      (cell_offset 0 0)

pub set_text_color : Screen → (color : ℕ) → Screen
set_text_color s color = record s { current_color = color }

pub get_text_color : Screen → ℕ
get_text_color s = s.current_color

-- The offset behind the character.
unfoldable pub behind : (c offset : ℕ) → Option ℕ
unfolding get_offset int
behind c offset = if c == 10 then get_offset 0 (get_offset_row offset + 1) else int (offset + 2)

-- The end of `print_char`: the screen scrolls if the offset is behind it, and the cursor moves.
unfoldable pub place_cursor : Screen → (offset : ℕ) → ℕ × Screen
unfolding set_cursor_offset scroll_screen
place_cursor s offset =
    if leb (max_rows * max_cols * 2) offset
    then (
      cell_offset 0 (max_rows - 1),
      set_cursor_offset (scroll_screen s) (cell_offset 0 (max_rows - 1)),
    )
    else (offset, set_cursor_offset s offset)

-- Where `print_char` begins.
unfoldable pub start_offset : Screen → Option (ℕ × ℕ) → Option ℕ
unfolding get_cursor_offset get_offset
start_offset s none = some (get_cursor_offset s)
start_offset s (some (col, row)) = get_offset col row

abbrev pub drawn : Screen → (c offset attr : ℕ) → Screen
drawn s c offset attr =
    let shown = if attr == 0 then s.current_color else attr in
    record s {
      vidmem =
          if c == 10 then s.vidmem else put_byte (put_byte s.vidmem offset c) (offset + 1) shown;
    }

-- The offset that is returned, and the screen; `none` is an overflow of an `int`.
pub print_char : Screen → (c : ℕ) → Option (ℕ × ℕ) → (attr : ℕ) → Option (ℕ × Screen)
unfolding start_offset behind place_cursor
print_char s c at attr = elim (start_offset s at) [
  | none ↦ none
  | some offset ↦ Option.map (place_cursor (drawn s c offset attr)) (behind c offset)
]

-- The loop over the message.
pub print_loop : (msg : List ℕ) → Screen → (col row : ℕ) → Option Screen
unfolding print_char
print_loop [] s col row = some s
print_loop (c ∷ msg) s col row =
    elim (print_char s c (some (col, row)) s.current_color) as (λ o. Option Screen) [
      | none ↦ none
      | some (offset, s') ↦
          print_loop msg (record s' { serial = s'.serial ++ (c ∷ []) }) (get_offset_col offset)
            (get_offset_row offset)
    ]

-- The message without its NUL.
pub kprint_at : Screen → (msg : List ℕ) → Option (ℕ × ℕ) → Option Screen
unfolding print_loop get_cursor_offset get_offset
kprint_at s msg none =
    print_loop msg s (get_offset_col (get_cursor_offset s)) (get_offset_row (get_cursor_offset s))
kprint_at s msg (some (col, row)) = elim (get_offset col row) [
  | none ↦ none
  | some offset ↦ print_loop msg s col row
]

pub kprint : Screen → (msg : List ℕ) → Option Screen
unfolding kprint_at
kprint s msg = kprint_at s msg none

abbrev pub hex_char : ℕ → ℕ
hex_char d = if ltb d 10 then d + 48 else d + 55

-- `k` hexadecimal digits, put before `text`.
hex_digits : (k value : ℕ) → List ℕ → List ℕ
hex_digits zero value text = text
hex_digits (suc k) value text = hex_digits k (value / 16) (hex_char (value % 16) ∷ text)

pub kprint_hex : Screen → (value : ℕ) → Option Screen
unfolding kprint hex_digits
kprint_hex s value = kprint s (48 ∷ 120 ∷ hex_digits 8 value [])

-- The digits of `value` and their reversal, as `utoa` of klibc/stdio.c does it for base 10.
pub kprint_uint : Screen → (value : ℕ) → Option Screen
unfolding kprint digits_loop reverse
kprint_uint s value = kprint s (if value == 0 then 48 ∷ [] else reverse (digits_loop 33 value 10))

pub kprint_backspace : Screen → Screen
unfolding get_cursor_offset set_cursor_offset
kprint_backspace s =
    let offset = get_cursor_offset s in
    let back = offset - 2 in
    let erased = put_byte (put_byte s.vidmem back 32) (back + 1) s.current_color in
    if ltb 0 offset then set_cursor_offset (record s { vidmem = erased }) back else s
