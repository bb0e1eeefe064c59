-- ===== src/Screen/Tests.antt =====
-- Printing at concrete places.
use ap_pa.Base.{ℕ, List, Option, ◌≡◌, refl, [], ◌∷◌, none, some, arith}
use ap_pa.Screen.{
  Screen, print_char, kprint, kprint_at, kprint_hex, kprint_uint, kprint_backspace, clear_screen,
  scroll_screen, set_text_color, get_text_color, move_loop, get_cursor_offset,
}
use ap_pa.Screen.Cursor.{OnScreen, kprint_at-OnScreen}

abbrev blank : Screen
blank = record { vidmem = λ o. 0; cursor = 0; current_color = 15; serial = [] }

abbrev last : Screen
last = record blank { cursor = 1999 }

abbrev cursor_of : Option Screen → ℕ
cursor_of none = 9999
cursor_of (some s) = s.cursor

abbrev serial_of : Option Screen → List ℕ
serial_of none = []
serial_of (some s) = s.serial

abbrev offset_of : Option (ℕ × Screen) → ℕ
offset_of none = 9999
offset_of (some r) = r.0

printed : cursor_of (kprint blank (65 ∷ 66 ∷ 10 ∷ 67 ∷ [])) ≡ 81
unfolding kprint
printed = refl

sent : serial_of (kprint_at blank (65 ∷ 66 ∷ []) (some (3, 4))) ≡ 65 ∷ 66 ∷ []
unfolding kprint_at
sent = refl

-- Behind the last cell the screen scrolls.
scrolled : offset_of (print_char last 65 none 0) ≡ 3840
unfolding print_char
scrolled = refl

line_moved : move_loop 80 0 1 (λ o. o) 7 ≡ 167
unfolding move_loop
line_moved = refl

hex_shown :
    serial_of (kprint_hex blank 0xBEEF) ≡ 48 ∷ 120 ∷ 48 ∷ 48 ∷ 48 ∷ 48 ∷ 66 ∷ 69 ∷ 69 ∷ 70 ∷ []
unfolding kprint_hex
hex_shown = refl

number_shown : serial_of (kprint_uint blank 4095) ≡ 52 ∷ 48 ∷ 57 ∷ 53 ∷ []
unfolding kprint_uint
number_shown = refl

erased : get_cursor_offset (kprint_backspace (record blank { cursor = 5 })) ≡ 8
unfolding kprint_backspace get_cursor_offset
erased = refl

cleared : (clear_screen last).cursor ≡ 0
unfolding clear_screen
cleared = refl

kept_on_scroll : (scroll_screen last).cursor ≡ 1999
unfolding scroll_screen
kept_on_scroll = refl

colored : get_text_color (set_text_color blank 4) ≡ 4
unfolding get_text_color set_text_color
colored = refl

-- The offset of a row far below the screen overflows.
overflown : kprint_at blank (65 ∷ []) (some (0, 13421873)) ≡ none
unfolding kprint_at
overflown = refl

kprint_at-OnScreen_example :
    (s' : Screen) × (kprint_at last (65 ∷ 10 ∷ []) (some (79, 24)) ≡ some s') × OnScreen s'
kprint_at-OnScreen_example =
    kprint_at-OnScreen last (65 ∷ 10 ∷ []) (some (79, 24)) (omega arith)
      (record { bounded = omega arith })
