-- ===== src/Screen/Cursor.antt =====
-- The cursor stays on the screen.
use ap_pa.Base.{
  ◌++◌, false, ℕ, ◌+◌, ◌*◌, ◌/◌, ◌%◌, ◌<◌, ◌≡◌, refl, ap, sym, ◌∙◌, List, [], ◌∷◌, Option, none,
  some, inl, inr, leb, ltb, ◌==◌, Bool-cases, if_true, if_false, arith, lt→ltb, ◌^◌,
}
use mathlib.Core.Option
use std.Path.{subst}
use ap_pa.Screen.{
  int, cell_offset, behind, place_cursor, start_offset, drawn, Screen, print_char, print_loop,
  kprint_at, get_cursor_offset, set_cursor_offset, scroll_screen, get_offset, get_offset_row,
  get_offset_col, kprint_backspace,
}

-- The cursor stands on one of the 2000 cells.
pub record OnScreen (s : Screen) : Type 0 where
  pub bounded : s.cursor < 2000

-- The offset that `print_char` returns is that of a cell, and the cursor stands there.
pub record Printed (r : ℕ × Screen) : Type 0 where
  pub even : r.0 % 2 ≡ 0
  pub inside : r.0 < 4000
  pub there : r.1.cursor ≡ r.0 / 2

int-some : (n : ℕ) → n < 2 ^ 31 → int n ≡ some n
unfolding int
int-some n h = if_true (ltb n (2 ^ 31)) _ _ (lt→ltb n (2 ^ 31) h)

-- Far from the end of the range of an `int`, `behind` is an even offset again.
behind-even :
    (c offset : ℕ)
    → offset % 2 ≡ 0
    → offset + 160 < 2 ^ 31
    → (b : ℕ) × (behind c offset ≡ some b) × (b % 2 ≡ 0)
unfolding behind get_offset
behind-even c offset even h =
    let below : cell_offset 0 (get_offset_row offset + 1) < 2 ^ 31 = omega arith in
    elim (Bool-cases (c == 10)) [
      | inl newline ↦ (
        cell_offset 0 (get_offset_row offset + 1),
        if_true (c == 10) _ _ newline ∙ int-some _ below,
        omega arith,
      )
      | inr other ↦
          (offset + 2, if_false (c == 10) _ _ other ∙ int-some _ (omega arith), omega arith)
    ]

place_cursor-Printed : (s : Screen) (b : ℕ) → b % 2 ≡ 0 → Printed (place_cursor s b)
unfolding place_cursor set_cursor_offset scroll_screen
place_cursor-Printed s b even = elim (Bool-cases (leb 4000 b)) [
  | inl full ↦
      subst Printed (sym (if_true (leb 4000 b) _ _ full))
        (record { even = refl; inside = omega arith; there = refl })
  | inr fits ↦
      let lt : b < 4000 = leb_false b fits in
      subst Printed (sym (if_false (leb 4000 b) _ _ fits))
        (record { even = even; inside = lt; there = omega arith })
]
  where
    leb_false : (n : ℕ) → leb 4000 n ≡ false → n < 4000
    leb_false n h = ground arith

-- A character at a position: whatever is printed, the cursor is on the screen afterwards.
print_char-Printed :
    (s : Screen) (c col row attr : ℕ)
    → cell_offset col row + 160 < 2 ^ 31
    → (r : ℕ × Screen) × (print_char s c (some (col, row)) attr ≡ some r) × Printed r
unfolding print_char start_offset get_offset
print_char-Printed s c col row attr h =
    let o = cell_offset col row in
    let (b, e, even) = behind-even c o (omega arith) h in
    (
      place_cursor (drawn s c o attr) b,
      ap
            (λ m. elim m as (λ m. Option (ℕ × Screen)) [
              | none ↦ none
              | some offset ↦ Option.map (place_cursor (drawn s c offset attr)) (behind c offset)
            ])
            (int-some o (omega arith))
          ∙ ap (Option.map (place_cursor (drawn s c o attr))) e,
      place_cursor-Printed (drawn s c o attr) b even,
    )

print_loop-OnScreen :
    (msg : List ℕ) (s : Screen) (col row : ℕ)
    → cell_offset col row + 160 < 2 ^ 31
    → OnScreen s
    → (s' : Screen) × (print_loop msg s col row ≡ some s') × OnScreen s'
unfolding print_loop
print_loop-OnScreen [] s col row h v = (s, refl, v)
print_loop-OnScreen (c ∷ msg) s col row h v =
    let (r, e, p) = print_char-Printed s c col row s.current_color h in
    let shown = record (r.1) { serial = r.1.serial ++ (c ∷ []) } in
    let (s', run, w) =
      print_loop-OnScreen msg shown (get_offset_col r.0) (get_offset_row r.0)
        (omega (arith, p.inside)) (record { bounded = omega (arith, p.inside, p.there) }) in
    (
      s',
      ap
            (λ m. elim m as (λ m. Option Screen) [
              | none ↦ none
              | some (offset, s') ↦
                  print_loop msg (record s' { serial = s'.serial ++ (c ∷ []) })
                    (get_offset_col offset) (get_offset_row offset)
            ])
            e
          ∙ run,
      w,
    )

-- The offset of the position, and that of the line below it, fit an `int`.
abbrev pub FitsInt : Option (ℕ × ℕ) → Type 0
FitsInt none = Unit
FitsInt (some (col, row)) = 2 * (row * 80 + col) + 160 < 2 ^ 31

-- From any position whose offset, and that of the line below it, fit an `int`, or from the cursor,
-- `kprint_at` prints any message without an overflow, and leaves the cursor on the screen.
pub kprint_at-OnScreen :
    (s : Screen) (msg : List ℕ) (at : Option (ℕ × ℕ))
    → FitsInt at
    → OnScreen s
    → (s' : Screen) × (kprint_at s msg at ≡ some s') × OnScreen s'
unfolding kprint_at get_cursor_offset get_offset
kprint_at-OnScreen s msg none h v =
    print_loop-OnScreen msg s (get_offset_col (get_cursor_offset s))
      (get_offset_row (get_cursor_offset s)) (omega (arith, v.bounded)) v
kprint_at-OnScreen s msg (some (col, row)) h v =
    let (s', e, w) = print_loop-OnScreen msg s col row h v in
    (
      s',
      ap
            (λ m. elim m as (λ m. Option Screen) [
              | none ↦ none
              | some offset ↦ print_loop msg s col row
            ])
            (int-some (cell_offset col row) (omega arith))
          ∙ e,
      w,
    )

-- `kprint_backspace` keeps the cursor on the screen.
pub kprint_backspace-OnScreen : (s : Screen) → OnScreen s → OnScreen (kprint_backspace s)
unfolding kprint_backspace get_cursor_offset set_cursor_offset
kprint_backspace-OnScreen s v = elim (Bool-cases (ltb 0 (s.cursor * 2))) [
  | inl back ↦
      subst OnScreen (sym (if_true (ltb 0 (s.cursor * 2)) _ _ back))
        (record { bounded = omega (arith, v.bounded) })
  | inr at_start ↦ subst OnScreen (sym (if_false (ltb 0 (s.cursor * 2)) _ _ at_start)) v
]
