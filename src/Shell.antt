-- ===== src/Shell.antt =====
-- shell/shell.c: the line editor (`shell_input`), the parser of `shell_execute` and the colours of
-- `cmd_color`. `command_buffer` is the list of its 256 bytes. What is printed is left out; what
-- `shell_input` hands to `shell_execute` is returned. A command line is the list of the bytes of
-- the buffer from its start, with a NUL in it.
pub mod Edit
pub mod Parse
mod Tests
use mathlib.Core.Option
use ap_pa.Base.{
  ℕ, zero, suc, ◌+◌, ◌-◌, ◌*◌, ◌%◌, ◌≡◌, Bool, true, false, not, ◌&&◌, ◌||◌, Option, none, some,
  List, [], ◌∷◌, ltb, ◌==◌, if◌then◌else◌, ◌++◌, get_or, set, length, take, drop, ℤ, pos, negsuc,
}
use ap_pa.CString.{strncmp, strcmp}

abbrev pub shell_buffer_size : ℕ
shell_buffer_size = 256

pub record Shell : Type 0 where
  pub command_buffer : List ℕ
  pub buffer_pos : ℕ

pub shell_init : Shell → Shell
shell_init s = record { command_buffer = set s.command_buffer 0 0; buffer_pos = 0 }

-- `command_buffer[i] = v`; `none` is a write outside the buffer.
unfoldable pub store_char : List ℕ → (i v : ℕ) → Option (List ℕ)
store_char b i v = if ltb i (length b) then some (set b i v) else none

-- `buffer_pos--; command_buffer[buffer_pos] = 0;`. From 0 on the position is -1.
unfoldable pub erase_char : List ℕ → (buffer_pos : ℕ) → Option (Shell × Option (List ℕ))
unfolding store_char
erase_char b zero = none
erase_char b (suc p) =
    Option.map (λ b'. (record { command_buffer = b'; buffer_pos = p }, none)) (store_char b p 0)

-- `command_buffer[buffer_pos] = 0`, the call, and the empty line.
unfoldable pub enter_line : List ℕ → (buffer_pos : ℕ) → Option (Shell × Option (List ℕ))
unfolding store_char
enter_line b p = elim (store_char b p 0) [
  | none ↦ none
  | some line ↦
      Option.map
        (λ b'.
          (record { command_buffer = b'; buffer_pos = 0 }, if ltb 0 p then some line else none))
        (store_char line 0 0)
]

unfoldable pub add_char : List ℕ → (buffer_pos c : ℕ) → Option (Shell × Option (List ℕ))
unfolding store_char
add_char b p c = elim (store_char b p c) [
  | none ↦ none
  | some b' ↦
      Option.map (λ b''. (record { command_buffer = b''; buffer_pos = p + 1 }, none))
        (store_char b' (p + 1) 0)
]

-- The state after the key, and the buffer that is executed, if the key was Enter on a line; `none` is
-- a write outside the buffer.
pub shell_input : Shell → ℕ → Option (Shell × Option (List ℕ))
unfolding erase_char enter_line add_char
shell_input s c =
    let p = s.buffer_pos in
    let b = s.command_buffer in
    if c == 8
    then (if ltb 0 p then erase_char b p else some (s, none))
    else if c == 10
    then enter_line b p
    else if ltb p (shell_buffer_size - 1)
    then add_char b p c
    else some (s, none)

-- The handlers of the commands.
pub data Command : Type 0 where
  help clear echo mem pmem color uptime pagedir ls cat write mkdir rm disk : Command
  tasktest usertest addrtest exec elftest dmesg : Command
  unknown : Command

-- The names in the order in which they are tried.
pub commands : List (List ℕ × Command)
commands =
    (b'h' ∷ b'e' ∷ b'l' ∷ b'p' ∷ [], Command.help)
    ∷ (b'c' ∷ b'l' ∷ b'e' ∷ b'a' ∷ b'r' ∷ [], Command.clear)
    ∷ (b'e' ∷ b'c' ∷ b'h' ∷ b'o' ∷ [], Command.echo)
    ∷ (b'm' ∷ b'e' ∷ b'm' ∷ [], Command.mem)
    ∷ (b'p' ∷ b'm' ∷ b'e' ∷ b'm' ∷ [], Command.pmem)
    ∷ (b'c' ∷ b'o' ∷ b'l' ∷ b'o' ∷ b'r' ∷ [], Command.color)
    ∷ (b'u' ∷ b'p' ∷ b't' ∷ b'i' ∷ b'm' ∷ b'e' ∷ [], Command.uptime)
    ∷ (b'p' ∷ b'a' ∷ b'g' ∷ b'e' ∷ b'd' ∷ b'i' ∷ b'r' ∷ [], Command.pagedir)
    ∷ (b'l' ∷ b's' ∷ [], Command.ls)
    ∷ (b'c' ∷ b'a' ∷ b't' ∷ [], Command.cat)
    ∷ (b'w' ∷ b'r' ∷ b'i' ∷ b't' ∷ b'e' ∷ [], Command.write)
    ∷ (b'm' ∷ b'k' ∷ b'd' ∷ b'i' ∷ b'r' ∷ [], Command.mkdir)
    ∷ (b'r' ∷ b'm' ∷ [], Command.rm)
    ∷ (b'd' ∷ b'i' ∷ b's' ∷ b'k' ∷ [], Command.disk)
    ∷ (b't' ∷ b'a' ∷ b's' ∷ b'k' ∷ b't' ∷ b'e' ∷ b's' ∷ b't' ∷ [], Command.tasktest)
    ∷ (b'u' ∷ b's' ∷ b'e' ∷ b'r' ∷ b't' ∷ b'e' ∷ b's' ∷ b't' ∷ [], Command.usertest)
    ∷ (b'a' ∷ b'd' ∷ b'd' ∷ b'r' ∷ b't' ∷ b'e' ∷ b's' ∷ b't' ∷ [], Command.addrtest)
    ∷ (b'e' ∷ b'x' ∷ b'e' ∷ b'c' ∷ [], Command.exec)
    ∷ (b'e' ∷ b'l' ∷ b'f' ∷ b't' ∷ b'e' ∷ b's' ∷ b't' ∷ [], Command.elftest)
    ∷ (b'd' ∷ b'm' ∷ b'e' ∷ b's' ∷ b'g' ∷ [], Command.dmesg)
    ∷ []

-- `while (*s == ' ') s++;`
pub skip_spaces : List ℕ → List ℕ
skip_spaces [] = []
skip_spaces (c ∷ s) = if c == 32 then skip_spaces s else c ∷ s

-- `while (*s && *s != ' ') s++;`, with the number of steps
pub skip_word : List ℕ → ℕ → ℕ × List ℕ
skip_word [] n = (n, [])
skip_word (c ∷ s) n = if not (c == 0) && not (c == 32) then skip_word s (n + 1) else (n, c ∷ s)

abbrev pub is_zero : Option ℤ → Bool
is_zero (some (pos zero)) = true
is_zero (some (pos (suc n))) = false
is_zero (some (negsuc n)) = false
is_zero none = false

-- `strncmp(cmd, name, cmd_len) == 0 && cmd_len == strlen(name)`, down the list of names
pub find_command : List (List ℕ × Command) → (cmd : List ℕ) (cmd_len : ℕ) → Command
find_command [] cmd cmd_len = Command.unknown
find_command ((name, command) ∷ rest) cmd cmd_len =
    if is_zero (strncmp cmd (name ++ 0 ∷ []) cmd_len) && cmd_len == length name
    then command
    else find_command rest cmd cmd_len

-- The handler that is called, with its argument; `none` for an empty line.
pub shell_execute : List ℕ → Option (Command × List ℕ)
unfolding skip_spaces skip_word find_command commands
shell_execute line =
    let cmd = skip_spaces line in
    let (cmd_len, rest) = skip_word cmd 0 in
    if get_or cmd 0 0 == 0 then none else some (find_command commands cmd cmd_len, skip_spaces rest)

pub color_names : List (List ℕ × ℕ)
color_names =
    (b'b' ∷ b'l' ∷ b'a' ∷ b'c' ∷ b'k' ∷ [], 0)
    ∷ (b'b' ∷ b'l' ∷ b'u' ∷ b'e' ∷ [], 1)
    ∷ (b'g' ∷ b'r' ∷ b'e' ∷ b'e' ∷ b'n' ∷ [], 2)
    ∷ (b'c' ∷ b'y' ∷ b'a' ∷ b'n' ∷ [], 3)
    ∷ (b'r' ∷ b'e' ∷ b'd' ∷ [], 4)
    ∷ (b'm' ∷ b'a' ∷ b'g' ∷ b'e' ∷ b'n' ∷ b't' ∷ b'a' ∷ [], 5)
    ∷ (b'b' ∷ b'r' ∷ b'o' ∷ b'w' ∷ b'n' ∷ [], 6)
    ∷ (b'g' ∷ b'r' ∷ b'e' ∷ b'y' ∷ [], 7)
    ∷ (b'd' ∷ b'a' ∷ b'r' ∷ b'k' ∷ b'g' ∷ b'r' ∷ b'e' ∷ b'y' ∷ [], 8)
    ∷ (b'l' ∷ b'i' ∷ b'g' ∷ b'h' ∷ b't' ∷ b'b' ∷ b'l' ∷ b'u' ∷ b'e' ∷ [], 9)
    ∷ (b'l' ∷ b'i' ∷ b'g' ∷ b'h' ∷ b't' ∷ b'g' ∷ b'r' ∷ b'e' ∷ b'e' ∷ b'n' ∷ [], 10)
    ∷ (b'l' ∷ b'i' ∷ b'g' ∷ b'h' ∷ b't' ∷ b'c' ∷ b'y' ∷ b'a' ∷ b'n' ∷ [], 11)
    ∷ (b'l' ∷ b'i' ∷ b'g' ∷ b'h' ∷ b't' ∷ b'r' ∷ b'e' ∷ b'd' ∷ [], 12)
    ∷ (b'l' ∷ b'i' ∷ b'g' ∷ b'h' ∷ b't' ∷ b'm' ∷ b'a' ∷ b'g' ∷ b'e' ∷ b'n' ∷ b't' ∷ b'a' ∷ [], 13)
    ∷ (b'y' ∷ b'e' ∷ b'l' ∷ b'l' ∷ b'o' ∷ b'w' ∷ [], 14)
    ∷ (b'w' ∷ b'h' ∷ b'i' ∷ b't' ∷ b'e' ∷ [], 15)
    ∷ []

pub find_color : List (List ℕ × ℕ) → List ℕ → ℕ
find_color [] name = 0xFF
find_color ((known, code) ∷ rest) name =
    if is_zero (strcmp name (known ++ 0 ∷ [])) then code else find_color rest name

pub parse_color_name : List ℕ → ℕ
unfolding find_color color_names
parse_color_name name = find_color color_names name
