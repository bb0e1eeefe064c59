-- ===== src/Shell/Tests.antt =====
-- Lines and colours.
use ap_pa.Base.{ℕ, List, Option, ◌≡◌, refl, none, some, [], ◌∷◌, inr, arith, replicate}
use ap_pa.Shell.{
  Shell, shell_input, Command, commands, skip_spaces, shell_execute, parse_color_name,
}
use ap_pa.CString.{strcmp, strncmp}
use ap_pa.Shell.Edit.{IsShell, typed, edit, Executes, shell_input-edit}
use ap_pa.Shell.Parse.{Named, shell_execute-Named}

one_typed : Shell
one_typed = record { command_buffer = b'l' ∷ replicate 255 0; buffer_pos = 1 }

one_typed-IsShell : IsShell one_typed
unfolding one_typed
one_typed-IsShell = record { stored = refl; room = omega arith }

shell_input-edit_example :
    let (line, run) = edit (typed one_typed) 8 in
    (s' : Shell) × (out : Option (List ℕ)) × (shell_input one_typed 8 ≡ some (s', out))
    × IsShell s'
    × (typed s' ≡ line)
    × Executes out run
shell_input-edit_example = shell_input-edit 8 one_typed-IsShell

blank_line : shell_execute (32 ∷ 32 ∷ 0 ∷ []) ≡ none
unfolding shell_execute
blank_line = refl

list_files : shell_execute (32 ∷ b'l' ∷ b's' ∷ 0 ∷ []) ≡ some (Command.ls, 0 ∷ [])
unfolding shell_execute strncmp
list_files = refl

red : parse_color_name (b'r' ∷ b'e' ∷ b'd' ∷ 0 ∷ []) ≡ 4
unfolding parse_color_name strcmp
red = refl

shell_execute-Named_example :
    (command : Command) × (shell_execute (32 ∷ b'r' ∷ b'm' ∷ 32 ∷ b'x' ∷ 0 ∷ [])
      ≡ some (command, skip_spaces (32 ∷ b'x' ∷ 0 ∷ [])))
    × Named (b'r' ∷ b'm' ∷ []) commands command
shell_execute-Named_example =
    shell_execute-Named 1 b'r' (b'm' ∷ []) 32 (b'x' ∷ 0 ∷ []) (omega arith) (inr refl)
