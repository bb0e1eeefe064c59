-- ===== src/Shell/Parse.antt =====
-- Which command a line names.
use ap_pa.Base.{
  ℕ, zero, suc, ◌+◌, ◌≡◌, ◌≢◌, ◌⊎◌, inl, inr, refl, Bool, true, false, ◌&&◌, some, List, [], ◌∷◌,
  ◌++◌, arith, ◌==◌, Bool-cases, length, replicate,
}
use ap_pa.CString.{strncmp}
use ap_pa.CString.Compare.{IsText}
use ap_pa.Shell.{Command, commands, skip_spaces, skip_word, is_zero, find_command, shell_execute}

-- No byte of `w` is a NUL or a space.
abbrev pub IsWord : List ℕ → Type 0
IsWord [] = Unit
IsWord (c ∷ w) = (c ≢ 0) × (c ≢ 32) × IsWord w

-- `command` belongs to the first name of the list that is `word`; without one it is `unknown`.
pub data Named (word : List ℕ) : List (List ℕ × Command) → Command → Type 0 where
  missing : Named word [] Command.unknown
  here :
      {name : List ℕ} {command : Command} {rest : List (List ℕ × Command)}
      → word ≡ name
      → Named word ((name, command) ∷ rest) command
  there :
      {name : List ℕ} {other command : Command} {rest : List (List ℕ × Command)}
      → word ≢ name
      → Named word rest command
      → Named word ((name, other) ∷ rest) command

abbrev AllText : List (List ℕ × Command) → Type 0
AllText [] = Unit
AllText ((name, command) ∷ rest) = IsText name × AllText rest

commands-AllText : AllText commands
unfolding commands
commands-AllText = omega arith

abbrev matches : List ℕ → List ℕ → List ℕ → Bool
matches w r name = is_zero (strncmp (w ++ r) (name ++ 0 ∷ []) (length w)) && length w == length name

matches_same : (w r : List ℕ) → IsWord w → matches w r w ≡ true
unfolding strncmp
matches_same [] r v = refl
matches_same (a ∷ w) r v = ground (arith, matches_same w r v.2)

matches_eq : (w r name : List ℕ) → IsWord w → IsText name → matches w r name ≡ true → w ≡ name
unfolding strncmp
matches_eq [] r [] v u h = refl
matches_eq [] r (b ∷ name) v u h = ground arith
matches_eq (a ∷ w) r [] v u h = ground arith
matches_eq (a ∷ w) r (b ∷ name) v u h = ground (arith, matches_eq w r name v.2 u.1)

find_command-Named :
    (w r : List ℕ) (table : List (List ℕ × Command))
    → IsWord w
    → AllText table
    → Named w table (find_command table (w ++ r) (length w))
unfolding find_command
find_command-Named w r [] v u = missing
find_command-Named w r ((name, command) ∷ rest) v u = elim (Bool-cases (matches w r name)) [
  | inl hit ↦ rw hit (here (matches_eq w r name v u.0 hit))
  | inr miss ↦
      rw miss (there (λ e. cc (matches_same w r v, miss, e)) (find_command-Named w r rest v u.1))
]

skip_spaces-replicate : (k : ℕ) (s : List ℕ) → skip_spaces (replicate k 32 ++ s) ≡ skip_spaces s
unfolding skip_spaces
skip_spaces-replicate zero s = refl
skip_spaces-replicate (suc k) s = skip_spaces-replicate k s

skip_word-append :
    (w : List ℕ) (d : ℕ) (r : List ℕ) (n : ℕ)
    → IsWord w
    → (d ≡ 0) ⊎ (d ≡ 32)
    → skip_word (w ++ d ∷ r) n ≡ (n + length w, d ∷ r)
unfolding skip_word
skip_word-append [] d r n v e = ground arith
skip_word-append (c ∷ w) d r n v e = ground (arith, skip_word-append w d r (n + 1) v.2 e)

-- A line of spaces, a word and a space or the end runs the command whose name is the word, compared
-- whole, with what follows the word, less leading spaces, as its argument; a word that is no name
-- is an unknown command.
pub shell_execute-Named :
    (k : ℕ) (c : ℕ) (w : List ℕ) (d : ℕ) (r : List ℕ)
    → IsWord (c ∷ w)
    → (d ≡ 0) ⊎ (d ≡ 32)
    → (command : Command) × (shell_execute (replicate k 32 ++ (c ∷ w ++ d ∷ r))
        ≡ some (command, skip_spaces (d ∷ r)))
      × Named (c ∷ w) commands command
unfolding shell_execute
shell_execute-Named k c w d r v e =
    let first : skip_spaces (c ∷ w ++ d ∷ r) ≡ c ∷ w ++ d ∷ r = first_word v in
    let more : (c == 0) ≡ false = ground arith in
    (
      find_command commands (c ∷ w ++ d ∷ r) (0 + length (c ∷ w)),
      rw (skip_spaces-replicate k (c ∷ w ++ d ∷ r), first, skip_word-append (c ∷ w) d r 0 v e, more)
          refl,
      (let z : 0 + length (c ∷ w) ≡ length (c ∷ w) = omega arith in
          rw z (find_command-Named (c ∷ w) (d ∷ r) commands v commands-AllText)),
    )
  where
    first_word : IsWord (c ∷ w) → skip_spaces (c ∷ w ++ d ∷ r) ≡ c ∷ w ++ d ∷ r
    first_word v = unfold skip_spaces in ground arith
