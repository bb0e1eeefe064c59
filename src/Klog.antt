-- ===== src/Klog.antt =====
-- kernel/sys/klog.c: the kernel log, a ring of 256 messages. An access outside `temp_buffer` or past
-- the end of a string gives `none`, and so does a missing argument. Printing is left out.
pub mod Ring
pub mod Plain
mod Tests
use ap_pa.Base.{
  ℕ, zero, suc, ◌+◌, ◌-◌, ◌%◌, Bool, true, false, not, ◌||◌, ◌&&◌, List, [], ◌∷◌, ◌++◌, Option,
  none, some, ltb, leb, ◌==◌, if◌then◌else◌, length, get_or, set, replicate, add32,
}
use ap_pa.CString.{strncpy}
use ap_pa.Stdio.{utoa, itoa}

abbrev pub klog_buffer_size : ℕ
klog_buffer_size = 256

abbrev pub klog_msg_max_len : ℕ
klog_msg_max_len = 128

pub data Level : Type 0 where
  debug info warn error : Level

pub record Entry : Type 0 where
  pub level : Level
  pub message : List ℕ
  pub timestamp : ℕ

pub record Klog : Type 0 where
  pub log_buffer : List Entry
  pub log_head : ℕ
  pub log_count : ℕ
  pub current_timestamp : ℕ

-- An entry of zero bytes.
abbrev pub blank : Entry
blank = record { level = Level.debug; message = replicate klog_msg_max_len 0; timestamp = 0 }

pub klog_init : Klog
klog_init = record {
  log_buffer = replicate klog_buffer_size blank;
  log_head = 0;
  log_count = 0;
  current_timestamp = 0;
}

pub klog_clear : Klog → Klog
unfolding klog_init
klog_clear s = klog_init

-- What `va_arg` takes: a 32-bit number, or a string, which may be the null pointer.
pub data Arg : Type 0 where
  number : ℕ → Arg
  string : Option (List ℕ) → Arg

-- Copies a string while there is room before the last byte of `temp_buffer`.
pub append_text : (temp str : List ℕ) → Option (List ℕ)
append_text temp [] = none
append_text temp (c ∷ str) =
    let rest = append_text (temp ++ c ∷ []) str in
    if not (c == 0) && ltb (length temp) (klog_msg_max_len - 1) then rest else some temp

append_string : (temp : List ℕ) → Option (List ℕ) → Option (List ℕ)
unfolding append_text
append_string temp none = some temp
append_string temp (some str) = append_text temp str

-- The specifiers that print a number.
specify_number : (d val : ℕ) → (temp : List ℕ) → Option (List ℕ)
unfolding append_text utoa itoa
specify_number d val temp =
    if d == 117
    then append_text temp (utoa val 10 ++ 0 ∷ [])
    else if d == 120
    then append_text temp (utoa val 16 ++ 0 ∷ [])
    else if d == 99
    then some (temp ++ val % 256 ∷ [])
    else append_text temp (itoa val 10 ++ 0 ∷ [])

-- The `switch` on the specifier `d`; what `va_arg` leaves is returned with the text.
specify : (d : ℕ) → List Arg → (temp : List ℕ) → Option (List Arg × List ℕ)
unfolding specify_number append_string
specify d args temp =
    if d == 100 || d == 105 || d == 117 || d == 120 || d == 99
    then take_number args
    else if d == 115
    then take_string args
    else if d == 37
    then some (args, temp ++ 37 ∷ [])
    else some (args, temp ++ 37 ∷ d ∷ [])
  where
    with_rest : List Arg → Option (List ℕ) → Option (List Arg × List ℕ)
    with_rest rest none = none
    with_rest rest (some out) = some (rest, out)

    take_number : List Arg → Option (List Arg × List ℕ)
    take_number (Arg.number val ∷ rest) = with_rest rest (specify_number d val temp)
    take_number (Arg.string str ∷ rest) = none
    take_number [] = none

    take_string : List Arg → Option (List Arg × List ℕ)
    take_string (Arg.string str ∷ rest) = with_rest rest (append_string temp str)
    take_string (Arg.number val ∷ rest) = none
    take_string [] = none

-- The text in `temp_buffer` after the loop over the format.
pub format_loop : (format : List ℕ) → List Arg → (temp : List ℕ) → Option (List ℕ)
unfolding specify
format_loop [] args temp = none
format_loop (c ∷ []) args temp =
    if c == 0 || not (ltb (length temp) (klog_msg_max_len - 1)) then some temp else none
format_loop (c ∷ d ∷ format) args temp =
    let plain = format_loop (d ∷ format) args (temp ++ c ∷ []) in
    let special = elim (specify d args temp) as (λ o. Option (List ℕ)) [
      | none ↦ none
      | some (args', temp') ↦ format_loop format args' temp'
    ] in
    if c == 0 || not (ltb (length temp) (klog_msg_max_len - 1))
    then some temp
    else if c == 37 && not (d == 0)
    then special
    else plain

-- Puts the message in the entry at `log_head`, and advances the ring.
pub log_message : Klog → Level → (temp : List ℕ) → Option Klog
log_message s level temp =
    if leb klog_msg_max_len (length temp)
    then none
    else elim (strncpy (get_or s.log_buffer s.log_head blank).message (temp ++ 0 ∷ [])
        (klog_msg_max_len - 1)) [
          | none ↦ none
          | some message ↦
              let entry : Entry = record {
                level = level;
                message = set message (klog_msg_max_len - 1) 0;
                timestamp = s.current_timestamp;
              } in
              some (record {
                log_buffer = set s.log_buffer s.log_head entry;
                log_head = (s.log_head + 1) % klog_buffer_size;
                log_count = add32 s.log_count 1;
                current_timestamp = add32 s.current_timestamp 1;
              })
        ]

pub klog : Klog → Level → (format : List ℕ) → List Arg → Option Klog
unfolding format_loop log_message
klog s level format args = elim (format_loop format args []) [
  | none ↦ none
  | some temp ↦ log_message s level temp
]

-- `current_size` of `klog_get_stats`; the other value is `log_count`.
pub current_size : Klog → ℕ
current_size s = if ltb s.log_count klog_buffer_size then s.log_count else klog_buffer_size

pub klog_get_stats : Klog → ℕ × ℕ
unfolding current_size
klog_get_stats s = (s.log_count, current_size s)

pub klog_get_entry : Klog → ℕ → Option Entry
unfolding current_size
klog_get_entry s index =
    let start_pos = if leb s.log_count klog_buffer_size then 0 else s.log_head in
    if leb (current_size s) index
    then none
    else some (get_or s.log_buffer ((start_pos + index) % klog_buffer_size) blank)
