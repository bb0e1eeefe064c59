-- ===== src/Klog/Ring.antt =====
-- The ring of log entries holds the last 256 messages.
use ap_pa.Base.{
  ℕ, zero, suc, ◌+◌, ◌-◌, ◌%◌, ◌^◌, ◌≤◌, ◌<◌, ◌≡◌, ◌≢◌, refl, ap, sym, ◌∙◌, true, false, List, [],
  ◌∷◌, ◌++◌, Option, none, some, ltb, leb, ◌==◌, if◌then◌else◌, if_true, if_false, length, get_or,
  set, drop, add32, get_or-set, get_or-replicate, length-set, length-replicate, ==_false, arith,
  Bool-cases, inl, inr, ==_iff, leb→le, min,
}
use ap_pa.Klog.{Klog, Entry, Level, blank, klog_init, log_message, klog_get_entry, current_size}
use ap_pa.CString.Compare.{IsText}
use ap_pa.CString.Copy.{padded, strncpy-padded}

-- The log after the messages of `hist`, the newest first, as long as the counter does not wrap.
pub record IsLog (s : Klog) (hist : List Entry) : Type 0 where
  pub count : s.log_count ≡ length hist
  pub head : s.log_head ≡ length hist % 256
  pub stored : length s.log_buffer ≡ 256
  pub messages : (i : ℕ) → length (get_or s.log_buffer i blank).message ≡ 128
  pub recent :
      (j : ℕ)
      → j < 256
      → j < length hist
      → get_or s.log_buffer ((length hist - 1 - j) % 256) blank ≡ get_or hist j blank

pub klog_init-IsLog : IsLog klog_init []
unfolding klog_init
klog_init-IsLog = record {
  count = refl;
  head = refl;
  stored = length-replicate 256 blank;
  messages = λ i. rw (get_or-replicate 256 blank i) refl;
  recent = λ j lt no. absurd (omega arith);
}

drop_last : (n : ℕ) (l : List ℕ) → length l ≡ suc n → drop n l ≡ get_or l n 0 ∷ []
drop_last n [] e = absurd (omega arith)
drop_last zero (x ∷ []) e = refl
drop_last zero (x ∷ y ∷ l) e = absurd (omega arith)
drop_last (suc n) (x ∷ l) e = drop_last n l (omega arith)

set-padded :
    (n : ℕ) (s : List ℕ) (x : ℕ) → length s ≤ n → set (padded n s ++ x ∷ []) n 0 ≡ padded (suc n) s
set-padded zero [] x h = refl
set-padded zero (c ∷ s) x h = absurd (omega arith)
set-padded (suc n) [] x h = ap (λ l. 0 ∷ l) (set-padded n [] x (omega arith))
set-padded (suc n) (c ∷ s) x h = ap (λ l. c ∷ l) (set-padded n s x (omega arith))

length-padded : (n : ℕ) (s : List ℕ) → length (padded n s) ≡ n
length-padded zero s = refl
length-padded (suc n) [] = ap suc (length-padded n [])
length-padded (suc n) (c ∷ s) = ap suc (length-padded n s)

-- The entry of a message.
abbrev pub entry_of : Klog → Level → List ℕ → Entry
entry_of s level text = record {
  level = level;
  message = padded 128 text;
  timestamp = s.current_timestamp;
}

-- The ring with one entry more.
abbrev pub pushed : Klog → Entry → Klog
pushed s e = record {
  log_buffer = set s.log_buffer s.log_head e;
  log_head = (s.log_head + 1) % 256;
  log_count = add32 s.log_count 1;
  current_timestamp = add32 s.current_timestamp 1;
}

abbrev with_message : Klog → Level → List ℕ → Entry
with_message s level message = record {
  level = level;
  message = message;
  timestamp = s.current_timestamp;
}

log_message-pushed :
    (s : Klog) (level : Level) (text : List ℕ) (hist : List Entry)
    → IsLog s hist
    → IsText text
    → length text < 128
    → log_message s level text ≡ some (pushed s (entry_of s level text))
unfolding log_message
log_message-pushed s level text hist v t h =
    let old = (get_or s.log_buffer s.log_head blank).message in
    let copied = strncpy-padded 127 old text [] t (omega (arith, v.messages s.log_head)) in
    let fits : leb 128 (length text) ≡ false = ground arith in
    let tail = drop_last 127 old (v.messages s.log_head) in
    let last = set-padded 127 text (get_or old 127 0) (omega arith) in
    if_false _ _ _ fits
    ∙ ap
        (λ o. elim o as (λ o. Option Klog) [
          | none ↦ none
          | some message ↦ some (pushed s (with_message s level (set message 127 0)))
        ])
        (copied ∙ ap (λ rest. some (padded 127 text ++ rest)) tail)
    ∙ ap (λ message. some (pushed s (with_message s level message))) last

pushed_recent :
    (s : Klog) (e : Entry) (hist : List Entry)
    → IsLog s hist
    → s.log_head < length s.log_buffer
    → (j : ℕ) → j < 256
    → j < suc (length hist)
    → get_or (set s.log_buffer s.log_head e) ((length hist - j) % 256) blank
      ≡ get_or (e ∷ hist) j blank
pushed_recent s e hist v slot zero lt inside =
    let here : (s.log_head == (length hist - 0) % 256) ≡ true =
      (==_iff _ _).1 (omega (arith, v.head)) in
    get_or-set s.log_buffer s.log_head ((length hist - 0) % 256) e blank slot ∙ if_true _ _ _ here
pushed_recent s e hist v slot (suc k) lt inside =
    let i = (length hist - suc k) % 256 in
    let there : i ≡ (length hist - 1 - k) % 256 = omega arith in
    let apart : s.log_head ≢ i = omega (arith, v.head) in
    get_or-set s.log_buffer s.log_head i e blank slot
    ∙ if_false _ _ _ (==_false s.log_head i apart)
    ∙ ap (λ i. get_or s.log_buffer i blank) there
    ∙ v.recent k (omega arith) (omega arith)

pushed-IsLog :
    (s : Klog) (e : Entry) (hist : List Entry)
    → IsLog s hist
    → length hist < 2 ^ 32 - 1
    → length e.message ≡ 128
    → IsLog (pushed s e) (e ∷ hist)
pushed-IsLog s e hist v h size =
    let slot : s.log_head < length s.log_buffer = omega (arith, v.head, v.stored) in
    record {
      count = omega (arith, v.count);
      head = omega (arith, v.head);
      stored = length-set s.log_buffer s.log_head e ∙ v.stored;
      messages = λ i. elim (Bool-cases (s.log_head == i)) [
        | inl q ↦ rw (get_or-set s.log_buffer s.log_head i e blank slot, q) size
        | inr q ↦ rw (get_or-set s.log_buffer s.log_head i e blank slot, q) (v.messages i)
      ];
      recent = λ j lt inside.
          let behind : (suc (length hist) - 1 - j) % 256 ≡ (length hist - j) % 256 = omega arith in
          ap (λ i. get_or (set s.log_buffer s.log_head e) i blank) behind
          ∙ pushed_recent s e hist v slot j lt inside;
    }

-- On a log of the messages `hist`, storing a text of at most 127 characters puts it in front of them,
-- cut to its text and filled with NULs, whether or not the ring is full; nothing is written outside.
pub log_message-IsLog :
    (s : Klog) (level : Level) (text : List ℕ) (hist : List Entry)
    → IsLog s hist
    → IsText text
    → length text < 128
    → length hist < 2 ^ 32 - 1
    → (s' : Klog) × (log_message s level text ≡ some s') × IsLog s' (entry_of s level text ∷ hist)
log_message-IsLog s level text hist v t h few =
    let e = entry_of s level text in
    (
      pushed s e,
      log_message-pushed s level text hist v t h,
      pushed-IsLog s e hist v few (length-padded 128 text),
    )

-- On a log of the messages `hist`, `klog_get_entry` finds exactly the last 256 of them, or all if there
-- are fewer, the oldest of these at index 0.
pub klog_get_entry-recent :
    (s : Klog) (hist : List Entry) (index : ℕ)
    → IsLog s hist
    → klog_get_entry s index ≡ (
        if ltb index (min (length hist) 256)
        then some (get_or hist (min (length hist) 256 - 1 - index) blank)
        else none)
unfolding klog_get_entry current_size
klog_get_entry-recent s hist index v =
    let n = length hist in
    let size : (if ltb s.log_count 256 then s.log_count else 256) ≡ min n 256 =
      ground (arith, v.count) in
    elim (Bool-cases (ltb index (min n 256))) [
      | inl inside ↦
          let lt : index < min n 256 = ground arith in
          let tested : leb (if ltb s.log_count 256 then s.log_count else 256) index ≡ false =
            ap (λ k. leb k index) size ∙ ground arith in
          if_false _ _ _ tested ∙ ap some (found lt) ∙ sym (if_true _ _ _ inside)
      | inr outside ↦
          let tested : leb (if ltb s.log_count 256 then s.log_count else 256) index ≡ true =
            ap (λ k. leb k index) size ∙ ground arith in
          if_true _ _ _ tested ∙ sym (if_false _ _ _ outside)
    ]
  where
    slot :
        index < min (length hist) 256
        → ((if leb s.log_count 256 then 0 else s.log_head) + index) % 256
          ≡ (length hist - 1 - (min (length hist) 256 - 1 - index)) % 256
    slot lt = elim (Bool-cases (leb s.log_count 256)) [
      | inl e ↦
          let few : length hist ≤ 256 = omega (arith, leb→le s.log_count 256 e, v.count) in
          ap (λ b. (b + index) % 256) (if_true (leb s.log_count 256) 0 s.log_head e) ∙ omega arith
      | inr e ↦
          let many : 256 < length hist = ground (arith, v.count) in
          ap (λ b. (b + index) % 256) (if_false (leb s.log_count 256) 0 s.log_head e)
          ∙ omega (arith, v.head)
    ]

    found :
        index < min (length hist) 256
        → get_or s.log_buffer
            (((if leb s.log_count 256 then 0 else s.log_head) + index) % 256)
            blank
          ≡ get_or hist (min (length hist) 256 - 1 - index) blank
    found lt =
        ap (λ i. get_or s.log_buffer i blank) (slot lt)
        ∙ v.recent (min (length hist) 256 - 1 - index) (omega arith) (omega arith)
