-- ===== src/Task/Create.antt =====
-- `task_create`: the slot, the name, the stack and the place in the queue.
use ap_pa.Base.{
  ℕ, zero, suc, ◌+◌, ◌≤◌, ◌<◌, ◌≡◌, ◌≢◌, true, false, ◌&&◌, inl, inr, refl, sym, ap, ◌∙◌, List, [],
  ◌∷◌, ◌++◌, arith, length, length-append, ◌==◌, Bool-cases, if_true, if_false, null, some, add32,
  set, drop, range_first, ◌⊎◌, replicate,
}
use mathlib.Core.Option
use ap_pa.CString.{strncpy}
use ap_pa.CString.Compare.{IsText}
use ap_pa.CString.Copy.{padded, strncpy-padded}
use ap_pa.Task.{Image, Tasks, Tcb, slot, is_free, tcb_loop, alloc_tcb, identify, set_tcb, blank_tcb}
use ap_pa.Task.Pool.{IsTasks, stack_of}

-- Which slot `alloc_tcb` finds.
pub data Slot (k : Image) (s : Tasks) : ℕ → Type 0 where
  all_used : {a : ℕ} → a ≡ null → ((j : ℕ) → j < 64 → stack_of k s j ≢ 0) → Slot k s a
  found :
      (i : ℕ) {a : ℕ}
      → a ≡ slot k i
      → i < 64
      → stack_of k s i ≡ 0
      → ((j : ℕ) → j < i → stack_of k s j ≢ 0)
      → Slot k s a

tcb_loop-null :
    (n : ℕ) (k : Image) (tcbs : ℕ → Tcb) (i : ℕ)
    → ((tcb_loop n k tcbs i ≡ null)
        × ((j : ℕ) → i ≤ j → j < i + n → is_free (tcbs (slot k j)) ≡ false))
      ⊎ ((f : ℕ) × (tcb_loop n k tcbs i ≡ slot k f)
          × (i ≤ f)
          × (f < i + n)
          × (is_free (tcbs (slot k f)) ≡ true)
          × ((j : ℕ) → i ≤ j → j < f → is_free (tcbs (slot k j)) ≡ false))
unfolding tcb_loop
tcb_loop-null zero k tcbs i = inl (refl, λ j le lt. absurd (omega arith))
tcb_loop-null (suc n) k tcbs i = elim (Bool-cases (is_free (tcbs (slot k i)))) [
  | inl e ↦ inr (i, if_true _ _ _ e, omega arith, omega arith, e, λ j le lt. absurd (omega arith))
  | inr e ↦ elim (tcb_loop-null n k tcbs (i + 1)) [
    | inl (e0, free) ↦ inl (
      if_false _ _ _ e ∙ e0,
      range_first (λ j. is_free (tcbs (slot k j)) ≡ false) i (i + suc n) e
          (λ j le lt. free j le (omega arith)),
    )
    | inr (f, at, le, lt, free, before) ↦ inr (
      f,
      if_false _ _ _ e ∙ at,
      omega arith,
      omega arith,
      free,
      range_first (λ j. is_free (tcbs (slot k j)) ≡ false) i f e before,
    )
  ]
]

is_free_used : (t : Tcb) → (t.kernel_stack ≡ 0 → t.id ≡ 0) → is_free t ≡ false → t.kernel_stack ≢ 0
unfolding is_free
is_free_used t blank h e =
    let both : (t.id == 0 && t.kernel_stack == 0) ≡ true = rw (blank e, e) refl in
    let clash : false ≡ true = sym h ∙ both in cc

is_free_stack : (t : Tcb) → is_free t ≡ true → t.kernel_stack ≡ 0
unfolding is_free
is_free_stack t h = ground arith

pub alloc_tcb-Slot : {k : Image} {s : Tasks} {l : List ℕ} → IsTasks k s l → Slot k s (alloc_tcb k s)
unfolding alloc_tcb
alloc_tcb-Slot {k = k} {s = s} v = elim (tcb_loop-null 64 k s.tcbs 0) [
  | inl (e, used) ↦ all_used e (λ j lt.
      is_free_used (s.tcbs (slot k j)) (λ z. ap {A = Tcb} (λ t. t.id) (v.blank j lt z))
        (used j (omega arith) lt))
  | inr (f, e, le, lt, free, before) ↦ found f e lt (is_free_stack (s.tcbs (slot k f)) free) (λ j h.
      is_free_used (s.tcbs (slot k j)) (λ z. ap {A = Tcb} (λ t. t.id) (v.blank j (omega arith) z))
        (before j (omega arith) h))
]

-- The name that a task keeps: at most 31 characters, filled up with NULs.
abbrev pub name_of : List ℕ → List ℕ
name_of text = padded 31 text ++ 0 ∷ []

length-padded : (n : ℕ) (s : List ℕ) → length (padded n s) ≡ n
length-padded zero s = refl
length-padded (suc n) [] = ap suc (length-padded n [])
length-padded (suc n) (c ∷ s) = ap suc (length-padded n s)

pub length-name_of : (text : List ℕ) → length (name_of text) ≡ 32
length-name_of text = length-append (padded 31 text) (0 ∷ []) ∙ omega (arith, length-padded 31 text)

set-append :
    (xs : List ℕ) (n : ℕ) (c d : ℕ) (ys : List ℕ)
    → length xs ≡ n
    → set (xs ++ c ∷ ys) n d ≡ xs ++ d ∷ ys
set-append [] zero c d ys e = refl
set-append [] (suc n) c d ys e = absurd (omega arith)
set-append (x ∷ xs) zero c d ys e = absurd (omega arith)
set-append (x ∷ xs) (suc n) c d ys e = ap (λ l. x ∷ l) (set-append xs n c d ys (omega arith))

name_of_lem : (text : List ℕ) → set (padded 31 text ++ drop 31 (replicate 32 0)) 31 0 ≡ name_of text
name_of_lem text = set-append (padded 31 text) 31 0 0 [] (length-padded 31 text)

-- The task with its id and its name.
abbrev pub named : Tasks → ℕ → List ℕ → Tasks
named s t text = record s {
  next_task_id = add32 s.next_task_id 1;
  tcbs = set_tcb s.tcbs t (record (s.tcbs t) { id = add32 s.next_task_id 1; name = name_of text });
}

pub identify-named :
    (s : Tasks) (t : ℕ) (text r : List ℕ)
    → IsText text
    → s.tcbs t ≡ blank_tcb
    → identify s t (text ++ 0 ∷ r) ≡ some (named s t text)
unfolding identify
identify-named s t text r ok blank =
    let name = ap {A = Tcb} (λ t. t.name) blank in
    ap
      (λ o.
        Option.map
          (λ copied. record s {
            next_task_id = add32 s.next_task_id 1;
            tcbs =
                set_tcb s.tcbs t
                  (record (s.tcbs t) { id = add32 s.next_task_id 1; name = set copied 31 0 });
          })
          o)
      (ap (λ n. strncpy n (text ++ 0 ∷ r) 31) name
        ∙ strncpy-padded 31 (replicate 32 0) text r ok (omega arith)
        ∙ refl)
    ∙ ap
        (λ n. some (record s {
          next_task_id = add32 s.next_task_id 1;
          tcbs = set_tcb s.tcbs t (record (s.tcbs t) { id = add32 s.next_task_id 1; name = n });
        }))
        (name_of_lem text)
