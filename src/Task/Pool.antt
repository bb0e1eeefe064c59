-- ===== src/Task/Pool.antt =====
-- The invariant of the pool: the queue, the stacks, and the slots that are free.
use ap_pa.Base.{
  ℕ, ◌+◌, ◌/◌, ◌%◌, ◌<◌, ◌≡◌, ◌≢◌, Bool, true, false, not, sym, ap, ◌∙◌, List, [], ◌∷◌, ◌++◌, arith,
  length, length-append, ◌==◌, ==_iff, ==_false, if◌then◌else◌, null,
}
use mathlib.Core.Path.{subst}
use mathlib.Core.List.{append_assoc}
use native.Mathlib.Decide.{ℕ_discrete}
use ap_pa.Pmm.{Pmm, test_frame}
use ap_pa.Pmm.Count.{IsPmm, count, count_add, count_ext}
use ap_pa.Sched.Queue.{NotIn, IsQueue, NotIn-left, Queued, NotIn-snoc}
use ap_pa.Task.{Image, Tasks, Tcb, slot, blank_tcb}

-- The pool lies in memory, apart from null and from the idle task.
pub record IsImage (k : Image) : Type 0 where
  pub pool : k.task_pool ≢ null
  pub apart : (i : ℕ) → i < 64 → slot k i ≢ k.boot_task

abbrev pub stack_of : Image → Tasks → ℕ → ℕ
stack_of k s i = (s.tcbs (slot k i)).kernel_stack

abbrev pub in_use : Image → Tasks → ℕ → Bool
in_use k s i = not (stack_of k s i == 0)

-- A page of the allocator.
pub record IsPage (p : Pmm) (a : ℕ) : Type 0 where
  pub aligned : a % 4096 ≡ 0
  pub low : a / 4096 < 4096
  pub taken : test_frame p (a / 4096) ≡ true

-- A task holds the slot when it has a kernel stack. The queue `l` holds these tasks and the idle one.
pub record IsTasks (k : Image) (s : Tasks) (l : List ℕ) : Type 0 where
  pub queue : IsQueue s.sched l
  pub valid : IsPmm s.paging.pmm
  pub reserved : test_frame s.paging.pmm 0 ≡ true
  pub idle : NotIn k.boot_task l → ⊥
  pub out : (i : ℕ) → i < 64 → stack_of k s i ≡ 0 → NotIn (slot k i) l
  pub queued : (i : ℕ) → i < 64 → stack_of k s i ≢ 0 → Queued (slot k i) l
  pub counted : length l ≡ 1 + count 64 (in_use k s)
  pub blank : (i : ℕ) → i < 64 → stack_of k s i ≡ 0 → s.tcbs (slot k i) ≡ blank_tcb
  pub spaces : (i : ℕ) → i < 64 → stack_of k s i ≡ 0 → (s.sched.tasks (slot k i)).cr3 ≡ 0
  pub names : (i : ℕ) → i < 64 → length (s.tcbs (slot k i)).name ≡ 32
  pub stacks : (i : ℕ) → i < 64 → stack_of k s i ≢ 0 → IsPage s.paging.pmm (stack_of k s i)
  pub own :
      (i j : ℕ) → i < 64 → j < 64 → i ≢ j → stack_of k s i ≢ 0 → stack_of k s i ≢ stack_of k s j

pub slot-ne : (k : Image) (i j : ℕ) → i ≢ j → slot k i ≢ slot k j
slot-ne k i j ne e = ne (omega arith)

-- Only the control block in slot `i` may have changed.
abbrev pub Others : Image → ℕ → Tasks → Tasks → Type 0
Others k i s s' = (u : ℕ) → u ≢ slot k i → s'.tcbs u ≡ s.tcbs u

-- The directories of the other tasks.
abbrev pub SameSpaces : Image → ℕ → Tasks → Tasks → Type 0
SameSpaces k i s s' = (u : ℕ) → u ≢ slot k i → (s'.sched.tasks u).cr3 ≡ (s.sched.tasks u).cr3

-- What holds of the other slots holds still.
module _ (k : Image) (i : ℕ) (s s' : Tasks) (same : Others k i s s') where
  pub tcb-same : (j : ℕ) → i ≢ j → s'.tcbs (slot k j) ≡ s.tcbs (slot k j)
  tcb-same j ne = same (slot k j) (slot-ne k j i (λ e. ne (sym e)))

  pub stack-same : (j : ℕ) → i ≢ j → stack_of k s' j ≡ stack_of k s j
  stack-same j ne = ap {A = Tcb} (λ t. t.kernel_stack) (tcb-same j ne)

  pub names-same :
      ((j : ℕ) → j < 64 → length (s.tcbs (slot k j)).name ≡ 32)
      → length (s'.tcbs (slot k i)).name ≡ 32
      → (j : ℕ) → j < 64
      → length (s'.tcbs (slot k j)).name ≡ 32
  names-same old new j lt = elim (ℕ_discrete i j) [
    | yes e ↦ subst (λ j. length (s'.tcbs (slot k j)).name ≡ 32) e new
    | no ne ↦ ap {A = Tcb} (λ t. length t.name) (tcb-same j ne) ∙ old j lt
  ]

Queued-snoc : (t : ℕ) (l : List ℕ) (u : ℕ) → Queued t l → Queued t (l ++ u ∷ [])
Queued-snoc t l u (xs, ys, e) =
    (xs, ys ++ u ∷ [], ap (λ l. l ++ u ∷ []) e ∙ append_assoc xs (t ∷ ys) (u ∷ []))

-- A task with the stack `stack`, which was a free page, moves into the free slot `i`.
pub IsTasks-filled :
    {k : Image} {s : Tasks} {l : List ℕ}
    → IsTasks k s l
    → (i : ℕ) → i < 64
    → stack_of k s i ≡ 0
    → (s' : Tasks) → Others k i s s'
    → IsQueue s'.sched (l ++ slot k i ∷ [])
    → IsPmm s'.paging.pmm
    → ((g : ℕ) → test_frame s.paging.pmm g ≡ true → test_frame s'.paging.pmm g ≡ true)
    → test_frame s.paging.pmm (stack_of k s' i / 4096) ≡ false
    → IsPage s'.paging.pmm (stack_of k s' i)
    → stack_of k s' i ≢ 0
    → length (s'.tcbs (slot k i)).name ≡ 32
    → SameSpaces k i s s'
    → IsTasks k s' (l ++ slot k i ∷ [])
IsTasks-filled {k = k} {s = s} {l = l} v i lt free s' same q pmm kept fresh page nz name space =
    record {
      queue = q;
      valid = pmm;
      reserved = kept 0 v.reserved;
      idle = λ n. v.idle (NotIn-left k.boot_task l (slot k i ∷ []) n);
      out = λ j h e. elim (ℕ_discrete i j) [
        | yes at ↦ absurd (nz (ap (stack_of k s') at ∙ e))
        | no ne ↦
            NotIn-snoc (slot k j) l (slot k i) (v.out j h (sym (stack-same k i s s' same j ne) ∙ e))
              (slot-ne k j i (λ e. ne (sym e)))
      ];
      queued = λ j h used. elim (ℕ_discrete i j) [
        | yes at ↦ (l, [], ap (λ j. l ++ slot k j ∷ []) at)
        | no ne ↦
            Queued-snoc (slot k j) l (slot k i)
              (v.queued j h (λ e. used (stack-same k i s s' same j ne ∙ e)))
      ];
      counted = omega (
        arith,
        v.counted,
        length-append l (slot k i ∷ []),
        count_add 64 i (in_use k s) (in_use k s') lt (ap (λ n. not (n == 0)) free) marks,
      );
      blank = λ j h e. elim (ℕ_discrete i j) [
        | yes at ↦ absurd (nz (ap (stack_of k s') at ∙ e))
        | no ne ↦
            tcb-same k i s s' same j ne ∙ v.blank j h (sym (stack-same k i s s' same j ne) ∙ e)
      ];
      spaces = λ j h e. elim (ℕ_discrete i j) [
        | yes at ↦ absurd (nz (ap (stack_of k s') at ∙ e))
        | no ne ↦
            space (slot k j) (slot-ne k j i (λ e. ne (sym e)))
            ∙ v.spaces j h (sym (stack-same k i s s' same j ne) ∙ e)
      ];
      names = names-same k i s s' same v.names name;
      stacks = λ j h used. elim (ℕ_discrete i j) [
        | yes at ↦ subst (λ j. IsPage s'.paging.pmm (stack_of k s' j)) at page
        | no ne ↦
            rw (stack-same k i s s' same j ne)
              (still j h (rw (stack-same k i s s' same j ne) at used))
      ];
      own = λ j m h g ne used e. elim (ℕ_discrete i j) [
        | yes at ↦ absurd (clash m g (λ x. ne (sym at ∙ x)) (ap (stack_of k s') at ∙ e))
        | no nj ↦ elim (ℕ_discrete i m) [
          | yes at ↦ absurd (clash j h nj (ap (stack_of k s') at ∙ sym e))
          | no nm ↦
              v.own j m h g ne (λ x. used (stack-same k i s s' same j nj ∙ x))
                (sym (stack-same k i s s' same j nj) ∙ e ∙ stack-same k i s s' same m nm)
        ]
      ];
    }
  where
    marks : (g : ℕ) → in_use k s' g ≡ (if i == g then true else in_use k s g)
    marks g = elim (ℕ_discrete i g) [
      | yes at ↦
          rw ((==_iff i g).1 at)
            (ap not (==_false (stack_of k s' g) 0 (λ e. nz (ap (stack_of k s') at ∙ e))))
      | no ne ↦ rw (==_false i g ne) (ap (λ n. not (n == 0)) (stack-same k i s s' same g ne))
    ]

    still : (j : ℕ) → j < 64 → stack_of k s j ≢ 0 → IsPage s'.paging.pmm (stack_of k s j)
    still j h used =
        let p = v.stacks j h used in
        record { aligned = p.aligned; low = p.low; taken = kept (stack_of k s j / 4096) p.taken }

    clash : (j : ℕ) → j < 64 → i ≢ j → stack_of k s' i ≢ stack_of k s' j
    clash j h ne e =
        let old = sym (stack-same k i s s' same j ne) in
        let p = v.stacks j h (λ x. nz (e ∙ sym old ∙ x)) in
        let both : false ≡ true =
          sym fresh ∙ ap (λ a. test_frame s.paging.pmm (a / 4096)) (e ∙ sym old) ∙ p.taken in
        cc

-- Slot `i`, which no task holds, is cleared, and the queue is as it was.
pub IsTasks-cleared :
    {k : Image} {s : Tasks} {l : List ℕ}
    → IsTasks k s l
    → (i : ℕ) → i < 64
    → stack_of k s i ≡ 0
    → (s' : Tasks) → Others k i s s'
    → IsQueue s'.sched l
    → s'.paging.pmm ≡ s.paging.pmm
    → s'.tcbs (slot k i) ≡ blank_tcb
    → (s'.sched.tasks (slot k i)).cr3 ≡ 0
    → SameSpaces k i s s'
    → IsTasks k s' l
IsTasks-cleared {k = k} {s = s} {l = l} v i lt free s' same q pmm none cr3 space = record {
  queue = q;
  valid = rw pmm v.valid;
  reserved = rw pmm v.reserved;
  idle = v.idle;
  out = λ j h e. v.out j h (sym (stacks_same j) ∙ e);
  queued = λ j h used. v.queued j h (λ e. used (stacks_same j ∙ e));
  counted = omega (
    arith,
    v.counted,
    count_ext 64 (in_use k s) (in_use k s') (λ j _. ap (λ n. not (n == 0)) (sym (stacks_same j))),
  );
  blank = λ j h e. elim (ℕ_discrete i j) [
    | yes at ↦ subst (λ j. s'.tcbs (slot k j) ≡ blank_tcb) at none
    | no ne ↦ tcb-same k i s s' same j ne ∙ v.blank j h (sym (stacks_same j) ∙ e)
  ];
  spaces = λ j h e. elim (ℕ_discrete i j) [
    | yes at ↦ subst (λ j. (s'.sched.tasks (slot k j)).cr3 ≡ 0) at cr3
    | no ne ↦
        space (slot k j) (slot-ne k j i (λ e. ne (sym e))) ∙ v.spaces j h (sym (stacks_same j) ∙ e)
  ];
  names = names-same k i s s' same v.names (ap {A = Tcb} (λ t. length t.name) none);
  stacks = λ j h used. rw (stacks_same j, pmm) (v.stacks j h (λ e. used (stacks_same j ∙ e)));
  own = λ j m h g ne used e.
      v.own j m h g ne (λ x. used (stacks_same j ∙ x)) (sym (stacks_same j) ∙ e ∙ stacks_same m);
}
  where
    stacks_same : (j : ℕ) → stack_of k s' j ≡ stack_of k s j
    stacks_same j = elim (ℕ_discrete i j) [
      | yes at ↦
          subst (λ j. stack_of k s' j ≡ stack_of k s j) at
            (ap {A = Tcb} (λ t. t.kernel_stack) none ∙ sym free)
      | no ne ↦ stack-same k i s s' same j ne
    ]
