-- ===== src/Timer/Run.antt =====
-- Timer interrupts, any number of them.
use ap_pa.Base.{
  ℕ, zero, suc, ◌+◌, ◌%◌, ◌^◌, ◌<◌, ◌≡◌, inl, inr, refl, sym, ap, ◌∙◌, arith, List, [], ◌∷◌, ◌++◌,
  Option, none, some, Bool-cases, if◌then◌else◌, if_true, if_false, leb, ◌&&◌, add32, ◌⊎◌, get_or,
  drop, Bool, true, false,
}
use mathlib.Core.Path.{subst}
use mathlib.Core.List.{append_assoc}
use mathlib.Core.Option
use ap_pa.Sched.{Task, Sched, schedule, runnable, switch_to, sched_yield}
use ap_pa.Sched.Queue.{IsQueue, Queued}
use ap_pa.Sched.Pick.{first_ready, pick_next_ready-round_robin}
use ap_pa.Sched.Tick.{
  IsOneRunning, schedule-Ticked, switch_to-Switched, sched_yield-some, Switched-IsQueue,
}
use ap_pa.Timer.{Timer, timer_handler}

-- `n` timer interrupts.
pub interrupts : ℕ → Timer → Option Timer
interrupts zero t = some t
interrupts (suc n) t = elim (timer_handler t) as (λ o. Option Timer) [
  | none ↦ none
  | some t' ↦ interrupts n t'
]

-- The queue holds the tasks `l`, the current one among them, which is the only one running.
pub record Scheduled (s : Sched) (l : List ℕ) : Type 0 where
  pub queue : IsQueue s l
  pub one : IsOneRunning s
  pub member : Queued s.current_task l

Queued-cons : (t x : ℕ) (l : List ℕ) → Queued t l → Queued t (x ∷ l)
Queued-cons t x l (xs, ys, e) = (x ∷ xs, ys, ap (λ l. x ∷ l) e)

Queued-right : (t : ℕ) (us vs : List ℕ) → Queued t vs → Queued t (us ++ vs)
Queued-right t [] vs m = m
Queued-right t (u ∷ us) vs m = Queued-cons t u (us ++ vs) (Queued-right t us vs m)

Queued-left : (t : ℕ) (us vs : List ℕ) → Queued t us → Queued t (us ++ vs)
Queued-left t us vs (xs, ys, e) = (xs, ys ++ vs, ap (λ l. l ++ vs) e ∙ append_assoc xs (t ∷ ys) vs)

-- The first ready task is in the list, or there is none.
first_ready-Queued :
    (tasks : ℕ → Task) (l : List ℕ) (d : ℕ)
    → (first_ready tasks l d ≡ d) ⊎ Queued (first_ready tasks l d) l
first_ready-Queued tasks [] d = inl refl
first_ready-Queued tasks (x ∷ l) d = elim (Bool-cases (runnable tasks x)) [
  | inl e ↦ inr (
      subst (λ t. Queued t (x ∷ l)) (sym (if_true (runnable tasks x) x (first_ready tasks l d) e))
        ([], l, refl))
  | inr e ↦
      let same = sym (if_false (runnable tasks x) x (first_ready tasks l d) e) in
      elim (first_ready-Queued tasks l d) [
        | inl h ↦ inl (sym same ∙ h)
        | inr m ↦
            inr (subst (λ t. Queued t (x ∷ l)) same (Queued-cons (first_ready tasks l d) x l m))
      ]
]

Queued-split : (t : ℕ) (ps qs us vs : List ℕ) → ps ++ qs ≡ us ++ t ∷ vs → Queued t ps ⊎ Queued t qs
Queued-split t [] qs us vs e = inr (us, vs, e)
Queued-split t (a ∷ ps) qs [] vs e = inl ([], ps, ap (λ h. h ∷ ps) (ap (λ l. get_or l 0 t) e))
Queued-split t (a ∷ ps) qs (u ∷ us) vs e = elim (Queued-split t ps qs us vs (ap (drop 1) e)) [
  | inl m ↦ inl (Queued-cons t a ps m)
  | inr m ↦ inr m
]

-- The parts of a queue round the current task, the other way round.
Queued-turned :
    (t : ℕ) (xs : List ℕ) (c : ℕ) (ys : List ℕ)
    → Queued t (ys ++ (xs ++ c ∷ []))
    → Queued t (xs ++ c ∷ ys)
Queued-turned t xs c ys (us, vs, e) = elim (Queued-split t ys (xs ++ c ∷ []) us vs e) [
  | inl m ↦ Queued-right t xs (c ∷ ys) (Queued-cons t c ys m)
  | inr (us, vs, e) ↦
      subst (Queued t) (append_assoc xs (c ∷ []) ys) (Queued-left t (xs ++ c ∷ []) ys (us, vs, e))
]

chosen-Queued :
    (s : Sched) (xs ys : List ℕ)
    → let c = s.current_task in Queued (first_ready s.tasks (ys ++ (xs ++ c ∷ [])) c) (xs ++ c ∷ ys)
chosen-Queued s xs ys =
    let c = s.current_task in
    elim (first_ready-Queued s.tasks (ys ++ (xs ++ c ∷ [])) c) [
      | inl same ↦ subst (λ t. Queued t (xs ++ c ∷ ys)) (sym same) (xs, ys, refl)
      | inr m ↦ Queued-turned (first_ready s.tasks (ys ++ (xs ++ c ∷ [])) c) xs c ys m
    ]

schedule-Scheduled :
    (s : Sched) (l : List ℕ)
    → Scheduled s l
    → (s' : Sched) × (schedule s ≡ some s') × Scheduled s' l
schedule-Scheduled s l w =
    let (xs, ys, e) = w.member in
    let c = s.current_task in
    let chosen = first_ready s.tasks (ys ++ (xs ++ c ∷ [])) c in
    let (s', run, t) = schedule-Ticked s xs ys (subst (IsQueue s) e w.queue) w.one in
    let here : Queued chosen (xs ++ c ∷ ys) = chosen-Queued s xs ys in
    let now : Queued s'.current_task (xs ++ c ∷ ys) =
      subst (λ t. Queued t (xs ++ c ∷ ys)) (sym t.front)
        (choose (s.scheduler_on && leb s.slice_remaining 1) here (xs, ys, refl)) in
    (
      s',
      run,
      record {
        queue = subst (IsQueue s') (sym e) t.queue;
        one = t.one;
        member = subst (Queued s'.current_task) (sym e) now;
      },
    )
  where
    choose :
        {l : List ℕ} {a b : ℕ} (p : Bool) → Queued a l → Queued b l → Queued (if p then a else b) l
    choose true m n = m
    choose false m n = n

-- So does a yield of the processor.
pub sched_yield-Scheduled :
    (s : Sched) (l : List ℕ)
    → Scheduled s l
    → (s' : Sched) × (sched_yield s ≡ some s') × Scheduled s' l
sched_yield-Scheduled s l w =
    let (xs, ys, e) = w.member in
    let c = s.current_task in
    let chosen = first_ready s.tasks (ys ++ (xs ++ c ∷ [])) c in
    let q = subst (IsQueue s) e w.queue in
    let sw = switch_to-Switched s chosen w.one in
    (
      switch_to s chosen,
      sched_yield-some s chosen (pick_next_ready-round_robin s xs ys q),
      record {
        queue = Switched-IsQueue s (switch_to s chosen) chosen l sw w.queue;
        one = sw.one;
        member =
            subst (λ t. Queued t l) (sym sw.front)
              (subst (Queued chosen) (sym e) (chosen-Queued s xs ys));
      },
    )

timer_handler-some :
    (t : Timer) (sched : Sched)
    → schedule t.sched ≡ some sched
    → timer_handler t ≡ some (record { timer_ticks = add32 t.timer_ticks 1; sched = sched })
unfolding timer_handler
timer_handler-some t sched e =
    ap (λ o. Option.map (λ sched. record { timer_ticks = add32 t.timer_ticks 1; sched = sched }) o)
      e

-- Any number of timer interrupts, from a scheduler whose only running task is the current one of the
-- queue, all return; the queue holds the same tasks in the same order, its current task is again the
-- only one running, and the ticks have gone up by their number, modulo 2 ^ 32.
pub interrupts-Scheduled :
    (n : ℕ) (t : Timer) (l : List ℕ)
    → Scheduled t.sched l
    → t.timer_ticks < 2 ^ 32
    → (t' : Timer) × (interrupts n t ≡ some t')
      × Scheduled t'.sched l
      × (t'.timer_ticks ≡ (t.timer_ticks + n) % 2 ^ 32)
unfolding interrupts
interrupts-Scheduled zero t l w h = (t, refl, w, omega arith)
interrupts-Scheduled (suc n) t l w h =
    let (sched, run, v) = schedule-Scheduled t.sched l w in
    let next : Timer = record { timer_ticks = add32 t.timer_ticks 1; sched = sched } in
    let (t', rest, u, ticks) = interrupts-Scheduled n next l v (omega arith) in
    (
      t',
      ap (λ o. elim o as (λ o. Option Timer) [ none ↦ none | some t' ↦ interrupts n t' ])
            (timer_handler-some t sched run)
          ∙ rest,
      u,
      omega arith,
    )
