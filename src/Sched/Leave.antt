-- ===== src/Sched/Leave.antt =====
-- A yield when no task is running, since the current one has just died.
use ap_pa.Base.{
  ℕ, ◌≡◌, ◌≢◌, inl, inr, refl, sym, ap, ◌∙◌, List, [], ◌∷◌, ◌++◌, true, false, some, ◌==◌, ==_iff,
  ==_false, Bool-cases, if◌then◌else◌, if_true, if_false,
}
use native.Mathlib.Decide.{ℕ_discrete}
use mathlib.Core.Path.{subst}
use ap_pa.Sched.{
  Task, TaskState, Sched, is_running, runnable, switch_to, sched_yield, set_state, sched_time_slice,
}
use ap_pa.Sched.Queue.{Walk-same, IsQueue}
use ap_pa.Sched.Pick.{first_ready, pick_next_ready-round_robin}
use ap_pa.Sched.Tick.{
  IsOneRunning, switch_to-front, set_state-next, set_state-state, sched_yield-some,
}

abbrev pub NoneRunning : Sched → Type 0
NoneRunning s = (t : ℕ) → is_running (s.tasks t).state ≡ false

-- One task of a list may run.
abbrev pub AnyRunnable : (ℕ → Task) → List ℕ → Type 0
AnyRunnable tasks l = (xs ys : List ℕ) × (t : ℕ) × (l ≡ xs ++ t ∷ ys) × (runnable tasks t ≡ true)

first_ready-runnable_at :
    (tasks : ℕ → Task) (xs ys : List ℕ) (t d : ℕ)
    → runnable tasks t ≡ true
    → runnable tasks (first_ready tasks (xs ++ t ∷ ys) d) ≡ true
first_ready-runnable_at tasks [] ys t d h = rw h h
first_ready-runnable_at tasks (x ∷ xs) ys t d h = elim (Bool-cases (runnable tasks x)) [
  | inl e ↦ rw e e
  | inr e ↦ rw e (first_ready-runnable_at tasks xs ys t d h)
]

pub first_ready-runnable :
    (tasks : ℕ → Task) (l : List ℕ) (d : ℕ)
    → AnyRunnable tasks l
    → runnable tasks (first_ready tasks l d) ≡ true
first_ready-runnable tasks l d (xs, ys, t, e, h) =
    subst (λ l. runnable tasks (first_ready tasks l d) ≡ true) (sym e)
      (first_ready-runnable_at tasks xs ys t d h)

-- The scheduler that runs `next`, which no task did.
pub record Resumed (s s' : Sched) (l : List ℕ) (next : ℕ) : Type 0 where
  pub queue : IsQueue s' l
  pub one : IsOneRunning s'
  pub front : s'.current_task ≡ next
  pub states : (t : ℕ) → t ≢ next → (s'.tasks t).state ≡ (s.tasks t).state
  pub slice : s'.slice_remaining ≡ sched_time_slice

switch_to-tasks :
    (s : Sched) (next : ℕ)
    → is_running (s.tasks s.current_task).state ≡ false
    → (next == s.current_task) ≡ false
    → (switch_to s next).tasks ≡ set_state s.tasks next TaskState.running
unfolding switch_to
switch_to-tasks s next r e =
    ap {A = Sched} (λ u. u.tasks) (if_false (next == s.current_task) _ _ e)
    ∙ ap (λ d. set_state d next TaskState.running) (if_false _ _ _ r)

pub switch_to-Resumed :
    (s : Sched) (l : List ℕ) (next : ℕ)
    → IsQueue s l
    → NoneRunning s
    → next ≢ s.current_task
    → Resumed s (switch_to s next) l next
switch_to-Resumed s l next q still ne =
    let off = ==_false next s.current_task ne in
    let tasks = switch_to-tasks s next (still s.current_task) off in
    let (front, head, slice) = switch_to-front s next off in
    let state : (t : ℕ)
        → ((switch_to s next).tasks t).state
          ≡ (if t == next then TaskState.running else (s.tasks t).state) =
      λ t.
        ap {A = ℕ → Task} (λ m. (m t).state) tasks
        ∙ set_state-state s.tasks next TaskState.running t in
    record {
      queue = record {
        circle = rw head (
            Walk-same s.tasks (switch_to s next).tasks s.ready_head l s.ready_head
              (λ t.
                ap {A = ℕ → Task} (λ m. (m t).next) tasks
                ∙ set_state-next s.tasks next TaskState.running t)
              q.circle);
        distinct = q.distinct;
        no_null = q.no_null;
        few = q.few;
      };
      one = record {
        current =
            rw front
              (ap is_running (state next ∙ if_true (next == next) _ _ ((==_iff next next).1 refl)));
        only = λ t h. elim (ℕ_discrete t next) [
          | yes e ↦ e ∙ sym front
          | no ne ↦
              let clash : true ≡ false =
                sym h
                ∙ ap is_running (state t ∙ if_false (t == next) _ _ (==_false t next ne))
                ∙ still t in
              absurd cc
        ];
      };
      front = front;
      states = λ t other. state t ∙ if_false (t == next) _ _ (==_false t next other);
      slice = slice;
    }

-- With no task running and a runnable one in the queue, a yield leaves the current task, which it does
-- not choose, for the first runnable one in round-robin order.
pub sched_yield-Resumed :
    (s : Sched) (xs ys : List ℕ)
    → IsQueue s (xs ++ s.current_task ∷ ys)
    → NoneRunning s
    → runnable s.tasks s.current_task ≡ false
    → AnyRunnable s.tasks (ys ++ (xs ++ s.current_task ∷ []))
    → let next = first_ready s.tasks (ys ++ (xs ++ s.current_task ∷ [])) s.current_task in
      (next ≢ s.current_task)
      × (s' : Sched) × (sched_yield s ≡ some s')
      × Resumed s s' (xs ++ s.current_task ∷ ys) next
sched_yield-Resumed s xs ys q still dead any =
    let l = ys ++ (xs ++ s.current_task ∷ []) in
    let next = first_ready s.tasks l s.current_task in
    let ne : next ≢ s.current_task = λ e.
      let clash : true ≡ false =
        sym (first_ready-runnable s.tasks l s.current_task any) ∙ ap (runnable s.tasks) e ∙ dead in
      cc in
    (
      ne,
      switch_to s next,
      sched_yield-some s next (pick_next_ready-round_robin s xs ys q),
      switch_to-Resumed s (xs ++ s.current_task ∷ ys) next q still ne,
    )
