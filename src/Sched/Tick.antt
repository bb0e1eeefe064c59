-- ===== src/Sched/Tick.antt =====
-- `switch_to` and the timer tick keep the queue, and exactly the current task running.
use ap_pa.Base.{
  ℕ, suc, ◌-◌, ◌≡◌, inl, inr, refl, sym, ap, ◌∙◌, List, [], ◌∷◌, ◌++◌, arith, true, false, not,
  ◌&&◌, Option, none, some, ltb, leb, ◌==◌, ==_ne, ==_iff, Bool-cases, if◌then◌else◌, if_true,
  if_false,
}
use ap_pa.Sched.{
  Task, TaskState, Sched, is_running, pick_next_ready, switch_to, schedule, sched_yield,
  sched_time_slice, set_state,
}
use ap_pa.Sched.Queue.{IsQueue, Walk-same}
use ap_pa.Sched.Pick.{first_ready, pick_next_ready-round_robin}

-- The current task is running, and no other.
pub record IsOneRunning (s : Sched) : Type 0 where
  pub current : is_running (s.tasks s.current_task).state ≡ true
  pub only : (t : ℕ) → is_running (s.tasks t).state ≡ true → t ≡ s.current_task

-- What a call of `switch_to` leaves: the same links, `next` in front with a full slice.
pub record Switched (s s' : Sched) (next : ℕ) : Type 0 where
  pub links : (t : ℕ) → (s'.tasks t).next ≡ (s.tasks t).next
  pub head : s'.ready_head ≡ s.ready_head
  pub front : s'.current_task ≡ next
  pub one : IsOneRunning s'

pub set_state-next :
    (tasks : ℕ → Task) (a : ℕ) (st : TaskState) (t : ℕ)
    → (set_state tasks a st t).next ≡ (tasks t).next
set_state-next tasks a st t = elim (Bool-cases (t == a)) [
  | inl e ↦ rw (e, (==_iff t a).0 e) refl
  | inr e ↦ rw e refl
]

pub set_state-state :
    (tasks : ℕ → Task) (a : ℕ) (st : TaskState) (t : ℕ)
    → (set_state tasks a st t).state ≡ (if t == a then st else (tasks t).state)
set_state-state tasks a st t = elim (Bool-cases (t == a)) [ inl e ↦ rw e refl | inr e ↦ rw e refl ]

switch_to_self : (s : Sched) (next : ℕ) → (next == s.current_task) ≡ true → switch_to s next ≡ s
unfolding switch_to
switch_to_self s next e = if_true _ _ _ e

-- The tasks after a real switch.
swapped : Sched → ℕ → ℕ → Task
swapped s next = set_state (set_state s.tasks s.current_task TaskState.ready) next TaskState.running

switch_to-swapped :
    (s : Sched) (next : ℕ)
    → is_running (s.tasks s.current_task).state ≡ true
    → (next == s.current_task) ≡ false
    → (switch_to s next).tasks ≡ swapped s next
unfolding switch_to swapped
switch_to-swapped s next r e =
    ap {A = Sched} (λ u. u.tasks) (if_false (next == s.current_task) _ _ e)
    ∙ ap (λ d. set_state d next TaskState.running) (if_true _ _ _ r)

pub switch_to-front :
    (s : Sched) (next : ℕ)
    → (next == s.current_task) ≡ false
    → ((switch_to s next).current_task ≡ next)
      × ((switch_to s next).ready_head ≡ s.ready_head)
      × ((switch_to s next).slice_remaining ≡ sched_time_slice)
unfolding switch_to
switch_to-front s next e = rw e (refl, refl, refl)

swapped-next : (s : Sched) (next t : ℕ) → (swapped s next t).next ≡ (s.tasks t).next
unfolding swapped
swapped-next s next t =
    set_state-next (set_state s.tasks s.current_task TaskState.ready) next TaskState.running t
    ∙ set_state-next s.tasks s.current_task TaskState.ready t

swapped-next_runs : (s : Sched) (next : ℕ) → is_running (swapped s next next).state ≡ true
unfolding swapped
swapped-next_runs s next =
    rw
      (
        set_state-state (set_state s.tasks s.current_task TaskState.ready) next TaskState.running
            next,
        (==_iff next next).1 refl,
      )
      refl

swapped-only :
    (s : Sched) (next t : ℕ)
    → IsOneRunning s
    → is_running (swapped s next t).state ≡ true
    → t ≡ next
unfolding swapped
swapped-only s next t one h = elim (Bool-cases (t == next)) [
  | inl e ↦ (==_iff t next).0 e
  | inr e ↦ elim (Bool-cases (t == s.current_task)) [
    | inl f ↦ let no = rw (e, f) at h in absurd cc
    | inr f ↦ absurd (==_ne t s.current_task f (one.only t (rw (e, f) at h)))
  ]
]

pub switch_to-Switched :
    (s : Sched) (next : ℕ) → IsOneRunning s → Switched s (switch_to s next) next
switch_to-Switched s next one = elim (Bool-cases (next == s.current_task)) [
  | inl e ↦ rw (switch_to_self s next e) (record {
    links = λ t. refl;
    head = refl;
    front = sym ((==_iff next s.current_task).0 e);
    one = one;
  })
  | inr e ↦
      let tasks = switch_to-swapped s next one.current e in
      let (front, head, slice) = switch_to-front s next e in
      record {
        links = λ t. rw tasks (swapped-next s next t);
        head = head;
        front = front;
        one = record {
          current = rw (front, tasks) (swapped-next_runs s next);
          only = λ t h. swapped-only s next t one (rw tasks at h) ∙ sym front;
        };
      }
]

-- What the timer tick leaves: the queue and one running task.
pub record Ticked (s s' : Sched) (l : List ℕ) (chosen : ℕ) : Type 0 where
  pub queue : IsQueue s' l
  pub one : IsOneRunning s'
  pub front :
      s'.current_task
      ≡ (if s.scheduler_on && leb s.slice_remaining 1 then chosen else s.current_task)
  pub left :
      (if s.scheduler_on && ltb 1 s.slice_remaining
        then suc s'.slice_remaining
        else s.slice_remaining)
      ≡ s.slice_remaining

pub Switched-IsQueue :
    (s s' : Sched) (next : ℕ) (l : List ℕ) → Switched s s' next → IsQueue s l → IsQueue s' l
Switched-IsQueue s s' next l sw q = record {
  circle = rw sw.head (Walk-same s.tasks s'.tasks s.ready_head l s.ready_head sw.links q.circle);
  distinct = q.distinct;
  no_null = q.no_null;
  few = q.few;
}

schedule-off : (s : Sched) → s.scheduler_on ≡ false → schedule s ≡ some s
unfolding schedule
schedule-off s off = if_true (not s.scheduler_on) _ _ (ap not off)

-- The slice after the tick.
counted : Sched → Sched
counted s = record s { slice_remaining = s.slice_remaining - 1 }

count_lem :
    (s : Sched)
    → (if ltb 0 s.slice_remaining then record s { slice_remaining = s.slice_remaining - 1 } else s)
      ≡ counted s
unfolding counted
count_lem s = elim (Bool-cases (ltb 0 s.slice_remaining)) [
  | inl e ↦ if_true _ _ _ e
  | inr e ↦
      let zero_left : s.slice_remaining ≡ s.slice_remaining - 1 = ground arith in
      if_false _ _ _ e ∙ ap (λ n. (record s { slice_remaining = n })) zero_left
]

schedule-on :
    (s : Sched)
    → s.scheduler_on ≡ true
    → schedule s ≡ (if ltb 1 s.slice_remaining then some (counted s) else sched_yield (counted s))
unfolding schedule counted
schedule-on s on =
    let same : (ltb 0 s.slice_remaining && ltb 0 (s.slice_remaining - 1))
        ≡ ltb 1 s.slice_remaining =
      ground arith in
    if_false (not s.scheduler_on) _ _ (ap not on)
    ∙ ap (λ u. if ltb 0 s.slice_remaining && ltb 0 u.slice_remaining then some u else sched_yield u)
        (count_lem s)
    ∙ ap (λ b. if b then some (counted s) else sched_yield (counted s)) same

pub sched_yield-some :
    (s : Sched) (n : ℕ) → pick_next_ready s ≡ some n → sched_yield s ≡ some (switch_to s n)
unfolding sched_yield
sched_yield-some s n h =
    ap (λ o. elim o as (λ o. Option Sched) [ none ↦ none | some next ↦ some (switch_to s next) ]) h

counted-IsQueue : (s : Sched) (l : List ℕ) → IsQueue s l → IsQueue (counted s) l
unfolding counted
counted-IsQueue s l q = record {
  circle = q.circle;
  distinct = q.distinct;
  no_null = q.no_null;
  few = q.few;
}

counted-one : (s : Sched) → IsOneRunning s → IsOneRunning (counted s)
unfolding counted
counted-one s one = record { current = one.current; only = one.only }

counted-pick :
    (s : Sched) (xs ys : List ℕ)
    → IsQueue s (xs ++ s.current_task ∷ ys)
    → pick_next_ready (counted s)
      ≡ some (first_ready s.tasks (ys ++ (xs ++ s.current_task ∷ [])) s.current_task)
unfolding counted
counted-pick s xs ys q =
    pick_next_ready-round_robin (counted s) xs ys (counted-IsQueue s (xs ++ s.current_task ∷ ys) q)

still_Ticked :
    (s : Sched) (l : List ℕ) (chosen : ℕ)
    → IsQueue s l
    → IsOneRunning s
    → (s.scheduler_on && leb s.slice_remaining 1) ≡ false
    → (s.scheduler_on && ltb 1 s.slice_remaining) ≡ false
    → Ticked s s l chosen
still_Ticked s l chosen q one e f = record {
  queue = q;
  one = one;
  front = sym (if_false _ _ _ e);
  left = if_false _ _ _ f;
}

counted_Ticked :
    (s : Sched) (l : List ℕ) (chosen : ℕ)
    → IsQueue s l
    → IsOneRunning s
    → s.scheduler_on ≡ true
    → ltb 1 s.slice_remaining ≡ true
    → Ticked s (counted s) l chosen
unfolding counted
counted_Ticked s l chosen q one on e =
    let late : (s.scheduler_on && leb s.slice_remaining 1) ≡ false = ground arith in
    let early : (s.scheduler_on && ltb 1 s.slice_remaining) ≡ true = ground arith in
    record {
      queue = counted-IsQueue s l q;
      one = counted-one s one;
      front = sym (if_false _ _ _ late);
      left = if_true _ _ _ early ∙ ground arith;
    }

Switched-Ticked :
    (s s' : Sched) (l : List ℕ) (chosen : ℕ)
    → IsQueue s l
    → s.scheduler_on ≡ true
    → ltb 1 s.slice_remaining ≡ false
    → Switched (counted s) s' chosen
    → Ticked s s' l chosen
unfolding counted
Switched-Ticked s s' l chosen q on e sw =
    let late : (s.scheduler_on && leb s.slice_remaining 1) ≡ true = ground arith in
    let early : (s.scheduler_on && ltb 1 s.slice_remaining) ≡ false = ground arith in
    record {
      queue = Switched-IsQueue (counted s) s' chosen l sw (counted-IsQueue s l q);
      one = sw.one;
      front = sw.front ∙ sym (if_true _ _ _ late);
      left = if_false _ _ _ early;
    }

-- On a queue that holds the current task, the only running one, `schedule` returns and keeps both;
-- the current task changes only when the scheduler is on and the slice is used up, and then to the
-- first task in round-robin order that can run; while the slice lasts, it is counted down by one.
pub schedule-Ticked :
    (s : Sched) (xs ys : List ℕ)
    → IsQueue s (xs ++ s.current_task ∷ ys)
    → IsOneRunning s
    → (s' : Sched) × (schedule s ≡ some s')
      × Ticked s s'
          (xs ++ s.current_task ∷ ys)
          (first_ready s.tasks (ys ++ (xs ++ s.current_task ∷ [])) s.current_task)
schedule-Ticked s xs ys q one =
    let l = xs ++ s.current_task ∷ ys in
    let chosen = first_ready s.tasks (ys ++ (xs ++ s.current_task ∷ [])) s.current_task in
    elim (Bool-cases s.scheduler_on) [
      | inl on ↦ elim (Bool-cases (ltb 1 s.slice_remaining)) [
        | inl e ↦
            (counted s, schedule-on s on ∙ if_true _ _ _ e, counted_Ticked s l chosen q one on e)
        | inr e ↦ (
          switch_to (counted s) chosen,
          schedule-on s on
              ∙ if_false _ _ _ e
              ∙ sched_yield-some (counted s) chosen (counted-pick s xs ys q),
          Switched-Ticked s (switch_to (counted s) chosen) l chosen q on e
              (switch_to-Switched (counted s) chosen (counted-one s one)),
        )
      ]
      | inr off ↦ (
        s,
        schedule-off s off,
        still_Ticked s l chosen q one (ap (λ b. b && leb s.slice_remaining 1) off)
            (ap (λ b. b && ltb 1 s.slice_remaining) off),
      )
    ]
