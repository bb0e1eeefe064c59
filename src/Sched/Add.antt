-- ===== src/Sched/Add.antt =====
-- `sched_add_task` puts a task behind the last one of the queue.
use ap_pa.Base.{
  ℕ, zero, suc, ◌<◌, ◌≡◌, ◌≢◌, inl, inr, refl, sym, ap, ◌∙◌, List, [], ◌∷◌, ◌++◌, arith, length,
  length-append, null, Option, none, some, ◌==◌, ==_iff, ==_false, Bool-cases, if◌then◌else◌,
  if_false,
}
use ap_pa.Sched.{Task, Sched, rounds, set_next, insert_after, tail_loop, sched_add_task}
use ap_pa.Sched.Queue.{Walk, NotIn, Distinct, IsQueue, Distinct-snoc, NotIn-snoc, set_next-keeps}

-- The last task of the list `a ∷ l`.
abbrev pub last_of : ℕ → List ℕ → ℕ
last_of a [] = a
last_of a (b ∷ l) = last_of b l

tail_loop-last :
    (k : ℕ) (tasks : ℕ → Task) (head t : ℕ) (l : List ℕ)
    → Walk tasks (tasks t).next l head
    → NotIn head l
    → length l < k
    → tail_loop k tasks head t ≡ some (last_of t l)
unfolding tail_loop
tail_loop-last zero tasks head t l w n h = absurd (omega arith)
tail_loop-last (suc k) tasks head t [] w n h = rw ((==_iff (tasks t).next head).1 w) refl
tail_loop-last (suc k) tasks head t (x ∷ l) w n h =
    rw (==_false (tasks t).next head (λ q. n.0 (sym q ∙ w.0)))
      (rw w.0 (tail_loop-last k tasks head x l w.1 n.1 (omega arith)))

-- The links after an insertion behind `t`.
insert_after-next :
    (tasks : ℕ → Task) (t task u : ℕ)
    → task ≢ t
    → (insert_after tasks t task u).next
      ≡ (if u == t then task else if u == task then (tasks t).next else (tasks u).next)
unfolding insert_after
insert_after-next tasks t task u ne = elim (Bool-cases (u == t)) [
  | inl e ↦ rw e refl
  | inr e ↦ elim (Bool-cases (u == task)) [ inl f ↦ rw (e, f) refl | inr f ↦ rw (e, f) refl ]
]

pub last_of-ne : (x y : ℕ) (l : List ℕ) → NotIn x (y ∷ l) → x ≢ last_of y l
last_of-ne x y [] n = n.0
last_of-ne x y (z ∷ l) n = last_of-ne x z l n.1

Walk-insert :
    (tasks : ℕ → Task) (a x : ℕ) (l : List ℕ) (head task : ℕ)
    → Walk tasks a (x ∷ l) head
    → Distinct (x ∷ l)
    → NotIn task (x ∷ l)
    → Walk (insert_after tasks (last_of x l) task) a (x ∷ l ++ task ∷ []) head
Walk-insert tasks a x [] head task w d n = (
  w.0,
  (
    rw (insert_after-next tasks x task x n.0, (==_iff x x).1 refl) refl,
    rw (insert_after-next tasks x task task n.0, ==_false task x n.0, (==_iff task task).1 refl)
        w.1,
  ),
)
Walk-insert tasks a x (y ∷ l) head task w d n =
    let other = last_of-ne task y l n.1 in
    (
      w.0,
      rw
          (
            insert_after-next tasks (last_of y l) task x other,
            ==_false x (last_of y l) (last_of-ne x y l d.0),
            ==_false x task (λ e. n.0 (sym e)),
          )
          (Walk-insert tasks (tasks x).next y l head task w.1 d.1 n.1),
    )

-- Only the links change.
insert_after-keeps {ℓ} :
    {A : Type ℓ} (φ : Task → A)
    → ((t : Task) (n : ℕ) → φ (record t { next = n }) ≡ φ t)
    → (tasks : ℕ → Task) (t task u : ℕ) → φ (insert_after tasks t task u) ≡ φ (tasks u)
unfolding insert_after
insert_after-keeps φ keep tasks t task u =
    set_next-keeps φ keep (set_next tasks task (tasks t).next) t task u
    ∙ set_next-keeps φ keep tasks task (tasks t).next u

-- The scheduler after the task is in.
pub record Added (s s' : Sched) (l : List ℕ) (task : ℕ) : Type 0 where
  pub queue : IsQueue s' (l ++ task ∷ [])
  pub states : (t : ℕ) → (s'.tasks t).state ≡ (s.tasks t).state
  pub tops : (t : ℕ) → (s'.tasks t).esp0 ≡ (s.tasks t).esp0
  pub spaces : (t : ℕ) → (s'.tasks t).cr3 ≡ (s.tasks t).cr3
  pub front : s'.current_task ≡ s.current_task

sched_add_task-some :
    (s : Sched) (task tail : ℕ)
    → task ≢ null
    → s.ready_head ≢ null
    → tail_loop rounds s.tasks s.ready_head s.ready_head ≡ some tail
    → sched_add_task s task ≡ some (record s { tasks = insert_after s.tasks tail task })
unfolding sched_add_task
sched_add_task-some s task tail ne nh h =
    if_false _ _ _ (==_false task null ne)
    ∙ if_false _ _ _ (==_false s.ready_head null nh)
    ∙ ap
        (λ o. elim o as (λ o. Option Sched) [
          | none ↦ none
          | some tail ↦ some (record s { tasks = insert_after s.tasks tail task })
        ])
        h

-- Adding a task other than null that is not in the queue, which holds at least 1 and at most 64
-- tasks, returns with the task behind the last one, every other task in its place, and no state,
-- stack or directory touched.
pub sched_add_task-Added :
    (s : Sched) (l : List ℕ) (task : ℕ)
    → IsQueue s l
    → 0 < length l
    → length l < 65
    → NotIn task l
    → task ≢ null
    → (s' : Sched) × (sched_add_task s task ≡ some s') × Added s s' l task
sched_add_task-Added s [] task q pos h n ne = absurd (omega arith)
sched_add_task-Added s (x ∷ l) task q pos h n ne =
    let tail = last_of x l in
    let found =
      tail_loop-last rounds s.tasks x x l (rw q.circle.0 at q.circle.1) q.distinct.0
        (omega arith) in
    (
      record s { tasks = insert_after s.tasks tail task },
      sched_add_task-some s task tail ne (λ e. q.no_null.0 (sym e ∙ q.circle.0))
          (ap (λ h. tail_loop rounds s.tasks h h) q.circle.0 ∙ found),
      record {
        queue = record {
          circle = Walk-insert s.tasks s.ready_head x l s.ready_head task q.circle q.distinct n;
          distinct = Distinct-snoc (x ∷ l) task n q.distinct;
          no_null = NotIn-snoc null (x ∷ l) task q.no_null (λ e. ne (sym e));
          few = omega (arith, length-append (x ∷ l) (task ∷ []));
        };
        states = insert_after-keeps (λ t. t.state) (λ t n. refl) s.tasks tail task;
        tops = insert_after-keeps (λ t. t.esp0) (λ t n. refl) s.tasks tail task;
        spaces = insert_after-keeps (λ t. t.cr3) (λ t n. refl) s.tasks tail task;
        front = refl;
      },
    )
