-- ===== src/Task/Launch.antt =====
-- The frame on the stack of a new task and its place in the queue.
use ap_pa.Base.{
  ℕ, ◌-◌, ◌*◌, ◌^◌, ◌≤◌, ◌<◌, ◌≡◌, ◌≢◌, ◌⊎◌, inl, inr, refl, ap, ◌∙◌, List, [], ◌∷◌, ◌++◌, length,
  ◌==◌, ==_iff, ==_false, if_true, if_false, null, some,
}
use mathlib.Core.Option
use mathlib.Core.Path.{subst}
use native.Mathlib.Decide.{ℕ_discrete}
use ap_pa.Sched.{Task, TaskState, Sched, store, sched_add_task}
use ap_pa.Sched.Queue.{NotIn, IsQueue, IsQueue-elsewhere}
use ap_pa.Sched.Add.{sched_add_task-Added}
use ap_pa.Task.{Tasks, launch, push_all, set_tcb}
use ap_pa.Task.Frame.{FrameAt, push_all-FrameAt, push_all-sp, push_all_off, push_all_above}

-- The task is at the end of the queue, ready, with the frame on its stack and `esp` below it.
pub record Launched (s s' : Tasks) (t : ℕ) (l frame : List ℕ) : Type 0 where
  pub queue : IsQueue s'.sched (l ++ t ∷ [])
  pub ready : (s'.sched.tasks t).state ≡ TaskState.ready
  pub top : (s'.sched.tasks t).esp0 ≡ (s.sched.tasks t).esp0
  pub spaces : (u : ℕ) → (s'.sched.tasks u).cr3 ≡ (s.sched.tasks u).cr3
  pub front : s'.sched.current_task ≡ s.sched.current_task
  pub states : (u : ℕ) → u ≢ t → (s'.sched.tasks u).state ≡ (s.sched.tasks u).state
  pub tcbs :
      s'.tcbs
      ≡ set_tcb s.tcbs t (record (s.tcbs t) { esp = (s.sched.tasks t).esp0 - 4 * length frame })
  pub pmm : s'.paging.pmm ≡ s.paging.pmm
  pub words : FrameAt frame s'.paging.mem (s.sched.tasks t).esp0
  pub off :
      (a : ℕ)
      → (a < (s.sched.tasks t).esp0 - 4 * length frame) ⊎ ((s.sched.tasks t).esp0 ≤ a)
      → s'.paging.mem a ≡ s.paging.mem a
  pub next_id : s'.next_task_id ≡ s.next_task_id

-- The scheduler when the task is made ready.
readied : Sched → ℕ → Sched
readied s t = record s {
  tasks = store s.tasks t (record (s.tasks t) { state = TaskState.ready; next = null });
}

readied-task :
    (s : Sched) (t : ℕ)
    → (readied s t).tasks t ≡ record (s.tasks t) { state = TaskState.ready; next = null }
unfolding readied
readied-task s t = if_true (t == t) _ _ ((==_iff t t).1 refl)

readied-other : (s : Sched) (t u : ℕ) → u ≢ t → (readied s t).tasks u ≡ s.tasks u
unfolding readied
readied-other s t u ne = if_false (u == t) _ _ (==_false u t ne)

readied-cr3 : (s : Sched) (t u : ℕ) → ((readied s t).tasks u).cr3 ≡ (s.tasks u).cr3
readied-cr3 s t u = elim (ℕ_discrete u t) [
  | yes e ↦
      subst (λ t. ((readied s t).tasks u).cr3 ≡ (s.tasks u).cr3) e
        (ap {A = Task} (λ t. t.cr3) (readied-task s u))
  | no ne ↦ ap {A = Task} (λ t. t.cr3) (readied-other s t u ne)
]

readied-front : (s : Sched) (t : ℕ) → (readied s t).current_task ≡ s.current_task
unfolding readied
readied-front s t = refl

readied-IsQueue :
    (s : Sched) (t : ℕ) (l : List ℕ) → NotIn t l → IsQueue s l → IsQueue (readied s t) l
unfolding readied
readied-IsQueue s t l n q =
    IsQueue-elsewhere s (readied s t) t l (λ u ne. readied-other s t u ne) refl n q

-- The state with the frame written.
framed : Tasks → ℕ → List ℕ → Sched → Tasks
framed s t frame sched =
    let (mem, sp) = push_all frame s.paging.mem (s.sched.tasks t).esp0 in
    record s {
      tcbs = set_tcb s.tcbs t (record (s.tcbs t) { esp = sp });
      paging = record s.paging { mem = mem };
      sched = sched;
    }

launch-some :
    (s : Tasks) (t : ℕ) (frame : List ℕ) (sched : Sched)
    → sched_add_task (readied s.sched t) t ≡ some sched
    → launch s t frame ≡ some (framed s t frame sched, t)
unfolding launch readied framed
launch-some s t frame sched h = ap (λ o. Option.map (λ sched. (framed s t frame sched, t)) o) h

pub launch-Launched :
    (s : Tasks) (t : ℕ) (l frame : List ℕ)
    → IsQueue s.sched l
    → 0 < length l
    → length l < 65
    → NotIn t l
    → t ≢ null
    → 4 * length frame ≤ (s.sched.tasks t).esp0
    → (s.sched.tasks t).esp0 < 2 ^ 32
    → (s' : Tasks) × (launch s t frame ≡ some (s', t)) × Launched s s' t l frame
unfolding framed
launch-Launched s t l frame q pos few n ne room bound =
    let (sched, e, added) =
      sched_add_task-Added (readied s.sched t) l t (readied-IsQueue s.sched t l n q) pos few n ne in
    let top = (s.sched.tasks t).esp0 in
    (
      framed s t frame sched,
      launch-some s t frame sched e,
      record {
        queue = added.queue;
        ready = added.states t ∙ ap {A = Task} (λ t. t.state) (readied-task s.sched t);
        top = added.tops t ∙ ap {A = Task} (λ t. t.esp0) (readied-task s.sched t);
        spaces = λ u. added.spaces u ∙ readied-cr3 s.sched t u;
        front = added.front ∙ readied-front s.sched t;
        states = λ u other.
            added.states u ∙ ap {A = Task} (λ t. t.state) (readied-other s.sched t u other);
        tcbs =
            ap (λ sp. set_tcb s.tcbs t (record (s.tcbs t) { esp = sp }))
              (push_all-sp frame s.paging.mem top room bound);
        pmm = refl;
        words = push_all-FrameAt frame s.paging.mem top room bound;
        off = λ a side. elim side [
          | inl below ↦ push_all_off frame s.paging.mem top a room bound below
          | inr above ↦ push_all_above frame s.paging.mem top a room bound above
        ];
        next_id = refl;
      },
    )
