-- ===== src/Sched/Tests.antt =====
-- Runs of the scheduler with the idle task at 100 and another task at 200, and the theorems applied to them.
use ap_pa.Base.{
  ℕ, ◌≡◌, refl, [], ◌∷◌, arith, true, false, Option, none, some, ==_iff, Bool-cases, inl, inr,
  if◌then◌else◌, ◌==◌,
}
use ap_pa.Sched.{
  Task, TaskState, Sched, pick_next_ready, schedule, sched_add_task, sched_remove_task, sched_init,
  sched_enable, sched_disable, is_running, sched_yield, switch_to,
}
use ap_pa.Sched.Queue.{IsQueue}
use ap_pa.Sched.Pick.{pick_next_ready-round_robin}
use ap_pa.Sched.Tick.{IsOneRunning, Ticked, schedule-Ticked}
use ap_pa.Sched.Add.{Added, sched_add_task-Added}
use ap_pa.Sched.Remove.{Removed, sched_remove_task-Removed}

abbrev no_task : Task
no_task = record { state = TaskState.blocked; esp0 = 0; cr3 = 0; next = 0 }

abbrev idle : Task
idle = record { state = TaskState.running; esp0 = 0; cr3 = 0; next = 100 }

abbrev alone : ℕ → Task
alone t = if t == 100 then idle else no_task

abbrev boot : Sched
boot = record {
  tasks = alone;
  current_task = 100;
  ready_head = 100;
  scheduler_on = true;
  slice_remaining = 1;
  tss_esp0 = 0;
  cr3 = 0;
  kernel_cr3 = 0;
}

boot-IsQueue : IsQueue boot (100 ∷ [])
boot-IsQueue = record {
  circle = (refl, refl);
  distinct = (tt, tt);
  no_null = (omega arith, tt);
  few = omega arith;
}

alone-only : (t : ℕ) → is_running (alone t).state ≡ true → t ≡ 100
alone-only t h = elim (Bool-cases (t == 100)) [
  | inl e ↦ (==_iff t 100).0 e
  | inr e ↦ let no = rw e at h in absurd cc
]

boot-IsOneRunning : IsOneRunning boot
boot-IsOneRunning = record { current = refl; only = alone-only }

abbrev two : Sched
two = record boot {
  tasks = λ t.
      if t == 100
      then record idle { next = 200 }
      else if t == 200
      then record { state = TaskState.ready; esp0 = 7; cr3 = 0; next = 100 }
      else no_task;
}

two-IsQueue : IsQueue two (100 ∷ 200 ∷ [])
two-IsQueue = record {
  circle = (refl, (refl, refl));
  distinct = ((omega arith, tt), (tt, tt));
  no_null = (omega arith, (omega arith, tt));
  few = omega arith;
}

pick_next_ready-round_robin_example : pick_next_ready two ≡ some 200
pick_next_ready-round_robin_example = pick_next_ready-round_robin two [] (200 ∷ []) two-IsQueue

schedule-Ticked_example : (s' : Sched) × (schedule boot ≡ some s') × Ticked boot s' (100 ∷ []) 100
schedule-Ticked_example = schedule-Ticked boot [] [] boot-IsQueue boot-IsOneRunning

sched_add_task-Added_example :
    (s' : Sched) × (sched_add_task boot 200 ≡ some s') × Added boot s' (100 ∷ []) 200
sched_add_task-Added_example =
    sched_add_task-Added boot (100 ∷ []) 200 boot-IsQueue (omega arith) (omega arith)
      (omega arith, tt) (omega arith)

sched_remove_task-Removed_example :
    (s' : Sched) × (sched_remove_task 100 two 200 ≡ some s') × Removed two s' (100 ∷ []) 200
sched_remove_task-Removed_example =
    sched_remove_task-Removed 100 two (100 ∷ []) 200 [] two-IsQueue (omega arith) (omega arith)

abbrev current_of : Option Sched → ℕ
current_of none = 0
current_of (some s) = s.current_task

abbrev next_of : Option Sched → ℕ → ℕ
next_of none t = 0
next_of (some s) t = (s.tasks t).next

runs : (current_of (schedule two) ≡ 200) × (next_of (sched_remove_task 100 two 200) 100 ≡ 100)
unfolding schedule sched_yield pick_next_ready switch_to sched_remove_task
runs = (refl, refl)

starts : (sched_disable (sched_enable (sched_init 100 two))).scheduler_on ≡ false
unfolding sched_init sched_enable sched_disable
starts = refl
