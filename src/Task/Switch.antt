-- ===== src/Task/Switch.antt =====
-- kernel/task/sched.c and kernel/task/switch.asm: what `task_switch` leaves on the stack and in the
-- block of the task that it switches away from; and kernel/task/task.c: `task_exit`. The processor
-- then runs on the stack of the next task, of which no register is modelled.
use mathlib.Core.Option
use ap_pa.Base.{ℕ, ◌+◌, Option, List, [], ◌∷◌, ◌==◌, if◌then◌else◌, null}
use ap_pa.Sched.{TaskState, Sched, set_state, sched_yield}
use ap_pa.Task.{Tasks, set_tcb, push_all, task_get_current}

-- The stack pointer when `switch_to` calls `task_switch`, the return address and the registers that are
-- saved.
pub record Cpu : Type 0 where
  pub esp : ℕ
  pub eip : ℕ
  pub ebx : ℕ
  pub esi : ℕ
  pub edi : ℕ
  pub ebp : ℕ

-- The words in the order in which they are pushed: `next->esp`, `&prev->esp`, the return address and the
-- registers.
unfoldable pub switch_frame : Cpu → (prev next_esp : ℕ) → List ℕ
switch_frame cpu prev next_esp =
    next_esp ∷ (prev + 40) ∷ cpu.eip ∷ cpu.ebx ∷ cpu.esi ∷ cpu.edi ∷ cpu.ebp ∷ []

-- `task_switch(&prev->esp, next->esp)`
unfoldable pub task_switch : Cpu → Tasks → (prev next : ℕ) → Tasks
unfolding push_all switch_frame
task_switch cpu s prev next =
    let (mem, sp) = push_all (switch_frame cpu prev (s.tcbs next).esp) s.paging.mem cpu.esp in
    record s {
      tcbs = set_tcb s.tcbs prev (record (s.tcbs prev) { esp = sp });
      paging = record s.paging { mem = mem };
    }

-- The end of `switch_to`, when `sched` is the scheduler that it leaves.
unfoldable pub switched : Cpu → Tasks → Sched → Tasks
unfolding task_switch
switched cpu s sched =
    let s' = record s { sched = sched } in
    if sched.current_task == s.sched.current_task
    then s'
    else task_switch cpu s' s.sched.current_task sched.current_task

-- `sched_yield` with the switch.
unfoldable pub task_yield : Cpu → Tasks → Option Tasks
unfolding sched_yield switched
task_yield cpu s = Option.map (switched cpu s) (sched_yield s.sched)

-- Up to the switch, from which it does not come back.
unfoldable pub task_exit : Cpu → Tasks → Option Tasks
unfolding task_get_current task_yield
task_exit cpu s =
    let cur = task_get_current s in
    let dead = set_state s.sched.tasks cur TaskState.dead in
    task_yield cpu (if cur == null then s else record s { sched = record s.sched { tasks = dead } })
