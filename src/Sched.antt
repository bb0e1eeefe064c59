-- ===== src/Sched.antt =====
-- kernel/task/sched.c: the round-robin scheduler. Tasks are the values of a map from their addresses,
-- linked by `next`; of a task control block only the fields that the scheduler reads are here.
-- `boot_task` is the address of the idle task's block, `kernel_cr3` what `paging_get_kernel_cr3`
-- returns. `switch_to` stands for the code up to its call of `task_switch`, which stores the stack
-- pointer in the `esp` of a block and pushes registers; these are in Task, and Task/Switch has the call
-- for tasks that exit or yield. The interrupt flag is not modelled.
-- A walk along the queue takes fuel: `rounds` covers the 64 tasks of the pool and the idle task.
pub mod Queue
pub mod Pick
pub mod Tick
pub mod Add
pub mod Remove
pub mod Leave
mod Tests
use ap_pa.Base.{
  ℕ, zero, suc, ◌+◌, ◌-◌, ◌≡◌, Bool, true, false, not, ◌&&◌, ◌||◌, Option, none, some, List, ltb,
  ◌==◌, if◌then◌else◌, null,
}

pub data TaskState : Type 0 where
  ready running blocked dead : TaskState

pub record Task : Type 0 where
  pub state : TaskState
  pub esp0 : ℕ
  pub cr3 : ℕ
  pub next : ℕ

pub record Sched : Type 0 where
  pub tasks : ℕ → Task
  pub current_task : ℕ
  pub ready_head : ℕ
  pub scheduler_on : Bool
  pub slice_remaining : ℕ
  -- what `tss_set_kernel_stack` and the load of CR3 have set
  pub tss_esp0 : ℕ
  pub cr3 : ℕ
  pub kernel_cr3 : ℕ

abbrev pub sched_time_slice : ℕ
sched_time_slice = 10

abbrev pub rounds : ℕ
rounds = 65

abbrev pub store : (ℕ → Task) → ℕ → Task → ℕ → Task
store tasks a t b = if b == a then t else tasks b

abbrev pub set_next : (ℕ → Task) → ℕ → ℕ → ℕ → Task
set_next tasks a n = store tasks a (record (tasks a) { next = n })

abbrev pub set_state : (ℕ → Task) → ℕ → TaskState → ℕ → Task
set_state tasks a st = store tasks a (record (tasks a) { state = st })

abbrev pub is_running : TaskState → Bool
is_running TaskState.running = true
is_running TaskState.ready = false
is_running TaskState.blocked = false
is_running TaskState.dead = false

abbrev pub is_ready : TaskState → Bool
is_ready TaskState.ready = true
is_ready TaskState.running = false
is_ready TaskState.blocked = false
is_ready TaskState.dead = false

pub insert_after : (ℕ → Task) → (after task : ℕ) → ℕ → Task
insert_after tasks after task =
    let linked = set_next tasks task (tasks after).next in set_next linked after task

abbrev pub runnable : (ℕ → Task) → ℕ → Bool
runnable tasks t = is_ready (tasks t).state || is_running (tasks t).state

-- The `do … while (t != start)` loop.
pub pick_loop : ℕ → Sched → (start t : ℕ) → Option ℕ
pick_loop zero s start t = none
pick_loop (suc k) s start t =
    let t' = (s.tasks t).next in
    let rest = pick_loop k s start t' in
    if runnable s.tasks t then some t else if t' == start then some s.current_task else rest

pub pick_next_ready : Sched → Option ℕ
unfolding pick_loop
pick_next_ready s = let t = (s.tasks s.current_task).next in pick_loop rounds s t t

pub switch_to : Sched → ℕ → Sched
switch_to s next =
    if next == s.current_task
    then s
    else (let prev = s.current_task in
        let demoted =
          if is_running (s.tasks prev).state
          then set_state s.tasks prev TaskState.ready
          else s.tasks in
        let tasks = set_state demoted next TaskState.running in
        let next_cr3 = if (tasks next).cr3 == 0 then s.kernel_cr3 else (tasks next).cr3 in
        let prev_cr3 = if (tasks prev).cr3 == 0 then s.kernel_cr3 else (tasks prev).cr3 in
        record s {
          tasks = tasks;
          current_task = next;
          slice_remaining = sched_time_slice;
          tss_esp0 = (tasks next).esp0;
          cr3 = if next_cr3 == prev_cr3 then s.cr3 else next_cr3;
        })

pub sched_init : (boot_task : ℕ) → Sched → Sched
sched_init boot_task s = record s {
  tasks =
      store s.tasks boot_task
        (record { state = TaskState.running; esp0 = 0; cr3 = 0; next = boot_task });
  current_task = boot_task;
  ready_head = boot_task;
  slice_remaining = sched_time_slice;
  scheduler_on = false;
}

pub sched_enable : Sched → Sched
sched_enable s = record s { scheduler_on = true }

pub sched_disable : Sched → Sched
sched_disable s = record s { scheduler_on = false }

-- `while (tail->next != ready_head) tail = tail->next;`
pub tail_loop : ℕ → (ℕ → Task) → (head tail : ℕ) → Option ℕ
tail_loop zero tasks head tail = none
tail_loop (suc k) tasks head tail =
    let rest = tail_loop k tasks head (tasks tail).next in
    if (tasks tail).next == head then some tail else rest

unfoldable pub sched_add_task : Sched → ℕ → Option Sched
unfolding tail_loop insert_after
sched_add_task s task =
    if task == null
    then some s
    else if s.ready_head == null
    then some (record s { tasks = set_next s.tasks task task; ready_head = task })
    else elim (tail_loop rounds s.tasks s.ready_head s.ready_head) [
      | none ↦ none
      | some tail ↦ some (record s { tasks = insert_after s.tasks tail task })
    ]

unfoldable pub sched_yield : Sched → Option Sched
unfolding pick_next_ready switch_to
sched_yield s = elim (pick_next_ready s) [ none ↦ none | some next ↦ some (switch_to s next) ]

unfoldable pub schedule : Sched → Option Sched
unfolding sched_yield
schedule s =
    let s' =
      if ltb 0 s.slice_remaining then record s { slice_remaining = s.slice_remaining - 1 } else s in
    if not s.scheduler_on
    then some s
    else if ltb 0 s.slice_remaining && ltb 0 s'.slice_remaining
    then some s'
    else sched_yield s'

-- The walk of `sched_remove_task` to the predecessor of `task`, which unlinks it.
pub remove_loop : ℕ → Sched → (task start prev : ℕ) → Option Sched
remove_loop zero s task start prev = none
remove_loop (suc k) s task start prev =
    let after = (s.tasks task).next in
    let prev' = (s.tasks prev).next in
    let rest = remove_loop k s task start prev' in
    if prev' == task
    then some (record s {
      tasks = set_next (set_next s.tasks prev after) task null;
      ready_head =
          if s.ready_head == task then (set_next s.tasks prev after task).next else s.ready_head;
    })
    else if prev' == start
    then some s
    else rest

unfoldable pub sched_remove_task : (boot_task : ℕ) → Sched → ℕ → Option Sched
unfolding remove_loop
sched_remove_task boot_task s task =
    if task == null || s.ready_head == null
    then some s
    else if task == boot_task
    then some s
    else if (s.tasks task).next == task
    then some (record s { tasks = set_next s.tasks task null; ready_head = null })
    else remove_loop rounds s task s.ready_head s.ready_head
