-- ===== src/Task.antt =====
-- kernel/task/task.c and task.h: the pool of task control blocks, and kernel tasks. A control block
-- stands at its address: `sched.tasks` has the fields that the scheduler uses, `tcbs` the others.
-- `Image` holds the addresses that the linker chooses. Interrupt flags are not modelled. `none` is a
-- name without a NUL, read past the end of its object, or a queue of more than 65 tasks.
pub mod Pool
pub mod Frame
pub mod Create
pub mod Launch
pub mod Equip
pub mod Spawn
pub mod Kernel
pub mod Mapped
pub mod Switch
pub mod Exit
pub mod Freed
pub mod Kept
pub mod Sweep
pub mod Reap
pub mod User
mod Tests
use ap_pa.Base.{
  ℕ, zero, suc, ◌+◌, ◌-◌, ◌*◌, Bool, ◌&&◌, Option, none, some, List, [], ◌∷◌, ◌==◌, if◌then◌else◌,
  add32, sub32, set, replicate, null,
}
use mathlib.Core.Option
use ap_pa.CString.{strncpy}
use ap_pa.Pmm.{Pmm, alloc_page}
use ap_pa.Paging.{Paging, Mem, set_word}
use ap_pa.Sched.{TaskState, Sched, store, set_state, sched_add_task, sched_yield}

abbrev pub task_kernel_stack_size : ℕ
task_kernel_stack_size = 4096

abbrev pub task_name_max : ℕ
task_name_max = 32

abbrev pub task_max_tasks : ℕ
task_max_tasks = 64

pub record Tcb : Type 0 where
  pub id : ℕ
  pub name : List ℕ
  pub esp : ℕ
  pub kernel_stack : ℕ
  pub user_stack : ℕ
  pub user_stack_top : ℕ
  pub is_user : ℕ
  pub page_dir : ℕ

pub record Image : Type 0 where
  pub task_pool : ℕ
  pub boot_task : ℕ
  pub task_wrapper : ℕ
  pub enter_usermode : ℕ
  -- sys_exit, sys_write, sys_read, sys_yield, sys_getpid, sys_sleep
  pub wrappers : List ℕ

pub record Tasks : Type 0 where
  pub tcbs : ℕ → Tcb
  pub next_task_id : ℕ
  pub sched : Sched
  pub paging : Paging

-- `&task_pool[i]`; a control block has 76 bytes.
abbrev pub slot : Image → ℕ → ℕ
slot k i = k.task_pool + 76 * i

abbrev pub set_tcb : (ℕ → Tcb) → ℕ → Tcb → ℕ → Tcb
set_tcb tcbs a t b = if b == a then t else tcbs b

abbrev pub with_pmm : Tasks → Pmm → Tasks
with_pmm s pmm = record s { paging = record s.paging { pmm = pmm } }

-- A block of zeros.
abbrev pub blank_tcb : Tcb
blank_tcb = record {
  id = 0;
  name = replicate task_name_max 0;
  esp = 0;
  kernel_stack = 0;
  user_stack = 0;
  user_stack_top = 0;
  is_user = 0;
  page_dir = 0;
}

-- `memset(t, 0, sizeof(task_t))`
pub clear_tcb : Tasks → ℕ → Tasks
clear_tcb s t = record s {
  tcbs = set_tcb s.tcbs t blank_tcb;
  sched = record s.sched {
    tasks =
        store s.sched.tasks t (record { state = TaskState.ready; esp0 = 0; cr3 = 0; next = null });
  };
}

pub is_free : Tcb → Bool
is_free t = t.id == 0 && t.kernel_stack == 0

pub tcb_loop : ℕ → Image → (ℕ → Tcb) → (i : ℕ) → ℕ
unfolding is_free
tcb_loop zero k tcbs i = null
tcb_loop (suc n) k tcbs i =
    let rest = tcb_loop n k tcbs (i + 1) in if is_free (tcbs (slot k i)) then slot k i else rest

pub alloc_tcb : Image → Tasks → ℕ
unfolding tcb_loop
alloc_tcb k s = tcb_loop task_max_tasks k s.tcbs 0

-- The id and the name of a new task.
pub identify : Tasks → ℕ → (name : List ℕ) → Option Tasks
identify s t name =
    let id = add32 s.next_task_id 1 in
    Option.map
      (λ copied. record s {
        next_task_id = id;
        tcbs =
            set_tcb s.tcbs t
              (record (s.tcbs t) { id = id; name = set copied (task_name_max - 1) 0 });
      })
      (strncpy (s.tcbs t).name name (task_name_max - 1))

-- `*(--sp) = v` for each of the words.
pub push_all : List ℕ → Mem → (sp : ℕ) → Mem × ℕ
push_all [] mem sp = (mem, sp)
push_all (v ∷ vs) mem sp = let sp' = sub32 sp 4 in push_all vs (set_word mem sp' v) sp'

-- The words for `task_wrapper` and for `task_switch`: argument, return addresses, ebx, esi, edi, ebp.
pub kernel_frame : Image → (entry : ℕ) → List ℕ
kernel_frame k entry = entry ∷ 0 ∷ k.task_wrapper ∷ 0 ∷ 0 ∷ 0 ∷ 0 ∷ []

-- The end of the three creating functions: the frame on the stack at `stack_phys`, `esp`, `state`,
-- `next`, and the queue.
pub launch : Tasks → (t : ℕ) → (frame : List ℕ) → Option (Tasks × ℕ)
unfolding push_all
launch s t frame =
    let task = s.sched.tasks t in
    let (mem, sp) = push_all frame s.paging.mem task.esp0 in
    let tasks = store s.sched.tasks t (record task { state = TaskState.ready; next = null }) in
    Option.map
      (λ sched. (
        record s {
          tcbs = set_tcb s.tcbs t (record (s.tcbs t) { esp = sp });
          paging = record s.paging { mem = mem };
          sched = sched;
        },
        t,
      ))
      (sched_add_task (record s.sched { tasks = tasks }) t)

-- `kernel_stack` and `esp0`.
pub give_stack : Tasks → (t stack_phys : ℕ) → Tasks
give_stack s t stack_phys = record s {
  tcbs = set_tcb s.tcbs t (record (s.tcbs t) { kernel_stack = stack_phys });
  sched = record s.sched {
    tasks =
        store s.sched.tasks t
          (record (s.sched.tasks t) { esp0 = add32 stack_phys task_kernel_stack_size });
  };
}

-- The part of `task_create` behind the name.
pub create_kernel : Image → Tasks → (t entry : ℕ) → Option (Tasks × ℕ)
unfolding clear_tcb give_stack kernel_frame launch
create_kernel k s t entry =
    let (stack_phys, pmm) = alloc_page s.paging.pmm in
    let s' = with_pmm s pmm in
    if stack_phys == 0
    then some (clear_tcb s' t, null)
    else launch (give_stack s' t stack_phys) t (kernel_frame k entry)

-- The state and the task that is returned.
pub task_create : Image → Tasks → (entry : ℕ) → (name : List ℕ) → Option (Tasks × ℕ)
unfolding alloc_tcb identify create_kernel
task_create k s entry name =
    let t = alloc_tcb k s in
    if t == null
    then some (s, null)
    else elim (identify s t name) [ none ↦ none | some s' ↦ create_kernel k s' t entry ]

unfoldable pub task_get_current : Tasks → ℕ
task_get_current s = s.sched.current_task
