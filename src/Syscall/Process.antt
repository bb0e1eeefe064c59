-- ===== src/Syscall/Process.antt =====
-- kernel/arch/syscall.c: the handlers that concern the calling task, and the table that `syscall_init`
-- fills. A call that gives up the processor comes back when the caller runs again; what the other
-- tasks and the interrupts do until then is a parameter, with the clock. `none` is a kernel that does
-- not return from the call: a queue that the scheduler cannot walk, or a sleep of more polls than
-- `polls`.
pub mod Sleep
mod Tests
use mathlib.Core.Option
use ap_pa.Base.{
  ℕ, zero, suc, ◌+◌, ◌/◌, ◌^◌, Option, none, some, List, [], ◌∷◌, ltb, ◌==◌, if◌then◌else◌, sub32,
  null, replicate, ◌++◌,
}
use ap_pa.Task.{Tasks, task_get_current}
use ap_pa.Task.Switch.{Cpu, task_yield, task_exit}
use ap_pa.Syscall.{Registers, Handler, minus_one, max_syscalls, sys_write_handler, sys_read_handler}

pub record Kernel : Type 0 where
  pub tasks : Tasks
  pub output : List ℕ

-- What happens during a call. `ticks n` is what `get_timer_ticks` returns the n-th time, `cpu n` the
-- processor at the n-th yield, and `turn n` takes the kernel that this yield leaves, mostly with another
-- task current, to the one in which the caller runs again.
pub record Around : Type 0 where
  pub ticks : ℕ → ℕ
  pub cpu : ℕ → Cpu
  pub turn : ℕ → Kernel → Kernel

-- An operation on the tasks of the kernel.
abbrev pub on_tasks : (Tasks → Option Tasks) → Kernel → Option Kernel
on_tasks f k = Option.map (λ tasks. record k { tasks = tasks }) (f k.tasks)

-- The n-th `sched_yield()` of the call, from the caller to the caller.
unfoldable pub yield_turn : Around → (n : ℕ) → Kernel → Option Kernel
unfolding task_yield
yield_turn w n k = Option.map (w.turn n) (on_tasks (task_yield (w.cpu n)) k)

pub sys_exit_handler : Around → Handler (Option Kernel)
unfolding task_exit
sys_exit_handler w regs none = (0, none)
sys_exit_handler w regs (some k) = (0, on_tasks (task_exit (w.cpu 1)) k)

pub sys_yield_handler : Around → Handler (Option Kernel)
unfolding yield_turn
sys_yield_handler w regs none = (0, none)
sys_yield_handler w regs (some k) = (0, yield_turn w 1 k)

pub sys_getpid_handler : Handler (Option Kernel)
unfolding task_get_current
sys_getpid_handler regs none = (0, none)
sys_getpid_handler regs (some k) =
    let cur = task_get_current k.tasks in
    (if cur == null then minus_one else (k.tasks.tcbs cur).id, some k)

-- `while ((get_timer_ticks() - start) < ticks_to_wait) sched_yield();` from the n-th poll on.
unfoldable pub sleep_loop : ℕ → Around → (start wait n : ℕ) → Kernel → Option Kernel
unfolding yield_turn
sleep_loop zero w start wait n k = none
sleep_loop (suc polls) w start wait n k =
    let rest = elim (yield_turn w n k) as (λ o. Option Kernel) [
      | none ↦ none
      | some k' ↦ sleep_loop polls w start wait (n + 1) k'
    ] in
    if ltb (sub32 (w.ticks n) start) wait then rest else some k

abbrev pub ticks_to_wait : (ms : ℕ) → ℕ
ticks_to_wait ms = if ms / 10 == 0 then 1 else ms / 10

pub sys_sleep_handler : (polls : ℕ) → Around → Handler (Option Kernel)
unfolding sleep_loop
sys_sleep_handler polls w regs none = (0, none)
sys_sleep_handler polls w regs (some k) =
    if regs.ebx == 0
    then (0, some k)
    else (0, sleep_loop polls w (w.ticks 0) (ticks_to_wait regs.ebx) 1 k)

-- The handlers of the other components on this state.
abbrev write_handler : (mem : ℕ → ℕ) → Handler (Option Kernel)
write_handler mem regs none = (0, none)
write_handler mem regs (some k) =
    let (ret, output) = sys_write_handler mem regs k.output in
    (ret, some (record k { output = output }))

pub syscall_table : (mem : ℕ → ℕ) → (polls : ℕ) → Around → List (Option (Handler (Option Kernel)))
unfolding sys_exit_handler sys_yield_handler sys_getpid_handler sys_sleep_handler
syscall_table mem polls w =
    some (sys_exit_handler w)
    ∷ some (write_handler mem)
    ∷ some sys_read_handler
    ∷ some (sys_yield_handler w)
    ∷ some sys_getpid_handler
    ∷ some (sys_sleep_handler polls w)
    ∷ replicate 10 none
