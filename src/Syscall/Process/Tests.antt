-- ===== src/Syscall/Process/Tests.antt =====
-- Calls of a kernel with two tasks, the first of which runs.
use ap_pa.Base.{
  ℕ, ◌+◌, ◌-◌, ◌%◌, ◌^◌, ◌<◌, ◌≡◌, refl, arith, true, false, Option, none, some, [], ◌∷◌, ==_iff,
  Bool-cases, inl, inr, if◌then◌else◌, ◌==◌,
}
use ap_pa.Pmm.{pmm_init}
use ap_pa.Sched.{Task, TaskState, is_running, sched_yield}
use ap_pa.Task.{blank_tcb, task_get_current}
use ap_pa.Syscall.{Registers, minus_one, syscall_dispatcher}
use ap_pa.Syscall.Process.{
  Kernel, Around, sys_exit_handler, sys_yield_handler, sys_getpid_handler, sleep_loop,
  sys_sleep_handler, syscall_table,
}
use ap_pa.Syscall.Process.Sleep.{Runs, yields, sys_sleep_handler-yields}
use ap_pa.Timer.Run.{Scheduled}

abbrev two : ℕ → Task
two t = record {
  state =
      if t == 100
      then TaskState.running
      else if t == 200
      then TaskState.ready
      else TaskState.blocked;
  esp0 = 0;
  cr3 = 0;
  next = if t == 100 then 200 else 100;
}

abbrev kernel : Kernel
kernel = record {
  tasks = record {
    tcbs = λ t. record blank_tcb { id = 7 };
    next_task_id = 7;
    sched = record {
      tasks = two;
      current_task = 100;
      ready_head = 100;
      scheduler_on = true;
      slice_remaining = 1;
      tss_esp0 = 0;
      cr3 = 0;
      kernel_cr3 = 0;
    };
    paging = record {
      pmm = pmm_init;
      mem = λ a. 0;
      kernel_directory = 0;
      pd_tables = λ i. 0;
      pd_physical_address = 0;
      cr3 = 0;
      paging_on = false;
    };
  };
  output = [];
}

kernel-Scheduled : Scheduled kernel.tasks.sched (100 ∷ 200 ∷ [])
kernel-Scheduled = record {
  queue = record {
    circle = (refl, (refl, refl));
    distinct = ((omega arith, tt), (tt, tt));
    no_null = (omega arith, (omega arith, tt));
    few = omega arith;
  };
  one = record { current = refl; only = only };
  member = ([], 200 ∷ [], refl);
}
  where
    only : (t : ℕ) → is_running (two t).state ≡ true → t ≡ 100
    only t h = elim (Bool-cases (t == 100)) [
      | inl e ↦ (==_iff t 100).0 e
      | inr e ↦ elim (Bool-cases (t == 200)) [
        | inl f ↦ let no = rw (e, f) at h in absurd cc
        | inr f ↦ let no = rw (e, f) at h in absurd cc
      ]
    ]

abbrev call : ℕ → Registers
call n = record { eax = n; ebx = 20; ecx = 0 }

-- The counter wraps round during the sleep; the second task yields at once.
abbrev around : Around
around = record {
  ticks = λ n. if n == 0 then 0xFFFFFFFF else if n == 1 then 0 else 1;
  cpu = λ n. record { esp = 0x8000; eip = 0x105000; ebx = n; esi = 0; edi = 0; ebp = 0 };
  turn = λ n k. record k { tasks = record k.tasks { sched = kernel.tasks.sched } };
}

sys_sleep_handler-yields_example :
    (k' : Kernel) × (sys_sleep_handler 9 around (call 5) (some kernel) ≡ (0, some k'))
    × (yields around 1 1 kernel ≡ some k')
    × Runs 100 k'
sys_sleep_handler-yields_example =
    sys_sleep_handler-yields 1 9 2 around (call 5) kernel (100 ∷ 200 ∷ []) kernel-Scheduled
      (λ n k l v. (100 ∷ 200 ∷ [], kernel-Scheduled, refl)) (omega arith) (omega arith) refl
      (omega arith) early
  where
    early : (j : ℕ) → j < 1 → (around.ticks (1 + j) + 2 ^ 32 - 0xFFFFFFFF) % 2 ^ 32 < 2
    early j lt = let e : j ≡ 0 = omega arith in rw e (omega arith)

abbrev current_of : Option Kernel → ℕ
current_of none = 0
current_of (some k) = k.tasks.sched.current_task

abbrev saved_of : Option Kernel → ℕ
saved_of none = 0
saved_of (some k) = (k.tasks.tcbs 100).esp

served :
    ((syscall_dispatcher (syscall_table (λ a. 0) 9 around) (call 4) (some kernel)).0.eax ≡ 7)
    × ((syscall_dispatcher (syscall_table (λ a. 0) 9 around) (call 6) (some kernel)).0.eax
        ≡ minus_one)
unfolding syscall_dispatcher syscall_table task_get_current
served = (refl, refl)

handled :
    ((sys_exit_handler around (call 0) none).0 ≡ 0)
    × ((sys_yield_handler around (call 3) none).0 ≡ 0)
    × ((sys_getpid_handler (call 4) none).0 ≡ 0)
    × (sleep_loop 1 around 0xFFFFFFFF 1 2 kernel ≡ some kernel)
unfolding sys_exit_handler sys_yield_handler sys_getpid_handler sleep_loop
handled = (refl, refl, refl, refl)

-- The switch stores the stack pointer, and the caller comes back.
yielded :
    (current_of (sys_yield_handler around (call 3) (some kernel)).1 ≡ 100)
    × (saved_of (sys_yield_handler around (call 3) (some kernel)).1 ≡ 0x8000 - 28)
unfolding sys_yield_handler sched_yield
yielded = (refl, refl)
