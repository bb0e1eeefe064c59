-- ===== src/Task/Tests.antt =====
-- Tasks at concrete states: the pool at 0x110000 after the start of the allocator, with the idle task
-- alone in the queue.
use ap_pa.Base.{
  ℕ, ◌+◌, ◌*◌, ◌≡◌, refl, true, false, Option, none, some, List, [], ◌∷◌, arith, ==_iff, Bool-cases,
  inl, inr, if◌then◌else◌, ◌==◌, if_false, ==_false, ◌-◌,
}
use ap_pa.Pmm.{pmm_init, alloc_page, test_frame}
use ap_pa.Pmm.Count.{IsPmm, count, count_none}
use ap_pa.Pmm.Init.{pmm_init-IsPmm}
use ap_pa.CString.{strncpy}
use ap_pa.Sched.{TaskState, Sched, sched_add_task, sched_yield}
use ap_pa.Sched.Queue.{IsQueue}
use ap_pa.Task.{
  Image, Tasks, blank_tcb, set_tcb, is_free, tcb_loop, alloc_tcb, push_all, give_stack, task_create,
  task_get_current, clear_tcb,
}
use ap_pa.Task.User.{task_create_user, task_create_user_mapped, task_reap}
use ap_pa.Task.Pool.{IsImage, IsTasks, IsTasks-filled}
use ap_pa.Task.Switch.{Cpu, task_exit}
use ap_pa.Task.Exit.{Exited, task_exit-Exited}
use ap_pa.Task.Reap.{Reaped, task_reap-Reaped}
use ap_pa.Sched.Tick.{IsOneRunning}
use ap_pa.Pmm.Alloc.{alloc_page-PageAlloc, exhausted, page}
use ap_pa.Task.Spawn.{Spawn}
use ap_pa.Task.Kernel.{block_of, task_create-Spawn}
use ap_pa.Task.Mapped.{user_block, task_create_user_mapped-Spawn}

abbrev image : Image
image = record {
  task_pool = 0x110000;
  boot_task = 0x10F000;
  task_wrapper = 0x101000;
  enter_usermode = 0x102000;
  wrappers = 0x103000 ∷ [];
}

image-IsImage : IsImage image
image-IsImage = record { pool = omega arith; apart = λ i lt e. omega arith }

abbrev sched : Sched
sched = record {
  tasks = λ t. record {
    state = if t == 0x10F000 then TaskState.running else TaskState.ready;
    esp0 = 0;
    cr3 = 0;
    next = if t == 0x10F000 then 0x10F000 else 0;
  };
  current_task = 0x10F000;
  ready_head = 0x10F000;
  scheduler_on = true;
  slice_remaining = 1;
  tss_esp0 = 0;
  cr3 = 0;
  kernel_cr3 = 0;
}

abbrev boot : Tasks
boot = record {
  tcbs = λ t. blank_tcb;
  next_task_id = 0;
  sched = sched;
  paging = record {
    pmm = pmm_init;
    mem = λ a. 0;
    kernel_directory = 0;
    pd_tables = λ i. 0;
    pd_physical_address = 0;
    cr3 = 0;
    paging_on = false;
  };
}

reserved : test_frame pmm_init 0 ≡ true
unfolding test_frame pmm_init
reserved = refl

boot-IsTasks : IsTasks image boot (0x10F000 ∷ [])
boot-IsTasks = record {
  queue = record {
    circle = (refl, refl);
    distinct = (tt, tt);
    no_null = (omega arith, tt);
    few = omega arith;
  };
  valid = pmm_init-IsPmm.0;
  reserved = reserved;
  idle = λ n. n.0 refl;
  out = λ i lt free. (image-IsImage.apart i lt, tt);
  queued = λ i lt used. absurd (used refl);
  counted = none_used;
  blank = λ i lt free. refl;
  spaces = λ i lt free. refl;
  names = λ i lt. refl;
  stacks = λ i lt used. absurd (used refl);
  own = λ i j lt lt' ne used. absurd (used refl);
}
  where
    none_used : 1 ≡ 1 + count 64 (λ i. false)
    none_used = omega (arith, count_none 64)

task_create-Spawn_example :
    (s' : Tasks) × (b : ℕ) × (task_create image boot 0x104000 (97 ∷ 0 ∷ []) ≡ some (s', b))
    × Spawn image boot
        (0x10F000 ∷ [])
        (0x104000 ∷ 0 ∷ image.task_wrapper ∷ 0 ∷ 0 ∷ 0 ∷ 0 ∷ [])
        (block_of boot (97 ∷ []))
        0
        b
        s'
task_create-Spawn_example =
    task_create-Spawn image-IsImage boot-IsTasks 0x104000 (97 ∷ []) [] (omega arith, tt)

task_create_user_mapped-Spawn_example :
    (s' : Tasks) × (b : ℕ) × (task_create_user_mapped image boot 0x400000
        (97 ∷ 0 ∷ [])
        0x300000
        0x300000
        0xBFFFFFF0
      ≡ some (s', b))
    × Spawn image boot
        (0x10F000 ∷ [])
        (0x23 ∷ 0xBFFFFFF0 ∷ 0x202 ∷ 0x1B ∷ 0x400000 ∷ image.enter_usermode ∷ 0 ∷ 0 ∷ 0 ∷ 0 ∷ [])
        (user_block boot (97 ∷ []) 0x300000 0xBFFFFFF0)
        0x300000
        b
        s'
task_create_user_mapped-Spawn_example =
    task_create_user_mapped-Spawn image-IsImage boot-IsTasks 0x400000 (97 ∷ []) [] (omega arith, tt)
      0x300000 0x300000 0xBFFFFFF0

-- A second task, in the first slot, with the first free page as its stack.
abbrev joined : TaskState → TaskState → ℕ → Sched
joined first second current = record sched {
  tasks = λ t. record {
    state = if t == 0x10F000 then first else if t == 0x110000 then second else TaskState.ready;
    esp0 = 0;
    cr3 = 0;
    next = if t == 0x10F000 then 0x110000 else if t == 0x110000 then 0x10F000 else 0;
  };
  current_task = current;
}

abbrev two : Sched → Tasks
two sc = record boot {
  tcbs = set_tcb boot.tcbs 0x110000 (record blank_tcb { id = 1; kernel_stack = 513 * 4096 });
  sched = sc;
  paging = record boot.paging { pmm = (alloc_page pmm_init).1 };
}

taken : test_frame (alloc_page pmm_init).1 513 ≡ true
unfolding test_frame alloc_page pmm_init
taken = refl

fresh : test_frame pmm_init 513 ≡ false
unfolding test_frame pmm_init
fresh = refl

after :
    IsPmm (alloc_page pmm_init).1
    × ((g : ℕ) → test_frame pmm_init g ≡ true → test_frame (alloc_page pmm_init).1 g ≡ true)
after = elim (alloc_page-PageAlloc pmm_init-IsPmm.0) [
  | exhausted _ same _ ↦ (rw same pmm_init-IsPmm.0, λ g h. rw same h)
  | page f _ _ k ↦ (k.valid, λ g h. ground (arith, k.marked g))
]

joined-IsQueue :
    (first second : TaskState) (c : ℕ) → IsQueue (joined first second c) (0x10F000 ∷ 0x110000 ∷ [])
joined-IsQueue first second c = record {
  circle = (refl, (refl, refl));
  distinct = ((omega arith, tt), (tt, tt));
  no_null = (omega arith, (omega arith, tt));
  few = omega arith;
}

abbrev with_dead : Tasks
with_dead = two (joined TaskState.running TaskState.dead 0x10F000)

with_dead-IsTasks : IsTasks image with_dead (0x10F000 ∷ 0x110000 ∷ [])
with_dead-IsTasks =
    IsTasks-filled boot-IsTasks 0 (omega arith) refl with_dead
      (λ u ne. if_false (u == 0x110000) _ _ (==_false u 0x110000 ne))
      (joined-IsQueue TaskState.running TaskState.dead 0x10F000) after.0 after.1 fresh
      (record { aligned = refl; low = omega arith; taken = taken }) (omega arith) refl
      (λ u ne. refl)

task_reap-Reaped_example :
    (s' : Tasks) × (l' : List ℕ) × (task_reap image with_dead ≡ some s')
    × Reaped image with_dead s' (0x10F000 ∷ 0x110000 ∷ []) l'
task_reap-Reaped_example = task_reap-Reaped image-IsImage with_dead-IsTasks

-- The second task runs, and exits.
abbrev leaving : Tasks
leaving = two (joined TaskState.ready TaskState.running 0x110000)

leaving-IsOneRunning : IsOneRunning leaving.sched
leaving-IsOneRunning = record {
  current = refl;
  only = λ t h. elim (Bool-cases (t == 0x10F000)) [
    | inl e ↦ let no = rw e at h in absurd cc
    | inr e ↦ elim (Bool-cases (t == 0x110000)) [
      | inl f ↦ (==_iff t 0x110000).0 f
      | inr f ↦ let no = rw (e, f) at h in absurd cc
    ]
  ];
}

-- The stack of the second task, in its page.
abbrev cpu : Cpu
cpu = record { esp = 514 * 4096 - 100; eip = 0x105000; ebx = 1; esi = 2; edi = 3; ebp = 4 }

task_exit-Exited_example :
    (s' : Tasks) × (task_exit cpu leaving ≡ some s')
    × Exited cpu leaving s' (0x10F000 ∷ 0x110000 ∷ []) 0x10F000
task_exit-Exited_example =
    task_exit-Exited cpu leaving (0x10F000 ∷ []) [] (omega arith) (omega arith)
      (joined-IsQueue TaskState.ready TaskState.running 0x110000) leaving-IsOneRunning
      ([], 0x110000 ∷ [], 0x10F000, refl, refl) (omega arith)

abbrev esp_of : Option (Tasks × ℕ) → ℕ
esp_of none = 0
esp_of (some (s, t)) = (s.tcbs t).esp

abbrev word_of : Option (Tasks × ℕ) → ℕ → ℕ
word_of none a = 0
word_of (some (s, t)) a = s.paging.mem a

abbrev ids_of : Option Tasks → ℕ × ℕ
ids_of none = (9, 9)
ids_of (some s) = ((s.tcbs 0x110000).id, s.sched.current_task)

created :
    (esp_of (task_create image boot 0x104000 (97 ∷ 0 ∷ [])) ≡ 514 * 4096 - 28)
    × (word_of (task_create image boot 0x104000 (97 ∷ 0 ∷ [])) (514 * 4096 - 4) ≡ 0x104000)
unfolding task_create sched_add_task alloc_page pmm_init strncpy
created = (refl, refl)

in_user_mode :
    (esp_of (task_create_user image boot 0x104000 (97 ∷ 0 ∷ [])) ≡ 514 * 4096 - 40)
    × (word_of (task_create_user image boot 0x104000 (97 ∷ 0 ∷ [])) (514 * 4096 - 8) ≡ 0xC0000000)
    × (esp_of (task_create_user_mapped image boot 0x400000 (97 ∷ 0 ∷ []) 3 3 8) ≡ 514 * 4096 - 40)
unfolding task_create_user task_create_user_mapped sched_add_task alloc_page pmm_init strncpy
in_user_mode = (refl, refl, refl)

swept : ids_of (task_reap image with_dead) ≡ (0, 0x10F000)
unfolding task_reap
swept = refl

left : ids_of (task_exit cpu leaving) ≡ (1, 0x10F000)
unfolding task_exit sched_yield
left = refl

parts :
    (task_get_current boot ≡ 0x10F000)
    × (is_free blank_tcb ≡ true)
    × (tcb_loop 3 image boot.tcbs 0 ≡ 0x110000)
    × (alloc_tcb image boot ≡ 0x110000)
    × ((push_all (7 ∷ 8 ∷ []) (λ a. 0) 100).1 ≡ 92)
    × ((clear_tcb with_dead 0x110000).tcbs 0x110000 ≡ blank_tcb)
    × (((give_stack boot 0x110000 4096).sched.tasks 0x110000).esp0 ≡ 8192)
unfolding task_get_current is_free tcb_loop alloc_tcb push_all clear_tcb give_stack
parts = (refl, refl, refl, refl, refl, refl, refl)
