-- ===== src/Task/User.antt =====
-- kernel/task/task.c: tasks in user mode, and the reaper.
use ap_pa.Base.{
  ℕ, zero, suc, ◌+◌, Bool, true, false, ◌&&◌, not, Option, none, some, List, [], ◌∷◌, ◌==◌,
  if◌then◌else◌, null, add32, bit_and, bit_or,
}
use mathlib.Core.Option
use ap_pa.Pmm.{alloc_page, free_page}
use ap_pa.Paging.{
  Paging, page_present, page_writable, page_user, page_frame_mask, zero_page, paging_unmap_page,
}
use ap_pa.Paging.Process.{paging_clone_directory, paging_map_page_in, paging_free_directory}
use ap_pa.Sched.{TaskState, store, sched_remove_task}
use ap_pa.Task.{
  Image, Tasks, task_max_tasks, slot, set_tcb, with_pmm, clear_tcb, alloc_tcb, identify, launch,
  give_stack,
}

abbrev pub user_stack_virt : ℕ
user_stack_virt = 0xBFFFF000

abbrev pub user_stack_top : ℕ
user_stack_top = 0xC0000000

abbrev pub gdt_user_code_seg : ℕ
gdt_user_code_seg = 0x1B

abbrev pub gdt_user_data_seg : ℕ
gdt_user_data_seg = 0x23

-- SS, ESP, EFLAGS, CS, EIP for `iret`, then what `task_switch` pops.
unfoldable pub user_frame : Image → (entry esp : ℕ) → List ℕ
user_frame k entry esp =
    gdt_user_data_seg ∷ esp ∷ 0x202 ∷ gdt_user_code_seg ∷ entry ∷ k.enter_usermode ∷ 0 ∷ 0 ∷ 0 ∷ 0
    ∷ []

abbrev pub user_flags : ℕ
user_flags = bit_or (bit_or page_present page_writable) page_user

-- `MAP_USER_PAGE`
abbrev pub map_user_page : Paging → (dir func_addr : ℕ) → Paging
map_user_page p dir func_addr =
    let page = bit_and func_addr page_frame_mask in paging_map_page_in p dir page page user_flags

abbrev pub map_user_pages : List ℕ → Paging → (dir : ℕ) → Paging
map_user_pages [] p dir = p
map_user_pages (f ∷ fs) p dir = map_user_pages fs (map_user_page p dir f) dir

-- `is_user`
abbrev pub mark_user : Tasks → ℕ → Tasks
mark_user s t = record s { tcbs = set_tcb s.tcbs t (record (s.tcbs t) { is_user = 1 }) }

-- `page_dir` and `cr3`
abbrev pub give_directory : Tasks → (t dir dir_phys : ℕ) → Tasks
give_directory s t dir dir_phys = record s {
  tcbs = set_tcb s.tcbs t (record (s.tcbs t) { page_dir = dir });
  sched = record s.sched {
    tasks = store s.sched.tasks t (record (s.sched.tasks t) { cr3 = dir_phys });
  };
}

abbrev pub give_user_stack : Tasks → (t stack top : ℕ) → Tasks
give_user_stack s t stack top = record s {
  tcbs = set_tcb s.tcbs t (record (s.tcbs t) { user_stack = stack; user_stack_top = top });
}

-- The part of `task_create_user` from the user stack on.
unfoldable pub create_user_stack : Image → Tasks → (t kstack clone entry : ℕ) → Option (Tasks × ℕ)
unfolding clear_tcb launch user_frame paging_free_directory paging_map_page_in
create_user_stack k s t kstack clone entry =
    let (ustack, pmm) = alloc_page s.paging.pmm in
    let s' = with_pmm s pmm in
    let freed = paging_free_directory s'.paging clone in
    let blank = record s'.paging { mem = zero_page s'.paging.mem ustack } in
    let mapped = paging_map_page_in blank clone user_stack_virt ustack user_flags in
    if ustack == 0
    then some (clear_tcb (with_pmm s' (free_page freed.pmm kstack).1) t, null)
    else launch (give_user_stack (record s' { paging = mapped }) t ustack user_stack_top) t
        (user_frame k entry user_stack_top)

-- The part of `task_create_user` behind the kernel stack.
unfoldable pub create_directory : Image → Tasks → (t kstack entry : ℕ) → Option (Tasks × ℕ)
unfolding paging_clone_directory paging_map_page_in create_user_stack clear_tcb
create_directory k s t kstack entry =
    let (clone, paging) = paging_clone_directory s.paging in
    let s' = record s { paging = paging } in
    let pages = entry ∷ add32 entry 0x1000 ∷ k.wrappers in
    let owned = give_directory s' t clone clone in
    if clone == null
    then some (clear_tcb (with_pmm s' (free_page paging.pmm kstack).1) t, null)
    else create_user_stack k (record owned { paging = map_user_pages pages owned.paging clone }) t
        kstack clone entry

unfoldable pub create_user : Image → Tasks → (t entry : ℕ) → Option (Tasks × ℕ)
unfolding give_stack clear_tcb create_directory
create_user k s t entry =
    let (kstack, pmm) = alloc_page s.paging.pmm in
    let s' = with_pmm s pmm in
    if kstack == 0
    then some (clear_tcb s' t, null)
    else create_directory k (give_stack s' t kstack) t kstack entry

unfoldable pub task_create_user : Image → Tasks → (entry : ℕ) → (name : List ℕ) → Option (Tasks × ℕ)
unfolding alloc_tcb identify create_user
task_create_user k s entry name =
    let t = alloc_tcb k s in
    if t == null
    then some (s, null)
    else elim (identify s t name) [ none ↦ none | some s' ↦ create_user k (mark_user s' t) t entry ]

unfoldable pub create_mapped :
    Image → Tasks → (t entry_vaddr dir dir_phys user_esp : ℕ) → Option (Tasks × ℕ)
unfolding give_stack clear_tcb launch user_frame
create_mapped k s t entry_vaddr dir dir_phys user_esp =
    let (kstack, pmm) = alloc_page s.paging.pmm in
    let s' = with_pmm s pmm in
    if kstack == 0
    then some (clear_tcb s' t, null)
    else launch
        (give_user_stack (give_directory (give_stack s' t kstack) t dir dir_phys) t 0 user_esp) t
        (user_frame k entry_vaddr user_esp)

unfoldable pub task_create_user_mapped :
    Image
    → Tasks
    → (entry_vaddr : ℕ) → (name : List ℕ) → (dir dir_phys user_esp : ℕ) → Option (Tasks × ℕ)
unfolding alloc_tcb identify create_mapped
task_create_user_mapped k s entry_vaddr name dir dir_phys user_esp =
    let t = alloc_tcb k s in
    if t == null then some (s, null) else elim (identify s t name) [
      | none ↦ none
      | some s' ↦ create_mapped k (mark_user s' t) t entry_vaddr dir dir_phys user_esp
    ]

abbrev pub is_dead : TaskState → Bool
is_dead TaskState.dead = true
is_dead TaskState.ready = false
is_dead TaskState.running = false
is_dead TaskState.blocked = false

-- The memory of a dead task.
unfoldable pub free_memory : Tasks → (t : ℕ) → Paging
unfolding paging_free_directory paging_unmap_page
free_memory s t =
    let tcb = s.tcbs t in
    let p = record s.paging { pmm = (free_page s.paging.pmm tcb.kernel_stack).1 } in
    let unmapped = paging_unmap_page p tcb.user_stack in
    if not (tcb.page_dir == 0)
    then paging_free_directory p tcb.page_dir
    else if not (tcb.user_stack == 0)
    then record unmapped { pmm = (free_page unmapped.pmm tcb.user_stack).1 }
    else p

-- One round of `task_reap`.
unfoldable pub reap_task : Image → Tasks → (t : ℕ) → Option Tasks
unfolding sched_remove_task free_memory clear_tcb
reap_task k s t =
    let removed =
      Option.map (λ sched. clear_tcb (record s { sched = sched; paging = free_memory s t }) t)
        (sched_remove_task k.boot_task s.sched t) in
    if is_dead (s.sched.tasks t).state && not ((s.tcbs t).kernel_stack == 0)
    then removed
    else some s

unfoldable pub reap_loop : ℕ → Image → (i : ℕ) → Tasks → Option Tasks
unfolding reap_task
reap_loop zero k i s = some s
reap_loop (suc n) k i s = elim (reap_task k s (slot k i)) [
  | none ↦ none
  | some s' ↦ reap_loop n k (i + 1) s'
]

unfoldable pub task_reap : Image → Tasks → Option Tasks
unfolding reap_loop
task_reap k s = reap_loop task_max_tasks k 0 s
