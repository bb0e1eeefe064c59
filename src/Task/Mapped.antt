-- ===== src/Task/Mapped.antt =====
-- `task_create_user_mapped` on every branch.
use ap_pa.Base.{
  ℕ, ◌≡◌, ◌≢◌, ◌<◌, ◌≤◌, refl, ap, ◌∙◌, List, [], ◌++◌, ◌∷◌, arith, Option, some, none, null,
  ==_iff, ==_false, if_true, if_false, add32, ◌==◌, if◌then◌else◌, length,
}
use ap_pa.CString.Compare.{IsText}
use ap_pa.Pmm.{Pmm}
use ap_pa.Sched.{Task}
use ap_pa.Task.{Image, Tasks, Tcb, slot, blank_tcb, give_stack, with_pmm, alloc_tcb, identify}
use ap_pa.Task.User.{
  user_frame, mark_user, give_directory, give_user_stack, create_mapped, task_create_user_mapped,
}
use ap_pa.Task.Pool.{IsImage, IsTasks, stack_of}
use ap_pa.Task.Create.{
  all_used, found, alloc_tcb-Slot, name_of, length-name_of, named, identify-named,
}
use ap_pa.Task.Spawn.{
  Spawn, full, Equips, launch-Spawn, set_tcb_self, set_tcb_other, store_self, store_other,
}

-- The block of a task in user mode, whose stack is in its directory.
abbrev pub user_block : Tasks → List ℕ → (dir user_esp a : ℕ) → Tcb
user_block s text dir user_esp a = record blank_tcb {
  id = add32 s.next_task_id 1;
  name = name_of text;
  is_user = 1;
  kernel_stack = a;
  page_dir = dir;
  user_stack_top = user_esp;
}

-- The state when everything but the frame is noted.
abbrev equipped : Tasks → ℕ → List ℕ → (dir dir_phys user_esp a : ℕ) → Pmm → Tasks
equipped s t text dir dir_phys user_esp a pmm =
    give_user_stack
      (give_directory (give_stack (with_pmm (mark_user (named s t text) t) pmm) t a) t dir dir_phys)
      t 0 user_esp

equipped-Equips :
    {k : Image} {s : Tasks} {l : List ℕ}
    → IsTasks k s l
    → (i : ℕ) → i < 64
    → stack_of k s i ≡ 0
    → (text : List ℕ) (dir dir_phys user_esp a : ℕ) (pmm : Pmm)
    → Equips k s i a pmm
        (user_block s text dir user_esp a)
        dir_phys
        (equipped s (slot k i) text dir dir_phys user_esp a pmm)
unfolding give_stack
equipped-Equips {k = k} {s = s} v i lt free text dir dir_phys user_esp a pmm =
    let t = slot k i in
    let named_tcb : Tcb → Tcb =
      λ c. record c { id = add32 s.next_task_id 1; name = name_of text } in
    let n = named s t text in
    let m = mark_user n t in
    let g = give_stack (with_pmm m pmm) t a in
    let d = give_directory g t dir dir_phys in
    record {
      paging = refl;
      others = λ u ne.
          set_tcb_other d.tcbs t (record (d.tcbs t) { user_stack = 0; user_stack_top = user_esp }) u
            ne
          ∙ set_tcb_other g.tcbs t (record (g.tcbs t) { page_dir = dir }) u ne
          ∙ set_tcb_other m.tcbs t (record (m.tcbs t) { kernel_stack = a }) u ne
          ∙ set_tcb_other n.tcbs t (record (n.tcbs t) { is_user = 1 }) u ne
          ∙ set_tcb_other s.tcbs t (named_tcb (s.tcbs t)) u ne;
      same = λ u ne.
          store_other g.sched.tasks t (record (g.sched.tasks t) { cr3 = dir_phys }) u ne
          ∙ store_other s.sched.tasks t (record (s.sched.tasks t) { esp0 = add32 a 4096 }) u ne;
      head = refl;
      front = refl;
      block =
          set_tcb_self d.tcbs t (record (d.tcbs t) { user_stack = 0; user_stack_top = user_esp })
          ∙ ap {A = Tcb} (λ c. record c { user_stack = 0; user_stack_top = user_esp })
              (set_tcb_self g.tcbs t (record (g.tcbs t) { page_dir = dir })
                ∙ ap {A = Tcb} (λ c. record c { page_dir = dir })
                    (set_tcb_self m.tcbs t (record (m.tcbs t) { kernel_stack = a })
                      ∙ ap {A = Tcb} (λ c. record c { kernel_stack = a })
                          (set_tcb_self n.tcbs t (record (n.tcbs t) { is_user = 1 })
                            ∙ ap {A = Tcb} (λ c. record c { is_user = 1 })
                                (set_tcb_self s.tcbs t (named_tcb (s.tcbs t))
                                  ∙ ap {A = Tcb} named_tcb (v.blank i lt free)))));
      stack = refl;
      name = length-name_of text;
      top =
          ap {A = Task} (λ c. c.esp0)
            (store_self g.sched.tasks t (record (g.sched.tasks t) { cr3 = dir_phys }))
          ∙ ap {A = Task} (λ c. c.esp0)
              (store_self s.sched.tasks t (record (s.sched.tasks t) { esp0 = add32 a 4096 }));
      space =
          ap {A = Task} (λ c. c.cr3)
            (store_self g.sched.tasks t (record (g.sched.tasks t) { cr3 = dir_phys }));
      next_id = refl;
    }

mapped-full :
    (k : Image) (s : Tasks) (entry_vaddr : ℕ) (name : List ℕ) (dir dir_phys user_esp : ℕ)
    → alloc_tcb k s ≡ null
    → task_create_user_mapped k s entry_vaddr name dir dir_phys user_esp ≡ some (s, null)
unfolding task_create_user_mapped
mapped-full k s entry_vaddr name dir dir_phys user_esp e =
    if_true (alloc_tcb k s == null) _ _ ((==_iff (alloc_tcb k s) null).1 e)

mapped-found :
    (k : Image) (s s₁ : Tasks) (t entry_vaddr : ℕ) (name : List ℕ) (dir dir_phys user_esp : ℕ)
    → alloc_tcb k s ≡ t
    → t ≢ null
    → identify s t name ≡ some s₁
    → task_create_user_mapped k s entry_vaddr name dir dir_phys user_esp
      ≡ create_mapped k (mark_user s₁ t) t entry_vaddr dir dir_phys user_esp
unfolding task_create_user_mapped
mapped-found k s s₁ t entry_vaddr name dir dir_phys user_esp e ne id =
    ap
      (λ t.
        if t == null
        then some (s, null)
        else elim (identify s t name) as (λ o. Option (Tasks × ℕ)) [
          | none ↦ none
          | some s' ↦ create_mapped k (mark_user s' t) t entry_vaddr dir dir_phys user_esp
        ])
      e
    ∙ if_false (t == null) _ _ (==_false t null ne)
    ∙ ap
        (λ o. elim o as (λ o. Option (Tasks × ℕ)) [
          | none ↦ none
          | some s' ↦ create_mapped k (mark_user s' t) t entry_vaddr dir dir_phys user_esp
        ])
        id

-- On a sound pool `task_create_user_mapped` returns, with the outcomes of `task_create`, but a new
-- task is in user mode and in the directory given. From the top of its kernel stack down stand the
-- words for `iret`: the selector 0x23 for SS, the stack pointer given, the flags 0x202, the selector
-- 0x1B for CS and the entry given; then the address of `enter_usermode`, to which `task_switch`
-- returns, and the zeros that `task_switch` pops. The pool stays sound.
pub task_create_user_mapped-Spawn :
    {k : Image} {s : Tasks} {l : List ℕ}
    → IsImage k
    → IsTasks k s l
    → (entry_vaddr : ℕ) (text r : List ℕ) → IsText text
    → (dir dir_phys user_esp : ℕ)
    → (s' : Tasks) × (b : ℕ) × (task_create_user_mapped k s entry_vaddr
          (text ++ 0 ∷ r)
          dir
          dir_phys
          user_esp
        ≡ some (s', b))
      × Spawn k s l
          (0x23 ∷ user_esp ∷ 0x202 ∷ 0x1B ∷ entry_vaddr ∷ k.enter_usermode ∷ 0 ∷ 0 ∷ 0 ∷ 0 ∷ [])
          (user_block s text dir user_esp)
          dir_phys
          b
          s'
unfolding create_mapped user_frame
task_create_user_mapped-Spawn {k = k} {s = s} image v entry_vaddr text r ok dir dir_phys user_esp =
    elim (alloc_tcb-Slot v) [
      | all_used e used ↦ (
        s,
        null,
        mapped-full k s entry_vaddr (text ++ 0 ∷ r) dir dir_phys user_esp e,
        full refl refl used,
      )
      | found i e lt free before ↦
          let t = slot k i in
          let n = named s t text in
          let (s', b, run, done) =
            launch-Spawn image v lt free (mark_user n t) refl refl refl
              (λ u ne.
                set_tcb_other n.tcbs t (record (n.tcbs t) { is_user = 1 }) u ne
                ∙ set_tcb_other s.tcbs t
                    (record (s.tcbs t) { id = add32 s.next_task_id 1; name = name_of text }) u ne)
              (user_frame k entry_vaddr user_esp) (few_words k entry_vaddr user_esp)
              (user_block s text dir user_esp) dir_phys (equipped s t text dir dir_phys user_esp)
              (equipped-Equips v i lt free text dir dir_phys user_esp) in
          (
            s',
            b,
            mapped-found k s n t entry_vaddr (text ++ 0 ∷ r) dir dir_phys user_esp e
                  (λ z. image.pool (omega arith)) (identify-named s t text r ok (v.blank i lt free))
                ∙ run,
            done,
          )
    ]
  where
    few_words : (k : Image) (entry esp : ℕ) → length (user_frame k entry esp) ≤ 16
    few_words k entry esp = omega arith
