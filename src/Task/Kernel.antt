-- ===== src/Task/Kernel.antt =====
-- `task_create` on every branch.
use ap_pa.Base.{
  ℕ, ◌≡◌, ◌≢◌, ◌<◌, refl, ap, ◌∙◌, List, [], ◌++◌, ◌∷◌, arith, Option, some, none, null, ==_iff,
  ==_false, if_true, if_false, add32, ◌==◌, if◌then◌else◌, length, ◌≤◌,
}
use ap_pa.CString.Compare.{IsText}
use ap_pa.Pmm.{Pmm}
use ap_pa.Sched.{Task}
use ap_pa.Task.{
  Image, Tasks, Tcb, slot, blank_tcb, give_stack, with_pmm, kernel_frame, create_kernel,
  task_create, alloc_tcb, identify,
}
use ap_pa.Task.Pool.{IsImage, IsTasks, stack_of}
use ap_pa.Task.Create.{
  all_used, found, alloc_tcb-Slot, name_of, length-name_of, named, identify-named,
}
use ap_pa.Task.Spawn.{
  Spawn, full, Equips, launch-Spawn, set_tcb_self, set_tcb_other, store_self, store_other,
}

-- A block with an id, a name and a stack.
abbrev pub block_of : Tasks → List ℕ → ℕ → Tcb
block_of s text a = record blank_tcb {
  id = add32 s.next_task_id 1;
  name = name_of text;
  kernel_stack = a;
}

-- The state when the stack `a` is noted.
abbrev equipped : Tasks → ℕ → List ℕ → (a : ℕ) → Pmm → Tasks
equipped s t text a pmm = give_stack (with_pmm (named s t text) pmm) t a

equipped-Equips :
    {k : Image} {s : Tasks} {l : List ℕ}
    → IsTasks k s l
    → (i : ℕ) → i < 64
    → stack_of k s i ≡ 0
    → (text : List ℕ) (a : ℕ) (pmm : Pmm)
    → Equips k s i a pmm (block_of s text a) 0 (equipped s (slot k i) text a pmm)
unfolding give_stack
equipped-Equips {k = k} {s = s} v i lt free text a pmm =
    let t = slot k i in
    let n = named s t text in
    let new = record (s.tcbs t) { id = add32 s.next_task_id 1; name = name_of text } in
    let task = record (s.sched.tasks t) { esp0 = add32 a 4096 } in
    record {
      paging = refl;
      others = λ u ne.
          set_tcb_other n.tcbs t (record (n.tcbs t) { kernel_stack = a }) u ne
          ∙ set_tcb_other s.tcbs t new u ne;
      same = λ u ne. store_other s.sched.tasks t task u ne;
      head = refl;
      front = refl;
      block =
          set_tcb_self n.tcbs t (record (n.tcbs t) { kernel_stack = a })
          ∙ ap {A = Tcb} (λ c. record c { kernel_stack = a }) (set_tcb_self s.tcbs t new)
          ∙ ap {A = Tcb}
              (λ c. record c { id = add32 s.next_task_id 1; name = name_of text; kernel_stack = a })
              (v.blank i lt free);
      stack = refl;
      name = length-name_of text;
      top = ap {A = Task} (λ c. c.esp0) (store_self s.sched.tasks t task);
      space = ap {A = Task} (λ c. c.cr3) (store_self s.sched.tasks t task) ∙ v.spaces i lt free;
      next_id = refl;
    }

task_create-full :
    (k : Image) (s : Tasks) (entry : ℕ) (name : List ℕ)
    → alloc_tcb k s ≡ null
    → task_create k s entry name ≡ some (s, null)
unfolding task_create
task_create-full k s entry name e =
    if_true (alloc_tcb k s == null) _ _ ((==_iff (alloc_tcb k s) null).1 e)

task_create-found :
    (k : Image) (s s₁ : Tasks) (t entry : ℕ) (name : List ℕ)
    → alloc_tcb k s ≡ t
    → t ≢ null
    → identify s t name ≡ some s₁
    → task_create k s entry name ≡ create_kernel k s₁ t entry
unfolding task_create
task_create-found k s s₁ t entry name e ne id =
    ap
      (λ t.
        if t == null
        then some (s, null)
        else elim (identify s t name) as (λ o. Option (Tasks × ℕ)) [
          | none ↦ none
          | some s' ↦ create_kernel k s' t entry
        ])
      e
    ∙ if_false (t == null) _ _ (==_false t null ne)
    ∙ ap
        (λ o. elim o as (λ o. Option (Tasks × ℕ)) [
          | none ↦ none
          | some s' ↦ create_kernel k s' t entry
        ])
        id

-- On a sound pool `task_create` returns. With every slot in use it returns null and changes nothing;
-- without a page for the stack it returns null, uses up an id and leaves memory and queue as they
-- were. Otherwise it takes the lowest free page for the stack of a free slot, whose block holds the
-- next id and the name cut off at 31 characters. From the top of the stack down stand the entry, a zero
-- return address, the address of `task_wrapper`, to which `task_switch` returns, and the zeros that
-- `task_switch` pops, with `esp` at the last of them. No other memory and no other task's block or
-- state is changed, and the task is ready at the end of the queue, in the kernel's directory. The pool
-- stays sound.
pub task_create-Spawn :
    {k : Image} {s : Tasks} {l : List ℕ}
    → IsImage k
    → IsTasks k s l
    → (entry : ℕ) (text r : List ℕ) → IsText text
    → (s' : Tasks) × (b : ℕ) × (task_create k s entry (text ++ 0 ∷ r) ≡ some (s', b))
      × Spawn k s l (entry ∷ 0 ∷ k.task_wrapper ∷ 0 ∷ 0 ∷ 0 ∷ 0 ∷ []) (block_of s text) 0 b s'
unfolding create_kernel kernel_frame
task_create-Spawn {k = k} {s = s} image v entry text r ok = elim (alloc_tcb-Slot v) [
  | all_used e used ↦ (s, null, task_create-full k s entry (text ++ 0 ∷ r) e, full refl refl used)
  | found i e lt free before ↦
      let t = slot k i in
      let (s', b, run, done) =
        launch-Spawn image v lt free (named s t text) refl refl refl
          (λ u ne.
            set_tcb_other s.tcbs t
              (record (s.tcbs t) { id = add32 s.next_task_id 1; name = name_of text }) u ne)
          (kernel_frame k entry) (few_words k entry) (block_of s text) 0 (equipped s t text)
          (equipped-Equips v i lt free text) in
      (
        s',
        b,
        task_create-found k s (named s t text) t entry (text ++ 0 ∷ r) e
              (λ z. image.pool (omega arith)) (identify-named s t text r ok (v.blank i lt free))
            ∙ run,
        done,
      )
]
  where
    few_words : (k : Image) (entry : ℕ) → length (kernel_frame k entry) ≤ 16
    few_words k entry = omega arith
