-- ===== src/Task/Spawn.antt =====
-- What the functions that create a task over one page do, on every branch.
use ap_pa.Base.{
  ℕ, ◌+◌, ◌-◌, ◌*◌, ◌≤◌, ◌<◌, ◌≡◌, ◌≢◌, ◌⊎◌, inl, inr, refl, ap, ◌∙◌, List, [], ◌∷◌, ◌++◌, arith,
  length, ◌==◌, ==_iff, ==_false, if◌then◌else◌, if_true, if_false, null, some, add32,
}
use mathlib.Core.Path.{subst}
use ap_pa.Pmm.{Pmm, alloc_page}
use ap_pa.Pmm.Scan.{AllUsed}
use ap_pa.Pmm.Alloc.{Takes, PageAlloc, exhausted, page, alloc_page-PageAlloc}
use ap_pa.Paging.{Paging}
use ap_pa.Sched.{Task, TaskState, Sched, store}
use ap_pa.Sched.Queue.{IsQueue-elsewhere}
use ap_pa.Task.{Image, Tasks, Tcb, launch, set_tcb, slot, clear_tcb, with_pmm}
use ap_pa.Task.Pool.{IsImage, IsTasks, Others, stack_of, IsTasks-cleared}
use ap_pa.Task.Frame.{FrameAt}
use ap_pa.Task.Launch.{Launched}
use ap_pa.Task.Equip.{Equipped, Takes-Equipped, launched, Launched-IsTasks, fresh-ne}

-- The control block `tcb` but for `esp`, which is below the frame on the stack at frame `f`.
abbrev pub resting : Tcb → (f : ℕ) → List ℕ → Tcb
resting tcb f frame = record tcb { esp = f * 4096 + 4096 - 4 * length frame }

-- The task in slot `i`, with its stack in the page frame `f`.
pub record NewTask (k : Image) (s : Tasks) (l frame : List ℕ) (i f : ℕ) (tcb : Tcb) (cr3 : ℕ)
    (s' : Tasks) : Type 0 where
  pub pool : IsTasks k s' (l ++ slot k i ∷ [])
  pub takes : Takes s.paging.pmm f 1 s'.paging.pmm
  pub lowest : AllUsed s.paging.pmm 0 f
  pub block : s'.tcbs (slot k i) ≡ resting tcb f frame
  pub others : Others k i s s'
  pub ready : (s'.sched.tasks (slot k i)).state ≡ TaskState.ready
  pub top : (s'.sched.tasks (slot k i)).esp0 ≡ f * 4096 + 4096
  pub space : (s'.sched.tasks (slot k i)).cr3 ≡ cr3
  pub states : (u : ℕ) → u ≢ slot k i → (s'.sched.tasks u).state ≡ (s.sched.tasks u).state
  pub front : s'.sched.current_task ≡ s.sched.current_task
  pub words : FrameAt frame s'.paging.mem (f * 4096 + 4096)
  pub off : (a : ℕ) → (a < f * 4096) ⊎ (f * 4096 + 4096 ≤ a) → s'.paging.mem a ≡ s.paging.mem a
  pub next_id : s'.next_task_id ≡ add32 s.next_task_id 1

-- A store to a block, read back and elsewhere.
pub set_tcb_self : (tcbs : ℕ → Tcb) (t : ℕ) (c : Tcb) → set_tcb tcbs t c t ≡ c
set_tcb_self tcbs t c = if_true (t == t) _ _ ((==_iff t t).1 refl)

pub set_tcb_other : (tcbs : ℕ → Tcb) (t : ℕ) (c : Tcb) (u : ℕ) → u ≢ t → set_tcb tcbs t c u ≡ tcbs u
set_tcb_other tcbs t c u ne = if_false (u == t) _ _ (==_false u t ne)

pub store_self : (tasks : ℕ → Task) (t : ℕ) (c : Task) → store tasks t c t ≡ c
store_self tasks t c = if_true (t == t) _ _ ((==_iff t t).1 refl)

pub store_other :
    (tasks : ℕ → Task) (t : ℕ) (c : Task) (u : ℕ) → u ≢ t → store tasks t c u ≡ tasks u
store_other tasks t c u ne = if_false (u == t) _ _ (==_false u t ne)

-- The task returned and the state: no slot, no page for the stack, or a new task.
pub data Spawn (k : Image) (s : Tasks) (l frame : List ℕ) (tcb : ℕ → Tcb) (cr3 : ℕ)
    : ℕ → Tasks → Type 0 where
  full :
      {a : ℕ} {s' : Tasks}
      → a ≡ null
      → s' ≡ s
      → ((j : ℕ) → j < 64 → stack_of k s j ≢ 0)
      → Spawn k s l frame tcb cr3 a s'
  no_memory :
      {a : ℕ} {s' : Tasks}
      → a ≡ null
      → AllUsed s.paging.pmm 0 4096
      → s'.paging ≡ s.paging
      → s'.next_task_id ≡ add32 s.next_task_id 1
      → IsTasks k s' l
      → Spawn k s l frame tcb cr3 a s'
  spawned :
      (i f : ℕ) {a : ℕ} {s' : Tasks}
      → a ≡ slot k i
      → i < 64
      → stack_of k s i ≡ 0
      → NewTask k s l frame i f (tcb (f * 4096)) cr3 s'
      → Spawn k s l frame tcb cr3 a s'

-- Before the launch: the page `a` is the stack of slot `i`.
pub record Equips (k : Image) (s : Tasks) (i a : ℕ) (pmm : Pmm) (tcb : Tcb) (cr3 : ℕ) (e : Tasks)
    : Type 0 where
  pub paging : e.paging ≡ record s.paging { pmm = pmm }
  pub others : Others k i s e
  pub same : (u : ℕ) → u ≢ slot k i → e.sched.tasks u ≡ s.sched.tasks u
  pub head : e.sched.ready_head ≡ s.sched.ready_head
  pub front : e.sched.current_task ≡ s.sched.current_task
  pub block : e.tcbs (slot k i) ≡ tcb
  pub stack : tcb.kernel_stack ≡ a
  pub name : length tcb.name ≡ 32
  pub top : (e.sched.tasks (slot k i)).esp0 ≡ add32 a 4096
  pub space : (e.sched.tasks (slot k i)).cr3 ≡ cr3
  pub next_id : e.next_task_id ≡ add32 s.next_task_id 1

module _ {k : Image} {s : Tasks} {l : List ℕ} {i : ℕ} (image : IsImage k) (v : IsTasks k s l)
    (lt : i < 64) (free : stack_of k s i ≡ 0) where
  Equips-Equipped :
      (f a : ℕ) (pmm : Pmm) (tcb : Tcb) (cr3 : ℕ) (e : Tasks)
      → a ≡ f * 4096
      → Takes s.paging.pmm f 1 pmm
      → Equips k s i a pmm tcb cr3 e
      → Equipped k s l i f e
  Equips-Equipped f a pmm tcb cr3 e at takes q =
      let range = takes.in_range in
      let same_pmm = ap {A = Paging} (λ p. p.pmm) q.paging in
      let sum : add32 a 4096 ≡ f * 4096 + 4096 = omega arith in
      Takes-Equipped v i free lt e (rw same_pmm takes) q.others q.same q.head (q.top ∙ sum)
        (ap {A = Tcb} (λ t. t.kernel_stack) q.block ∙ q.stack ∙ at)
        (ap {A = Tcb} (λ t. length t.name) q.block ∙ q.name)

  NewTask_lem :
      (f a : ℕ) (pmm : Pmm) (tcb : Tcb) (cr3 : ℕ) (e : Tasks) (frame : List ℕ) (s' : Tasks)
      → a ≡ f * 4096
      → Takes s.paging.pmm f 1 pmm
      → Equips k s i a pmm tcb cr3 e
      → length frame ≤ 16
      → AllUsed s.paging.pmm 0 f
      → Launched e s' (slot k i) l frame
      → NewTask k s l frame i f tcb cr3 s'
  NewTask_lem f a pmm tcb cr3 e frame s' at takes q small before b =
      let w = Equips-Equipped f a pmm tcb cr3 e at takes q in
      let same_pmm = b.pmm ∙ ap {A = Paging} (λ p. p.pmm) q.paging in
      let t = slot k i in
      record {
        pool = Launched-IsTasks image v lt free w frame small s' b;
        takes = rw same_pmm takes;
        lowest = before;
        block =
            ap {A = ℕ → Tcb} (λ m. m t) b.tcbs
            ∙ if_true (t == t) _ _ ((==_iff t t).1 refl)
            ∙ ap {A = Tcb} (λ c. record c { esp = (e.sched.tasks t).esp0 - 4 * length frame })
                q.block
            ∙ ap {A = ℕ} (λ n. record tcb { esp = n - 4 * length frame }) w.top;
        others = λ u ne.
            ap {A = ℕ → Tcb} (λ m. m u) b.tcbs
            ∙ if_false (u == t) _ _ (==_false u t ne)
            ∙ q.others u ne;
        ready = b.ready;
        top = b.top ∙ w.top;
        space = b.spaces t ∙ q.space;
        states = λ u ne. b.states u ne ∙ ap {A = Task} (λ c. c.state) (q.same u ne);
        front = b.front ∙ q.front;
        words = rw w.top at b.words;
        off = λ x side.
            b.off x (elim side [
              | inl below ↦ inl (omega (arith, w.top))
              | inr above ↦ inr (omega (arith, w.top))
            ])
            ∙ ap {A = Paging} (λ p. p.mem x) q.paging;
        next_id = b.next_id ∙ q.next_id;
      }

  -- The slot is cleared when there is no page.
  cleared-IsTasks :
      (s₁ : Tasks)
      → s₁.paging ≡ s.paging
      → s₁.sched ≡ s.sched
      → Others k i s s₁
      → IsTasks k (clear_tcb s₁ (slot k i)) l
  unfolding clear_tcb
  cleared-IsTasks s₁ paging sched others =
      let t = slot k i in
      let elsewhere : (u : ℕ) → u ≢ t → (clear_tcb s₁ t).sched.tasks u ≡ s.sched.tasks u =
        λ u ne. if_false (u == t) _ _ (==_false u t ne) ∙ ap {A = Sched} (λ c. c.tasks u) sched in
      IsTasks-cleared v i lt free (clear_tcb s₁ t)
        (λ u ne. if_false (u == t) _ _ (==_false u t ne) ∙ others u ne)
        (IsQueue-elsewhere s.sched (clear_tcb s₁ t).sched t l elsewhere
          (ap {A = Sched} (λ c. c.ready_head) sched) (v.out i lt free) v.queue)
        (ap {A = Paging} (λ p. p.pmm) paging) (if_true (t == t) _ _ ((==_iff t t).1 refl))
        (ap {A = Task} (λ c. c.cr3) (if_true (t == t) _ _ ((==_iff t t).1 refl)))
        (λ u ne. ap {A = Task} (λ c. c.cr3) (elsewhere u ne))

  pub launch-Spawn :
      (s₁ : Tasks)
      → s₁.paging ≡ s.paging
      → s₁.sched ≡ s.sched
      → s₁.next_task_id ≡ add32 s.next_task_id 1
      → Others k i s s₁
      → (frame : List ℕ) → length frame ≤ 16
      → (tcb : ℕ → Tcb) (cr3 : ℕ) (equip : ℕ → Pmm → Tasks)
      → ((a : ℕ) (pmm : Pmm) → Equips k s i a pmm (tcb a) cr3 (equip a pmm))
      → let (a, pmm) = alloc_page s.paging.pmm in
        (s' : Tasks) × (b : ℕ) × ((if a == 0
            then some (clear_tcb (with_pmm s₁ pmm) (slot k i), null)
            else launch (equip a pmm) (slot k i) frame)
          ≡ some (s', b))
        × Spawn k s l frame tcb cr3 b s'
  unfolding clear_tcb
  launch-Spawn s₁ paging sched id others frame small tcb cr3 equip ok =
      go (alloc_page s.paging.pmm).0 (alloc_page s.paging.pmm).1 (alloc_page-PageAlloc v.valid)
    where
      go :
          (a : ℕ) (pmm : Pmm)
          → PageAlloc s.paging.pmm a pmm
          → (s' : Tasks) × (b : ℕ) × ((if a == 0
                then some (clear_tcb (with_pmm s₁ pmm) (slot k i), null)
                else launch (equip a pmm) (slot k i) frame)
              ≡ some (s', b))
            × Spawn k s l frame tcb cr3 b s'
      go a pmm (exhausted z same used) =
          let pages : (with_pmm s₁ pmm).paging ≡ s.paging =
            ap {A = Paging} (λ p. record p { pmm = pmm }) paging
            ∙ ap {A = Pmm} (λ m. record s.paging { pmm = m }) same in
          (
            clear_tcb (with_pmm s₁ pmm) (slot k i),
            null,
            if_true (a == 0) _ _ ((==_iff a 0).1 z),
            no_memory refl used pages id (cleared-IsTasks (with_pmm s₁ pmm) pages sched others),
          )
      go a pmm (page f at before takes) =
          let q = Equips-Equipped f a pmm (tcb a) cr3 (equip a pmm) at takes (ok a pmm) in
          let nz : f ≢ 0 = fresh-ne image v lt free q frame small in
          let (s', e, b) = launched image v lt free q frame small in
          let fit =
            NewTask_lem f a pmm (tcb a) cr3 (equip a pmm) frame s' at takes (ok a pmm) small before
              b in
          (
            s',
            slot k i,
            if_false (a == 0) _ _ (==_false a 0 (omega arith)) ∙ e,
            spawned i f refl lt free (subst (λ a. NewTask k s l frame i f (tcb a) cr3 s') at fit),
          )
