-- ===== src/Task/Exit.antt =====
-- `task_exit`: the current task dies and another one runs.
use ap_pa.Base.{
  ◌+◌, ◌-◌, ◌<◌, ◌≤◌, ◌^◌, ◌⊎◌, ℕ, ◌≡◌, ◌≢◌, inl, inr, refl, sym, ap, ◌∙◌, List, [], ◌∷◌, ◌++◌,
  false, Bool, some, ◌==◌, ==_iff, ==_false, Bool-cases, if◌then◌else◌, if_true, if_false, null,
  ◌||◌,
}
use mathlib.Core.Path.{subst}
use mathlib.Core.Option
use native.Mathlib.Decide.{ℕ_discrete}
use ap_pa.Sched.{TaskState, Sched, is_running, is_ready, set_state, sched_yield}
use ap_pa.Sched.Queue.{Walk-same, IsQueue}
use ap_pa.Sched.Pick.{first_ready}
use ap_pa.Sched.Tick.{IsOneRunning, set_state-next, set_state-state}
use ap_pa.Sched.Leave.{NoneRunning, AnyRunnable, Resumed, sched_yield-Resumed}
use ap_pa.Task.{Tasks, set_tcb, push_all}
use ap_pa.Task.Switch.{Cpu, switch_frame, task_switch, switched, task_yield, task_exit}
use ap_pa.Task.Frame.{FrameAt, push_all_above, push_all_off, push_all-sp, push_all-FrameAt}
use ap_pa.Task.Spawn.{set_tcb_self, set_tcb_other}

-- The scheduler with the current task dead.
abbrev pub buried : Sched → Sched
buried s = record s { tasks = set_state s.tasks s.current_task TaskState.dead }

-- The task that exits is dead, and another one runs; of the blocks only the `esp` of the task that exits
-- has changed, and of memory only the seven words below its stack pointer.
pub record Exited (cpu : Cpu) (s s' : Tasks) (l : List ℕ) (next : ℕ) : Type 0 where
  pub others : (u : ℕ) → u ≢ s.sched.current_task → s'.tcbs u ≡ s.tcbs u
  pub block :
      s'.tcbs s.sched.current_task ≡ record (s.tcbs s.sched.current_task) { esp = cpu.esp - 28 }
  pub words :
      FrameAt
        ((s.tcbs next).esp
          ∷ (s.sched.current_task + 40)
          ∷ cpu.eip
          ∷ cpu.ebx
          ∷ cpu.esi
          ∷ cpu.edi
          ∷ cpu.ebp
          ∷ [])
        s'.paging.mem
        cpu.esp
  pub off : (a : ℕ) → (a < cpu.esp - 28) ⊎ (cpu.esp ≤ a) → s'.paging.mem a ≡ s.paging.mem a
  pub pages : s'.paging ≡ record s.paging { mem = s'.paging.mem }
  pub moved : next ≢ s.sched.current_task
  pub dead : (s'.sched.tasks s.sched.current_task).state ≡ TaskState.dead
  pub resumed : Resumed (buried s.sched) s'.sched l next

buried-state :
    (s : Sched) (t : ℕ)
    → ((buried s).tasks t).state
      ≡ (if t == s.current_task then TaskState.dead else (s.tasks t).state)
buried-state s t = set_state-state s.tasks s.current_task TaskState.dead t

buried_self : (s : Sched) → ((buried s).tasks s.current_task).state ≡ TaskState.dead
buried_self s =
    buried-state s s.current_task
    ∙ if_true (s.current_task == s.current_task) _ _ ((==_iff s.current_task s.current_task).1 refl)

buried-NoneRunning : (s : Sched) → IsOneRunning s → NoneRunning (buried s)
buried-NoneRunning s one t = elim (ℕ_discrete t s.current_task) [
  | yes e ↦
      subst (λ t. is_running ((buried s).tasks t).state ≡ false) (sym e)
        (ap is_running (buried_self s))
  | no ne ↦ elim (Bool-cases (is_running (s.tasks t).state)) [
    | inl h ↦ absurd (ne (one.only t h))
    | inr h ↦
        ap is_running
          (buried-state s t ∙ if_false (t == s.current_task) _ _ (==_false t s.current_task ne))
        ∙ h
  ]
]

buried-IsQueue : (s : Sched) (l : List ℕ) → IsQueue s l → IsQueue (buried s) l
buried-IsQueue s l q = record {
  circle =
      Walk-same s.tasks (buried s).tasks s.ready_head l s.ready_head
        (set_state-next s.tasks s.current_task TaskState.dead) q.circle;
  distinct = q.distinct;
  no_null = q.no_null;
  few = q.few;
}

abbrev dying : Tasks → Tasks
dying s = record s { sched = buried s.sched }

task_exit-yield :
    (cpu : Cpu) (s : Tasks)
    → s.sched.current_task ≢ null
    → task_exit cpu s ≡ Option.map (switched cpu (dying s)) (sched_yield (buried s.sched))
unfolding task_exit task_yield
task_exit-yield cpu s ne =
    ap (λ c. Option.map (switched cpu c) (sched_yield c.sched))
      (if_false (s.sched.current_task == null) _ _ (==_false s.sched.current_task null ne))

-- What the switch leaves behind.
switched-Exited :
    (cpu : Cpu) (s : Tasks) (l : List ℕ) (next : ℕ) (sched : Sched)
    → 28 ≤ cpu.esp
    → cpu.esp < 2 ^ 32
    → next ≢ s.sched.current_task
    → Resumed (buried s.sched) sched l next
    → Exited cpu s (switched cpu (dying s) sched) l next
unfolding switched task_switch switch_frame
switched-Exited cpu s l next sched room word moved r =
    let cur = s.sched.current_task in
    let sp = cpu.esp in
    let mem = s.paging.mem in
    let words = λ (esp : ℕ).
      let ws : List ℕ = esp ∷ (cur + 40) ∷ cpu.eip ∷ cpu.ebx ∷ cpu.esi ∷ cpu.edi ∷ cpu.ebp ∷ [] in
      ws in
    let frame = words (s.tcbs next).esp in
    let ne : sched.current_task ≢ cur = λ e. moved (sym r.front ∙ e) in
    let done : switched cpu (dying s) sched ≡ record s {
      sched = sched;
      tcbs = set_tcb s.tcbs cur (record (s.tcbs cur) { esp = (push_all frame mem sp).1 });
      paging = record s.paging { mem = (push_all frame mem sp).0 };
    } =
      if_false (sched.current_task == cur) _ _ (==_false sched.current_task cur ne)
      ∙ ap
          (λ n. record s {
            sched = sched;
            tcbs =
                set_tcb s.tcbs cur
                  (record (s.tcbs cur) { esp = (push_all (words (s.tcbs n).esp) mem sp).1 });
            paging = record s.paging { mem = (push_all (words (s.tcbs n).esp) mem sp).0 };
          })
          r.front in
    subst (λ s'. Exited cpu s s' l next) (sym done)
      (record {
        others = λ u other.
            set_tcb_other s.tcbs cur (record (s.tcbs cur) { esp = (push_all frame mem sp).1 }) u
              other;
        block =
            set_tcb_self s.tcbs cur (record (s.tcbs cur) { esp = (push_all frame mem sp).1 })
            ∙ ap {A = ℕ} (λ n. record (s.tcbs cur) { esp = n })
                (push_all-sp frame mem sp room word);
        words = push_all-FrameAt frame mem sp room word;
        off = λ a side. elim side [
          | inl below ↦ push_all_off frame mem sp a room word below
          | inr above ↦ push_all_above frame mem sp a room word above
        ];
        pages = refl;
        moved = moved;
        dead = r.states cur (λ e. moved (sym e)) ∙ buried_self s.sched;
        resumed = r;
      })

-- When the current task, the only running one, exits with another task of the queue ready, `task_exit`
-- switches to that other task: it takes the first ready one in round-robin order, never the one that
-- exits, which stays in the queue, dead, until it is reaped. If the stack pointer leaves room, the
-- switch pushes the next task's `esp`, the address of the exiting task's `esp`, the return address and
-- four registers, and stores the stack pointer below them as the exiting task's `esp`. Otherwise the
-- blocks, memory and the page allocator are as they were.
pub task_exit-Exited :
    (cpu : Cpu) (s : Tasks) (xs ys : List ℕ)
    → 28 ≤ cpu.esp
    → cpu.esp < 2 ^ 32
    → IsQueue s.sched (xs ++ s.sched.current_task ∷ ys)
    → IsOneRunning s.sched
    → AnyRunnable (buried s.sched).tasks (ys ++ (xs ++ s.sched.current_task ∷ []))
    → s.sched.current_task ≢ null
    → let cur = s.sched.current_task in
      (s' : Tasks) × (task_exit cpu s ≡ some s')
      × Exited cpu s s'
          (xs ++ cur ∷ ys)
          (first_ready (buried s.sched).tasks (ys ++ (xs ++ cur ∷ [])) cur)
task_exit-Exited cpu s xs ys room word q one any nz =
    let cur = s.sched.current_task in
    let (moved, sched, e, resumed) =
      sched_yield-Resumed (buried s.sched) xs ys (buried-IsQueue s.sched (xs ++ cur ∷ ys) q)
        (buried-NoneRunning s.sched one) (ap unready (buried_self s.sched)) any in
    (
      switched cpu (dying s) sched,
      task_exit-yield cpu s nz ∙ ap (Option.map (switched cpu (dying s))) e,
      switched-Exited cpu s (xs ++ cur ∷ ys)
          (first_ready (buried s.sched).tasks (ys ++ (xs ++ cur ∷ [])) cur) sched room word moved
          resumed,
    )
  where
    unready : TaskState → Bool
    unready st = is_ready st || is_running st
