-- ===== src/Syscall/Process/Sleep.antt =====
-- A sleep ends at the first poll that finds enough ticks gone by.
use ap_pa.Base.{
  ℕ, zero, suc, ◌+◌, ◌/◌, ◌≤◌, ◌<◌, ◌≡◌, ◌≢◌, refl, ap, sym, ◌∙◌, arith, List, Option, none, some,
  true, false, ltb, ◌==◌, if◌then◌else◌, if_true, if_false, sub32, ==_false, Bool-cases, inl, inr,
}
use mathlib.Core.Option
use mathlib.Core.Path.{subst}
use ap_pa.Sched.{Sched}
use ap_pa.Task.{Tasks}
use ap_pa.Task.Switch.{Cpu, switched, task_switch, task_yield}
use ap_pa.Syscall.{Registers}
use ap_pa.Syscall.Process.{
  Kernel, Around, on_tasks, yield_turn, sleep_loop, sys_sleep_handler, ticks_to_wait,
}
use ap_pa.Timer.Run.{Scheduled, sched_yield-Scheduled}

-- Poll `n` finds that the wait is over.
abbrev pub Over : Around → (wait n : ℕ) → Type 0
Over w wait n = wait ≤ sub32 (w.ticks n) (w.ticks 0)

-- The queue is sound, and of its tasks `caller` alone is running.
abbrev pub Runs : (caller : ℕ) → Kernel → Type 0
Runs caller k = (l : List ℕ) × Scheduled k.tasks.sched l × (k.tasks.sched.current_task ≡ caller)

-- Whatever yield the caller makes, its turn comes again.
abbrev pub ComesBack : Around → (caller : ℕ) → Type 0
ComesBack w caller =
    (n : ℕ) (k : Kernel) (l : List ℕ) → Scheduled k.tasks.sched l → Runs caller (w.turn n k)

-- `m` yields, from the n-th on, each followed by the turns of the others.
pub yields : Around → (m n : ℕ) → Kernel → Option Kernel
yields w zero n k = some k
yields w (suc m) n k = elim (yield_turn w n k) as (λ o. Option Kernel) [
  | none ↦ none
  | some k' ↦ yields w m (n + 1) k'
]

switched-sched : (cpu : Cpu) (s : Tasks) (sched : Sched) → (switched cpu s sched).sched ≡ sched
unfolding switched task_switch
switched-sched cpu s sched = elim (Bool-cases (sched.current_task == s.sched.current_task)) [
  | inl same ↦ rw same refl
  | inr other ↦ rw other refl
]

module _ (w : Around) (caller : ℕ) (back : ComesBack w caller) where
  yield_turn-Runs :
      (n : ℕ) (k : Kernel)
      → Runs caller k
      → (k' : Kernel) × (yield_turn w n k ≡ some k') × Runs caller k'
  unfolding yield_turn task_yield
  yield_turn-Runs n k (l, v, c) =
      let (sched, run, u) = sched_yield-Scheduled k.tasks.sched l v in
      let left = record k { tasks = switched (w.cpu n) k.tasks sched } in
      let same = switched-sched (w.cpu n) k.tasks sched in
      (
        w.turn n left,
        ap (λ o. Option.map (w.turn n) (on_tasks (λ s. Option.map (switched (w.cpu n) s) o) k)) run,
        back n left l (subst (λ s. Scheduled s l) (sym same) u),
      )

  sleep_loop-yields :
      (m polls wait n : ℕ) (k : Kernel)
      → Runs caller k
      → m < polls
      → Over w wait (n + m)
      → ((j : ℕ) → j < m → sub32 (w.ticks (n + j)) (w.ticks 0) < wait)
      → (k' : Kernel) × (sleep_loop polls w (w.ticks 0) wait n k ≡ some k')
        × (yields w m n k ≡ some k')
        × Runs caller k'
  unfolding sleep_loop yields
  sleep_loop-yields m zero wait n k v h over before = absurd (omega arith)
  sleep_loop-yields zero (suc polls) wait n k v h over before =
      let over_now : wait ≤ sub32 (w.ticks n) (w.ticks 0) = rw (plus_zero n) at over in
      let e : ltb (sub32 (w.ticks n) (w.ticks 0)) wait ≡ false = ground arith in
      (k, if_false _ _ _ e, refl, v)
    where
      plus_zero : (n : ℕ) → n + 0 ≡ n
      plus_zero n = omega arith
  sleep_loop-yields (suc m) (suc polls) wait n k v h over before =
      let (k₁, run, v₁) = yield_turn-Runs n k v in
      let (k₂, rest, ys, v₂) =
        sleep_loop-yields m polls wait (n + 1) k₁ v₁ (omega arith) (rw (shift n m) over)
          (λ j lt. rw (shift n j) (before (suc j) (omega arith))) in
      let first = before 0 (omega arith) in
      let now : sub32 (w.ticks n) (w.ticks 0) < wait = rw (plus_zero n) at first in
      let e : ltb (sub32 (w.ticks n) (w.ticks 0)) wait ≡ true = ground arith in
      (
        k₂,
        if_true _ _ _ e
            ∙ ap
                (λ o. elim o as (λ o. Option Kernel) [
                  | none ↦ none
                  | some k' ↦ sleep_loop polls w (w.ticks 0) wait (n + 1) k'
                ])
                run
            ∙ rest,
        ap (λ o. elim o as (λ o. Option Kernel) [ none ↦ none | some k' ↦ yields w m (n + 1) k' ])
              run
            ∙ ys,
        v₂,
      )
    where
      plus_zero : (n : ℕ) → n + 0 ≡ n
      plus_zero n = omega arith

      shift : (n j : ℕ) → n + 1 + j ≡ n + suc j
      shift n j = omega arith

wait-ticks_to_wait : (ms : ℕ) → (if ltb ms 10 then 1 else ms / 10) ≡ ticks_to_wait ms
wait-ticks_to_wait ms = ground arith

-- A sleep of `ms` milliseconds, `ms` not 0, called by the running task of a sound queue whose turn
-- comes again after each yield: it waits for one tick below 10 milliseconds, and otherwise for a tick
-- for every full 10 milliseconds. When poll `m + 1` is the first one that finds this wait over, the
-- call returns 0 after exactly `m` yields, with the caller running and the queue sound; the counter
-- may wrap round in between.
pub sys_sleep_handler-yields :
    (m polls wait : ℕ) (w : Around) (regs : Registers) (k : Kernel) (l : List ℕ)
    → Scheduled k.tasks.sched l
    → ComesBack w k.tasks.sched.current_task
    → m < polls
    → regs.ebx ≢ 0
    → wait ≡ (if ltb regs.ebx 10 then 1 else regs.ebx / 10)
    → Over w wait (1 + m)
    → ((j : ℕ) → j < m → sub32 (w.ticks (1 + j)) (w.ticks 0) < wait)
    → (k' : Kernel) × (sys_sleep_handler polls w regs (some k) ≡ (0, some k'))
      × (yields w m 1 k ≡ some k')
      × Runs k.tasks.sched.current_task k'
unfolding sys_sleep_handler
sys_sleep_handler-yields m polls wait w regs k l v back h nz is_wait over before =
    let (k', run, ys, u) =
      sleep_loop-yields w k.tasks.sched.current_task back m polls wait 1 k (l, v, refl) h over
        before in
    (
      k',
      if_false (regs.ebx == 0) _ _ (==_false regs.ebx 0 nz)
          ∙ ap (λ n. (0, sleep_loop polls w (w.ticks 0) n 1 k))
              (sym (wait-ticks_to_wait regs.ebx) ∙ sym is_wait)
          ∙ ap (λ o. (0, o)) run,
      ys,
      u,
    )
