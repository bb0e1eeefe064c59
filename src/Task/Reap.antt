-- ===== src/Task/Reap.antt =====
-- `task_reap`: the dead tasks leave the queue and the pool.
use ap_pa.Base.{
  ℕ, zero, suc, ◌+◌, ◌<◌, ◌≡◌, ◌≢◌, inl, inr, refl, sym, ap, ◌∙◌, List, ◌++◌, arith, true, false,
  not, ◌&&◌, Bool, Option, none, some, ◌==◌, Bool-cases,
}
use mathlib.Core.Path.{subst}
use ap_pa.Pmm.Count.{IsPmm}
use ap_pa.Sched.Queue.{IsQueue, NotIn}
use ap_pa.Sched.Remove.{sched_remove_task-Removed}
use ap_pa.Task.{Image, Tasks, Tcb, slot}
use ap_pa.Task.User.{is_dead, reap_task, reap_loop, task_reap}
use ap_pa.Task.Pool.{IsImage, IsTasks}
use ap_pa.Task.Kept.{Kept, Kept-self}
use ap_pa.Task.Sweep.{
  doomed, cleared, reap_task-spared, reap_task-cleared, Swept, Sweep, others-pos, Sweep-spared,
  Sweep-reaped,
}

module _ {k : Image} (image : IsImage k) (was : List ℕ) (s : Tasks) (v : IsTasks k s was) where
  Sweep-step :
      (s' : Tasks) (l : List ℕ) (i : ℕ)
      → i < 64
      → Sweep k was s s' l i
      → (s'' : Tasks) × (m : List ℕ) × (reap_task k s' (slot k i) ≡ some s'')
        × Sweep k was s s'' m (i + 1)
  Sweep-step s' l i lt w =
      let t = slot k i in
      let same : doomed s' t ≡ doomed s t =
        ap (λ st. is_dead st && not ((s'.tcbs t).kernel_stack == 0))
          (w.ahead_state i (omega arith) lt)
        ∙ ap {A = Tcb} (λ c. is_dead (s.sched.tasks t).state && not (c.kernel_stack == 0))
            (w.ahead_tcb i (omega arith) lt) in
      elim (Bool-cases (doomed s t)) [
        | inr live ↦ (
          s',
          l,
          reap_task-spared k s' t (same ∙ live),
          Sweep-spared image was s s' l i lt live w,
        )
        | inl dead ↦
            let page = v.stacks i lt (doomed-stack s t dead) in
            let (xs, ys, e) = w.ahead_queued i (omega arith) lt (doomed-stack s t dead) in
            let swept = subst (λ l. Sweep k was s s' l i) e w in
            let (sched, run, r) =
              sched_remove_task-Removed k.boot_task s'.sched xs t ys swept.queue (image.apart i lt)
                (others-pos k.boot_task xs t ys swept.idle (image.apart i lt)) in
            (
              cleared s' t sched,
              xs ++ ys,
              reap_task-cleared k s' t sched (same ∙ dead) run,
              Sweep-reaped image was s s' xs ys i sched lt dead page.aligned page.low swept r,
            )
      ]
    where
      and_false : (b : Bool) → (b && false) ≡ false
      and_false true = refl
      and_false false = refl

      doomed-stack : (s : Tasks) (t : ℕ) → doomed s t ≡ true → (s.tcbs t).kernel_stack ≢ 0
      doomed-stack s t h z =
          let clash : true ≡ false =
            sym h
            ∙ ap (λ n. is_dead (s.sched.tasks t).state && not (n == 0)) z
            ∙ and_false (is_dead (s.sched.tasks t).state) in
          cc

  Sweep-all :
      (n i : ℕ) (s' : Tasks) (l : List ℕ)
      → i + n ≡ 64
      → Sweep k was s s' l i
      → (s'' : Tasks) × (m : List ℕ) × (reap_loop n k i s' ≡ some s'') × Sweep k was s s'' m 64
  unfolding reap_loop
  Sweep-all zero i s' l e w =
      let at : i ≡ 64 = omega arith in (s', l, refl, subst (λ i. Sweep k was s s' l i) at w)
  Sweep-all (suc n) i s' l e w =
      let (s₁, m, run, w₁) = Sweep-step s' l i (omega arith) w in
      let (s₂, m₂, rest, w₂) = Sweep-all n (i + 1) s₁ m (omega arith) w₁ in
      (
        s₂,
        m₂,
        ap (λ o. elim o as (λ o. Option Tasks) [ none ↦ none | some u ↦ reap_loop n k (i + 1) u ])
              run
            ∙ rest,
        w₂,
      )

-- The pool and the queue `l`, which was `was`, after the reaper.
pub record Reaped (k : Image) (s s' : Tasks) (was l : List ℕ) : Type 0 where
  pub kept : Kept was l
  pub queue : IsQueue s'.sched l
  pub valid : IsPmm s'.paging.pmm
  pub idle : NotIn k.boot_task l → ⊥
  pub front : s'.sched.current_task ≡ s.sched.current_task
  pub slots : (j : ℕ) → j < 64 → Swept k s s' l j

-- On a sound pool `task_reap` returns with the queue a circle again, which is the old one without some
-- of its tasks, in the same order. Every dead task's block is free and out of the queue, and the frames
-- of its kernel stack, of its directory, if it has one in a page, and else of its user stack, if it
-- has one in a page, are free. Every other task's block and state are as they were, and it is still in
-- the queue if it has a kernel stack; the idle task stays, the same task is current, and the page
-- allocator is sound whatever the page tables of the dead tasks hold.
pub task_reap-Reaped :
    {k : Image} {s : Tasks} {l : List ℕ}
    → IsImage k
    → IsTasks k s l
    → (s' : Tasks) × (l' : List ℕ) × (task_reap k s ≡ some s') × Reaped k s s' l l'
unfolding task_reap
task_reap-Reaped {k = k} {s = s} {l = l} image v =
    let start : Sweep k l s s l 0 = record {
      kept = Kept-self l;
      queue = v.queue;
      valid = v.valid;
      idle = v.idle;
      front = refl;
      done = λ j h. absurd (omega arith);
      ahead_tcb = λ j le h. refl;
      ahead_state = λ j le h. refl;
      ahead_queued = λ j le h. v.queued j h;
    } in
    let (s', l', run, w) = Sweep-all image l s v 64 0 s l refl start in
    (
      s',
      l',
      run,
      record {
        kept = w.kept;
        queue = w.queue;
        valid = w.valid;
        idle = w.idle;
        front = w.front;
        slots = w.done;
      },
    )
