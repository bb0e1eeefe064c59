-- ===== src/Task/Sweep.antt =====
-- One round of `task_reap`: a slot is passed over, or its task leaves the queue and the pool.
use ap_pa.Base.{
  ◌/◌, ◌%◌, ℕ, ◌+◌, ◌≤◌, ◌<◌, ◌≡◌, ◌≢◌, refl, sym, ap, ◌∙◌, List, [], ◌∷◌, ◌++◌, arith, true, false,
  not, ◌&&◌, Bool, some, ◌==◌, ==_false, if_true, if_false, length, range_last,
}
use mathlib.Core.Path.{subst}
use mathlib.Core.Option
use ap_pa.Pmm.Count.{IsPmm}
use ap_pa.Paging.Process.Release.{StaysFree}
use ap_pa.Sched.{Task, Sched, sched_remove_task}
use ap_pa.Sched.Queue.{Queued, IsQueue, NotIn, IsQueue-elsewhere}
use ap_pa.Sched.Remove.{Removed, NotIn-delete, Distinct-delete}
use ap_pa.Task.{Image, Tasks, Tcb, blank_tcb, slot, clear_tcb}
use ap_pa.Task.User.{is_dead, free_memory, reap_task}
use ap_pa.Task.Freed.{
  Freed, StaysFree-Freed, free_memory-IsPmm, free_memory-StaysFree, free_memory-Freed,
}
use ap_pa.Task.Kept.{Kept, Kept-delete}
use ap_pa.Task.Pool.{IsImage, stack_of, slot-ne}
use ap_pa.Task.Spawn.{set_tcb_self, set_tcb_other}

-- A dead task that still has its stack.
abbrev pub doomed : Tasks → ℕ → Bool
doomed s t = is_dead (s.sched.tasks t).state && not ((s.tcbs t).kernel_stack == 0)

-- The state when the task is out of the queue.
pub cleared : Tasks → ℕ → Sched → Tasks
cleared s t sched = clear_tcb (record s { sched = sched; paging = free_memory s t }) t

pub reap_task-spared :
    (k : Image) (s : Tasks) (t : ℕ) → doomed s t ≡ false → reap_task k s t ≡ some s
unfolding reap_task
reap_task-spared k s t e = if_false (doomed s t) _ _ e

pub reap_task-cleared :
    (k : Image) (s : Tasks) (t : ℕ) (sched : Sched)
    → doomed s t ≡ true
    → sched_remove_task k.boot_task s.sched t ≡ some sched
    → reap_task k s t ≡ some (cleared s t sched)
unfolding reap_task cleared
reap_task-cleared k s t sched e h =
    if_true (doomed s t) _ _ e
    ∙ ap
        (λ o.
          Option.map (λ sched. clear_tcb (record s { sched = sched; paging = free_memory s t }) t)
            o)
        h

-- Slot `j` after the loop has passed it: free, out of the queue and with its memory given back, or as
-- it was.
pub data Swept (k : Image) (s s' : Tasks) (l : List ℕ) (j : ℕ) : Type 0 where
  reaped :
      doomed s (slot k j) ≡ true
      → s'.tcbs (slot k j) ≡ blank_tcb
      → NotIn (slot k j) l
      → Freed s'.paging.pmm (s.tcbs (slot k j))
      → Swept k s s' l j
  spared :
      doomed s (slot k j) ≡ false
      → s'.tcbs (slot k j) ≡ s.tcbs (slot k j)
      → (s'.sched.tasks (slot k j)).state ≡ (s.sched.tasks (slot k j)).state
      → (stack_of k s j ≢ 0 → Queued (slot k j) l)
      → Swept k s s' l j

-- The loop has passed the slots below `i`.
pub record Sweep (k : Image) (was : List ℕ) (s s' : Tasks) (l : List ℕ) (i : ℕ) : Type 0 where
  pub kept : Kept was l
  pub queue : IsQueue s'.sched l
  pub valid : IsPmm s'.paging.pmm
  pub idle : NotIn k.boot_task l → ⊥
  pub front : s'.sched.current_task ≡ s.sched.current_task
  pub done : (j : ℕ) → j < i → Swept k s s' l j
  pub ahead_tcb : (j : ℕ) → i ≤ j → j < 64 → s'.tcbs (slot k j) ≡ s.tcbs (slot k j)
  pub ahead_state :
      (j : ℕ)
      → i ≤ j
      → j < 64
      → (s'.sched.tasks (slot k j)).state ≡ (s.sched.tasks (slot k j)).state
  pub ahead_queued : (j : ℕ) → i ≤ j → j < 64 → stack_of k s j ≢ 0 → Queued (slot k j) l

Queued-delete :
    (u : ℕ) (xs : List ℕ) (t : ℕ) (ys : List ℕ)
    → u ≢ t
    → Queued u (xs ++ t ∷ ys)
    → Queued u (xs ++ ys)
Queued-delete u xs t ys ne (us, vs, e) = go xs us e
  where
    tail_of : List ℕ → List ℕ
    tail_of [] = []
    tail_of (x ∷ l) = l

    head_of : List ℕ → ℕ
    head_of [] = 0
    head_of (x ∷ l) = x

    go : (xs us : List ℕ) → xs ++ t ∷ ys ≡ us ++ u ∷ vs → Queued u (xs ++ ys)
    go [] [] e = absurd (ne (sym (ap head_of e)))
    go [] (a ∷ us) e = (us, vs, ap tail_of e)
    go (x ∷ xs) [] e = ([], xs ++ ys, ap (λ h. h ∷ xs ++ ys) (ap head_of e))
    go (x ∷ xs) (a ∷ us) e =
        let (cs, ds, f) = go xs us (ap tail_of e) in (x ∷ cs, ds, ap (λ l. x ∷ l) f)

-- Another task is in the queue, which a task that is taken out leaves.
pub others-pos :
    (b : ℕ) (xs : List ℕ) (t : ℕ) (ys : List ℕ)
    → (NotIn b (xs ++ t ∷ ys) → ⊥)
    → t ≢ b
    → 0 < length (xs ++ ys)
others-pos b [] t [] into ne = absurd (into ((λ e. ne (sym e)), tt))
others-pos b [] t (y ∷ ys) into ne = omega arith
others-pos b (x ∷ xs) t ys into ne = omega arith

NotIn-insert :
    (b : ℕ) (xs : List ℕ) (t : ℕ) (ys : List ℕ)
    → b ≢ t
    → NotIn b (xs ++ ys)
    → NotIn b (xs ++ t ∷ ys)
NotIn-insert b [] t ys ne n = (ne, n)
NotIn-insert b (x ∷ xs) t ys ne n = (n.0, NotIn-insert b xs t ys ne n.1)

module _ {k : Image} (image : IsImage k) (was : List ℕ) (s : Tasks) where
  -- The slot is passed over.
  pub Sweep-spared :
      (s' : Tasks) (l : List ℕ) (i : ℕ)
      → i < 64
      → doomed s (slot k i) ≡ false
      → Sweep k was s s' l i
      → Sweep k was s s' l (i + 1)
  Sweep-spared s' l i lt live w = record {
    kept = w.kept;
    queue = w.queue;
    valid = w.valid;
    idle = w.idle;
    front = w.front;
    done = λ j below.
        range_last (λ j. Swept k s s' l j) 0 i
          (spared live (w.ahead_tcb i (omega arith) lt) (w.ahead_state i (omega arith) lt)
            (w.ahead_queued i (omega arith) lt))
          (λ j _ h. w.done j h) j (omega arith) below;
    ahead_tcb = λ j le h. w.ahead_tcb j (omega arith) h;
    ahead_state = λ j le h. w.ahead_state j (omega arith) h;
    ahead_queued = λ j le h. w.ahead_queued j (omega arith) h;
  }

  -- The task in the slot is taken out.
  pub Sweep-reaped :
      (s' : Tasks) (xs ys : List ℕ) (i : ℕ) (sched : Sched)
      → i < 64
      → doomed s (slot k i) ≡ true
      → stack_of k s i % 4096 ≡ 0
      → stack_of k s i / 4096 < 4096
      → Sweep k was s s' (xs ++ slot k i ∷ ys) i
      → Removed s'.sched sched (xs ++ ys) (slot k i)
      → Sweep k was s (cleared s' (slot k i) sched) (xs ++ ys) (i + 1)
  unfolding cleared clear_tcb
  Sweep-reaped s' xs ys i sched lt dead aligned low w r =
      let t = slot k i in
      let c = cleared s' t sched in
      let out = Distinct-delete xs t ys w.queue.distinct in
      let tcb : (j : ℕ) → i ≢ j → c.tcbs (slot k j) ≡ s'.tcbs (slot k j) =
        λ j ne. set_tcb_other s'.tcbs t blank_tcb (slot k j) (slot-ne k j i (λ e. ne (sym e))) in
      let elsewhere : (u : ℕ) → u ≢ t → c.sched.tasks u ≡ sched.tasks u =
        λ u ne. if_false (u == t) _ _ (==_false u t ne) in
      let state : (j : ℕ)
          → i ≢ j
          → (c.sched.tasks (slot k j)).state ≡ (s'.sched.tasks (slot k j)).state =
        λ j ne.
          ap {A = Task} (λ c. c.state) (elsewhere (slot k j) (slot-ne k j i (λ e. ne (sym e))))
          ∙ r.states (slot k j) in
      let still : (j : ℕ)
          → i ≢ j
          → Queued (slot k j) (xs ++ t ∷ ys)
          → Queued (slot k j) (xs ++ ys) =
        λ j ne. Queued-delete (slot k j) xs t ys (slot-ne k j i (λ e. ne (sym e))) in
      let same = w.ahead_tcb i (omega arith) lt in
      let stack = ap {A = Tcb} (λ c. c.kernel_stack) same in
      let given_back : Freed (free_memory s' t).pmm (s.tcbs t) =
        subst (Freed (free_memory s' t).pmm) same (
          free_memory-Freed s' t w.valid (ap (λ a. a % 4096) stack ∙ aligned)
            (subst (λ a. a / 4096 < 4096) (sym stack) low)) in
      record {
        kept = Kept-delete xs t ys w.kept;
        queue = IsQueue-elsewhere sched c.sched t (xs ++ ys) elsewhere refl out.0 r.queue;
        valid = free_memory-IsPmm s' t w.valid;
        idle = λ n. w.idle (NotIn-insert k.boot_task xs t ys (λ e. image.apart i lt (sym e)) n);
        front = r.front ∙ w.front;
        done = λ j below.
            range_last (λ j. Swept k s c (xs ++ ys) j) 0 i
              (reaped dead (set_tcb_self s'.tcbs t blank_tcb) out.0 given_back)
              (λ j _ h.
                pass_on j (free_memory-StaysFree s' t w.valid) (w.done j h)
                  (tcb j (λ e. omega arith)) (state j (λ e. omega arith))
                  (still j (λ e. omega arith)))
              j (omega arith) below;
        ahead_tcb = λ j le h. tcb j (λ e. omega arith) ∙ w.ahead_tcb j (omega arith) h;
        ahead_state = λ j le h. state j (λ e. omega arith) ∙ w.ahead_state j (omega arith) h;
        ahead_queued =
            λ j le h used. still j (λ e. omega arith) (w.ahead_queued j (omega arith) h used);
      }
    where
      pass_on :
          (j : ℕ)
          → StaysFree s'.paging.pmm (cleared s' (slot k i) sched).paging.pmm
          → Swept k s s' (xs ++ slot k i ∷ ys) j
          → (cleared s' (slot k i) sched).tcbs (slot k j) ≡ s'.tcbs (slot k j)
          → ((cleared s' (slot k i) sched).sched.tasks (slot k j)).state
            ≡ (s'.sched.tasks (slot k j)).state
          → (Queued (slot k j) (xs ++ slot k i ∷ ys) → Queued (slot k j) (xs ++ ys))
          → Swept k s (cleared s' (slot k i) sched) (xs ++ ys) j
      pass_on j free (reaped e blank n back) tcb state still =
          reaped e (tcb ∙ blank) (NotIn-delete (slot k j) xs (slot k i) ys n).1
            (StaysFree-Freed free back)
      pass_on j free (spared e same st q) tcb state still =
          spared e (tcb ∙ same) (state ∙ st) (λ used. still (q used))
