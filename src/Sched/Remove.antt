-- ===== src/Sched/Remove.antt =====
-- `sched_remove_task` takes a task out of the queue.
use mathlib.Core.List.{append-nil}
use mathlib.Core.Path.{subst}
use ap_pa.Base.{
  ℕ, zero, suc, ◌<◌, ◌≤◌, ◌≡◌, ◌≢◌, inl, inr, refl, sym, ap, ◌∙◌, List, [], ◌∷◌, ◌++◌, arith,
  length, length-append, null, some, ◌==◌, ==_iff, ==_false, Bool-cases, if◌then◌else◌, if_false,
  if_true, ◌||◌,
}
use ap_pa.Sched.{Task, Sched, rounds, set_next, remove_loop, sched_remove_task}
use ap_pa.Sched.Queue.{
  Walk, NotIn, Distinct, IsQueue, Walk-rotate, Distinct-rotate, NotIn-left, set_next-keeps,
}
use ap_pa.Sched.Add.{last_of, last_of-ne}

-- The tasks with `t` taken out behind `p`.
abbrev pub unlink : (ℕ → Task) → (p t : ℕ) → ℕ → Task
unlink tasks p t = set_next (set_next tasks p (tasks t).next) t null

unlink-next :
    (tasks : ℕ → Task) (p t u : ℕ)
    → (unlink tasks p t u).next
      ≡ (if u == t then null else if u == p then (tasks t).next else (tasks u).next)
unlink-next tasks p t u = elim (Bool-cases (u == t)) [
  | inl e ↦ rw e refl
  | inr e ↦ elim (Bool-cases (u == p)) [ inl f ↦ rw (e, f) refl | inr f ↦ rw (e, f) refl ]
]

unlink-keeps {ℓ} :
    {A : Type ℓ} (φ : Task → A)
    → ((t : Task) (n : ℕ) → φ (record t { next = n }) ≡ φ t)
    → (tasks : ℕ → Task) (p t u : ℕ) → φ (unlink tasks p t u) ≡ φ (tasks u)
unlink-keeps φ keep tasks p t u =
    set_next-keeps φ keep (set_next tasks p (tasks t).next) t null u
    ∙ set_next-keeps φ keep tasks p (tasks t).next u

Walk-unlink_off :
    (tasks : ℕ → Task) (p t a : ℕ) (l : List ℕ) (c : ℕ)
    → NotIn t l
    → NotIn p l
    → Walk tasks a l c
    → Walk (unlink tasks p t) a l c
Walk-unlink_off tasks p t a [] c n m w = w
Walk-unlink_off tasks p t a (x ∷ l) c n m w = (
  w.0,
  rw (unlink-next tasks p t x, ==_false x t (λ e. n.0 (sym e)), ==_false x p (λ e. m.0 (sym e)))
      (Walk-unlink_off tasks p t (tasks x).next l c n.1 m.1 w.1),
)

pub NotIn-delete :
    (u : ℕ) (xs : List ℕ) (t : ℕ) (ys : List ℕ)
    → NotIn u (xs ++ t ∷ ys)
    → (u ≢ t) × NotIn u (xs ++ ys)
NotIn-delete u [] t ys n = n
NotIn-delete u (x ∷ xs) t ys n = let (ne, m) = NotIn-delete u xs t ys n.1 in (ne, (n.0, m))

pub Distinct-delete :
    (xs : List ℕ) (t : ℕ) (ys : List ℕ)
    → Distinct (xs ++ t ∷ ys)
    → NotIn t (xs ++ ys) × Distinct (xs ++ ys)
Distinct-delete [] t ys d = d
Distinct-delete (x ∷ xs) t ys d =
    let (m, e) = Distinct-delete xs t ys d.1 in
    let (ne, n) = NotIn-delete x xs t ys d.0 in (((λ q. ne (sym q)), m), (n, e))

-- The walk with the task behind `last_of x xs` unlinked.
Walk-unlink :
    (tasks : ℕ → Task) (a x : ℕ) (xs : List ℕ) (t : ℕ) (ys : List ℕ) (c : ℕ)
    → Walk tasks a (x ∷ xs ++ t ∷ ys) c
    → Distinct (x ∷ xs ++ t ∷ ys)
    → Walk (unlink tasks (last_of x xs) t) a (x ∷ xs ++ ys) c
Walk-unlink tasks a x [] t ys c w d = (
  w.0,
  rw (unlink-next tasks x t x, ==_false x t d.0.0, (==_iff x x).1 refl)
      (Walk-unlink_off tasks x t (tasks t).next ys c d.1.0 d.0.1 w.1.1),
)
Walk-unlink tasks a x (y ∷ xs) t ys c w d =
    let (ne, n) = NotIn-delete x (y ∷ xs) t ys d.0 in
    (
      w.0,
      rw
          (
            unlink-next tasks (last_of y xs) t x,
            ==_false x t ne,
            ==_false x (last_of y xs) (last_of-ne x y xs (NotIn-left x (y ∷ xs) ys n)),
          )
          (Walk-unlink tasks (tasks x).next y xs t ys c w.1 d.1),
    )

-- The scheduler with `t` taken out behind `p`.
unlinked : Sched → (p t : ℕ) → Sched
unlinked s p t = record s {
  tasks = unlink s.tasks p t;
  ready_head =
      if s.ready_head == t then (set_next s.tasks p (s.tasks t).next t).next else s.ready_head;
}

remove_loop-unlinked :
    (k : ℕ) (s : Sched) (t start p : ℕ) (xs ys : List ℕ) (c : ℕ)
    → Walk s.tasks (s.tasks p).next (xs ++ t ∷ ys) c
    → NotIn t xs
    → NotIn start xs
    → length xs < k
    → remove_loop k s t start p ≡ some (unlinked s (last_of p xs) t)
unfolding remove_loop unlinked
remove_loop-unlinked zero s t start p xs ys c w n m h = absurd (omega arith)
remove_loop-unlinked (suc k) s t start p [] ys c w n m h =
    rw ((==_iff (s.tasks p).next t).1 w.0) refl
remove_loop-unlinked (suc k) s t start p (x ∷ xs) ys c w n m h =
    rw
      (
        ==_false (s.tasks p).next t (λ e. n.0 (sym e ∙ w.0)),
        ==_false (s.tasks p).next start (λ e. m.0 (sym e ∙ w.0)),
      )
      (rw w.0 (remove_loop-unlinked k s t start x xs ys c w.1 n.1 m.1 (omega arith)))

sched_remove_task-loop :
    (boot_task : ℕ) (s : Sched) (t : ℕ)
    → t ≢ null
    → s.ready_head ≢ null
    → t ≢ boot_task
    → (s.tasks t).next ≢ t
    → sched_remove_task boot_task s t ≡ remove_loop rounds s t s.ready_head s.ready_head
unfolding sched_remove_task
sched_remove_task-loop boot_task s t ne nh nb apart =
    if_false _ _ _
      (ap (λ b. b || (s.ready_head == null)) (==_false t null ne) ∙ ==_false s.ready_head null nh)
    ∙ if_false _ _ _ (==_false t boot_task nb)
    ∙ if_false _ _ _ (==_false (s.tasks t).next t apart)

-- The scheduler after the task is out.
pub record Removed (s s' : Sched) (l : List ℕ) (t : ℕ) : Type 0 where
  pub queue : IsQueue s' l
  pub states : (u : ℕ) → (s'.tasks u).state ≡ (s.tasks u).state
  pub front : s'.current_task ≡ s.current_task
  pub cleared : (s'.tasks t).next ≡ null

Removed_lem :
    (s : Sched) (l : List ℕ) (p t : ℕ)
    → (Walk (unlink s.tasks p t) (unlinked s p t).ready_head l (unlinked s p t).ready_head)
    → Distinct l
    → NotIn null l
    → length l ≤ 65
    → Removed s (unlinked s p t) l t
unfolding unlinked
Removed_lem s l p t w d n f = record {
  queue = record { circle = w; distinct = d; no_null = n; few = f };
  states = unlink-keeps (λ t. t.state) (λ t n. refl) s.tasks p t;
  front = refl;
  cleared = rw (unlink-next s.tasks p t t, (==_iff t t).1 refl) refl;
}

length-delete : (xs : List ℕ) (t : ℕ) (ys : List ℕ) → length (xs ++ ys) ≤ length (xs ++ t ∷ ys)
length-delete xs t ys = omega (arith, length-append xs ys, length-append xs (t ∷ ys))

unlinked-head_next :
    (s : Sched) (p t : ℕ)
    → s.ready_head ≡ t
    → t ≢ p
    → (unlinked s p t).ready_head ≡ (s.tasks t).next
unfolding unlinked
unlinked-head_next s p t e ne =
    if_true (s.ready_head == t) _ _ ((==_iff s.ready_head t).1 e)
    ∙ ap {A = Task} (λ u. u.next) (if_false (t == p) _ _ (==_false t p ne))

unlinked-head_same :
    (s : Sched) (p t : ℕ) → s.ready_head ≢ t → (unlinked s p t).ready_head ≡ s.ready_head
unfolding unlinked
unlinked-head_same s p t ne = if_false (s.ready_head == t) _ _ (==_false s.ready_head t ne)

-- Taking out the head of the queue.
remove_head :
    (boot_task : ℕ) (s : Sched) (t y : ℕ) (ys : List ℕ)
    → IsQueue s (t ∷ y ∷ ys)
    → t ≢ boot_task
    → (s' : Sched) × (sched_remove_task boot_task s t ≡ some s') × Removed s s' (y ∷ ys) t
remove_head boot_task s t y ys q nb =
    let turned = Walk-rotate s.tasks s.ready_head [] t (y ∷ ys) q.circle in
    let n = q.distinct.0 in
    let apart : t ≢ last_of t (y ∷ ys) = last_of-ne t y ys n in
    let head = unlinked-head_next s (last_of y ys) t q.circle.0 apart in
    let walk =
      Walk-unlink s.tasks (s.tasks t).next y ys t [] (s.tasks t).next turned
        (Distinct-rotate (t ∷ []) (y ∷ ys) q.distinct) in
    (
      unlinked s (last_of y ys) t,
      sched_remove_task-loop boot_task s t (λ e. q.no_null.0 (sym e))
            (λ e. q.no_null.0 (sym e ∙ q.circle.0)) nb (λ e. n.0 (sym e ∙ turned.0))
          ∙ ap (λ h. remove_loop rounds s t h h) q.circle.0
          ∙ remove_loop-unlinked rounds s t t t (y ∷ ys) [] (s.tasks t).next turned n n
              (omega (arith, q.few)),
      Removed_lem s (y ∷ ys) (last_of y ys) t
          (rw head (
            subst
              (λ zs.
                Walk (unlink s.tasks (last_of y ys) t) (s.tasks t).next (y ∷ zs) (s.tasks t).next)
              (append-nil ys) walk))
          q.distinct.1 q.no_null.1 (omega (arith, q.few)),
    )

-- Taking out a task behind the head.
remove_behind :
    (boot_task : ℕ) (s : Sched) (x : ℕ) (xs : List ℕ) (t : ℕ) (ys : List ℕ)
    → IsQueue s (x ∷ xs ++ t ∷ ys)
    → t ≢ boot_task
    → (s' : Sched) × (sched_remove_task boot_task s t ≡ some s') × Removed s s' (x ∷ xs ++ ys) t
remove_behind boot_task s x xs t ys q nb =
    let (m, d) = Distinct-delete (x ∷ xs) t ys q.distinct in
    let (nt, nn) = NotIn-delete null (x ∷ xs) t ys q.no_null in
    let (nx, n) = NotIn-delete x xs t ys q.distinct.0 in
    let p = last_of x xs in
    let head = unlinked-head_same s p t (λ e. nx (sym q.circle.0 ∙ e)) in
    let turned = Walk-rotate s.tasks s.ready_head (x ∷ xs) t ys q.circle in
    (
      unlinked s p t,
      sched_remove_task-loop boot_task s t (λ e. nt (sym e)) (λ e. q.no_null.0 (sym e ∙ q.circle.0))
            nb (rotated_ne ys turned m)
          ∙ ap (λ h. remove_loop rounds s t h h) q.circle.0
          ∙ remove_loop-unlinked rounds s t x x xs ys s.ready_head q.circle.1
              (NotIn-left t xs ys m.1) (NotIn-left x xs ys n)
              (omega (arith, q.few, length-append xs (t ∷ ys))),
      Removed_lem s (x ∷ xs ++ ys) p t
          (rw head (Walk-unlink s.tasks s.ready_head x xs t ys s.ready_head q.circle q.distinct)) d
          nn (omega (arith, q.few, length-delete (x ∷ xs) t ys)),
    )
  where
    rotated_ne :
        (zs : List ℕ)
        → Walk s.tasks (s.tasks t).next (zs ++ (x ∷ xs ++ t ∷ [])) (s.tasks t).next
        → NotIn t (x ∷ xs ++ zs)
        → (s.tasks t).next ≢ t
    rotated_ne [] w m e = m.0 (sym e ∙ w.0)
    rotated_ne (z ∷ zs) w m e = (NotIn-delete t (x ∷ xs) z zs m).0 (sym e ∙ w.0)

-- Removing a task other than the idle task from a queue that holds another one returns with the task
-- out of the queue and its link cleared, the others in the same order, and no state touched.
pub sched_remove_task-Removed :
    (boot_task : ℕ) (s : Sched) (xs : List ℕ) (t : ℕ) (ys : List ℕ)
    → IsQueue s (xs ++ t ∷ ys)
    → t ≢ boot_task
    → 0 < length (xs ++ ys)
    → (s' : Sched) × (sched_remove_task boot_task s t ≡ some s') × Removed s s' (xs ++ ys) t
sched_remove_task-Removed boot_task s [] t [] q nb pos = absurd (omega arith)
sched_remove_task-Removed boot_task s [] t (y ∷ ys) q nb pos = remove_head boot_task s t y ys q nb
sched_remove_task-Removed boot_task s (x ∷ xs) t ys q nb pos =
    remove_behind boot_task s x xs t ys q nb
