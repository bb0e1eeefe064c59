-- ===== src/Sched/Pick.antt =====
-- Which task `pick_next_ready` chooses, and what a timer tick does.
use mathlib.Core.List.{append_assoc}
use ap_pa.Base.{
  ℕ, zero, suc, ◌≤◌, ◌<◌, ◌≡◌, inl, inr, refl, sym, ◌∙◌, List, [], ◌∷◌, ◌++◌, arith, length,
  length-append, some, ==_iff, ==_false, Bool-cases, if◌then◌else◌,
}
use ap_pa.Sched.{Task, Sched, runnable, pick_loop, pick_next_ready, rounds}
use ap_pa.Sched.Queue.{Walk, NotIn, Distinct, IsQueue, Walk-rotate, Distinct-rotate}

-- The first task of a list that may run.
abbrev pub first_ready : (ℕ → Task) → List ℕ → ℕ → ℕ
first_ready tasks [] t = t
first_ready tasks (x ∷ l) t =
    let rest = first_ready tasks l t in if runnable tasks x then x else rest

pick_loop_lem :
    (k : ℕ) (s : Sched) (start t : ℕ) (l : List ℕ)
    → Walk s.tasks (s.tasks t).next l start
    → NotIn start l
    → length l < k
    → pick_loop k s start t ≡ some (first_ready s.tasks (t ∷ l) s.current_task)
unfolding pick_loop
pick_loop_lem zero s start t l w n h = absurd (omega arith)
pick_loop_lem (suc k) s start t [] w n h = elim (Bool-cases (runnable s.tasks t)) [
  | inl e ↦ rw e refl
  | inr e ↦ rw (e, (==_iff (s.tasks t).next start).1 w) refl
]
pick_loop_lem (suc k) s start t (x ∷ l) w n h = elim (Bool-cases (runnable s.tasks t)) [
  | inl e ↦ rw e refl
  | inr e ↦
      rw (e, ==_false (s.tasks t).next start (λ q. n.0 (sym q ∙ w.0)))
        (rw w.0 (pick_loop_lem k s start x l w.1 n.1 (omega arith)))
]

pub pick_circle :
    (s : Sched) (t : ℕ) (l : List ℕ)
    → Walk s.tasks t l t
    → Distinct l
    → 0 < length l
    → length l ≤ 65
    → pick_loop rounds s t t ≡ some (first_ready s.tasks l s.current_task)
pick_circle s t [] w d pos h = absurd (omega arith)
pick_circle s t (x ∷ l) w d pos h =
    rw w.0 (pick_loop_lem rounds s x x l (rw w.0 at w.1) d.0 (omega arith))

length-rotate :
    (xs : List ℕ) (c : ℕ) (ys : List ℕ) → length (ys ++ (xs ++ c ∷ [])) ≡ length (xs ++ c ∷ ys)
length-rotate xs c ys =
    omega
      (arith, length-append ys (xs ++ c ∷ []), length-append xs (c ∷ []), length-append xs (c ∷ ys))

-- On a queue that holds the current task, `pick_next_ready` returns the first task in round-robin
-- order, from the one behind the current task to the current task itself, that is ready or running,
-- and the current task if there is none; it always returns.
pub pick_next_ready-round_robin :
    (s : Sched) (xs ys : List ℕ)
    → IsQueue s (xs ++ s.current_task ∷ ys)
    → pick_next_ready s
      ≡ some (first_ready s.tasks (ys ++ (xs ++ s.current_task ∷ [])) s.current_task)
unfolding pick_next_ready
pick_next_ready-round_robin s xs ys q =
    let c = s.current_task in
    pick_circle s (s.tasks c).next (ys ++ (xs ++ c ∷ []))
      (Walk-rotate s.tasks s.ready_head xs c ys q.circle)
      (rw (append_assoc ys xs (c ∷ [])) at
        (Distinct-rotate (c ∷ []) (ys ++ xs) (Distinct-rotate xs (c ∷ ys) q.distinct)))
      (omega (arith, length-rotate xs c ys, length-append xs (c ∷ ys)))
      (omega (arith, length-rotate xs c ys, q.few))
