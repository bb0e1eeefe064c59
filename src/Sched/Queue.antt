-- ===== src/Sched/Queue.antt =====
-- The ready queue as a list: a circle of distinct tasks.
use mathlib.Core.List.{append-nil, append_assoc}
use ap_pa.Base.{
  ℕ, ◌≤◌, ◌≡◌, ◌≢◌, refl, sym, List, [], ◌∷◌, ◌++◌, length, null, ==_iff, ◌==◌, ap, ◌∙◌, inl, inr,
  Bool-cases, if_true, if_false,
}
use ap_pa.Sched.{Task, Sched, set_next}

-- From `a` the `next` links lead through the tasks `l` to `stop`.
abbrev pub Walk : (ℕ → Task) → ℕ → List ℕ → ℕ → Type 0
Walk tasks a [] stop = a ≡ stop
Walk tasks a (b ∷ l) stop = (a ≡ b) × Walk tasks (tasks b).next l stop

abbrev pub NotIn : ℕ → List ℕ → Type 0
NotIn t [] = Unit
NotIn t (x ∷ l) = (t ≢ x) × NotIn t l

abbrev pub Distinct : List ℕ → Type 0
Distinct [] = Unit
Distinct (x ∷ l) = NotIn x l × Distinct l

-- The task is somewhere in the queue.
abbrev pub Queued : ℕ → List ℕ → Type 0
Queued t l = (xs ys : List ℕ) × (l ≡ xs ++ t ∷ ys)

-- The queue holds the tasks `l`, from its head on; there are at most 65.
pub record IsQueue (s : Sched) (l : List ℕ) : Type 0 where
  pub circle : Walk s.tasks s.ready_head l s.ready_head
  pub distinct : Distinct l
  pub no_null : NotIn null l
  pub few : length l ≤ 65

pub Walk-split :
    (tasks : ℕ → Task) (a : ℕ) (xs ys : List ℕ) (c : ℕ)
    → Walk tasks a (xs ++ ys) c
    → (b : ℕ) × Walk tasks a xs b × Walk tasks b ys c
Walk-split tasks a [] ys c w = (a, refl, w)
Walk-split tasks a (x ∷ xs) ys c w =
    let (b, u, v) = Walk-split tasks (tasks x).next xs ys c w.1 in (b, (w.0, u), v)

pub Walk-append :
    (tasks : ℕ → Task) (a b : ℕ) (xs ys : List ℕ) (c : ℕ)
    → Walk tasks a xs b
    → Walk tasks b ys c
    → Walk tasks a (xs ++ ys) c
Walk-append tasks a b [] ys c u v = rw u v
Walk-append tasks a b (x ∷ xs) ys c u v = (u.0, Walk-append tasks (tasks x).next b xs ys c u.1 v)

-- Only the links matter.
pub Walk-same :
    (tasks tasks' : ℕ → Task) (a : ℕ) (l : List ℕ) (c : ℕ)
    → ((t : ℕ) → (tasks' t).next ≡ (tasks t).next)
    → Walk tasks a l c
    → Walk tasks' a l c
Walk-same tasks tasks' a [] c same w = w
Walk-same tasks tasks' a (x ∷ l) c same w =
    (w.0, rw (same x) (Walk-same tasks tasks' (tasks x).next l c same w.1))

-- The circle from the task behind `t` on, ending in `t`.
pub Walk-rotate :
    (tasks : ℕ → Task) (a : ℕ) (xs : List ℕ) (t : ℕ) (ys : List ℕ)
    → Walk tasks a (xs ++ t ∷ ys) a
    → Walk tasks (tasks t).next (ys ++ (xs ++ t ∷ [])) (tasks t).next
Walk-rotate tasks a xs t ys w =
    let (b, u, v) = Walk-split tasks a xs (t ∷ ys) a w in
    Walk-append tasks (tasks t).next a ys (xs ++ t ∷ []) (tasks t).next v.1
      (Walk-append tasks a b xs (t ∷ []) (tasks t).next u (v.0, refl))

NotIn-append : (t : ℕ) (xs ys : List ℕ) → NotIn t xs → NotIn t ys → NotIn t (xs ++ ys)
NotIn-append t [] ys u v = v
NotIn-append t (x ∷ xs) ys u v = (u.0, NotIn-append t xs ys u.1 v)

pub Distinct-snoc : (l : List ℕ) (t : ℕ) → NotIn t l → Distinct l → Distinct (l ++ t ∷ [])
Distinct-snoc [] t n d = (tt, tt)
Distinct-snoc (x ∷ l) t n d =
    (NotIn-append x l (t ∷ []) d.0 ((λ e. n.0 (sym e)), tt), Distinct-snoc l t n.1 d.1)

pub Distinct-rotate : (xs ys : List ℕ) → Distinct (xs ++ ys) → Distinct (ys ++ xs)
Distinct-rotate [] ys d = rw (append-nil ys) d
Distinct-rotate (x ∷ xs) ys d =
    let snoc = Distinct-snoc (xs ++ ys) x d.0 d.1 in
    let turned = Distinct-rotate xs (ys ++ x ∷ []) (rw (append_assoc xs ys (x ∷ [])) at snoc) in
    rw (append_assoc ys (x ∷ []) xs) at turned

pub NotIn-snoc : (t : ℕ) (l : List ℕ) (x : ℕ) → NotIn t l → t ≢ x → NotIn t (l ++ x ∷ [])
NotIn-snoc t l x n ne = NotIn-append t l (x ∷ []) n (ne, tt)

pub NotIn-left : (u : ℕ) (xs ys : List ℕ) → NotIn u (xs ++ ys) → NotIn u xs
NotIn-left u [] ys n = tt
NotIn-left u (x ∷ xs) ys n = (n.0, NotIn-left u xs ys n.1)

-- A change of a task that is not on the way changes no walk.
pub Walk-elsewhere :
    (tasks tasks' : ℕ → Task) (t a : ℕ) (l : List ℕ) (c : ℕ)
    → ((u : ℕ) → u ≢ t → tasks' u ≡ tasks u)
    → NotIn t l
    → Walk tasks a l c
    → Walk tasks' a l c
Walk-elsewhere tasks tasks' t a [] c same n w = w
Walk-elsewhere tasks tasks' t a (x ∷ l) c same n w = (
  w.0,
  rw (same x (λ e. n.0 (sym e))) (Walk-elsewhere tasks tasks' t (tasks x).next l c same n.1 w.1),
)

-- A queue is the same when only a task outside it has changed.
pub IsQueue-elsewhere :
    (s s' : Sched) (t : ℕ) (l : List ℕ)
    → ((u : ℕ) → u ≢ t → s'.tasks u ≡ s.tasks u)
    → s'.ready_head ≡ s.ready_head
    → NotIn t l
    → IsQueue s l
    → IsQueue s' l
IsQueue-elsewhere s s' t l same head n q = record {
  circle = rw head (Walk-elsewhere s.tasks s'.tasks t s.ready_head l s.ready_head same n q.circle);
  distinct = q.distinct;
  no_null = q.no_null;
  few = q.few;
}

-- A store of a link changes nothing else.
pub set_next-keeps {ℓ} :
    {A : Type ℓ} (φ : Task → A)
    → ((t : Task) (n : ℕ) → φ (record t { next = n }) ≡ φ t)
    → (tasks : ℕ → Task) (a n u : ℕ) → φ (set_next tasks a n u) ≡ φ (tasks u)
set_next-keeps φ keep tasks a n u = elim (Bool-cases (u == a)) [
  | inl e ↦
      ap φ (if_true (u == a) (record (tasks a) { next = n }) (tasks u) e)
      ∙ keep (tasks a) n
      ∙ ap (λ u. φ (tasks u)) (sym ((==_iff u a).0 e))
  | inr e ↦ ap φ (if_false (u == a) (record (tasks a) { next = n }) (tasks u) e)
]
