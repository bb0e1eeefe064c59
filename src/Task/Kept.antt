-- ===== src/Task/Kept.antt =====
-- A queue from which tasks are taken out keeps its order.
use ap_pa.Base.{ℕ, ◌≡◌, refl, ap, List, [], ◌∷◌, ◌++◌}
use mathlib.Core.Path.{subst}

-- The second list is the first one without some of its tasks, in the same order.
pub data Kept : List ℕ → List ℕ → Type 0 where
  none_left : Kept [] []
  taken : (x : ℕ) {l m : List ℕ} → Kept l m → Kept (x ∷ l) m
  stays : (x : ℕ) {l m : List ℕ} → Kept l m → Kept (x ∷ l) (x ∷ m)

pub Kept-self : (l : List ℕ) → Kept l l
Kept-self [] = none_left
Kept-self (x ∷ l) = stays x (Kept-self l)

tail_of : List ℕ → List ℕ
tail_of [] = []
tail_of (x ∷ l) = l

head_of : List ℕ → ℕ
head_of [] = 0
head_of (x ∷ l) = x

Kept-go :
    {l m : List ℕ}
    → Kept l m
    → (xs : List ℕ) (t : ℕ) (ys : List ℕ) → m ≡ xs ++ t ∷ ys
    → Kept l (xs ++ ys)
unfolding tail_of head_of
Kept-go none_left [] t ys e = absurd cc
Kept-go none_left (a ∷ xs) t ys e = absurd cc
Kept-go (taken x k) xs t ys e = taken x (Kept-go k xs t ys e)
Kept-go (stays x {l} {m} k) [] t ys e = taken x (subst (Kept l) (ap tail_of e) k)
Kept-go (stays x {l} {m} k) (a ∷ xs) t ys e =
    subst (λ a. Kept (x ∷ l) (a ∷ xs ++ ys)) (ap head_of e)
      (stays x (Kept-go k xs t ys (ap tail_of e)))

-- Taking out one more task.
pub Kept-delete :
    {l : List ℕ} (xs : List ℕ) (t : ℕ) (ys : List ℕ) → Kept l (xs ++ t ∷ ys) → Kept l (xs ++ ys)
Kept-delete xs t ys k = Kept-go k xs t ys refl
