-- ===== src/Base/Splice.antt =====
-- A run of a list replaced by another, and what stands before and behind it.
use Prim.Native.Nat.{ℕ, zero, suc, ◌+◌, ◌≤◌}
use mathlib.Core.Path.{◌≡◌, refl, ap}
use mathlib.Core.List.{List, [], ◌∷◌, ◌++◌}
use native.Mathlib.Omega.{arith}
use ap_pa.Base.Lists.{length, take, drop, length-append, length-take, length-drop}

module _ {ℓ} {A : Type ℓ} where
  pub drop-take : (n : ℕ) (xs ys : List A) → n ≤ length xs → drop n (take n xs ++ ys) ≡ ys
  drop-take zero xs ys h = refl
  drop-take (suc n) [] ys h = absurd (omega arith)
  drop-take (suc n) (x ∷ xs) ys h = drop-take n xs ys (omega arith)

  pub take-take_append :
      (n : ℕ) (xs ys : List A) → n ≤ length xs → take n (take n xs ++ ys) ≡ take n xs
  take-take_append zero xs ys h = refl
  take-take_append (suc n) [] ys h = absurd (omega arith)
  take-take_append (suc n) (x ∷ xs) ys h = ap (λ l. x ∷ l) (take-take_append n xs ys (omega arith))

  pub take-append : (n : ℕ) (xs ys : List A) → length xs ≡ n → take n (xs ++ ys) ≡ xs
  take-append zero [] ys h = refl
  take-append zero (x ∷ xs) ys h = absurd (omega arith)
  take-append (suc n) [] ys h = absurd (omega arith)
  take-append (suc n) (x ∷ xs) ys h = ap (λ l. x ∷ l) (take-append n xs ys (omega arith))

  pub drop-append : (n : ℕ) (xs ys : List A) → length xs ≡ n → drop n (xs ++ ys) ≡ ys
  drop-append zero [] ys h = refl
  drop-append zero (x ∷ xs) ys h = absurd (omega arith)
  drop-append (suc n) [] ys h = absurd (omega arith)
  drop-append (suc n) (x ∷ xs) ys h = drop-append n xs ys (omega arith)

  -- `k` elements from `p` on, before the run.
  pub take-drop_before :
      (k p o : ℕ) (xs ys : List A)
      → p + k ≤ o
      → o ≤ length xs
      → take k (drop p (take o xs ++ ys)) ≡ take k (drop p xs)
  take-drop_before zero p o xs ys h g = refl
  take-drop_before (suc k) p zero xs ys h g = absurd (omega arith)
  take-drop_before (suc k) p (suc o) [] ys h g = absurd (omega arith)
  take-drop_before (suc k) zero (suc o) (x ∷ xs) ys h g =
      ap (λ l. x ∷ l) (take-drop_before k 0 o xs ys (omega arith) (omega arith))
  take-drop_before (suc k) (suc p) (suc o) (x ∷ xs) ys h g =
      take-drop_before (suc k) p o xs ys (omega arith) (omega arith)

  drop_past :
      (p m : ℕ) (mid xs : List A)
      → length mid ≡ m
      → m ≤ p
      → m ≤ length xs
      → drop p (mid ++ drop m xs) ≡ drop p xs
  drop_past p zero [] xs e h g = refl
  drop_past p zero (x ∷ mid) xs e h g = absurd (omega arith)
  drop_past p (suc m) [] xs e h g = absurd (omega arith)
  drop_past zero (suc m) (y ∷ mid) xs e h g = absurd (omega arith)
  drop_past (suc p) (suc m) (y ∷ mid) [] e h g = absurd (omega arith)
  drop_past (suc p) (suc m) (y ∷ mid) (x ∷ xs) e h g =
      drop_past p m mid xs (omega arith) (omega arith) (omega arith)

  -- Behind the run.
  pub drop-splice :
      (p o q : ℕ) (mid xs : List A)
      → o + length mid ≡ q
      → q ≤ p
      → q ≤ length xs
      → drop p (take o xs ++ (mid ++ drop q xs)) ≡ drop p xs
  drop-splice p zero q mid xs e h g = drop_past p q mid xs (omega arith) h g
  drop-splice p (suc o) q mid [] e h g = absurd (omega arith)
  drop-splice p (suc o) zero mid (x ∷ xs) e h g = absurd (omega arith)
  drop-splice zero (suc o) (suc q) mid (x ∷ xs) e h g = absurd (omega arith)
  drop-splice (suc p) (suc o) (suc q) mid (x ∷ xs) e h g =
      drop-splice p o q mid xs (omega arith) (omega arith) (omega arith)

  pub length-splice :
      (o m : ℕ) (mid xs : List A)
      → length mid ≡ m
      → o + m ≤ length xs
      → length (take o xs ++ (mid ++ drop (o + m) xs)) ≡ length xs
  length-splice o m mid xs e g = omega (
    arith,
    length-append (take o xs) (mid ++ drop (o + m) xs),
    length-append mid (drop (o + m) xs),
    length-take o xs,
    length-drop (o + m) xs,
  )
