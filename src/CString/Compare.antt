-- ===== src/CString/Compare.antt =====
-- What the comparisons and searches say of C strings: a string is a list of nonzero bytes, followed
-- in memory by a NUL and whatever stands behind it.
use ap_pa.Base.{
  ℕ, zero, suc, ◌+◌, ◌≤◌, ◌<◌, ◌^◌, ◌≡◌, ◌≢◌, refl, ◌↔◌, some, List, [], ◌∷◌, ◌++◌, arith, ◌==◌,
  Bool-cases, ℤ, pos, sub_ℕ, length, take, ==_iff, ==_ne, inl, inr,
}
use ap_pa.CString.{strlen, strlen_from, strcmp, memcmp}

-- No byte of `s` is NUL.
abbrev pub IsText : List ℕ → Type 0
IsText [] = Unit
IsText (c ∷ s) = (c ≢ 0) × IsText s

strlen_from-length :
    (s r : List ℕ) (n : ℕ)
    → IsText s
    → n + length s < 2 ^ 32
    → strlen_from (s ++ 0 ∷ r) n ≡ some (n + length s)
unfolding strlen_from
strlen_from-length [] r n t small = ground arith
strlen_from-length (c ∷ s) r n t small = ground (arith, strlen_from-length s r (n + 1) t.1)

-- `strlen` of a string of fewer than 2 ^ 32 characters is its length, whatever stands behind the NUL.
pub strlen-length :
    (s r : List ℕ) → IsText s → length s < 2 ^ 32 → strlen (s ++ 0 ∷ r) ≡ some (length s)
unfolding strlen
strlen-length s r t small = ground (arith, strlen_from-length s r 0 t)

sub_zero : (a b : ℕ) → sub_ℕ a b ≡ pos 0 → a ≡ b
sub_zero a b h = ground arith

-- `strcmp` of two strings ends within them, and returns 0 exactly if they are equal.
pub strcmp-eq :
    (s t r q : List ℕ)
    → IsText s
    → IsText t
    → (z : ℤ) × (strcmp (s ++ 0 ∷ r) (t ++ 0 ∷ q) ≡ some z) × ((z ≡ pos 0) ↔ (s ≡ t))
unfolding strcmp
strcmp-eq [] [] r q u v = (pos 0, refl, ((λ e. refl), (λ e. refl)))
strcmp-eq [] (b ∷ t) r q u v =
    (sub_ℕ 0 b, refl, ((λ e. absurd (v.0 (omega (arith, sub_zero 0 b e)))), (λ e. cc)))
strcmp-eq (a ∷ s) [] r q u v =
    (sub_ℕ a 0, ground arith, ((λ e. absurd (u.0 (sub_zero a 0 e))), (λ e. cc)))
strcmp-eq (a ∷ s) (b ∷ t) r q u v = elim (Bool-cases (a == b)) [
  | inl same ↦
      let (z, e, f) = strcmp-eq s t r q u.1 v.1 in
      let a_b : a ≡ b = (==_iff a b).0 same in
      (z, ground arith, ((λ h. ground (arith, f.0 h)), (λ h. f.1 (cc))))
  | inr other ↦ (
    sub_ℕ a b,
    ground arith,
    ((λ e. absurd (==_ne a b other (sub_zero a b e))), (λ e. absurd (==_ne a b other (cc)))),
  )
]

-- `memcmp` of two objects of at least `n` bytes returns 0 exactly if their first `n` bytes agree.
pub memcmp-eq :
    (s t : List ℕ) (n : ℕ)
    → n ≤ length s
    → n ≤ length t
    → (z : ℤ) × (memcmp s t n ≡ some z) × ((z ≡ pos 0) ↔ (take n s ≡ take n t))
unfolding memcmp
memcmp-eq s t zero u v = (pos 0, refl, ((λ e. refl), (λ e. refl)))
memcmp-eq [] t (suc n) u v = absurd (omega arith)
memcmp-eq (a ∷ s) [] (suc n) u v = absurd (omega arith)
memcmp-eq (a ∷ s) (b ∷ t) (suc n) u v = elim (Bool-cases (a == b)) [
  | inl same ↦
      let (z, e, f) = memcmp-eq s t n (omega arith) (omega arith) in
      let a_b : a ≡ b = (==_iff a b).0 same in
      (z, ground arith, ((λ h. ground (arith, f.0 h)), (λ h. f.1 (cc))))
  | inr other ↦ (
    sub_ℕ a b,
    ground arith,
    ((λ e. absurd (==_ne a b other (sub_zero a b e))), (λ e. absurd (==_ne a b other (cc)))),
  )
]
