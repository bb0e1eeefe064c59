-- ===== src/Base/Range.antt =====
-- A property of every number of a range, one number at a time.
use Prim.Native.Nat.{ℕ, ◌+◌, ◌≤◌, ◌<◌}
use mathlib.Core.Path.{subst}
use native.Mathlib.Omega.{arith}
use native.Mathlib.Decide.{ℕ_discrete}

module _ {ℓ} (P : ℕ → Type ℓ) where
  pub range_first :
      (lo hi : ℕ) → P lo → ((i : ℕ) → lo + 1 ≤ i → i < hi → P i) → (i : ℕ) → lo ≤ i → i < hi → P i
  range_first lo hi first more i p q = elim (ℕ_discrete lo i) [
    | yes e ↦ subst P e first
    | no ne ↦ more i (omega arith) q
  ]

  pub range_last :
      (lo hi : ℕ) → P hi → ((i : ℕ) → lo ≤ i → i < hi → P i) → (i : ℕ) → lo ≤ i → i < hi + 1 → P i
  range_last lo hi last more i p q = elim (ℕ_discrete hi i) [
    | yes e ↦ subst P e last
    | no ne ↦ more i p (omega arith)
  ]
