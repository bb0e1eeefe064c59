-- ===== src/Syscall/Pointers.antt =====
-- Which pointers `validate_user_ptr` accepts.
use ap_pa.Base.{ℕ, ◌+◌, ◌^◌, ◌≤◌, ◌<◌, ◌≡◌, ◌↔◌, true, arith}
use ap_pa.Syscall.{validate_user_ptr, user_space_start, user_space_end}

-- For a pointer and a length of 32 bits, `validate_user_ptr` returns 0 exactly if all of the
-- buffer lies in the memory of user programs, although the end is computed with wrap-around.
pub validate_user_ptr_iff :
    (ptr len : ℕ)
    → ptr < 2 ^ 32
    → len < 2 ^ 32
    → (validate_user_ptr ptr len ≡ true) ↔ ((user_space_start ≤ ptr) × (ptr + len ≤ user_space_end))
unfolding validate_user_ptr
validate_user_ptr_iff ptr len p l =
    ((λ h. (ground arith, ground arith)), (λ h. let lo = h.0 in let hi = h.1 in ground arith))
