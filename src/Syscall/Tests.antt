-- ===== src/Syscall/Tests.antt =====
-- Calls at concrete registers, and the theorems there.
use ap_pa.Base.{false, ℕ, ◌≡◌, refl, List, [], ◌∷◌, Option, none, some, arith, ltb, if◌then◌else◌}
use ap_pa.Syscall.{
  Registers, Handler, minus_one, user_space_start, validate_user_ptr, syscall_dispatcher,
  sys_write_handler, sys_read_handler,
}
use ap_pa.Syscall.Write.{SameUserMemory, sys_write_handler-same}

-- A write of three bytes, by its number in the table.
abbrev call : Registers
call = record { eax = 1; ebx = 0x400000; ecx = 3 }

abbrev table : (ℕ → ℕ) → List (Option (Handler (List ℕ)))
table mem = none ∷ some (sys_write_handler mem) ∷ some sys_read_handler ∷ []

abbrev letters : ℕ → ℕ
letters a = 65

printed : (syscall_dispatcher (table letters) call []).1 ≡ 65 ∷ 65 ∷ 65 ∷ []
unfolding syscall_dispatcher sys_write_handler
printed = refl

unknown : (syscall_dispatcher (table letters) (record call { eax = 9 }) []).0.eax ≡ minus_one
unfolding syscall_dispatcher
unknown = refl

kernel_pointer : (sys_read_handler (record call { ebx = 16 }) tt).0 ≡ minus_one
unfolding sys_read_handler
kernel_pointer = refl

-- A NUL ends the output of its chunk, though all bytes count as written.
cut_off : sys_write_handler (λ a. 0) call [] ≡ (3, [])
unfolding sys_write_handler
cut_off = refl

out_of_range : validate_user_ptr 0xFFFFFFF0 0x20 ≡ false
unfolding validate_user_ptr
out_of_range = refl

-- The same letters for a program, and other bytes below its memory.
abbrev other_kernel : ℕ → ℕ
other_kernel a = if ltb a user_space_start then 7 else 65

letters-same : SameUserMemory letters other_kernel
letters-same a lo hi = ground arith

sys_write_handler-same_example :
    sys_write_handler letters call [] ≡ sys_write_handler other_kernel call []
sys_write_handler-same_example =
    sys_write_handler-same letters other_kernel call [] letters-same (omega arith) (omega arith)
