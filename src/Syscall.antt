-- ===== src/Syscall.antt =====
-- kernel/arch/syscall.c: the dispatcher, the check of user pointers, and the handlers of SYS_WRITE and
-- SYS_READ. `mem` gives the byte at a virtual address. What `kprint` is called with is added to the
-- output. A handler returns its 32-bit result. Of the registers, those are kept that the code uses.
pub mod Pointers
pub mod Write
pub mod Process
mod Tests
use ap_pa.Base.{
  ℕ, zero, suc, ◌+◌, ◌-◌, ◌*◌, ◌/◌, ◌^◌, Bool, true, false, not, ◌||◌, List, [], ◌∷◌, ◌++◌, Option,
  none, some, ltb, leb, ◌==◌, if◌then◌else◌, get_elem?, add32,
}

abbrev pub user_space_start : ℕ
user_space_start = 0x00001000

abbrev pub user_space_end : ℕ
user_space_end = 0xC0000000

abbrev pub max_syscalls : ℕ
max_syscalls = 16

-- The result -1.
abbrev pub minus_one : ℕ
minus_one = 2 ^ 32 - 1

pub record Registers : Type 0 where
  pub eax : ℕ
  pub ebx : ℕ
  pub ecx : ℕ

-- Whether the code returns 0.
pub validate_user_ptr : (ptr len : ℕ) → Bool
validate_user_ptr ptr len =
    let end = add32 ptr len in
    if ltb end ptr
    then false
    else if ltb ptr user_space_start || ltb user_space_end end
    then false
    else true

-- A handler takes the registers and the state of the kernel, `K`.
abbrev pub Handler : Type 0 → Type 0
Handler K = Registers → K → ℕ × K

-- The table has `max_syscalls` entries, of which some are null.
unfoldable pub syscall_dispatcher :
    {K : Type 0} → List (Option (Handler K)) → Registers → K → Registers × K
syscall_dispatcher {K} table regs k =
    let called = elim (get_elem? table regs.eax) as (λ o. Registers × K) [
      | none ↦ (record regs { eax = minus_one }, k)
      | some none ↦ (record regs { eax = minus_one }, k)
      | some (some handler) ↦ let (ret, k') = handler regs k in (record regs { eax = ret }, k')
    ] in
    if leb max_syscalls regs.eax then (record regs { eax = minus_one }, k) else called

abbrev pub bytes_at : (ℕ → ℕ) → (a n : ℕ) → List ℕ
bytes_at mem a zero = []
bytes_at mem a (suc n) = mem a ∷ bytes_at mem (a + 1) n

-- What `kprint` prints of a buffer that ends in a NUL.
pub until_nul : List ℕ → List ℕ
until_nul [] = []
until_nul (c ∷ s) = let rest = c ∷ until_nul s in if c == 0 then [] else rest

-- The loop over the chunks: the output, and `written`.
write_loop : (k : ℕ) → (ℕ → ℕ) → (buf len written : ℕ) → (out : List ℕ) → List ℕ × ℕ
unfolding until_nul
write_loop zero mem buf len written out = (out, written)
write_loop (suc k) mem buf len written out =
    let left = len - written in
    let chunk = if ltb 128 left then 128 else left in
    let rest =
      write_loop k mem buf len (written + chunk)
        (out ++ until_nul (bytes_at mem (add32 buf written) chunk)) in
    if ltb written len then rest else (out, written)

unfoldable pub sys_write_handler : (mem : ℕ → ℕ) → Handler (List ℕ)
unfolding validate_user_ptr write_loop
sys_write_handler mem regs out =
    let (out', written) = write_loop (regs.ecx / 128 + 1) mem regs.ebx regs.ecx 0 out in
    if regs.ecx == 0
    then (0, out)
    else if not (validate_user_ptr regs.ebx regs.ecx)
    then (minus_one, out)
    else (written, out')

pub sys_read_handler : {K : Type 0} → Handler K
unfolding validate_user_ptr
sys_read_handler regs k =
    if regs.ecx == 0
    then (0, k)
    else if not (validate_user_ptr regs.ebx regs.ecx)
    then (minus_one, k)
    else (0, k)
