-- ===== src/Cpu/Gates.antt =====
-- Which interrupts lead where, and which of them a program may raise.
use ap_pa.Base.{
  ℕ, zero, suc, ◌+◌, ◌*◌, ◌/◌, ◌%◌, ◌^◌, ◌≤◌, ◌<◌, ◌≡◌, ◌≢◌, refl, sym, ap, ◌∙◌, arith, Bool, ◌&&◌,
  inl, inr, ltb, leb, ◌==◌, ==_iff, ==_false, if_true, if_false, bit_and, bit_and_half, Bool-cases,
  ltb→lt,
}
use mathlib.Core.Path.{subst}
use native.Mathlib.Decide.{ℕ_discrete}
use ap_pa.Cpu.{Gate, idt_set_gate, clear_loop, install_stubs, idt_init, syscall_gate}

-- The address that the processor calls.
abbrev pub handler_of : Gate → ℕ
handler_of g = g.offset_1 + 2 ^ 16 * g.offset_2

-- A gate that is present, for the privilege level of programs.
abbrev pub raisable : Gate → Bool
raisable g = leb 128 g.type_attributes && g.type_attributes / 32 % 4 == 3

abbrev pub gate_of : (handler selector flags : ℕ) → Gate
gate_of handler selector flags = record {
  offset_1 = bit_and handler 0xFFFF;
  selector = selector;
  zeroed = 0;
  type_attributes = flags;
  offset_2 = bit_and (handler / 2 ^ 16) 0xFFFF;
}

handler_of_lem :
    (handler selector flags : ℕ)
    → handler < 2 ^ 32
    → handler_of (gate_of handler selector flags) ≡ handler
handler_of_lem handler selector flags h =
    omega (arith, bit_and_half handler, bit_and_half (handler / 2 ^ 16))

set_gate_self :
    (idt : ℕ → Gate) (num handler selector flags : ℕ)
    → idt_set_gate idt num handler selector flags num ≡ gate_of handler selector flags
unfolding idt_set_gate
set_gate_self idt num handler selector flags = if_true (num == num) _ _ ((==_iff num num).1 refl)

set_gate_other :
    (idt : ℕ → Gate) (num handler selector flags i : ℕ)
    → i ≢ num
    → idt_set_gate idt num handler selector flags i ≡ idt i
unfolding idt_set_gate
set_gate_other idt num handler selector flags i ne = if_false (i == num) _ _ (==_false i num ne)

clear_loop_off : (k i : ℕ) (idt : ℕ → Gate) (v : ℕ) → v < i → clear_loop k i idt v ≡ idt v
unfolding clear_loop
clear_loop_off zero i idt v h = refl
clear_loop_off (suc k) i idt v h =
    clear_loop_off k (i + 1) (idt_set_gate idt i 0 0 0) v (omega arith)
    ∙ set_gate_other idt i 0 0 0 v (λ e. omega arith)

clear_loop_on :
    (k i : ℕ) (idt : ℕ → Gate) (v : ℕ) → i ≤ v → v < i + k → clear_loop k i idt v ≡ gate_of 0 0 0
unfolding clear_loop
clear_loop_on zero i idt v h lt = absurd (omega arith)
clear_loop_on (suc k) i idt v h lt = elim (ℕ_discrete i v) [
  | yes e ↦
      clear_loop_off k (i + 1) (idt_set_gate idt i 0 0 0) v (omega arith)
      ∙ subst (λ v. idt_set_gate idt i 0 0 0 v ≡ gate_of 0 0 0) e (set_gate_self idt i 0 0 0)
  | no ne ↦ clear_loop_on k (i + 1) (idt_set_gate idt i 0 0 0) v (omega arith) (omega arith)
]

install_stubs_off :
    (k : ℕ) (stubs : ℕ → ℕ) (i : ℕ) (idt : ℕ → Gate) (v : ℕ)
    → v < i
    → install_stubs k stubs i idt v ≡ idt v
unfolding install_stubs
install_stubs_off zero stubs i idt v h = refl
install_stubs_off (suc k) stubs i idt v h =
    install_stubs_off k stubs (i + 1) (idt_set_gate idt i (stubs i) 8 0x8E) v (omega arith)
    ∙ set_gate_other idt i (stubs i) 8 0x8E v (λ e. omega arith)

install_stubs_above :
    (k : ℕ) (stubs : ℕ → ℕ) (i : ℕ) (idt : ℕ → Gate) (v : ℕ)
    → i + k ≤ v
    → install_stubs k stubs i idt v ≡ idt v
unfolding install_stubs
install_stubs_above zero stubs i idt v h = refl
install_stubs_above (suc k) stubs i idt v h =
    install_stubs_above k stubs (i + 1) (idt_set_gate idt i (stubs i) 8 0x8E) v (omega arith)
    ∙ set_gate_other idt i (stubs i) 8 0x8E v (λ e. omega arith)

install_stubs_on :
    (k : ℕ) (stubs : ℕ → ℕ) (i : ℕ) (idt : ℕ → Gate) (v : ℕ)
    → i ≤ v
    → v < i + k
    → install_stubs k stubs i idt v ≡ gate_of (stubs v) 8 0x8E
unfolding install_stubs
install_stubs_on zero stubs i idt v h lt = absurd (omega arith)
install_stubs_on (suc k) stubs i idt v h lt = elim (ℕ_discrete i v) [
  | yes e ↦
      install_stubs_off k stubs (i + 1) (idt_set_gate idt i (stubs i) 8 0x8E) v (omega arith)
      ∙ subst (λ v. idt_set_gate idt i (stubs i) 8 0x8E v ≡ gate_of (stubs v) 8 0x8E) e
          (set_gate_self idt i (stubs i) 8 0x8E)
  | no ne ↦
      install_stubs_on k stubs (i + 1) (idt_set_gate idt i (stubs i) 8 0x8E) v (omega arith)
        (omega arith)
]

-- The table with the gates of the stubs and of the system calls.
pub record Gates (table : ℕ → Gate) (stubs : ℕ → ℕ) (syscall_stub : ℕ) : Type 0 where
  pub vectors :
      (v : ℕ)
      → v < 48
      → (handler_of (table v) ≡ stubs v)
        × ((table v).selector ≡ 8)
        × ((table v).type_attributes ≡ 0x8E)
  pub syscall : (handler_of (table 0x80) ≡ syscall_stub) × ((table 0x80).selector ≡ 8)
  pub absent : (v : ℕ) → 48 ≤ v → v < 256 → v ≢ 0x80 → table v ≡ gate_of 0 0 0
  pub only : (v : ℕ) → v < 256 → raisable (table v) ≡ (v == 0x80)

module _ (idt_address : ℕ) (stubs : ℕ → ℕ) (idt : ℕ → Gate) (syscall_stub : ℕ) where
  abbrev table : ℕ → Gate
  table = syscall_gate syscall_stub (idt_init idt_address stubs idt).0

  table-syscall : table 0x80 ≡ gate_of syscall_stub 8 0xEF
  unfolding syscall_gate
  table-syscall = set_gate_self (idt_init idt_address stubs idt).0 0x80 syscall_stub 8 0xEF

  table_vector : (v : ℕ) → v < 48 → table v ≡ gate_of (stubs v) 8 0x8E
  unfolding syscall_gate idt_init
  table_vector v lt =
      set_gate_other (idt_init idt_address stubs idt).0 0x80 syscall_stub 8 0xEF v
        (λ e. omega arith)
      ∙ install_stubs_on 48 stubs 0 (clear_loop 256 0 idt) v (omega arith) lt

  table_absent : (v : ℕ) → 48 ≤ v → v < 256 → v ≢ 0x80 → table v ≡ gate_of 0 0 0
  unfolding syscall_gate idt_init
  table_absent v le lt ne =
      set_gate_other (idt_init idt_address stubs idt).0 0x80 syscall_stub 8 0xEF v ne
      ∙ install_stubs_above 48 stubs 0 (clear_loop 256 0 idt) v le
      ∙ clear_loop_on 256 0 idt v (omega arith) lt

  -- Whatever the table held, after `idt_init` and the gate of the system calls the vectors below 48
  -- lead to their stubs in the kernel's code segment, as interrupt gates of ring 0, 0x80 leads to the
  -- stub of the system calls, the other gates are absent, and 0x80 is the only one of the 256 that a
  -- program in ring 3 may raise.
  pub syscall_gate-Gates :
      ((v : ℕ) → v < 48 → stubs v < 2 ^ 32)
      → syscall_stub < 2 ^ 32
      → Gates (syscall_gate syscall_stub (idt_init idt_address stubs idt).0) stubs syscall_stub
  syscall_gate-Gates small call_small = record {
    vectors =
        λ v lt. rw (table_vector v lt) (handler_of_lem (stubs v) 8 0x8E (small v lt), refl, refl);
    syscall = rw table-syscall (handler_of_lem syscall_stub 8 0xEF call_small, refl);
    absent = table_absent;
    only = λ v lt. elim (ℕ_discrete v 0x80) [
      | yes e ↦ subst (λ v. raisable (table v) ≡ (v == 0x80)) (sym e) (ap raisable table-syscall)
      | no ne ↦ elim (Bool-cases (ltb v 48)) [
        | inl low ↦ ap raisable (table_vector v (ltb→lt v 48 low)) ∙ sym (==_false v 0x80 ne)
        | inr high ↦ ap raisable (table_absent v (ground arith) lt ne) ∙ sym (==_false v 0x80 ne)
      ]
    ];
  }
