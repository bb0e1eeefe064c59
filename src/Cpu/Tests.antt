-- ===== src/Cpu/Tests.antt =====
-- The tables at concrete addresses.
use ap_pa.Base.{ℕ, ◌+◌, ◌≡◌, ◌≢◌, refl, arith}
use ap_pa.Cpu.{
  GdtEntry, Gate, gdt_set_gate, gdt_init, tss_init, tss_set_kernel_stack, idt_set_gate, clear_loop,
  install_stubs, idt_init, syscall_gate,
}
use ap_pa.Cpu.Segments.{base_of, limit_of, dpl_of, Describes, gdt_set_gate-Describes}
use ap_pa.Cpu.Gates.{Gates, handler_of, syscall_gate-Gates}

abbrev no_entry : GdtEntry
no_entry = record {
  limit_low = 0;
  base_low = 0;
  base_middle = 0;
  access = 0;
  granularity = 0;
  base_high = 0;
}

abbrev no_gate : Gate
no_gate = record { offset_1 = 0; selector = 0; zeroed = 0; type_attributes = 0; offset_2 = 0 }

-- The segment of programs is at level 3, the kernel's at level 0, both over all of memory.
flat :
    let gdt = (gdt_init 0x5000 (λ i. no_entry)).0 in
    (dpl_of (gdt 1) ≡ 0)
    × (dpl_of (gdt 3) ≡ 3)
    × (limit_of (gdt 3) ≡ 0xFFFFF)
    × (base_of (gdt 3) ≡ 0)
unfolding gdt_init
flat = (refl, refl, refl, refl)

task_segment :
    let (tss, gdt, ptr) = tss_init 0x123456 0x5000 (λ i. no_entry) 0x10 0x90000 in
    (base_of (gdt 5) ≡ 0x123456)
    × (limit_of (gdt 5) ≡ 103)
    × (ptr.limit ≡ 47)
    × ((tss_set_kernel_stack tss 0x8000).esp0 ≡ 0x8000)
unfolding tss_init tss_set_kernel_stack
task_segment = (refl, refl, refl, refl)

gates :
    (handler_of (install_stubs 2 (λ v. 0x12345 + v) 0 (λ i. no_gate) 1) ≡ 0x12346)
    × ((clear_loop 3 0 (λ i. no_gate) 2).selector ≡ 0)
    × ((idt_set_gate (λ i. no_gate) 7 1 8 9 7).selector ≡ 8)
unfolding install_stubs clear_loop idt_set_gate
gates = (refl, refl, refl)

gdt_set_gate-Describes_example :
    let gdt = gdt_set_gate (λ i. no_entry) 5 0x12345678 0xABCDE 0xE9 0xC0 in
    Describes (gdt 5) 0x12345678 0xABCDE 0xE9 0xC0 × ((i : ℕ) → i ≢ 5 → gdt i ≡ no_entry)
gdt_set_gate-Describes_example =
    gdt_set_gate-Describes (λ i. no_entry) 5 0x12345678 0xABCDE 0xE9 0xC0 (omega arith)
      (omega arith)

syscall_gate-Gates_example :
    Gates
      (syscall_gate 0x20000 (idt_init 0x6000 (λ v. 0x10000 + v) (λ i. no_gate)).0)
      (λ v. 0x10000 + v)
      0x20000
syscall_gate-Gates_example =
    syscall_gate-Gates 0x6000 (λ v. 0x10000 + v) (λ i. no_gate) 0x20000 (λ v lt. omega arith)
      (omega arith)
