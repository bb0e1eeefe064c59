-- ===== src/Cpu.antt =====
-- kernel/arch/gdt.c, tss.c and idt.c: the segment descriptors, the task state segment and the interrupt
-- gates. A table is a map from its indices. `stubs` gives the addresses of the assembly stubs, isr0 to
-- isr31 and irq0 to irq15 in this order. Loading the tables is assembly; what `lgdt` and `lidt` are
-- given is kept as the pointer records.
pub mod Segments
pub mod Gates
mod Tests
use ap_pa.Base.{ℕ, zero, suc, ◌+◌, ◌-◌, ◌*◌, ◌/◌, ◌^◌, ◌==◌, if◌then◌else◌, bit_and, bit_or}

abbrev pub gdt_entries : ℕ
gdt_entries = 6

abbrev pub idt_entries : ℕ
idt_entries = 256

pub record GdtEntry : Type 0 where
  pub limit_low : ℕ
  pub base_low : ℕ
  pub base_middle : ℕ
  pub access : ℕ
  pub granularity : ℕ
  pub base_high : ℕ

-- `limit` and `base` of the pointer that `lgdt` or `lidt` reads.
pub record TablePtr : Type 0 where
  pub limit : ℕ
  pub base : ℕ

abbrev pub put {ℓ} : {A : Type ℓ} → (ℕ → A) → ℕ → A → ℕ → A
put table i a j = if j == i then a else table j

pub gdt_set_gate : (ℕ → GdtEntry) → (num base limit access gran : ℕ) → ℕ → GdtEntry
gdt_set_gate gdt num base limit access gran = put gdt num (record {
  limit_low = bit_and limit 0xFFFF;
  base_low = bit_and base 0xFFFF;
  base_middle = bit_and (base / 2 ^ 16) 0xFF;
  access = access;
  granularity = bit_or (bit_and (limit / 2 ^ 16) 0xF) (bit_and gran 0xF0);
  base_high = bit_and (base / 2 ^ 24) 0xFF;
})

-- A descriptor has 8 bytes.
abbrev pub gdt_ptr : (gdt_address : ℕ) → TablePtr
gdt_ptr gdt_address = record { limit = 8 * gdt_entries - 1; base = gdt_address }

pub gdt_init : (gdt_address : ℕ) → (ℕ → GdtEntry) → (ℕ → GdtEntry) × TablePtr
unfolding gdt_set_gate
gdt_init gdt_address gdt =
    let null_entry = gdt_set_gate gdt 0 0 0 0 0 in
    let kernel_code = gdt_set_gate null_entry 1 0 0xFFFFFFFF 0x9A 0xCF in
    let kernel_data = gdt_set_gate kernel_code 2 0 0xFFFFFFFF 0x92 0xCF in
    let user_code = gdt_set_gate kernel_data 3 0 0xFFFFFFFF 0xFA 0xCF in
    let user_data = gdt_set_gate user_code 4 0 0xFFFFFFFF 0xF2 0xCF in
    (gdt_set_gate user_data 5 0 0 0 0, gdt_ptr gdt_address)

-- The fields of the task state segment that are not zero.
pub record Tss : Type 0 where
  pub ss0 : ℕ
  pub esp0 : ℕ
  pub iomap_base : ℕ

abbrev pub tss_size : ℕ
tss_size = 104

pub tss_init :
    (tss_address gdt_address : ℕ)
    → (ℕ → GdtEntry)
    → (kernel_ss kernel_esp : ℕ) → Tss × (ℕ → GdtEntry) × TablePtr
unfolding gdt_set_gate
tss_init tss_address gdt_address gdt kernel_ss kernel_esp = (
  record { ss0 = kernel_ss; esp0 = kernel_esp; iomap_base = tss_size },
  gdt_set_gate gdt 5 tss_address (tss_size - 1) 0xE9 0,
  gdt_ptr gdt_address,
)

pub tss_set_kernel_stack : Tss → (esp0 : ℕ) → Tss
tss_set_kernel_stack tss esp0 = record tss { esp0 = esp0 }

pub record Gate : Type 0 where
  pub offset_1 : ℕ
  pub selector : ℕ
  pub zeroed : ℕ
  pub type_attributes : ℕ
  pub offset_2 : ℕ

abbrev pub kernel_code_seg : ℕ
kernel_code_seg = 8

-- `IDT_FLAG_PRESENT | IDT_FLAG_RING0 | IDT_FLAG_GATE_INT`
abbrev pub interrupt_flags : ℕ
interrupt_flags = bit_or (bit_or 0x80 0) 0x0E

pub idt_set_gate : (ℕ → Gate) → (num handler selector flags : ℕ) → ℕ → Gate
idt_set_gate idt num handler selector flags = put idt num (record {
  offset_1 = bit_and handler 0xFFFF;
  selector = selector;
  zeroed = 0;
  type_attributes = flags;
  offset_2 = bit_and (handler / 2 ^ 16) 0xFFFF;
})

-- The loop that clears the entries.
pub clear_loop : ℕ → (i : ℕ) → (ℕ → Gate) → ℕ → Gate
unfolding idt_set_gate
clear_loop zero i idt = idt
clear_loop (suc k) i idt = clear_loop k (i + 1) (idt_set_gate idt i 0 0 0)

-- The calls for the stubs from number `i` on.
pub install_stubs : ℕ → (stubs : ℕ → ℕ) → (i : ℕ) → (ℕ → Gate) → ℕ → Gate
unfolding idt_set_gate
install_stubs zero stubs i idt = idt
install_stubs (suc k) stubs i idt =
    install_stubs k stubs (i + 1) (idt_set_gate idt i (stubs i) kernel_code_seg interrupt_flags)

pub idt_init : (idt_address : ℕ) → (stubs : ℕ → ℕ) → (ℕ → Gate) → (ℕ → Gate) × TablePtr
unfolding clear_loop install_stubs
idt_init idt_address stubs idt = (
  install_stubs 48 stubs 0 (clear_loop idt_entries 0 idt),
  record { limit = 8 * idt_entries - 1; base = idt_address },
)

-- The gate of INT 0x80, as `syscall_init` sets it.
pub syscall_gate : (syscall_stub : ℕ) → (ℕ → Gate) → ℕ → Gate
unfolding idt_set_gate
syscall_gate syscall_stub idt = idt_set_gate idt 0x80 syscall_stub 0x08 0xEF
