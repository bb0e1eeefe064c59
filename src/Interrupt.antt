-- ===== src/Interrupt.antt =====
-- kernel/arch/isr.c, irq.c, pic.c and pit.c: the dispatch of exceptions and of hardware interrupts, the
-- interrupt controllers and the interval timer. `K` is the state of the kernel that handlers change;
-- a handler is a function on it. Writes to ports are listed in their order; `port_in` gives what a
-- port reads as. `io_wait` only delays and is left out.
pub mod Messages
pub mod Masks
mod Tests
use Prim.Native.String.{String}
use ap_pa.Base.{
  ℕ, ◌+◌, ◌-◌, ◌/◌, ◌%◌, ◌^◌, Option, none, some, List, [], ◌∷◌, ◌++◌, ltb, leb, ◌==◌,
  if◌then◌else◌, bit_and, bit_or,
}
use ap_pa.Interrupt.Messages.{exception_messages, message}

-- What the dispatch and the report read of the saved registers.
pub record Registers : Type 0 where
  pub ds : ℕ
  pub edi : ℕ
  pub esi : ℕ
  pub ebp : ℕ
  pub esp : ℕ
  pub ebx : ℕ
  pub edx : ℕ
  pub ecx : ℕ
  pub eax : ℕ
  pub int_no : ℕ
  pub err_code : ℕ
  pub eip : ℕ
  pub cs : ℕ
  pub eflags : ℕ

abbrev pub Handler : Type 0 → Type 0
Handler K = Registers → K → K

-- `interrupt_handlers`; a null pointer is `none`.
abbrev pub Handlers : Type 0 → Type 0
Handlers K = ℕ → Option (Handler K)

unfoldable pub register_interrupt_handler :
    {K : Type 0} → Handlers K → (n : ℕ) → Handler K → Handlers K
register_interrupt_handler handlers n handler i = if i == n then some handler else handlers i

-- What `kprint` and `kprint_hex` are called with.
pub data Piece : Type 0 where
  text : String → Piece
  hex : ℕ → Piece

-- A handler has returned, or the exception is printed and the processor stopped.
pub data Outcome (K : Type 0) : Type 0 where
  returned : K → Outcome K
  halted : List Piece → Outcome K

pub dump : Registers → List Piece
dump regs =
    text "\n========== CPU EXCEPTION ==========\n"
    ∷ text "Exception: "
    ∷ ((if ltb regs.int_no 32 then text (message regs.int_no) ∷ [] else [])
        ++ (text " ("
            ∷ hex regs.int_no
            ∷ text ")\n"
            ∷ text "Error Code: "
            ∷ hex regs.err_code
            ∷ text "\n"
            ∷ text "EIP: "
            ∷ hex regs.eip
            ∷ text "  CS: "
            ∷ hex regs.cs
            ∷ text "\n"
            ∷ text "EFLAGS: "
            ∷ hex regs.eflags
            ∷ text "\n"
            ∷ text "EAX: "
            ∷ hex regs.eax
            ∷ text "  EBX: "
            ∷ hex regs.ebx
            ∷ text "\n"
            ∷ text "ECX: "
            ∷ hex regs.ecx
            ∷ text "  EDX: "
            ∷ hex regs.edx
            ∷ text "\n"
            ∷ text "ESP: "
            ∷ hex regs.esp
            ∷ text "  EBP: "
            ∷ hex regs.ebp
            ∷ text "\n"
            ∷ text "ESI: "
            ∷ hex regs.esi
            ∷ text "  EDI: "
            ∷ hex regs.edi
            ∷ text "\n"
            ∷ text "DS: "
            ∷ hex regs.ds
            ∷ text "\n"
            ∷ text "====================================\n"
            ∷ text "System Halted.\n"
            ∷ []))

pub isr_handler : {K : Type 0} → Handlers K → Registers → K → Outcome K
unfolding dump
isr_handler {K} handlers regs k = elim (handlers regs.int_no) as (λ o. Outcome K) [
  | some handler ↦ returned (handler regs k)
  | none ↦ halted (dump regs)
]

abbrev pub pic1_command : ℕ
pic1_command = 0x20

abbrev pub pic1_data : ℕ
pic1_data = 0x21

abbrev pub pic2_command : ℕ
pic2_command = 0xA0

abbrev pub pic2_data : ℕ
pic2_data = 0xA1

abbrev pub pic_eoi : ℕ
pic_eoi = 0x20

abbrev pub icw4_8086 : ℕ
icw4_8086 = 1

-- `ICW1_INIT | ICW1_ICW4`
abbrev pub icw1 : ℕ
icw1 = bit_or 0x10 0x01

-- The port and the byte of each write.
abbrev pub Writes : Type 0
Writes = List (ℕ × ℕ)

pub pic_remap : (offset1 offset2 : ℕ) → Writes
pic_remap offset1 offset2 =
    (pic1_command, icw1)
    ∷ (pic2_command, icw1)
    ∷ (pic1_data, offset1)
    ∷ (pic2_data, offset2)
    ∷ (pic1_data, 0x04)
    ∷ (pic2_data, 0x02)
    ∷ (pic1_data, icw4_8086)
    ∷ (pic2_data, icw4_8086)
    ∷ (pic1_data, 0)
    ∷ (pic2_data, 0)
    ∷ []

pub pic_send_eoi : (irq : ℕ) → Writes
pic_send_eoi irq =
    (if leb 8 irq then (pic2_command, pic_eoi) ∷ [] else []) ++ ((pic1_command, pic_eoi) ∷ [])

-- The port of the mask, and the line there.
abbrev pub mask_port : ℕ → ℕ
mask_port irq = if ltb irq 8 then pic1_data else pic2_data

abbrev pub mask_line : ℕ → ℕ
mask_line irq = if ltb irq 8 then irq else irq - 8

-- `~` of an `int` has 32 bits; the byte that is stored has 8.
pub irq_clear_mask : (port_in : ℕ → ℕ) → (irq : ℕ) → Writes
irq_clear_mask port_in irq =
    let port = mask_port irq in
    let value = bit_and (port_in port) (2 ^ 32 - 1 - 2 ^ mask_line irq) % 2 ^ 8 in
    (port, value) ∷ (0xE9, 85) ∷ (0xE9, (48 + mask_line irq) % 2 ^ 8) ∷ []

pub irq_set_mask : (port_in : ℕ → ℕ) → (irq : ℕ) → Writes
irq_set_mask port_in irq =
    let port = mask_port irq in (port, bit_or (port_in port) (2 ^ mask_line irq) % 2 ^ 8) ∷ []

-- `interrupt_handlers` of the vector runs on the state with the end of the interrupt already sent.
pub irq_handler : {K : Type 0} → Handlers (Writes × K) → Registers → Writes × K → Writes × K
unfolding pic_send_eoi
irq_handler {K} handlers regs (writes, k) =
    let irq = (regs.int_no + 2 ^ 32 - 32) % 2 ^ 8 in
    let sent : Writes × K = (writes ++ pic_send_eoi irq, k) in
    elim (handlers regs.int_no) as (λ o. Writes × K) [
      | some handler ↦ handler regs sent
      | none ↦ sent
    ]

-- `1193182 / frequency`, in the range of the counter.
abbrev pub pit_divisor : ℕ → ℕ
pit_divisor frequency =
    let divisor = 1193182 / frequency in
    let high = if ltb 0xFFFF divisor then 0xFFFF else divisor in if ltb high 1 then 1 else high

-- `none` is the fault of a division by 0.
pub pit_init : (frequency : ℕ) → Option Writes
pit_init frequency =
    let divisor = pit_divisor frequency in
    if frequency == 0
    then none
    else some (
        (0x43, bit_or (bit_or (bit_or 0x00 0x30) 0x06) 0x00)
        ∷ (0x40, bit_and divisor 0xFF)
        ∷ (0x40, bit_and (divisor / 2 ^ 8) 0xFF)
        ∷ [])
