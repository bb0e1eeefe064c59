-- ===== src/Interrupt/Messages.antt =====
-- kernel/arch/isr.c: the names of the processor's exceptions.
use Prim.Native.String.{String}
use ap_pa.Base.{ℕ, List, [], ◌∷◌, get_or}

abbrev pub exception_messages : List String
exception_messages =
    "Division By Zero" ∷ "Debug" ∷ "Non Maskable Interrupt" ∷ "Breakpoint" ∷ "Overflow"
    ∷ "Bound Range Exceeded" ∷ "Invalid Opcode" ∷ "Device Not Available" ∷ "Double Fault"
    ∷ "Coprocessor Segment Overrun" ∷ "Invalid TSS" ∷ "Segment Not Present" ∷ "Stack-Segment Fault"
    ∷ "General Protection Fault" ∷ "Page Fault" ∷ "Reserved" ∷ "x87 Floating-Point Exception"
    ∷ "Alignment Check" ∷ "Machine Check" ∷ "SIMD Floating-Point Exception"
    ∷ "Virtualization Exception" ∷ "Control Protection Exception" ∷ "Reserved" ∷ "Reserved"
    ∷ "Reserved" ∷ "Reserved" ∷ "Reserved" ∷ "Reserved" ∷ "Reserved" ∷ "VMM Communication Exception"
    ∷ "Security Exception" ∷ "Reserved" ∷ []

-- The entry of the table.
abbrev pub message : ℕ → String
message n = get_or exception_messages n ""
