-- ===== src/Interrupt/Tests.antt =====
-- Interrupts at concrete registers.
use ap_pa.Base.{ℕ, ◌+◌, ◌≡◌, refl, arith, Option, none, some, List, [], ◌∷◌}
use ap_pa.Interrupt.{
  Registers, Handlers, Writes, Piece, text, hex, returned, halted, register_interrupt_handler, dump,
  isr_handler, pic_remap, pic_send_eoi, irq_clear_mask, irq_set_mask, irq_handler, pit_init,
}
use ap_pa.Interrupt.Masks.{Masks, irq_mask-Masks}

abbrev regs : ℕ → Registers
regs n = record {
  ds = 0;
  edi = 0;
  esi = 0;
  ebp = 0;
  esp = 0;
  ebx = 0;
  edx = 0;
  ecx = 0;
  eax = 0;
  int_no = n;
  err_code = 0;
  eip = 0x1000;
  cs = 8;
  eflags = 2;
}

abbrev nobody : {K : Type 0} → Handlers K
nobody i = none

abbrev count_writes : Writes → ℕ
count_writes [] = 0
count_writes (w ∷ ws) = 1 + count_writes ws

-- The handler sees the end of the interrupt sent to both controllers.
acknowledged :
    irq_handler
      (register_interrupt_handler nobody 46 (λ r (w, k). (w, count_writes w)))
      (regs 46)
      ([], 0)
    ≡ ((0xA0, 0x20) ∷ (0x20, 0x20) ∷ [], 2)
unfolding irq_handler register_interrupt_handler
acknowledged = refl

handled : isr_handler (register_interrupt_handler nobody 3 (λ r k. k + 1)) (regs 3) 4 ≡ returned 5
unfolding isr_handler register_interrupt_handler
handled = refl

stopped : isr_handler {K = ℕ} nobody (regs 3) 4 ≡ halted (dump (regs 3))
unfolding isr_handler
stopped = refl

abbrev second_text : List Piece → Piece
second_text (a ∷ b ∷ c ∷ l) = c
second_text _ = hex 0

named : second_text (dump (regs 14)) ≡ text "Page Fault"
unfolding dump
named = refl

irq_mask-Masks_example :
    Masks (λ p. 0xF0) 12 1 (irq_set_mask (λ p. 0xF0) 12)
    × Masks (λ p. 0xF0) 12 0 (irq_clear_mask (λ p. 0xF0) 12)
irq_mask-Masks_example = irq_mask-Masks (λ p. 0xF0) 12 (omega arith) (λ p. omega arith)

abbrev writes_of : Option Writes → Writes
writes_of none = []
writes_of (some w) = w

ports :
    (writes_of (pit_init 100) ≡ (0x43, 0x36) ∷ (0x40, 155) ∷ (0x40, 46) ∷ [])
    × (count_writes (pic_remap 32 40) ≡ 10)
    × (pic_send_eoi 1 ≡ (0x20, 0x20) ∷ [])
unfolding pit_init pic_remap pic_send_eoi
ports = (refl, refl, refl)
