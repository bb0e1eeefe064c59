-- ===== src/Interrupt/Masks.antt =====
-- The masks of the interrupt lines, bit by bit.
use native.Mathlib.Nat.{pow-le-pow_right}
use ap_pa.Base.{
  ltb, ℕ, ◌+◌, ◌-◌, ◌%◌, ◌^◌, ◌<◌, ◌≤◌, ◌≡◌, ap, ◌∙◌, arith, [], ◌∷◌, ◌==◌, if◌then◌else◌, bit,
  bit-bit_or, bit-bit_and, bit-pow, bit-compl, bit-le-one, bit_and, bit_or, bit_and-lt, bit_or-lt,
}
use ap_pa.Interrupt.{Writes, mask_port, mask_line, irq_clear_mask, irq_set_mask}

-- The data ports of the two controllers: lines 0 to 7 are on the first.
abbrev data_port : ℕ → ℕ
data_port irq = if ltb irq 8 then 0x21 else 0xA1

-- The first write stores, at the controller of the line, the mask with the bit of the line set to `b`,
-- and every other bit as it was.
pub record Masks (port_in : ℕ → ℕ) (irq b : ℕ) (writes : Writes) : Type 0 where
  pub value : ℕ
  pub rest : Writes
  pub first : writes ≡ (data_port irq, value) ∷ rest
  pub byte : value < 256
  pub bits :
      (j : ℕ) → j < 8 → bit j value ≡ (if irq % 8 == j then b else bit j (port_in (data_port irq)))

mask_port-data_port : (irq : ℕ) → irq < 16 → mask_port irq ≡ data_port irq
mask_port-data_port irq lt = ground arith

mask_line-mod : (irq : ℕ) → irq < 16 → mask_line irq ≡ irq % 8
mask_line-mod irq lt = ground arith

pow_byte : (l : ℕ) → l < 8 → 2 ^ l < 256
pow_byte l lt =
    let le : l ≤ 7 = omega arith in
    let pos : 0 < 2 = omega arith in let h = pow-le-pow_right pos le in omega arith

set_bit : (l j x : ℕ) → bit j (bit_or x (2 ^ l)) ≡ (if l == j then 1 else bit j x)
set_bit l j x = ground (arith, bit-bit_or j x (2 ^ l), bit-pow j l, bit-le-one j x)

clear_bit :
    (l j x : ℕ)
    → l < 8
    → j < 8
    → bit j (bit_and x (2 ^ 32 - 1 - 2 ^ l)) ≡ (if l == j then 0 else bit j x)
clear_bit l j x small h =
    let ones = bit-compl 32 j (2 ^ l) (omega (arith, pow_byte l small)) (omega arith) in
    ground (arith, bit-bit_and j x (2 ^ 32 - 1 - 2 ^ l), ones, bit-pow j l, bit-le-one j x)

-- For each of the 16 lines, with masks that read as bytes, `irq_set_mask` and `irq_clear_mask` first
-- write, to port 0x21 for the lines 0 to 7 and to port 0xA1 for the others, the mask read from that
-- port with bit `irq % 8` set, or cleared, and every other bit as it was.
pub irq_mask-Masks :
    (port_in : ℕ → ℕ) (irq : ℕ)
    → irq < 16
    → ((port : ℕ) → port_in port < 256)
    → Masks port_in irq 1 (irq_set_mask port_in irq)
      × Masks port_in irq 0 (irq_clear_mask port_in irq)
unfolding irq_set_mask irq_clear_mask
irq_mask-Masks port_in irq lt bytes =
    let port = mask_port-data_port irq lt in
    let line = mask_line-mod irq lt in
    let l = irq % 8 in
    let x = port_in (data_port irq) in
    let small : l < 8 = omega arith in
    let set_small = bit_or-lt 8 x (2 ^ l) (bytes (data_port irq)) (pow_byte l small) in
    let clear_small = bit_and-lt 8 x (2 ^ 32 - 1 - 2 ^ l) (bytes (data_port irq)) in
    let set_same : bit_or x (2 ^ l) % 2 ^ 8 ≡ bit_or x (2 ^ l) = omega arith in
    let clear_same : bit_and x (2 ^ 32 - 1 - 2 ^ l) % 2 ^ 8 ≡ bit_and x (2 ^ 32 - 1 - 2 ^ l) =
      omega arith in
    (
      record {
        value = bit_or x (2 ^ l) % 2 ^ 8;
        rest = [];
        first =
            ap (λ p. (p, bit_or (port_in p) (2 ^ mask_line irq) % 2 ^ 8) ∷ []) port
            ∙ ap (λ n. (data_port irq, bit_or x (2 ^ n) % 2 ^ 8) ∷ []) line;
        byte = omega arith;
        bits = λ j h. ap (bit j) set_same ∙ set_bit l j x;
      },
      record {
        value = bit_and x (2 ^ 32 - 1 - 2 ^ l) % 2 ^ 8;
        rest = (0xE9, 85) ∷ (0xE9, (48 + mask_line irq) % 2 ^ 8) ∷ [];
        first =
            ap
              (λ p.
                (p, bit_and (port_in p) (2 ^ 32 - 1 - 2 ^ mask_line irq) % 2 ^ 8)
                ∷ (0xE9, 85)
                ∷ (0xE9, (48 + mask_line irq) % 2 ^ 8)
                ∷ [])
              port
            ∙ ap
                (λ n.
                  (data_port irq, bit_and x (2 ^ 32 - 1 - 2 ^ n) % 2 ^ 8)
                  ∷ (0xE9, 85)
                  ∷ (0xE9, (48 + mask_line irq) % 2 ^ 8)
                  ∷ [])
                line;
        byte = omega arith;
        bits = λ j h. ap (bit j) clear_same ∙ clear_bit l j x small h;
      },
    )
