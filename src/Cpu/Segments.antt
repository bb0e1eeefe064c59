-- ===== src/Cpu/Segments.antt =====
-- What the processor reads in a segment descriptor is what was put into it.
use ap_pa.Base.{
  ℕ, ◌+◌, ◌*◌, ◌/◌, ◌%◌, ◌^◌, ◌<◌, ◌≡◌, ◌≢◌, refl, sym, arith, ◌==◌, ==_iff, ==_false, if_true,
  if_false, bit_and, bit_or, bit_and_byte, bit_and_half, bit_or_nibbles,
}
use mathlib.Core.Path.{subst}
use ap_pa.Cpu.{GdtEntry, gdt_set_gate}

-- The fields of a descriptor, as the processor puts them together.
abbrev pub base_of : GdtEntry → ℕ
base_of e = e.base_low + 2 ^ 16 * e.base_middle + 2 ^ 24 * e.base_high

abbrev pub limit_of : GdtEntry → ℕ
limit_of e = e.limit_low + 2 ^ 16 * (e.granularity % 16)

abbrev pub flags_of : GdtEntry → ℕ
flags_of e = e.granularity / 16

-- The privilege level that the access byte asks for.
abbrev pub dpl_of : GdtEntry → ℕ
dpl_of e = e.access / 2 ^ 5 % 4

pub record Describes (e : GdtEntry) (base limit access gran : ℕ) : Type 0 where
  pub starts : base_of e ≡ base
  pub spans : limit_of e ≡ limit % 2 ^ 20
  pub rights : e.access ≡ access
  pub flags : flags_of e ≡ gran / 16

entry_of : (base limit access gran : ℕ) → GdtEntry
entry_of base limit access gran = record {
  limit_low = bit_and limit 0xFFFF;
  base_low = bit_and base 0xFFFF;
  base_middle = bit_and (base / 2 ^ 16) 0xFF;
  access = access;
  granularity = bit_or (bit_and (limit / 2 ^ 16) 0xF) (bit_and gran 0xF0);
  base_high = bit_and (base / 2 ^ 24) 0xFF;
}

entry_of-Describes :
    (base limit access gran : ℕ)
    → base < 2 ^ 32
    → gran < 256
    → Describes (entry_of base limit access gran) base limit access gran
unfolding entry_of
entry_of-Describes base limit access gran small byte =
    let g : bit_or (bit_and (limit / 2 ^ 16) 0xF) (bit_and gran 0xF0)
        ≡ 16 * (gran / 16) + limit / 2 ^ 16 % 16 =
      bit_or_nibbles (limit / 2 ^ 16) gran byte in
    record {
      starts =
          omega
            (arith, bit_and_half base, bit_and_byte (base / 2 ^ 16), bit_and_byte (base / 2 ^ 24));
      spans = omega (arith, bit_and_half limit, g);
      rights = refl;
      flags = omega (arith, g);
    }

-- The descriptor that `gdt_set_gate` stores, read back, has the base, the access byte, the flags in the
-- high half of the granularity and the low 20 bits of the limit; the other descriptors stay.
pub gdt_set_gate-Describes :
    (gdt : ℕ → GdtEntry) (num base limit access gran : ℕ)
    → base < 2 ^ 32
    → gran < 256
    → let gdt' = gdt_set_gate gdt num base limit access gran in
      Describes (gdt' num) base limit access gran × ((i : ℕ) → i ≢ num → gdt' i ≡ gdt i)
unfolding gdt_set_gate entry_of
gdt_set_gate-Describes gdt num base limit access gran small byte = (
  subst (λ e. Describes e base limit access gran)
      (sym (
        if_true (num == num) (entry_of base limit access gran) (gdt num) ((==_iff num num).1 refl)))
      (entry_of-Describes base limit access gran small byte),
  λ i ne. if_false (i == num) (entry_of base limit access gran) (gdt i) (==_false i num ne),
)
