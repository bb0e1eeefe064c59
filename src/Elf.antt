-- ===== src/Elf.antt =====
-- kernel/exec/elf.c: the check of an executable by its header. A file is the list of its bytes; the
-- pointer to it is not null. Loading its segments is not modelled.
pub mod Header
mod Tests
use ap_pa.Base.{
  ℕ, ◌+◌, ◌-◌, ◌*◌, Bool, true, false, not, ◌||◌, List, take, drop, get_or, length, ltb, ◌==◌,
  if◌then◌else◌, add32, mul32, of_bytes,
}

abbrev pub ehdr_size : ℕ
ehdr_size = 52

abbrev pub phdr_size : ℕ
phdr_size = 32

-- The fields of the header that the code reads.
pub record Ehdr : Type 0 where
  pub e_ident : List ℕ
  pub e_type : ℕ
  pub e_machine : ℕ
  pub e_entry : ℕ
  pub e_phoff : ℕ
  pub e_phentsize : ℕ
  pub e_phnum : ℕ

-- A field of `n` bytes.
abbrev pub field_at : List ℕ → (offset n : ℕ) → ℕ
field_at file offset n = of_bytes (take n (drop offset file))

pub read_ehdr : List ℕ → Ehdr
read_ehdr file = record {
  e_ident = take 16 file;
  e_type = field_at file 16 2;
  e_machine = field_at file 18 2;
  e_entry = field_at file 24 4;
  e_phoff = field_at file 28 4;
  e_phentsize = field_at file 42 2;
  e_phnum = field_at file 44 2;
}

-- The magic bytes: 0x7f, E, L, F.
pub is_elf : List ℕ → Bool
is_elf ident =
    if not (get_or ident 0 0 == 0x7F)
      || not (get_or ident 1 0 == 69)
      || not (get_or ident 2 0 == 76)
      || not (get_or ident 3 0 == 70)
    then false
    else true

-- The end of the program header table, in 32 bits.
abbrev pub ph_end : Ehdr → ℕ
ph_end h = add32 h.e_phoff (mul32 h.e_phnum h.e_phentsize)

-- Whether the code returns 0.
pub elf_validate : (file : List ℕ) → (size : ℕ) → Bool
unfolding read_ehdr is_elf
elf_validate file size =
    let h = read_ehdr file in
    if ltb size ehdr_size
    then false
    else if not (is_elf h.e_ident)
    then false
    else if not (get_or h.e_ident 4 0 == 1)
    then false
    else if not (get_or h.e_ident 5 0 == 1)
    then false
    else if not (h.e_type == 2)
    then false
    else if not (h.e_machine == 3)
    then false
    else if h.e_phoff == 0 || h.e_phnum == 0
    then false
    else if ltb h.e_phentsize phdr_size
    then false
    else if ltb size (ph_end h)
    then false
    else if h.e_entry == 0
    then false
    else true
