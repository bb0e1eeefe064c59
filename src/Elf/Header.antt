-- ===== src/Elf/Header.antt =====
-- What an accepted header guarantees.
use ap_pa.Base.{
  ◌%◌, refl, not, ◌||◌, get_or, if◌then◌else◌, ==_ne, ℕ, ◌+◌, ◌*◌, ◌^◌, ◌≤◌, ◌<◌, ◌≡◌, ◌≢◌, Bool,
  true, false, List, ltb, ◌==◌, arith, add32,
}
use ap_pa.Elf.{is_elf, Ehdr, read_ehdr, elf_validate, ehdr_size, phdr_size, ph_end}

-- The table of program headers lies in the file.
pub record IsLoadable (h : Ehdr) (size : ℕ) : Type 0 where
  pub whole : ehdr_size ≤ size
  pub headers : h.e_phnum ≢ 0
  pub wide : phdr_size ≤ h.e_phentsize
  pub inside : h.e_phoff + h.e_phnum * h.e_phentsize ≤ size
  pub entry : h.e_entry ≢ 0

-- A test that the header has passed.
passed : (b x : Bool) → (if b then false else x) ≡ true → (b ≡ false) × (x ≡ true)
passed true x h = absurd cc h
passed false x h = (refl, h)

neither : (a b : Bool) → (a || b) ≡ false → (a ≡ false) × (b ≡ false)
neither true b h = absurd cc h
neither false b h = (refl, h)

-- A file that `elf_validate` accepts has, if the end of its table of program headers does not wrap
-- around, a header and a table that lie in the file, with at least one entry of full size.
pub elf_validate-IsLoadable :
    (file : List ℕ) (size : ℕ)
    → elf_validate file size ≡ true
    → (read_ehdr file).e_phoff + (read_ehdr file).e_phnum * (read_ehdr file).e_phentsize < 2 ^ 32
    → IsLoadable (read_ehdr file) size
unfolding elf_validate
elf_validate-IsLoadable file size valid small =
    let h = read_ehdr file in
    let (whole, r₁) = passed (ltb size ehdr_size) _ valid in
    let (_, r₂) = passed (not (is_elf h.e_ident)) _ r₁ in
    let (_, r₃) = passed (not (get_or h.e_ident 4 0 == 1)) _ r₂ in
    let (_, r₄) = passed (not (get_or h.e_ident 5 0 == 1)) _ r₃ in
    let (_, r₅) = passed (not (h.e_type == 2)) _ r₄ in
    let (_, r₆) = passed (not (h.e_machine == 3)) _ r₅ in
    let (table, r₇) = passed (h.e_phoff == 0 || h.e_phnum == 0) _ r₆ in
    let (wide, r₈) = passed (ltb h.e_phentsize phdr_size) _ r₇ in
    let (inside, r₉) = passed (ltb size (ph_end h)) _ r₈ in
    let (entry, _) = passed (h.e_entry == 0) _ r₉ in
    let (_, some_headers) = neither (h.e_phoff == 0) (h.e_phnum == 0) table in
    record {
      whole = not_less size ehdr_size whole;
      headers = ==_ne h.e_phnum 0 some_headers;
      wide = not_less h.e_phentsize phdr_size wide;
      inside =
          fits h.e_phoff (h.e_phnum * h.e_phentsize) size small (not_less size (ph_end h) inside);
      entry = ==_ne h.e_entry 0 entry;
    }
  where
    not_less : (a b : ℕ) → ltb a b ≡ false → b ≤ a
    not_less a b h = ground arith

    fits : (off n size : ℕ) → off + n < 2 ^ 32 → add32 off (n % 2 ^ 32) ≤ size → off + n ≤ size
    fits off n size lt le = omega arith
