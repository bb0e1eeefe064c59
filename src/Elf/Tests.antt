-- ===== src/Elf/Tests.antt =====
-- Headers that are accepted and refused.
use ap_pa.Base.{ℕ, ◌≡◌, refl, true, false, List, [], ◌∷◌, ◌++◌, replicate, to_bytes}
use ap_pa.Elf.{elf_validate, is_elf}

abbrev header : (phoff : ℕ) → List ℕ
header phoff =
    (0x7F ∷ 69 ∷ 76 ∷ 70 ∷ 1 ∷ 1 ∷ replicate 10 0)
    ++ (to_bytes 2 2
        ++ (to_bytes 2 3
            ++ (to_bytes 4 1
                ++ (to_bytes 4 0x8048000
                    ++ (to_bytes 4 phoff
                        ++ (replicate 10 0
                            ++ (to_bytes 2 32 ++ (to_bytes 2 1 ++ replicate 6 0))))))))

accepted : elf_validate (header 52 ++ replicate 32 0) 84 ≡ true
unfolding elf_validate
accepted = refl

table_cut_off : elf_validate (header 52) 52 ≡ false
unfolding elf_validate
table_cut_off = refl

-- The end of the table wraps to 0: a table outside of the file is accepted.
table_wraps : elf_validate (header 0xFFFFFFE0) 52 ≡ true
unfolding elf_validate
table_wraps = refl

no_magic : is_elf (1 ∷ 2 ∷ 3 ∷ 4 ∷ []) ≡ false
unfolding is_elf
no_magic = refl
