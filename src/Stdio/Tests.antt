-- ===== src/Stdio/Tests.antt =====
-- Texts of numbers.
use ap_pa.Base.{◌≡◌, refl, [], ◌∷◌, arith, length}
use ap_pa.Stdio.{utoa, itoa}
use ap_pa.Stdio.Digits.{read, utoa-read}

utoa-read_example : read 16 (utoa 255 16) (length (utoa 255 16)) ≡ 255
utoa-read_example = utoa-read 255 16 (omega arith) (omega arith) (omega arith)

-- `ff`, and `-10`
texts : (utoa 255 16 ≡ 102 ∷ 102 ∷ []) × (itoa 4294967286 10 ≡ 45 ∷ 49 ∷ 48 ∷ [])
unfolding utoa itoa
texts = (refl, refl)
