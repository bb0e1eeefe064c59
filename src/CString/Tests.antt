-- ===== src/CString/Tests.antt =====
-- The string functions on short strings, and the theorems there.
use ap_pa.Base.{ℕ, ◌≡◌, refl, some, List, [], ◌∷◌, ◌++◌, arith, pos, negsuc}
use ap_pa.CString.{strcmp, strncmp, memset, strchr, strrchr}
use ap_pa.CString.Compare.{IsText}

abbrev ab : List ℕ
ab = b'a' ∷ b'b' ∷ []

ab-IsText : IsText ab
ab-IsText = omega arith

strcmp_less : strcmp (ab ++ 0 ∷ []) (b'b' ∷ 0 ∷ []) ≡ some (negsuc 0)
unfolding strcmp
strcmp_less = refl

strncmp_prefix : strncmp (ab ++ 0 ∷ []) (b'a' ∷ b'c' ∷ 0 ∷ []) 1 ≡ some (pos 0)
unfolding strncmp
strncmp_prefix = refl

strchr_last :
    (strchr (ab ++ b'a' ∷ 0 ∷ []) b'a' ≡ some (some 0))
    × (strrchr (ab ++ b'a' ∷ 0 ∷ []) b'a' ≡ some (some 2))
unfolding strchr strrchr
strchr_last = (refl, refl)

memset_two : memset (1 ∷ 2 ∷ 3 ∷ []) 7 2 ≡ some (7 ∷ 7 ∷ 3 ∷ [])
unfolding memset
memset_two = refl
