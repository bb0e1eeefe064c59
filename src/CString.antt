-- ===== src/CString.antt =====
-- klibc/string.c, the string and memory functions of the kernel, and `strncpy` of libc/string.c.
-- A `char*` is the list of the bytes from the pointer to the end of the object that it points into;
-- `none` is an access past that end. A function that writes through `dest` returns the new bytes of
-- the object. `c` and `value` are bytes. A pointer that is returned is an offset from the argument.
pub mod Compare
pub mod Copy
pub mod Number
mod Tests
use ap_pa.Base.{
  ℕ, zero, suc, ◌+◌, ◌-◌, ◌≡◌, Bool, true, false, not, ◌&&◌, Option, none, some, List, [], ◌∷◌,
  ◌==◌, if◌then◌else◌, add32, ℤ, pos, sub_ℕ,
}
use mathlib.Core.Option

strlen_from : List ℕ → ℕ → Option ℕ
strlen_from [] len = none
strlen_from (c ∷ s) len = if c == 0 then some len else strlen_from s (add32 len 1)

unfoldable pub strlen : List ℕ → Option ℕ
unfolding strlen_from
strlen s = strlen_from s 0

unfoldable pub strcmp : List ℕ → List ℕ → Option ℤ
strcmp [] t = none
strcmp (a ∷ s) [] = none
strcmp (a ∷ s) (b ∷ t) = if not (a == 0) && a == b then strcmp s t else some (sub_ℕ a b)

unfoldable pub strncmp : List ℕ → List ℕ → ℕ → Option ℤ
strncmp s t zero = some (pos 0)
strncmp [] t (suc n) = none
strncmp (a ∷ s) [] (suc n) = none
strncmp (a ∷ s) (b ∷ t) (suc n) = if not (a == 0) && a == b then strncmp s t n else some (sub_ℕ a b)

-- One byte is written, then the rest of the object.
abbrev cons? : ℕ → Option (List ℕ) → Option (List ℕ)
cons? c r = Option.map (λ ds. c ∷ ds) r

unfoldable pub strcpy : (dest src : List ℕ) → Option (List ℕ)
strcpy d [] = none
strcpy [] (c ∷ s) = none
strcpy (d ∷ ds) (c ∷ s) = let rest = cons? c (strcpy ds s) in if c == 0 then some (0 ∷ ds) else rest

-- The second loop of `strncpy`.
zero_fill : List ℕ → ℕ → Option (List ℕ)
zero_fill ds zero = some ds
zero_fill [] (suc n) = none
zero_fill (d ∷ ds) (suc n) = cons? 0 (zero_fill ds n)

unfoldable pub strncpy : (dest src : List ℕ) → ℕ → Option (List ℕ)
unfolding zero_fill
strncpy ds s zero = some ds
strncpy ds [] (suc n) = none
strncpy [] (c ∷ s) (suc n) = none
strncpy (d ∷ ds) (c ∷ s) (suc n) =
    let rest = cons? c (strncpy ds s n) in if c == 0 then zero_fill (d ∷ ds) (suc n) else rest

unfoldable pub strcat : (dest src : List ℕ) → Option (List ℕ)
unfolding strcpy
strcat [] s = none
strcat (d ∷ ds) s = let rest = cons? d (strcat ds s) in if d == 0 then strcpy (d ∷ ds) s else rest

unfoldable pub memset : List ℕ → (value num : ℕ) → Option (List ℕ)
memset ds v zero = some ds
memset [] v (suc n) = none
memset (d ∷ ds) v (suc n) = cons? v (memset ds v n)

unfoldable pub memcpy : (dest src : List ℕ) → ℕ → Option (List ℕ)
memcpy ds s zero = some ds
memcpy ds [] (suc n) = none
memcpy [] (c ∷ s) (suc n) = none
memcpy (d ∷ ds) (c ∷ s) (suc n) = cons? c (memcpy ds s n)

unfoldable pub memcmp : List ℕ → List ℕ → ℕ → Option ℤ
memcmp s t zero = some (pos 0)
memcmp [] t (suc n) = none
memcmp (a ∷ s) [] (suc n) = none
memcmp (a ∷ s) (b ∷ t) (suc n) = if a == b then memcmp s t n else some (sub_ℕ a b)

-- `some none` is a `NULL` result.
strchr_from : List ℕ → (c i : ℕ) → Option (Option ℕ)
strchr_from [] c i = none
strchr_from (d ∷ s) c i =
    let rest = strchr_from s c (i + 1) in
    if d == 0
    then some (if c == 0 then some i else none)
    else if d == c
    then some (some i)
    else rest

unfoldable pub strchr : List ℕ → ℕ → Option (Option ℕ)
unfolding strchr_from
strchr s c = strchr_from s c 0

strrchr_from : List ℕ → (c i : ℕ) → Option ℕ → Option (Option ℕ)
strrchr_from [] c i last = none
strrchr_from (d ∷ s) c i last =
    if d == 0
    then some (if c == 0 then some i else last)
    else strrchr_from s c (i + 1) (if d == c then some i else last)

unfoldable pub strrchr : List ℕ → ℕ → Option (Option ℕ)
unfolding strrchr_from
strrchr s c = strrchr_from s c 0 none

-- `strncpy` of libc/string.c. Its first loop also moves `d` past the NUL that it copies, and leaves
-- `n` as it is.
unfoldable pub libc_strncpy : (dst src : List ℕ) → ℕ → Option (List ℕ)
unfolding zero_fill
libc_strncpy ds s zero = some ds
libc_strncpy ds [] (suc n) = none
libc_strncpy [] (c ∷ s) (suc n) = none
libc_strncpy (d ∷ ds) (c ∷ s) (suc n) =
    let rest = cons? c (libc_strncpy ds s n) in
    if c == 0 then cons? 0 (zero_fill ds (suc n)) else rest
