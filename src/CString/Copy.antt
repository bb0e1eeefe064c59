-- ===== src/CString/Copy.antt =====
-- What the copies write, byte for byte.
use ap_pa.Base.{
  ℕ, zero, suc, ◌+◌, ◌≤◌, ◌<◌, ◌≡◌, refl, ap, ◌∙◌, false, none, some, List, [], ◌∷◌, ◌++◌, arith,
  ◌==◌, length, take, drop, replicate,
}
use ap_pa.CString.{strcpy, zero_fill, strncpy, strcat, memset, memcpy, libc_strncpy}
use ap_pa.CString.Compare.{IsText}

zero_fill_lem :
    (n : ℕ) (ds : List ℕ) → n ≤ length ds → zero_fill ds n ≡ some (replicate n 0 ++ drop n ds)
unfolding zero_fill
zero_fill_lem zero ds h = refl
zero_fill_lem (suc n) [] h = absurd (omega arith)
zero_fill_lem (suc n) (d ∷ ds) h = rw (zero_fill_lem n ds (omega arith)) refl

zero_fill_short : (n : ℕ) (ds : List ℕ) → length ds < n → zero_fill ds n ≡ none
unfolding zero_fill
zero_fill_short zero ds h = absurd (omega arith)
zero_fill_short (suc n) [] h = refl
zero_fill_short (suc n) (d ∷ ds) h = rw (zero_fill_short n ds (omega arith)) refl

-- `memcpy` of `n` bytes between two objects that have as many replaces the first `n` bytes.
pub memcpy_lem :
    (n : ℕ) (ds s : List ℕ)
    → n ≤ length ds
    → n ≤ length s
    → memcpy ds s n ≡ some (take n s ++ drop n ds)
unfolding memcpy
memcpy_lem zero ds s h k = refl
memcpy_lem (suc n) [] s h k = absurd (omega arith)
memcpy_lem (suc n) (d ∷ ds) [] h k = absurd (omega arith)
memcpy_lem (suc n) (d ∷ ds) (c ∷ s) h k = rw (memcpy_lem n ds s (omega arith) (omega arith)) refl

-- `memset` of `n` bytes of an object that has as many sets exactly those.
pub memset_lem :
    (n v : ℕ) (ds : List ℕ) → n ≤ length ds → memset ds v n ≡ some (replicate n v ++ drop n ds)
unfolding memset
memset_lem zero v ds h = refl
memset_lem (suc n) v [] h = absurd (omega arith)
memset_lem (suc n) v (d ∷ ds) h = rw (memset_lem n v ds (omega arith)) refl

-- The first `n` bytes of a string that goes on with NULs.
abbrev pub padded : ℕ → List ℕ → List ℕ
padded zero s = []
padded (suc n) [] = 0 ∷ padded n []
padded (suc n) (c ∷ s) = c ∷ padded n s

padded-nil : (n : ℕ) → padded n [] ≡ replicate n 0
padded-nil zero = refl
padded-nil (suc n) = ap (λ l. 0 ∷ l) (padded-nil n)

-- `strncpy` of the kernel writes exactly `n` bytes: the string, cut off at `n` or filled up with
-- NULs; the rest of the destination stays.
pub strncpy-padded :
    (n : ℕ) (ds s r : List ℕ)
    → IsText s
    → n ≤ length ds
    → strncpy ds (s ++ 0 ∷ r) n ≡ some (padded n s ++ drop n ds)
unfolding strncpy
strncpy-padded zero ds s r t h = refl
strncpy-padded (suc n) [] s r t h = absurd (omega arith)
strncpy-padded (suc n) (d ∷ ds) [] r t h = rw (zero_fill_lem (suc n) (d ∷ ds) h, padded-nil n) refl
strncpy-padded (suc n) (d ∷ ds) (c ∷ s) r t h =
    let more : (c == 0) ≡ false = ground arith in
    rw (more, strncpy-padded n ds s r t.1 (omega arith)) refl

-- `strncpy` of libc writes one byte more than `n` when the string is shorter than `n`: on a
-- destination of exactly `n` bytes that is a write past its end.
pub libc_strncpy_overflow :
    (n : ℕ) (ds s r : List ℕ)
    → IsText s
    → length s < n
    → length ds ≡ n
    → libc_strncpy ds (s ++ 0 ∷ r) n ≡ none
unfolding libc_strncpy
libc_strncpy_overflow zero ds s r t short e = absurd (omega arith)
libc_strncpy_overflow (suc n) [] s r t short e = absurd (omega arith)
libc_strncpy_overflow (suc n) (d ∷ ds) [] r t short e =
    rw (zero_fill_short (suc n) ds (omega arith)) refl
libc_strncpy_overflow (suc n) (d ∷ ds) (c ∷ s) r t short e =
    let more : (c == 0) ≡ false = ground arith in
    rw (more, libc_strncpy_overflow n ds s r t.1 (omega arith) (omega arith)) refl

strcpy_lem :
    (s ds r : List ℕ)
    → IsText s
    → length s < length ds
    → strcpy ds (s ++ 0 ∷ r) ≡ some (s ++ 0 ∷ drop (length s + 1) ds)
unfolding strcpy
strcpy_lem s [] r t h = absurd (omega arith)
strcpy_lem [] (d ∷ ds) r t h = refl
strcpy_lem (c ∷ s) (d ∷ ds) r t h =
    let more : (c == 0) ≡ false = ground arith in
    let e : suc (length s) + 1 ≡ suc (length s + 1) = omega arith in
    rw (more, e, strcpy_lem s ds r t.1 (omega arith)) refl

-- `strcat` puts the second string behind the first, with a NUL, if the destination has the room,
-- and leaves the bytes behind that NUL alone.
pub strcat-append :
    (s ds t r : List ℕ)
    → IsText s
    → IsText t
    → length t ≤ length ds
    → strcat (s ++ 0 ∷ ds) (t ++ 0 ∷ r) ≡ some (s ++ (t ++ 0 ∷ drop (length t) ds))
unfolding strcat
strcat-append [] ds t r u v h =
    let e : length t + 1 ≡ suc (length t) = omega arith in
    strcpy_lem t (0 ∷ ds) r v (omega arith) ∙ ap (λ k. some (t ++ 0 ∷ drop k (0 ∷ ds))) e
strcat-append (c ∷ s) ds t r u v h =
    let more : (c == 0) ≡ false = ground arith in rw (more, strcat-append s ds t r u.1 v h) refl
