-- ===== src/Syscall/Write.antt =====
-- What SYS_WRITE prints, and which memory it reads.
use ap_pa.Base.{
  ℕ, zero, suc, ◌+◌, ◌-◌, ◌*◌, ◌/◌, ◌^◌, ◌≤◌, ◌<◌, ◌≡◌, ◌≢◌, inl, inr, refl, ap, sym, ◌∙◌, true,
  not, List, [], ◌∷◌, ◌++◌, ltb, ltb→lt, ◌==◌, if◌then◌else◌, add32, min, arith, if_true, if_false,
  Bool-cases, ==_false, ==_iff,
}
use ap_pa.Syscall.{
  Registers, user_space_start, user_space_end, minus_one, bytes_at, until_nul, write_loop,
  validate_user_ptr, sys_write_handler,
}
use ap_pa.Syscall.Pointers.{validate_user_ptr_iff}

abbrev chunk : (len written : ℕ) → ℕ
chunk len written = if ltb 128 (len - written) then 128 else len - written

chunk-min : (len w : ℕ) → chunk len w ≡ min 128 (len - w)
chunk-min len w = ground arith

append_assoc : (xs ys zs : List ℕ) → (xs ++ ys) ++ zs ≡ xs ++ (ys ++ zs)
append_assoc [] ys zs = refl
append_assoc (x ∷ xs) ys zs = ap (λ l. x ∷ l) (append_assoc xs ys zs)

append_nil : (xs : List ℕ) → xs ++ [] ≡ xs
append_nil [] = refl
append_nil (x ∷ xs) = ap (λ l. x ∷ l) (append_nil xs)

module _ (mem : ℕ → ℕ) where
  bytes_at-append :
      (a c m n : ℕ) → c + m ≡ n → bytes_at mem a c ++ bytes_at mem (a + c) m ≡ bytes_at mem a n
  bytes_at-append a zero m n h =
      ap (λ b. bytes_at mem b m) (omega arith) ∙ ap (bytes_at mem a) (omega arith)
  bytes_at-append a (suc c) m zero h = absurd (omega arith)
  bytes_at-append a (suc c) m (suc n) h =
      ap (λ b. mem a ∷ (bytes_at mem (a + 1) c ++ bytes_at mem b m)) (omega arith)
      ∙ ap (λ l. mem a ∷ l) (bytes_at-append (a + 1) c m n (omega arith))

  until_nul-bytes_at :
      (a n : ℕ)
      → ((i : ℕ) → a ≤ i → i < a + n → mem i ≢ 0)
      → until_nul (bytes_at mem a n) ≡ bytes_at mem a n
  unfolding until_nul
  until_nul-bytes_at a zero h = refl
  until_nul-bytes_at a (suc n) h =
      if_false (mem a == 0) _ _ (==_false (mem a) 0 (h a (omega arith) (omega arith)))
      ∙ ap (λ l. mem a ∷ l)
          (until_nul-bytes_at (a + 1) n (λ i le lt. h i (omega arith) (omega arith)))

  nothing_left :
      (buf len w : ℕ) (out : List ℕ)
      → w ≡ len
      → ◌≡◌ {A = List ℕ × ℕ} (out, w) (out ++ bytes_at mem (buf + w) (len - w), len)
  nothing_left buf len w out end =
      let zero_left : 0 ≡ len - w = omega arith in
      ap {B = List ℕ × ℕ} (λ l. (l, w)) (sym (append_nil out))
      ∙ ap (λ n. (out ++ bytes_at mem (buf + w) n, w)) zero_left
      ∙ ap (λ n. (out ++ bytes_at mem (buf + w) (len - w), n)) end

  -- The loop from `w` on, with fuel for the rest.
  write_loop-prints :
      (k buf len w : ℕ) (out : List ℕ)
      → buf + len ≤ user_space_end
      → w ≤ len
      → len ≤ w + 128 * k
      → ((i : ℕ) → buf ≤ i → i < buf + len → mem i ≢ 0)
      → write_loop k mem buf len w out ≡ (out ++ bytes_at mem (buf + w) (len - w), len)
  unfolding write_loop
  write_loop-prints zero buf len w out top le fuel texts = nothing_left buf len w out (omega arith)
  write_loop-prints (suc k) buf len w out top le fuel texts =
      let c = chunk len w in
      let at : add32 buf w ≡ buf + w = omega arith in
      elim (Bool-cases (ltb w len)) [
        | inl more ↦
            let lt = ltb→lt w len more in
            let small : c ≤ len - w = omega (arith, chunk-min len w) in
            let printed : until_nul (bytes_at mem (add32 buf w) c) ≡ bytes_at mem (buf + w) c =
              ap (λ a. until_nul (bytes_at mem a c)) at
              ∙ until_nul-bytes_at (buf + w) c
                  (λ i lo hi. texts i (omega arith) (omega (arith, small))) in
            let rest =
              write_loop-prints k buf len (w + c) (out ++ bytes_at mem (buf + w) c) top
                (omega (arith, small)) (omega (arith, chunk-min len w)) texts in
            let split : bytes_at mem (buf + w) c ++ bytes_at mem (buf + (w + c)) (len - (w + c))
                ≡ bytes_at mem (buf + w) (len - w) =
              ap (λ b. bytes_at mem (buf + w) c ++ bytes_at mem b (len - (w + c))) (omega arith)
              ∙ bytes_at-append (buf + w) c (len - (w + c)) (len - w) (omega (arith, small)) in
            if_true (ltb w len) _ _ more
            ∙ ap (λ l. write_loop k mem buf len (w + c) (out ++ l)) printed
            ∙ rest
            ∙ ap (λ l. (l, len))
                (append_assoc out (bytes_at mem (buf + w) c)
                    (bytes_at mem (buf + (w + c)) (len - (w + c)))
                  ∙ ap (λ l. out ++ l) split)
        | inr done ↦
            let end : w ≡ len = ground arith in
            if_false (ltb w len) _ _ done ∙ nothing_left buf len w out end
      ]

-- For a buffer in the memory of user programs that contains no NUL, `sys_write_handler` prints exactly
-- the bytes of the buffer and returns its length.
pub sys_write_handler-prints :
    (mem : ℕ → ℕ) (regs : Registers) (out : List ℕ)
    → user_space_start ≤ regs.ebx
    → regs.ebx + regs.ecx ≤ user_space_end
    → ((i : ℕ) → regs.ebx ≤ i → i < regs.ebx + regs.ecx → mem i ≢ 0)
    → sys_write_handler mem regs out ≡ (regs.ecx, out ++ bytes_at mem regs.ebx regs.ecx)
unfolding sys_write_handler
sys_write_handler-prints mem regs out low top texts =
    let buf = regs.ebx in
    let len = regs.ecx in
    elim (Bool-cases (len == 0)) [
      | inl empty ↦
          let none_left : 0 ≡ len = sym ((==_iff len 0).0 empty) in
          if_true (len == 0) _ _ empty
          ∙ ap (λ l. (0, l)) (sym (append_nil out))
          ∙ ap (λ n. (n, out ++ bytes_at mem buf n)) none_left
      | inr some_bytes ↦
          let start : buf + 0 ≡ buf = omega arith in
          let whole : len - 0 ≡ len = omega arith in
          let ok = (validate_user_ptr_iff buf len (omega arith) (omega arith)).1 (low, top) in
          if_false (len == 0) _ _ some_bytes
          ∙ if_false (not (validate_user_ptr buf len)) _ _ (ap not ok)
          ∙ ap (λ r. (r.1, r.0))
              (write_loop-prints mem (len / 128 + 1) buf len 0 out top (omega arith) (omega arith)
                texts)
          ∙ ap (λ a. (len, out ++ bytes_at mem a (len - 0))) start
          ∙ ap (λ n. (len, out ++ bytes_at mem buf n)) whole
    ]

-- `mem` and `mem'` have the same bytes at the addresses that system calls accept.
abbrev pub SameUserMemory : (mem mem' : ℕ → ℕ) → Type 0
SameUserMemory mem mem' = (a : ℕ) → 0x1000 ≤ a → a < 0xC0000000 → mem a ≡ mem' a

module _ {mem mem' : ℕ → ℕ} (same : SameUserMemory mem mem') where
  bytes_at-same :
      (a n : ℕ)
      → user_space_start ≤ a
      → a + n ≤ user_space_end
      → bytes_at mem a n ≡ bytes_at mem' a n
  bytes_at-same a zero low top = refl
  bytes_at-same a (suc n) low top =
      ap (λ b. b ∷ bytes_at mem (a + 1) n) (same a low (omega arith))
      ∙ ap (λ l. mem' a ∷ l) (bytes_at-same (a + 1) n (omega arith) (omega arith))

  write_loop-same :
      (k buf len w : ℕ) (out : List ℕ)
      → user_space_start ≤ buf
      → buf + len ≤ user_space_end
      → write_loop k mem buf len w out ≡ write_loop k mem' buf len w out
  unfolding write_loop
  write_loop-same zero buf len w out low top = refl
  write_loop-same (suc k) buf len w out low top =
      let c = chunk len w in
      elim (Bool-cases (ltb w len)) [
        | inl more ↦
            let lt = ltb→lt w len more in
            let at : add32 buf w ≡ buf + w = omega arith in
            let bytes : bytes_at mem (add32 buf w) c ≡ bytes_at mem' (add32 buf w) c =
              bytes_at-same (add32 buf w) c (omega (arith, at))
                (omega (arith, at, chunk-min len w)) in
            if_true (ltb w len) _ _ more
            ∙ ap (λ l. write_loop k mem buf len (w + c) (out ++ until_nul l)) bytes
            ∙ write_loop-same k buf len (w + c) (out ++ until_nul (bytes_at mem' (add32 buf w) c))
                low top
            ∙ sym (if_true (ltb w len) _ (out, w) more)
        | inr done ↦ if_false (ltb w len) _ _ done ∙ sym (if_false (ltb w len) _ _ done)
      ]

-- Whatever pointer and length a program passes, what `sys_write_handler` returns and prints depends
-- only on the bytes at the addresses from 0x1000 up to, and not including, 0xC0000000. Among these are
-- the program's own memory and also the kernel's, so no more than the range is protected.
pub sys_write_handler-same :
    (mem mem' : ℕ → ℕ) (regs : Registers) (out : List ℕ)
    → SameUserMemory mem mem'
    → regs.ebx < 2 ^ 32
    → regs.ecx < 2 ^ 32
    → sys_write_handler mem regs out ≡ sys_write_handler mem' regs out
unfolding sys_write_handler
sys_write_handler-same mem mem' regs out same b c =
    let buf = regs.ebx in
    let len = regs.ecx in
    elim (Bool-cases (validate_user_ptr buf len)) [
      | inl ok ↦
          let (low, top) = (validate_user_ptr_iff buf len b c).0 ok in
          ap
            (λ r.
              if len == 0
              then (0, out)
              else if not (validate_user_ptr buf len)
              then (minus_one, out)
              else (r.1, r.0))
            (write_loop-same same (len / 128 + 1) buf len 0 out low top)
      | inr refused ↦
          let off : not (validate_user_ptr buf len) ≡ true = ap not refused in
          ap (λ r. if len == 0 then (0, out) else r)
            (if_true (not (validate_user_ptr buf len)) _ _ off
              ∙ sym (if_true (not (validate_user_ptr buf len)) _ _ off))
    ]
