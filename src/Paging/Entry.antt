-- ===== src/Paging/Entry.antt =====
-- Entries as numbers: the present bit, the frame, the offset.
use ap_pa.Base.{
  ℕ, ◌+◌, ◌*◌, ◌/◌, ◌%◌, ◌^◌, ◌<◌, ◌≡◌, ap, sym, ◌∙◌, true, not, ◌==◌, bit_and, bit_or, bit_and_one,
  bit_and_low, bit_and_high, bit_or_one, bit_or-add, bit_or_digit, arith,
}
use ap_pa.Paging.{is_present, pde_of, pte_of, page_frame_mask, page_user}

pub is_present-odd : (e : ℕ) → is_present e ≡ not (e % 2 == 0)
unfolding is_present
is_present-odd e = ap (λ n. not (n == 0)) (bit_and_one e)

odd-is_present : (e : ℕ) → e % 2 ≡ 1 → is_present e ≡ true
odd-is_present e h = is_present-odd e ∙ ap (λ n. not (n == 0)) h

-- Setting PAGE_USER keeps the present bit.
pub is_present-user : (e : ℕ) → is_present (bit_or e page_user) ≡ is_present e
is_present-user e =
    let same : bit_or e 4 % 2 ≡ e % 2 = omega (arith, bit_or_digit e 4) in
    is_present-odd (bit_or e 4) ∙ ap (λ n. not (n == 0)) same ∙ sym (is_present-odd e)

pub is_present-pde_of : (pt_phys flags : ℕ) → is_present (pde_of pt_phys flags) ≡ true
unfolding pde_of
is_present-pde_of pt_phys flags =
    let one = bit_or pt_phys 1 in
    let two = bit_or one 2 in
    let user = bit_and flags 4 in
    let odd : bit_or two user % 2 ≡ 1 =
      omega (arith, bit_or_one pt_phys, bit_or_digit one 2, bit_or_digit two user) in
    odd-is_present (bit_or two user) odd

-- The entry that `paging_map_page` stores.
pte_of_lem :
    (phys flags : ℕ)
    → phys < 2 ^ 32
    → pte_of phys flags ≡ (2 ^ 12 * (phys / 4096) + flags % 4096) / 2 * 2 + 1
unfolding pte_of
pte_of_lem phys flags h =
    let f = phys / 4096 in
    ap (λ x. bit_or (bit_or x (bit_and flags 0xFFF)) 1) (bit_and_high phys h ∙ omega arith)
    ∙ ap (λ x. bit_or (bit_or (2 ^ 12 * f) x) 1) (bit_and_low flags)
    ∙ ap (λ x. bit_or x 1) (bit_or-add 12 f (flags % 4096) (omega arith))
    ∙ bit_or_one (2 ^ 12 * f + flags % 4096)

pub is_present-pte_of : (phys flags : ℕ) → phys < 2 ^ 32 → is_present (pte_of phys flags) ≡ true
is_present-pte_of phys flags h =
    odd-is_present (pte_of phys flags) (omega (arith, pte_of_lem phys flags h))

-- The address that `paging_translate` puts together from an entry.
pub translated :
    (phys flags virt : ℕ)
    → phys < 2 ^ 32
    → bit_or (bit_and (pte_of phys flags) page_frame_mask) (bit_and virt 0xFFF)
      ≡ phys / 4096 * 4096 + virt % 4096
translated phys flags virt h =
    let e = pte_of phys flags in
    let frame : e / 4096 * 4096 ≡ 2 ^ 12 * (phys / 4096) = omega (arith, pte_of_lem phys flags h) in
    ap (λ x. bit_or x (bit_and virt 0xFFF))
      (bit_and_high e (omega (arith, pte_of_lem phys flags h)) ∙ frame)
    ∙ ap (λ x. bit_or (2 ^ 12 * (phys / 4096)) x) (bit_and_low virt)
    ∙ bit_or-add 12 (phys / 4096) (virt % 4096) (omega arith)
    ∙ omega arith
