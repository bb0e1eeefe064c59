-- ===== src/Paging/Map.antt =====
-- `paging_map_page` and `paging_unmap_page` change the translation of one page and of no other.
use ap_pa.Base.{
  ℕ, ◌+◌, ◌*◌, ◌/◌, ◌%◌, ◌^◌, ◌<◌, ◌≡◌, ◌≢◌, ◌⊎◌, refl, ap, sym, ◌∙◌, Bool, true, false, not, ◌&&◌,
  ◌==◌, if◌then◌else◌, ==_iff, ==_false, if_true, if_false, Bool-cases, inl, inr, arith, bit_or,
  bit_and, null,
}
use ap_pa.Paging.{
  Paging, entry, is_present, page_dir_index, page_table_index, pte_of, page_frame_mask,
  paging_translate,
}
use ap_pa.Paging.Update.{Updated}
use ap_pa.Paging.Entry.{is_present-odd, is_present-pte_of, translated}
use ap_pa.Paging.Tables.{IsPaging, same_page}

abbrev pde : Paging → ℕ → ℕ
pde s v = entry s.mem s.kernel_directory (page_dir_index v)

abbrev pte : Paging → ℕ → ℕ
pte s v = entry s.mem (s.pd_tables (page_dir_index v)) (page_table_index v)

-- The translation, by the entries that it reads.
abbrev pub translation : (pde_here pte_here : Bool) → (pte v : ℕ) → ℕ
translation pde_here pte_here e v =
    if pde_here && pte_here then bit_or (bit_and e page_frame_mask) (bit_and v 0xFFF) else 0

walk :
    (d p : Bool) (t e v : ℕ)
    → (d ≡ true → t ≢ null)
    → (if not d
        then 0
        else if t == null
        then 0
        else if not p
        then 0
        else bit_or (bit_and e page_frame_mask) (bit_and v 0xFFF))
      ≡ translation d p e v
walk false p t e v h = refl
walk true false t e v h = if_false (t == null) _ _ (==_false t null (h refl))
walk true true t e v h = if_false (t == null) _ _ (==_false t null (h refl))

pub translate_lem :
    {s : Paging}
    → IsPaging s
    → (v : ℕ)
    → paging_translate s v ≡ translation (is_present (pde s v)) (is_present (pte s v)) (pte s v) v
unfolding paging_translate
translate_lem {s} inv v =
    walk (is_present (pde s v)) (is_present (pte s v)) (s.pd_tables (page_dir_index v)) (pte s v) v
      (λ h. (inv.tables (page_dir_index v) (omega arith) h).nonzero)

-- The translation afterwards.
pub record Mapped (s s' : Paging) (virt phys : ℕ) : Type 0 where
  pub inv : IsPaging s'
  pub here :
      (v : ℕ)
      → v < 2 ^ 32
      → v / 4096 ≡ virt / 4096
      → paging_translate s' v ≡ phys / 4096 * 4096 + v % 4096
  pub elsewhere :
      (v : ℕ) → v < 2 ^ 32 → v / 4096 ≢ virt / 4096 → paging_translate s' v ≡ paging_translate s v

pub translation_absent : (d p : Bool) (e v : ℕ) → d ≡ false → translation d p e v ≡ 0
translation_absent d p e v h = if_false (d && p) _ _ (ap (λ b. b && p) h)

pub translation_blank : (d : Bool) (e v : ℕ) → e ≡ 0 → translation d (is_present e) e v ≡ 0
translation_blank d e v h = ap (λ x. translation d (is_present x) x v) h ∙ blank d
  where
    blank : (d : Bool) → translation d (is_present 0) 0 v ≡ 0
    blank true = ap (λ b. translation true b 0 v) (is_present-odd 0)
    blank false = refl

-- A page is told apart by one of its indices.
page_apart :
    (v w : ℕ)
    → v < 2 ^ 32
    → w < 2 ^ 32
    → v / 4096 ≢ w / 4096
    → (page_dir_index v ≢ page_dir_index w) ⊎ (page_table_index v ≢ page_table_index w)
page_apart v w lv lw other = elim (Bool-cases (page_dir_index v == page_dir_index w)) [
  | inl e ↦ inr (λ t. other (same_page v w lv lw ((==_iff _ _).0 e) t))
  | inr e ↦ inl (λ d. absurd cc (e, (==_iff (page_dir_index v) (page_dir_index w)).1 d))
]

if_true_same : (b x : Bool) → x ≡ true → (if b then true else x) ≡ true
if_true_same true x h = refl
if_true_same false x h = h

module _ {s s' : Paging} (old : IsPaging s) (virt e0 : ℕ) (vlt : virt < 2 ^ 32)
    (u : Updated s s' virt e0) where
  pub Updated-here :
      (v : ℕ)
      → v / 4096 ≡ virt / 4096
      → paging_translate s' v ≡ translation true (is_present e0) e0 v
  Updated-here v same =
      let d : page_dir_index v ≡ page_dir_index virt = omega arith in
      let t : page_table_index v ≡ page_table_index virt = omega arith in
      let top : is_present (pde s' v) ≡ true =
        u.presents (page_dir_index v) (omega arith) ∙ if_true _ _ _ ((==_iff _ _).1 d) in
      let low : pte s' v ≡ e0 =
        ap (λ i. entry s'.mem (s'.pd_tables i) (page_table_index v)) d
        ∙ ap (entry s'.mem (s'.pd_tables (page_dir_index virt))) t
        ∙ u.written in
      translate_lem u.inv v
      ∙ ap (λ b. translation b (is_present (pte s' v)) (pte s' v) v) top
      ∙ ap (λ e. translation true (is_present e) e v) low

  pub Updated-elsewhere :
      (v : ℕ) → v < 2 ^ 32 → v / 4096 ≢ virt / 4096 → paging_translate s' v ≡ paging_translate s v
  Updated-elsewhere v lt other =
      let j = page_dir_index v in
      let i = page_table_index v in
      let split = page_apart v virt lt vlt other in
      elim (Bool-cases (is_present (pde s v))) [
        | inl e ↦
            let top =
              u.presents j (omega arith)
              ∙ if_true_same (j == page_dir_index virt) (is_present (pde s v)) e in
            translate_lem u.inv v
            ∙ ap (λ b. translation b (is_present (pte s' v)) (pte s' v) v) (top ∙ sym e)
            ∙ ap (λ x. translation (is_present (pde s v)) (is_present x) x v)
                (u.kept j i (omega arith) (omega arith) e split)
            ∙ sym (translate_lem old v)
        | inr e ↦
            let before =
              translate_lem old v
              ∙ translation_absent (is_present (pde s v)) (is_present (pte s v)) (pte s v) v e in
            elim (Bool-cases (j == page_dir_index virt)) [
              | inl d ↦
                  let same : j ≡ page_dir_index virt = (==_iff _ _).0 d in
                  let blank : pte s' v ≡ 0 =
                    ap (λ k. entry s'.mem (s'.pd_tables k) i) same
                    ∙ u.cleared
                        (ap (λ k. is_present (entry s.mem s.kernel_directory k)) (sym same) ∙ e) i
                        (omega arith) (λ t. other (same_page v virt lt vlt same t)) in
                  translate_lem u.inv v
                  ∙ translation_blank (is_present (pde s' v)) (pte s' v) v blank
                  ∙ sym before
              | inr d ↦
                  let top =
                    u.presents j (omega arith) ∙ if_false (j == page_dir_index virt) _ _ d ∙ e in
                  translate_lem u.inv v
                  ∙ translation_absent (is_present (pde s' v)) (is_present (pte s' v)) (pte s' v) v
                      top
                  ∙ sym before
            ]
      ]

pub Updated-Mapped :
    {s s' : Paging}
    → IsPaging s
    → (virt phys flags : ℕ) → virt < 2 ^ 32
    → phys < 2 ^ 32
    → Updated s s' virt (pte_of phys flags)
    → Mapped s s' virt phys
Updated-Mapped old virt phys flags vlt plt u = record {
  inv = u.inv;
  here = λ v lt same.
      Updated-here old virt (pte_of phys flags) vlt u v same
      ∙ ap (λ b. translation true b (pte_of phys flags) v) (is_present-pte_of phys flags plt)
      ∙ translated phys flags v plt;
  elsewhere = Updated-elsewhere old virt (pte_of phys flags) vlt u;
}
