-- ===== src/Paging/Change.antt =====
-- `paging_map_page` and `paging_unmap_page`, by the translations after them.
use ap_pa.Base.{
  ℕ, ◌*◌, ◌/◌, ◌^◌, ◌<◌, ◌≡◌, ◌≢◌, refl, ap, sym, ◌∙◌, true, false, not, ◌==◌, if◌then◌else◌,
  ==_iff, ==_false, if_true, if_false, Bool-cases, inl, inr, arith, bit_or, null, ==_ne,
}
use std.Path.{subst}
use ap_pa.Pmm.{alloc_page}
use ap_pa.Pmm.Alloc.{alloc_page-PageAlloc, exhausted, page}
use ap_pa.Paging.{
  Paging, Mem, entry, set_entry, is_present, is_user, page_dir_index, page_table_index, pte_of,
  page_user, paging_map_page, paging_unmap_page, paging_translate,
}
use ap_pa.Paging.Tables.{Present, IsPaging}
use ap_pa.Paging.Update.{
  Updated, Prepared, set_entry-Updated, self-Prepared, set_user-Prepared, Updated-Prepared,
}
use ap_pa.Paging.Fresh.{with_table, fresh-Prepared}
use ap_pa.Paging.Map.{
  Mapped, Updated-Mapped, Updated-here, Updated-elsewhere, translate_lem, translation_absent,
  translation_blank,
}

-- What `paging_map_page` leaves.
pub data MapPage (s : Paging) (virt phys : ℕ) : Paging → Type 0 where
  out_of_memory :
      {s' : Paging}
      → is_present (entry s.mem s.kernel_directory (page_dir_index virt)) ≡ false
      → (alloc_page s.pmm).0 ≡ 0
      → s' ≡ record s { pmm = (alloc_page s.pmm).1 }
      → MapPage s virt phys s'
  mapped : {s' : Paging} → Mapped s s' virt phys → MapPage s virt phys s'

-- The last write of `paging_map_page`, after the directory is prepared.
finish :
    (s m : Paging) (virt e : ℕ)
    → Prepared s m virt
    → Updated s
        (record m {
          mem = set_entry m.mem (m.pd_tables (page_dir_index virt)) (page_table_index virt) e;
        })
        virt
        e
finish s m virt e p =
    let d = page_dir_index virt in
    let top : Present m d =
      p.presents d (omega arith) ∙ if_true (d == d) _ _ ((==_iff d d).1 refl) in
    Updated-Prepared virt e p (set_entry-Updated p.inv virt e top)

module _ {s : Paging} (inv : IsPaging s) (virt phys flags : ℕ) (vlt : virt < 2 ^ 32)
    (plt : phys < 2 ^ 32) where
  abbrev d : ℕ
  d = page_dir_index virt

  abbrev pde : ℕ
  pde = entry s.mem s.kernel_directory d

  abbrev put : Mem → Paging
  put m = record s { mem = set_entry m (s.pd_tables d) (page_table_index virt) (pte_of phys flags) }

  present_Updated :
      is_present pde ≡ true
      → Updated s
          (put (
            if is_user flags
            then set_entry s.mem s.kernel_directory d (bit_or pde page_user)
            else s.mem))
          virt
          (pte_of phys flags)
  present_Updated h = elim (Bool-cases (is_user flags)) [
    | inl u ↦
        subst (λ m. Updated s (put m) virt (pte_of phys flags))
          (sym (if_true (is_user flags) _ _ u))
          (finish s (record s { mem = set_entry s.mem s.kernel_directory d (bit_or pde page_user) })
            virt (pte_of phys flags) (set_user-Prepared inv virt (pte_of phys flags) h))
    | inr u ↦
        subst (λ m. Updated s (put m) virt (pte_of phys flags))
          (sym (if_false (is_user flags) _ _ u))
          (finish s s virt (pte_of phys flags) (self-Prepared inv virt (pte_of phys flags) h))
  ]

  abbrev taken : Paging
  taken =
      let m = with_table s (alloc_page s.pmm).1 virt (alloc_page s.pmm).0 flags in
      record m {
        mem = set_entry m.mem (alloc_page s.pmm).0 (page_table_index virt) (pte_of phys flags);
      }

  fresh_Updated :
      is_present pde ≡ false → (alloc_page s.pmm).0 ≢ 0 → Updated s taken virt (pte_of phys flags)
  fresh_Updated absent ne = elim (alloc_page-PageAlloc inv.valid) [
    | exhausted none_left _ _ ↦ absurd (ne none_left)
    | page f e _ k ↦
        let m = with_table s (alloc_page s.pmm).1 virt (f * 4096) flags in
        let t : m.pd_tables d ≡ f * 4096 = if_true (d == d) _ _ ((==_iff d d).1 refl) in
        let prepared = fresh-Prepared inv f k (λ z. ne (e ∙ z)) virt flags absent in
        subst
          (λ a.
            Updated s
              (record (with_table s (alloc_page s.pmm).1 virt a flags) {
                mem =
                    set_entry (with_table s (alloc_page s.pmm).1 virt a flags).mem a
                      (page_table_index virt) (pte_of phys flags);
              })
              virt (pte_of phys flags))
          (sym e)
          (subst
            (λ a.
              Updated s
                (record m { mem = set_entry m.mem a (page_table_index virt) (pte_of phys flags) })
                virt (pte_of phys flags))
            t (finish s m virt (pte_of phys flags) prepared))
  ]

  -- On valid tables `paging_map_page` either finds no memory for a new table and changes nothing but
  -- the page allocator, or keeps the tables valid, makes every address of the page of `virt` translate
  -- to the same offset in the frame of `phys`, and leaves the translation of all other addresses as it was.
  pub paging_map_page-MapPage : MapPage s virt phys (paging_map_page s virt phys flags)
  unfolding paging_map_page
  paging_map_page-MapPage = elim (Bool-cases (is_present pde)) [
    | inl h ↦
        subst (MapPage s virt phys) (sym (if_true (is_present pde) _ _ h))
          (mapped (Updated-Mapped inv virt phys flags vlt plt (present_Updated h)))
    | inr h ↦ elim (Bool-cases ((alloc_page s.pmm).0 == 0)) [
      | inl z ↦
          out_of_memory h ((==_iff _ _).0 z)
            (if_false (is_present pde) _ _ h ∙ if_true ((alloc_page s.pmm).0 == 0) _ _ z)
      | inr z ↦
          subst (MapPage s virt phys)
            (sym (if_false (is_present pde) _ _ h ∙ if_false ((alloc_page s.pmm).0 == 0) _ taken z))
            (mapped (
              Updated-Mapped inv virt phys flags vlt plt
                (fresh_Updated h (==_ne (alloc_page s.pmm).0 0 z))))
    ]
  ]

-- What `paging_unmap_page` leaves.
pub record Unmapped (s s' : Paging) (virt : ℕ) : Type 0 where
  pub inv : IsPaging s'
  pub here : (v : ℕ) → v < 2 ^ 32 → v / 4096 ≡ virt / 4096 → paging_translate s' v ≡ 0
  pub elsewhere :
      (v : ℕ) → v < 2 ^ 32 → v / 4096 ≢ virt / 4096 → paging_translate s' v ≡ paging_translate s v

Updated-Unmapped :
    {s s' : Paging}
    → IsPaging s
    → (virt : ℕ) → virt < 2 ^ 32
    → Updated s s' virt 0
    → Unmapped s s' virt
Updated-Unmapped old virt vlt u = record {
  inv = u.inv;
  here = λ v lt same. Updated-here old virt 0 vlt u v same ∙ translation_blank true 0 v refl;
  elsewhere = Updated-elsewhere old virt 0 vlt u;
}

-- On valid tables `paging_unmap_page` keeps the tables valid; afterwards no address of the page of
-- `virt` has a translation, and the translation of all other addresses is as it was.
pub paging_unmap_page-Unmapped :
    {s : Paging}
    → IsPaging s
    → (virt : ℕ) → virt < 2 ^ 32
    → Unmapped s (paging_unmap_page s virt) virt
unfolding paging_unmap_page
paging_unmap_page-Unmapped {s} inv virt vlt =
    let d = page_dir_index virt in
    let top = entry s.mem s.kernel_directory d in
    let table = s.pd_tables d in
    elim (Bool-cases (is_present top)) [
      | inl h ↦
          let present : not (is_present top) ≡ false = ap not h in
          let there = ==_false table null (inv.tables d (omega arith) h).nonzero in
          subst (λ x. Unmapped s x virt)
            (sym (if_false (not (is_present top)) _ _ present ∙ if_false (table == null) _ _ there))
            (Updated-Unmapped inv virt vlt (set_entry-Updated inv virt 0 h))
      | inr h ↦
          let absent : not (is_present top) ≡ true = ap not h in
          subst (λ x. Unmapped s x virt) (sym (if_true (not (is_present top)) _ _ absent))
            (record {
              inv = inv;
              here = λ v lt same.
                  let e : page_dir_index v ≡ d = omega arith in
                  translate_lem inv v
                  ∙ translation_absent
                      (is_present (entry s.mem s.kernel_directory (page_dir_index v)))
                      (is_present
                        (entry s.mem (s.pd_tables (page_dir_index v)) (page_table_index v)))
                      (entry s.mem (s.pd_tables (page_dir_index v)) (page_table_index v)) v
                      (ap (λ i. is_present (entry s.mem s.kernel_directory i)) e ∙ h);
              elsewhere = λ v lt other. refl;
            })
    ]
