-- ===== src/Paging/Fresh.antt =====
-- A new table, taken from the page allocator and entered in the directory.
use ap_pa.Base.{
  ℕ, ◌+◌, ◌*◌, ◌/◌, ◌<◌, ◌≡◌, ◌≢◌, ◌⊎◌, refl, ap, sym, ◌∙◌, Bool, true, false, ◌&&◌, leb, ltb, ◌==◌,
  if◌then◌else◌, ==_iff, ==_false, if_true, if_false, Bool-cases, inl, inr, arith, ==_ne,
}
use std.Path.{subst}
use ap_pa.Pmm.{Pmm, test_frame}
use ap_pa.Pmm.Alloc.{Takes}
use ap_pa.Paging.{
  Paging, entry, set_entry, set_table, zero_page, is_present, page_dir_index, pde_of,
}
use ap_pa.Paging.Entry.{is_present-pde_of}
use ap_pa.Paging.Tables.{
  IsTable, Present, IsPaging, entry-set_entry_same, entry-set_entry_table, entry-set_entry_index,
  entry-zero_page_same, entry-zero_page_other,
}
use ap_pa.Paging.Update.{Prepared}

abbrev pub with_table : Paging → Pmm → (virt page flags : ℕ) → Paging
with_table s pmm' virt page flags = record s {
  pmm = pmm';
  mem =
      set_entry (zero_page s.mem page) s.kernel_directory (page_dir_index virt) (pde_of page flags);
  pd_tables = set_table s.pd_tables (page_dir_index virt) page;
}

-- The page is not one that was taken before.
table-fresh : {p : Pmm} {a : ℕ} (f : ℕ) → IsTable p a → test_frame p f ≡ false → a ≢ f * 4096
table-fresh {p} {a} f t free e =
    let same : a / 4096 ≡ f = omega arith in absurd cc (t.taken, ap (test_frame p) same, free)

module _ {s : Paging} (inv : IsPaging s) {pmm' : Pmm} (f : ℕ) (k : Takes s.pmm f 1 pmm')
    (nonzero : f * 4096 ≢ 0) (virt flags : ℕ)
    (absent : is_present (entry s.mem s.kernel_directory (page_dir_index virt)) ≡ false) where
  abbrev page : ℕ
  page = f * 4096

  abbrev d : ℕ
  d = page_dir_index virt

  abbrev s' : Paging
  s' = with_table s pmm' virt page flags

  free : test_frame s.pmm f ≡ false
  free = k.were_free f (omega arith) (omega arith)

  stays_taken : {a : ℕ} → IsTable s.pmm a → IsTable pmm' a
  stays_taken {a} t = record {
    aligned = t.aligned;
    low = t.low;
    nonzero = t.nonzero;
    taken = k.marked (a / 4096) ∙ keep (leb f (a / 4096) && ltb (a / 4096) (f + 1)) _ t.taken;
  }
    where
      keep : (b x : Bool) → x ≡ true → (if b then true else x) ≡ true
      keep true x h = refl
      keep false x h = h

  new_table : IsTable pmm' page
  new_table =
      let same : page / 4096 ≡ f = omega arith in
      let within : (leb f f && ltb f (f + 1)) ≡ true = ground arith in
      record {
        aligned = omega arith;
        low = omega (arith, k.in_range);
        nonzero = nonzero;
        taken =
            ap (test_frame pmm') same ∙ k.marked f ∙ if_true (leb f f && ltb f (f + 1)) _ _ within;
      }

  in_dir :
      (i : ℕ)
      → i < 1024
      → entry s'.mem s.kernel_directory i
        ≡ (if i == d then pde_of page flags else entry s.mem s.kernel_directory i)
  in_dir i lt =
      let dir = s.kernel_directory in
      elim (Bool-cases (i == d)) [
        | inl e ↦
            entry-set_entry_same (zero_page s.mem page) dir dir i d (pde_of page flags)
              inv.dir.aligned inv.dir.aligned lt (omega arith) refl ((==_iff i d).0 e)
            ∙ sym (if_true (i == d) _ _ e)
        | inr e ↦
            entry-set_entry_index (zero_page s.mem page) dir dir i d (pde_of page flags)
              inv.dir.aligned inv.dir.aligned lt (omega arith) (==_ne i d e)
            ∙ entry-zero_page_other s.mem dir page i inv.dir.aligned (omega arith) lt
                (table-fresh f inv.dir free)
            ∙ sym (if_false (i == d) _ _ e)
      ]

  in_presents :
      (i : ℕ)
      → i < 1024
      → is_present (entry s'.mem s.kernel_directory i)
        ≡ (if i == d then true else is_present (entry s.mem s.kernel_directory i))
  in_presents i lt = ap is_present (in_dir i lt) ∙ push (i == d)
    where
      push :
          (b : Bool)
          → is_present (if b then pde_of page flags else entry s.mem s.kernel_directory i)
            ≡ (if b then true else is_present (entry s.mem s.kernel_directory i))
      push true = is_present-pde_of page flags
      push false = refl

  -- A table of the new directory is the new one, or one of before.
  either :
      (i : ℕ)
      → i < 1024
      → Present s' i
      → ((i ≡ d) × (s'.pd_tables i ≡ page))
        ⊎ ((i ≢ d) × (Present s i) × (s'.pd_tables i ≡ s.pd_tables i))
  either i lt h = elim (Bool-cases (i == d)) [
    | inl e ↦ inl ((==_iff i d).0 e, if_true (i == d) _ _ e)
    | inr e ↦
        inr (
          ==_ne i d e,
          sym (in_presents i lt ∙ if_false (i == d) _ _ e) ∙ h,
          if_false (i == d) _ _ e,
        )
  ]

  fresh-IsPaging : IsPaging s'
  fresh-IsPaging = record {
    valid = k.valid;
    dir = stays_taken inv.dir;
    tables = λ i lt h. elim (either i lt h) [
      | inl (e, t) ↦ subst (IsTable pmm') (sym t) new_table
      | inr (e, old, t) ↦ subst (IsTable pmm') (sym t) (stays_taken (inv.tables i lt old))
    ];
    off_dir = λ i lt h q. elim (either i lt h) [
      | inl (e, t) ↦ table-fresh f inv.dir free (sym q ∙ t)
      | inr (e, old, t) ↦ inv.off_dir i lt old (sym t ∙ q)
    ];
    apart = λ i j li lj ne hi hj q. elim (either i li hi) [
      | inl (e, t) ↦ elim (either j lj hj) [
        | inl (e', t') ↦ ne (e ∙ sym e')
        | inr (e', old', t') ↦ table-fresh f (inv.tables j lj old') free (sym t' ∙ sym q ∙ t)
      ]
      | inr (e, old, t) ↦ elim (either j lj hj) [
        | inl (e', t') ↦ table-fresh f (inv.tables i li old) free (sym t ∙ q ∙ t')
        | inr (e', old', t') ↦ inv.apart i j li lj ne old old' (sym t ∙ q ∙ t')
      ]
    ];
  }

  off_index : (j : ℕ) → Present s j → j ≢ d
  off_index j h e = absurd cc (absent, ap (λ i. is_present (entry s.mem s.kernel_directory i)) e, h)

  -- Entries of the tables after zeroing the page and writing the directory.
  beside :
      (t i : ℕ)
      → IsTable pmm' t
      → t ≢ s.kernel_directory
      → i < 1024
      → entry s'.mem t i ≡ entry (zero_page s.mem page) t i
  beside t i h ne lt =
      entry-set_entry_table (zero_page s.mem page) t s.kernel_directory i d (pde_of page flags)
        h.aligned inv.dir.aligned lt (omega arith) ne

  pub fresh-Prepared : Prepared s s' virt
  fresh-Prepared = record {
    inv = fresh-IsPaging;
    presents = in_presents;
    kept = λ j i lj li h.
        let t = inv.tables j lj h in
        ap (λ x. entry s'.mem x i) (if_false (j == d) _ _ (==_false j d (off_index j h)))
        ∙ beside (s.pd_tables j) i (stays_taken t) (inv.off_dir j lj h) li
        ∙ entry-zero_page_other s.mem (s.pd_tables j) page i t.aligned (omega arith) li
            (table-fresh f t free);
    cleared = λ absent' i lt.
        ap (λ x. entry s'.mem x i) (if_true (d == d) _ _ ((==_iff d d).1 refl))
        ∙ beside page i new_table (λ q. table-fresh f inv.dir free (sym q)) lt
        ∙ entry-zero_page_same s.mem page page i (omega arith) (omega arith) lt refl;
  }
