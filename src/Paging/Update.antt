-- ===== src/Paging/Update.antt =====
-- The writes of `paging_map_page`: to an entry of a table, to the directory, of a new table.
use ap_pa.Base.{
  ℕ, ◌<◌, ◌≡◌, ◌≢◌, ◌⊎◌, refl, ap, sym, ◌∙◌, Bool, true, false, ◌==◌, if◌then◌else◌, ==_iff,
  if_true, Bool-cases, inl, inr, arith, bit_or, ==_ne,
}
use ap_pa.Paging.{
  Paging, Mem, entry, set_entry, is_present, page_dir_index, page_table_index, page_user,
}
use ap_pa.Paging.Entry.{is_present-user}
use ap_pa.Paging.Tables.{
  Present, IsPaging, entry-set_entry_same, entry-set_entry_table, entry-set_entry_index,
}

-- What mapping `virt` does to the entries.
pub record Updated (s s' : Paging) (virt e : ℕ) : Type 0 where
  pub inv : IsPaging s'
  pub presents :
      (i : ℕ)
      → i < 1024
      → is_present (entry s'.mem s'.kernel_directory i)
        ≡ (if i == page_dir_index virt then true else is_present (entry s.mem s.kernel_directory i))
  pub written : entry s'.mem (s'.pd_tables (page_dir_index virt)) (page_table_index virt) ≡ e
  pub kept :
      (j i : ℕ)
      → j < 1024
      → i < 1024
      → Present s j
      → (j ≢ page_dir_index virt) ⊎ (i ≢ page_table_index virt)
      → entry s'.mem (s'.pd_tables j) i ≡ entry s.mem (s.pd_tables j) i
  pub cleared :
      is_present (entry s.mem s.kernel_directory (page_dir_index virt)) ≡ false
      → (i : ℕ) → i < 1024
      → i ≢ page_table_index virt
      → entry s'.mem (s'.pd_tables (page_dir_index virt)) i ≡ 0

-- The directory has a table for `virt`, and the entries are as before or zero.
pub record Prepared (s s' : Paging) (virt : ℕ) : Type 0 where
  pub inv : IsPaging s'
  pub presents :
      (i : ℕ)
      → i < 1024
      → is_present (entry s'.mem s'.kernel_directory i)
        ≡ (if i == page_dir_index virt then true else is_present (entry s.mem s.kernel_directory i))
  pub kept :
      (j i : ℕ)
      → j < 1024
      → i < 1024
      → Present s j
      → entry s'.mem (s'.pd_tables j) i ≡ entry s.mem (s.pd_tables j) i
  pub cleared :
      is_present (entry s.mem s.kernel_directory (page_dir_index virt)) ≡ false
      → (i : ℕ) → i < 1024
      → entry s'.mem (s'.pd_tables (page_dir_index virt)) i ≡ 0

-- The invariant reads the present bits of the directory only.
IsPaging-mem :
    {s : Paging}
    → IsPaging s
    → (m : Mem)
    → ((i : ℕ)
        → i < 1024
        → is_present (entry m s.kernel_directory i) ≡ is_present (entry s.mem s.kernel_directory i))
    → IsPaging (record s { mem = m })
IsPaging-mem inv m same = record {
  valid = inv.valid;
  dir = inv.dir;
  tables = λ i lt h. inv.tables i lt (sym (same i lt) ∙ h);
  off_dir = λ i lt h. inv.off_dir i lt (sym (same i lt) ∙ h);
  apart =
      λ i j li lj ne hi hj. inv.apart i j li lj ne (sym (same i li) ∙ hi) (sym (same j lj) ∙ hj);
}

if_present : (b x : Bool) → (b ≡ true → x ≡ true) → x ≡ (if b then true else x)
if_present true x h = h refl
if_present false x h = refl

module _ {s : Paging} (inv : IsPaging s) (virt e : ℕ) (h : Present s (page_dir_index virt)) where
  here_presents :
      (i : ℕ)
      → is_present (entry s.mem s.kernel_directory i)
        ≡ (if i == page_dir_index virt then true else is_present (entry s.mem s.kernel_directory i))
  here_presents i =
      if_present (i == page_dir_index virt) (is_present (entry s.mem s.kernel_directory i)) (λ q.
        ap (λ k. is_present (entry s.mem s.kernel_directory k))
          ((==_iff i (page_dir_index virt)).0 q)
        ∙ h)

  -- Writing an entry of the table of `virt`.
  pub set_entry-Updated :
      Updated s
        (record s {
          mem = set_entry s.mem (s.pd_tables (page_dir_index virt)) (page_table_index virt) e;
        })
        virt
        e
  set_entry-Updated =
      let d = page_dir_index virt in
      let t = page_table_index virt in
      let table = inv.tables d (omega arith) h in
      let in_dir : (i : ℕ)
          → i < 1024
          → entry (set_entry s.mem (s.pd_tables d) t e) s.kernel_directory i
            ≡ entry s.mem s.kernel_directory i =
        λ i lt.
          entry-set_entry_table s.mem s.kernel_directory (s.pd_tables d) i t e inv.dir.aligned
            table.aligned lt (omega arith) (λ q. inv.off_dir d (omega arith) h (sym q)) in
      record {
        inv =
            IsPaging-mem inv (set_entry s.mem (s.pd_tables d) t e)
              (λ i lt. ap is_present (in_dir i lt));
        presents = λ i lt. ap is_present (in_dir i lt) ∙ here_presents i;
        written =
            entry-set_entry_same s.mem (s.pd_tables d) (s.pd_tables d) t t e table.aligned
              table.aligned (omega arith) (omega arith) refl refl;
        kept = λ j i lj li hj ne. elim ne [
          | inl other ↦
              entry-set_entry_table s.mem (s.pd_tables j) (s.pd_tables d) i t e
                (inv.tables j lj hj).aligned table.aligned li (omega arith)
                (inv.apart j d lj (omega arith) other hj h)
          | inr other ↦
              entry-set_entry_index s.mem (s.pd_tables j) (s.pd_tables d) i t e
                (inv.tables j lj hj).aligned table.aligned li (omega arith) other
        ];
        cleared = λ absent i lt ne. absurd cc (absent, h);
      }

  -- Nothing to prepare.
  pub self-Prepared : Prepared s s virt
  self-Prepared = record {
    inv = inv;
    presents = λ i lt. here_presents i;
    kept = λ j i lj li hj. refl;
    cleared = λ absent i lt. absurd cc (absent, h);
  }

  -- Setting PAGE_USER in the entry of the directory.
  pub set_user-Prepared :
      Prepared s
        (record s {
          mem =
              set_entry s.mem s.kernel_directory
                (page_dir_index virt)
                (bit_or (entry s.mem s.kernel_directory (page_dir_index virt)) page_user);
        })
        virt
  set_user-Prepared =
      let d = page_dir_index virt in
      let dir = s.kernel_directory in
      let v = bit_or (entry s.mem dir d) page_user in
      let same : (i : ℕ)
          → i < 1024
          → is_present (entry (set_entry s.mem dir d v) dir i) ≡ is_present (entry s.mem dir i) =
        λ i lt. elim (Bool-cases (i == d)) [
          | inl q ↦
              let at : i ≡ d = (==_iff i d).0 q in
              ap is_present (
                entry-set_entry_same s.mem dir dir i d v inv.dir.aligned inv.dir.aligned lt
                  (omega arith) refl at)
              ∙ is_present-user (entry s.mem dir d)
              ∙ ap (λ k. is_present (entry s.mem dir k)) (sym at)
          | inr q ↦ ap is_present (
              entry-set_entry_index s.mem dir dir i d v inv.dir.aligned inv.dir.aligned lt
                (omega arith) (==_ne i d q))
        ] in
      record {
        inv = IsPaging-mem inv (set_entry s.mem dir d v) same;
        presents = λ i lt. same i lt ∙ here_presents i;
        kept = λ j i lj li hj.
            entry-set_entry_table s.mem (s.pd_tables j) dir i d v (inv.tables j lj hj).aligned
              inv.dir.aligned li (omega arith) (inv.off_dir j lj hj);
        cleared = λ absent i lt. absurd cc (absent, h);
      }

-- A prepared directory, and then the entry.
pub Updated-Prepared :
    {s m s' : Paging} (virt e : ℕ) → Prepared s m virt → Updated m s' virt e → Updated s s' virt e
Updated-Prepared {s} {m} {s'} virt e p u = record {
  inv = u.inv;
  presents = λ i lt. u.presents i lt ∙ twice (i == page_dir_index virt) _ _ (p.presents i lt);
  written = u.written;
  kept = λ j i lj li hj ne.
      u.kept j i lj li
        (p.presents j lj ∙ sym (if_present (j == page_dir_index virt) _ (λ q. hj)) ∙ hj) ne
      ∙ p.kept j i lj li hj;
  cleared = λ absent i lt ne.
      u.kept (page_dir_index virt) i (omega arith) lt
        (p.presents (page_dir_index virt) (omega arith)
          ∙ if_true (page_dir_index virt == page_dir_index virt) _ _ ((==_iff _ _).1 refl))
        (inr ne)
      ∙ p.cleared absent i lt;
}
  where
    twice :
        (b x y : Bool)
        → x ≡ (if b then true else y)
        → (if b then true else x) ≡ (if b then true else y)
    twice true x y q = refl
    twice false x y q = q
