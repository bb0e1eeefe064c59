-- ===== src/Paging/Tables.antt =====
-- The invariant of the tables, and which entries a write changes.
use ap_pa.Base.{
  ℕ, ◌+◌, ◌*◌, ◌/◌, ◌%◌, ◌^◌, ◌<◌, ◌≡◌, ◌≢◌, true, ◌&&◌, leb, ltb, ==_iff, ==_false, if_true,
  if_false, Bool-cases, inl, inr, arith, ltb→lt, leb→le,
}
use ap_pa.Pmm.{Pmm, test_frame}
use ap_pa.Pmm.Count.{IsPmm}
use ap_pa.Paging.{
  Paging, Mem, entry, set_entry, zero_page, is_present, page_dir_index, page_table_index,
}

-- A page of the memory that the page allocator has given out.
pub record IsTable (p : Pmm) (a : ℕ) : Type 0 where
  pub aligned : a % 4096 ≡ 0
  pub low : a < 2 ^ 24
  pub nonzero : a ≢ 0
  pub taken : test_frame p (a / 4096) ≡ true

-- The directory has a table in place `i`.
abbrev pub Present : Paging → ℕ → Type 0
Present s i = is_present (entry s.mem s.kernel_directory i) ≡ true

pub record IsPaging (s : Paging) : Type 0 where
  pub valid : IsPmm s.pmm
  pub dir : IsTable s.pmm s.kernel_directory
  pub tables : (i : ℕ) → i < 1024 → Present s i → IsTable s.pmm (s.pd_tables i)
  pub off_dir : (i : ℕ) → i < 1024 → Present s i → s.pd_tables i ≢ s.kernel_directory
  pub apart :
      (i j : ℕ)
      → i < 1024
      → j < 1024
      → i ≢ j
      → Present s i
      → Present s j
      → s.pd_tables i ≢ s.pd_tables j

-- What is read of a table after a write to one.
module _ (mem : Mem) (t u i j v : ℕ) (ti : t % 4096 ≡ 0) (uj : u % 4096 ≡ 0) (li : i < 1024)
    (lj : j < 1024) where
  pub entry-set_entry_same : t ≡ u → i ≡ j → entry (set_entry mem u j v) t i ≡ v
  entry-set_entry_same e f = if_true _ _ _ ((==_iff (t + 4 * i) (u + 4 * j)).1 (omega arith))

  pub entry-set_entry_table : t ≢ u → entry (set_entry mem u j v) t i ≡ entry mem t i
  entry-set_entry_table ne =
      if_false _ _ _ (==_false (t + 4 * i) (u + 4 * j) (λ e. ne (omega arith)))

  pub entry-set_entry_index : i ≢ j → entry (set_entry mem u j v) t i ≡ entry mem t i
  entry-set_entry_index ne =
      if_false _ _ _ (==_false (t + 4 * i) (u + 4 * j) (λ e. ne (omega arith)))

module _ (mem : Mem) (t u i : ℕ) (ti : t % 4096 ≡ 0) (uj : u % 4096 ≡ 0) (li : i < 1024) where
  pub entry-zero_page_same : t ≡ u → entry (zero_page mem u) t i ≡ 0
  entry-zero_page_same e =
      let x = t + 4 * i in
      let within : (leb u x && ltb x (u + 4096)) ≡ true = ground arith in
      if_true (leb u x && ltb x (u + 4096)) _ _ within

  pub entry-zero_page_other : t ≢ u → entry (zero_page mem u) t i ≡ entry mem t i
  entry-zero_page_other ne =
      let x = t + 4 * i in
      if_false (leb u x && ltb x (u + 4096)) _ _ (elim (Bool-cases (leb u x && ltb x (u + 4096))) [
        | inl e ↦
            let above : leb u x ≡ true = ground arith in
            let below : ltb x (u + 4096) ≡ true = ground arith in
            absurd (ne (omega (arith, leb→le u x above, ltb→lt x (u + 4096) below)))
        | inr e ↦ e
      ])

-- Two addresses of one page, by their indices.
pub same_page :
    (v w : ℕ)
    → v < 2 ^ 32
    → w < 2 ^ 32
    → page_dir_index v ≡ page_dir_index w
    → page_table_index v ≡ page_table_index w
    → v / 4096 ≡ w / 4096
same_page v w lv lw d t = omega arith
