-- ===== src/Paging/Process/Release.antt =====
-- Freeing a directory keeps the allocator sound, whatever the tables hold, and only frees frames.
use ap_pa.Base.{
  ◌/◌, ◌%◌, ◌<◌, ◌≢◌, ◌∙◌, arith, ap, if_false, if_true, ==_iff, ==_false, ℕ, zero, suc, ◌+◌, ◌≡◌,
  inl, inr, Bool, true, false, bit_and, Bool-cases, if◌then◌else◌, ◌==◌, null, not, refl,
}
use ap_pa.Pmm.{Pmm, free_page, test_frame, Report}
use ap_pa.Pmm.Count.{IsPmm}
use ap_pa.Pmm.Alloc.{PageFree, misaligned, beyond, already, releases, free_page-PageFree}
use ap_pa.Paging.{
  Paging, Mem, entry, is_present, page_frame_mask, pages_per_table, paging_unmap_page,
  page_dir_index,
}
use ap_pa.Paging.Process.{free_loop, tables_loop, paging_free_directory}

pub free_page-IsPmm : {p : Pmm} → IsPmm p → (addr : ℕ) → IsPmm (free_page p addr).1
free_page-IsPmm {p} v addr =
    go (free_page p addr).0 (free_page p addr).1 (free_page-PageFree v addr)
  where
    go : (r : Report) (p' : Pmm) → PageFree p addr r p' → IsPmm p'
    go _ _ (misaligned _) = v
    go _ _ (beyond _) = v
    go _ _ (already _ _ _) = v
    go _ _ (releases _ _ _ ok _ _) = ok

free_loop-IsPmm :
    (k : ℕ) (mem : Mem) (pt j : ℕ) (p : Pmm) → IsPmm p → IsPmm (free_loop k mem pt j p)
unfolding free_loop
free_loop-IsPmm zero mem pt j p v = v
free_loop-IsPmm (suc k) mem pt j p v = elim (Bool-cases (is_present (entry mem pt j))) [
  | inl e ↦ rw e (
      free_loop-IsPmm k mem pt (j + 1) (free_page p (bit_and (entry mem pt j) page_frame_mask)).1
        (free_page-IsPmm v (bit_and (entry mem pt j) page_frame_mask)))
  | inr e ↦ rw e (free_loop-IsPmm k mem pt (j + 1) p v)
]

tables_loop-IsPmm :
    (k : ℕ) (mem : Mem) (dir i : ℕ) (p : Pmm) → IsPmm p → IsPmm (tables_loop k mem dir i p)
unfolding tables_loop
tables_loop-IsPmm zero mem dir i p v = v
tables_loop-IsPmm (suc k) mem dir i p v =
    let pt = bit_and (entry mem dir i) page_frame_mask in
    let freed = free_page-IsPmm (free_loop-IsPmm pages_per_table mem pt 0 p v) pt in
    elim (Bool-cases (is_present (entry mem dir i))) [
      | inl e ↦ rw e (tables_loop-IsPmm k mem dir (i + 1) _ freed)
      | inr e ↦ rw e (tables_loop-IsPmm k mem dir (i + 1) p v)
    ]

if-IsPmm : (b : Bool) (p q : Pmm) → IsPmm p → IsPmm q → IsPmm (if b then p else q)
if-IsPmm true p q v w = v
if-IsPmm false p q v w = w

pub if-IsPmm_paging :
    (b : Bool) (p q : Paging) → IsPmm p.pmm → IsPmm q.pmm → IsPmm (if b then p else q).pmm
if-IsPmm_paging true p q v w = v
if-IsPmm_paging false p q v w = w

pub paging_free_directory-IsPmm :
    (s : Paging) (dir : ℕ) → IsPmm s.pmm → IsPmm (paging_free_directory s dir).pmm
unfolding paging_free_directory
paging_free_directory-IsPmm s dir v =
    let first = entry s.mem dir 0 in
    let p : Pmm =
      if is_present first then (free_page s.pmm (bit_and first page_frame_mask)).1 else s.pmm in
    let tables =
      tables_loop-IsPmm 1020 s.mem dir 4 p
        (if-IsPmm (is_present first) _ _ (free_page-IsPmm v (bit_and first page_frame_mask)) v) in
    if-IsPmm_paging (dir == null) s _ v (free_page-IsPmm tables dir)

pub paging_unmap_page-pmm : (s : Paging) (virt : ℕ) → (paging_unmap_page s virt).pmm ≡ s.pmm
unfolding paging_unmap_page
paging_unmap_page-pmm s virt =
    elim (Bool-cases (not (is_present (entry s.mem s.kernel_directory (page_dir_index virt))))) [
      | inl e ↦ rw e refl
      | inr e ↦ elim (Bool-cases (s.pd_tables (page_dir_index virt) == null)) [
        | inl h ↦ rw (e, h) refl
        | inr h ↦ rw (e, h) refl
      ]
    ]

-- Frames that are free stay free.
abbrev pub StaysFree : Pmm → Pmm → Type 0
StaysFree p p' = (g : ℕ) → test_frame p g ≡ false → test_frame p' g ≡ false

pub StaysFree-trans : (p q r : Pmm) → StaysFree p q → StaysFree q r → StaysFree p r
StaysFree-trans p q r h i g free = i g (h g free)

pub free_page-StaysFree : {p : Pmm} → IsPmm p → (addr : ℕ) → StaysFree p (free_page p addr).1
free_page-StaysFree {p} v addr =
    go (free_page p addr).0 (free_page p addr).1 (free_page-PageFree v addr)
  where
    go : (r : Report) (p' : Pmm) → PageFree p addr r p' → StaysFree p p'
    go _ _ (misaligned _) = λ g free. free
    go _ _ (beyond _) = λ g free. free
    go _ _ (already _ _ _) = λ g free. free
    go _ p' (releases _ _ _ _ marks _) = λ g free. ground (arith, marks g)

-- A page that is given back is free afterwards.
pub free_page-free :
    {p : Pmm}
    → IsPmm p
    → (addr : ℕ) → addr % 4096 ≡ 0
    → addr / 4096 < 4096
    → test_frame (free_page p addr).1 (addr / 4096) ≡ false
free_page-free {p} v addr aligned inside =
    go (free_page p addr).0 (free_page p addr).1 (free_page-PageFree v addr)
  where
    go : (r : Report) (p' : Pmm) → PageFree p addr r p' → test_frame p' (addr / 4096) ≡ false
    go _ _ (misaligned odd) = absurd (odd aligned)
    go _ _ (beyond past) = absurd (omega arith)
    go _ _ (already _ _ free) = free
    go _ p' (releases _ _ _ _ marks _) =
        marks (addr / 4096)
        ∙ if_true (addr / 4096 == addr / 4096) _ _ ((==_iff (addr / 4096) (addr / 4096)).1 refl)

free_loop-StaysFree :
    (k : ℕ) (mem : Mem) (pt j : ℕ) (p : Pmm) → IsPmm p → StaysFree p (free_loop k mem pt j p)
unfolding free_loop
free_loop-StaysFree zero mem pt j p v = λ g free. free
free_loop-StaysFree (suc k) mem pt j p v =
    let page = bit_and (entry mem pt j) page_frame_mask in
    elim (Bool-cases (is_present (entry mem pt j))) [
      | inl e ↦ rw e (
          StaysFree-trans _ _ _ (free_page-StaysFree v page)
            (free_loop-StaysFree k mem pt (j + 1) (free_page p page).1 (free_page-IsPmm v page)))
      | inr e ↦ rw e (free_loop-StaysFree k mem pt (j + 1) p v)
    ]

tables_loop-StaysFree :
    (k : ℕ) (mem : Mem) (dir i : ℕ) (p : Pmm) → IsPmm p → StaysFree p (tables_loop k mem dir i p)
unfolding tables_loop
tables_loop-StaysFree zero mem dir i p v = λ g free. free
tables_loop-StaysFree (suc k) mem dir i p v =
    let pt = bit_and (entry mem dir i) page_frame_mask in
    let emptied = free_loop-IsPmm pages_per_table mem pt 0 p v in
    elim (Bool-cases (is_present (entry mem dir i))) [
      | inl e ↦ rw e (
          StaysFree-trans _ _ _ (free_loop-StaysFree pages_per_table mem pt 0 p v) (
            StaysFree-trans _ _ _ (free_page-StaysFree emptied pt)
              (tables_loop-StaysFree k mem dir (i + 1) _ (free_page-IsPmm emptied pt))))
      | inr e ↦ rw e (tables_loop-StaysFree k mem dir (i + 1) p v)
    ]

if-StaysFree :
    (b : Bool) (p q r : Pmm) → StaysFree p q → StaysFree p r → StaysFree p (if b then q else r)
if-StaysFree true p q r h i = h
if-StaysFree false p q r h i = i

pub if-StaysFree_paging :
    (b : Bool) (p : Pmm) (q r : Paging)
    → StaysFree p q.pmm
    → StaysFree p r.pmm
    → StaysFree p (if b then q else r).pmm
if-StaysFree_paging true p q r h i = h
if-StaysFree_paging false p q r h i = i

-- The allocator when `paging_free_directory` comes to the directory itself.
module _ (s : Paging) (dir : ℕ) (v : IsPmm s.pmm) where
  emptied_first : Pmm
  emptied_first =
      if is_present (entry s.mem dir 0)
      then (free_page s.pmm (bit_and (entry s.mem dir 0) page_frame_mask)).1
      else s.pmm

  emptied_first-IsPmm : IsPmm emptied_first
  unfolding emptied_first
  emptied_first-IsPmm =
      if-IsPmm (is_present (entry s.mem dir 0)) _ _
        (free_page-IsPmm v (bit_and (entry s.mem dir 0) page_frame_mask)) v

  pub paging_free_directory-StaysFree : StaysFree s.pmm (paging_free_directory s dir).pmm
  unfolding paging_free_directory emptied_first
  paging_free_directory-StaysFree =
      let page = bit_and (entry s.mem dir 0) page_frame_mask in
      let first =
        if-StaysFree (is_present (entry s.mem dir 0)) s.pmm _ _ (free_page-StaysFree v page)
          (λ g free. free) in
      let tables = tables_loop-IsPmm 1020 s.mem dir 4 emptied_first emptied_first-IsPmm in
      let all = StaysFree-trans s.pmm emptied_first _ first (
        StaysFree-trans emptied_first _ _
          (tables_loop-StaysFree 1020 s.mem dir 4 emptied_first emptied_first-IsPmm)
          (free_page-StaysFree tables dir)) in
      if-StaysFree_paging (dir == null) s.pmm s _ (λ g free. free) all

  pub paging_free_directory-free :
      dir ≢ null
      → dir % 4096 ≡ 0
      → dir / 4096 < 4096
      → test_frame (paging_free_directory s dir).pmm (dir / 4096) ≡ false
  unfolding paging_free_directory emptied_first
  paging_free_directory-free ne aligned inside =
      let tables = tables_loop-IsPmm 1020 s.mem dir 4 emptied_first emptied_first-IsPmm in
      ap {A = Paging} (λ p. test_frame p.pmm (dir / 4096))
        (if_false (dir == null) s _ (==_false dir null ne))
      ∙ free_page-free tables dir aligned inside
