-- ===== src/Paging/Process.antt =====
-- kernel/mem/paging.c: the page directories of processes, and the counts that `paging_status` prints.
-- `paging_clone_directory` returns the directory, which it also stores in `*out_phys`; 0 is failure.
pub mod Release
mod Tests
use ap_pa.Base.{
  ℕ, zero, suc, ◌+◌, ◌-◌, ◌*◌, ◌/◌, Bool, true, false, not, ◌&&◌, ltb, leb, ◌==◌, if◌then◌else◌,
  bit_and, bit_or, null,
}
use ap_pa.Pmm.{Pmm, alloc_page, free_page}
use ap_pa.Paging.{
  Paging, Mem, entry, set_entry, zero_page, is_present, is_user, page_dir_index, page_table_index,
  pde_of, pte_of, page_user, page_present, page_writable, page_frame_mask, kernel_pde_count,
  pages_per_table, tables_per_dir, user_loop, paging_enable_user_access,
}

-- `memcpy` of a page.
abbrev pub copy_page : Mem → (dst src : ℕ) → Mem
copy_page mem dst src b = if leb dst b && ltb b (dst + 4096) then mem (src + (b - dst)) else mem b

-- The directory entries that are shared with the kernel.
share_loop : ℕ → (kernel dir i : ℕ) → Mem → Mem
share_loop zero kernel dir i mem = mem
share_loop (suc k) kernel dir i mem =
    share_loop k kernel dir (i + 1) (set_entry mem dir i (entry mem kernel i))

unfoldable pub paging_clone_directory : Paging → ℕ × Paging
unfolding share_loop
paging_clone_directory s =
    let (dir, p₁) = alloc_page s.pmm in
    let blank = zero_page s.mem dir in
    let (pt0, p₂) = alloc_page p₁ in
    let copied = copy_page blank pt0 (s.pd_tables 0) in
    let installed = set_entry copied dir 0 (bit_or (bit_or pt0 page_present) page_writable) in
    let shared : Mem → Mem =
      λ mem. share_loop (kernel_pde_count - 1) s.kernel_directory dir 1 mem in
    if dir == 0
    then (0, record s { pmm = p₁ })
    else if s.pd_tables 0 == null
    then (dir, record s { pmm = p₁; mem = shared blank })
    else if pt0 == 0
    then (0, record s { pmm = (free_page p₂ dir).1; mem = blank })
    else (dir, record s { pmm = p₂; mem = shared installed })

unfoldable pub paging_map_page_in : Paging → (dir virt phys flags : ℕ) → Paging
unfolding is_present is_user pde_of pte_of
paging_map_page_in s dir virt phys flags =
    let pd_idx = page_dir_index virt in
    let pde = entry s.mem dir pd_idx in
    let (pt_phys, pmm') = alloc_page s.pmm in
    let fresh = set_entry (zero_page s.mem pt_phys) dir pd_idx (pde_of pt_phys flags) in
    let shared =
      if is_user flags then set_entry s.mem dir pd_idx (bit_or pde page_user) else s.mem in
    let put : Mem → Mem = λ mem.
      let table = bit_and (entry mem dir pd_idx) page_frame_mask in
      set_entry mem table (page_table_index virt) (pte_of phys flags) in
    if is_present pde
    then record s { mem = put shared }
    else if pt_phys == 0
    then record s { pmm = pmm' }
    else record s { pmm = pmm'; mem = put fresh }

-- The pages of a table.
free_loop : ℕ → Mem → (pt j : ℕ) → Pmm → Pmm
unfolding is_present
free_loop zero mem pt j pmm = pmm
free_loop (suc k) mem pt j pmm =
    let e = entry mem pt j in
    free_loop k mem pt (j + 1)
      (if is_present e then (free_page pmm (bit_and e page_frame_mask)).1 else pmm)

-- The tables above those of the kernel.
tables_loop : ℕ → Mem → (dir i : ℕ) → Pmm → Pmm
unfolding is_present free_loop
tables_loop zero mem dir i pmm = pmm
tables_loop (suc k) mem dir i pmm =
    let pt_phys = bit_and (entry mem dir i) page_frame_mask in
    let freed = (free_page (free_loop pages_per_table mem pt_phys 0 pmm) pt_phys).1 in
    tables_loop k mem dir (i + 1) (if is_present (entry mem dir i) then freed else pmm)

unfoldable pub paging_free_directory : Paging → (dir : ℕ) → Paging
unfolding is_present tables_loop
paging_free_directory s dir =
    let first = entry s.mem dir 0 in
    let p₁ =
      if is_present first then (free_page s.pmm (bit_and first page_frame_mask)).1 else s.pmm in
    let p₂ = tables_loop (tables_per_dir - kernel_pde_count) s.mem dir kernel_pde_count p₁ in
    if dir == null then s else record s { pmm = (free_page p₂ dir).1 }

pub paging_get_kernel_cr3 : Paging → ℕ
paging_get_kernel_cr3 s = s.pd_physical_address

-- The counts of `paging_status`.
mapped_loop : ℕ → Mem → (table j total : ℕ) → ℕ
unfolding is_present
mapped_loop zero mem table j total = total
mapped_loop (suc k) mem table j total =
    mapped_loop k mem table (j + 1) (if is_present (entry mem table j) then total + 1 else total)

tally_loop : ℕ → Paging → (i present_tables total_mapped_pages : ℕ) → ℕ × ℕ
unfolding mapped_loop
tally_loop zero s i present_tables total = (present_tables, total)
tally_loop (suc k) s i present_tables total =
    let here = is_present (entry s.mem s.kernel_directory i) in
    let table = s.pd_tables i in
    let mapped = if table == null then total else mapped_loop pages_per_table s.mem table 0 total in
    tally_loop k s (i + 1) (if here then present_tables + 1 else present_tables)
      (if here then mapped else total)

-- Tables, pages, and megabytes.
pub paging_status : Paging → ℕ × ℕ × ℕ
unfolding tally_loop
paging_status s =
    let (present_tables, total) = tally_loop tables_per_dir s 0 0 0 in
    (present_tables, total, total * 4 / 1024)
