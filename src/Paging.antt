-- ===== src/Paging.antt =====
-- kernel/mem/paging.c: two-level page tables. Physical memory is mapped one to one, so a pointer is a
-- physical address: `mem` gives the 32-bit word at an address, and entry `i` of the table at address
-- `a` is the word at `a + 4 * i`. `pd_tables` is the array of that name. Loads of CR0 and CR3 are
-- kept as the values loaded; flushes of the TLB, the fault handler and printing are left out.
pub mod Entry
pub mod Tables
pub mod Update
pub mod Fresh
pub mod Map
pub mod Change
pub mod Process
mod Tests
use ap_pa.Base.{
  ℕ, zero, suc, ◌+◌, ◌-◌, ◌*◌, ◌/◌, ◌%◌, ◌^◌, Bool, true, false, not, ◌||◌, ◌&&◌, ltb, leb, ◌==◌,
  if◌then◌else◌, bit_and, bit_or, null, add32,
}
use ap_pa.Pmm.{Pmm, alloc_page, free_page}

abbrev pub pages_per_table : ℕ
pages_per_table = 1024

abbrev pub tables_per_dir : ℕ
tables_per_dir = 1024

abbrev pub page_present : ℕ
page_present = 1

abbrev pub page_writable : ℕ
page_writable = 2

abbrev pub page_user : ℕ
page_user = 4

abbrev pub page_frame_mask : ℕ
page_frame_mask = 0xFFFFF000

abbrev pub kernel_pde_count : ℕ
kernel_pde_count = 4

abbrev pub page_dir_index : ℕ → ℕ
page_dir_index va = va / 2 ^ 22 % 1024

abbrev pub page_table_index : ℕ → ℕ
page_table_index va = va / 2 ^ 12 % 1024

abbrev pub Mem : Type 0
Mem = ℕ → ℕ

pub record Paging : Type 0 where
  pub pmm : Pmm
  pub mem : Mem
  pub kernel_directory : ℕ
  pub pd_tables : ℕ → ℕ
  pub pd_physical_address : ℕ
  pub cr3 : ℕ
  -- CR0.PG
  pub paging_on : Bool

abbrev pub entry : Mem → (table i : ℕ) → ℕ
entry mem table i = mem (table + 4 * i)

abbrev pub set_word : Mem → (a v : ℕ) → Mem
set_word mem a v b = if b == a then v else mem b

abbrev pub set_entry : Mem → (table i v : ℕ) → Mem
set_entry mem table i v = set_word mem (table + 4 * i) v

-- `memset` of a page with 0.
abbrev pub zero_page : Mem → ℕ → Mem
zero_page mem page b = if leb page b && ltb b (page + 4096) then 0 else mem b

abbrev pub set_table : (ℕ → ℕ) → (i table : ℕ) → ℕ → ℕ
set_table tables i table j = if j == i then table else tables j

-- `x & PAGE_PRESENT`, as a test.
pub is_present : ℕ → Bool
is_present e = not (bit_and e page_present == 0)

pub is_user : ℕ → Bool
is_user flags = not (bit_and flags page_user == 0)

-- The entries that are stored.
pub pde_of : (pt_phys flags : ℕ) → ℕ
pde_of pt_phys flags =
    bit_or (bit_or (bit_or pt_phys page_present) page_writable) (bit_and flags page_user)

pub pte_of : (phys flags : ℕ) → ℕ
pte_of phys flags =
    bit_or (bit_or (bit_and phys page_frame_mask) (bit_and flags 0xFFF)) page_present

-- Without memory for a table nothing is mapped.
pub paging_map_page : Paging → (virt phys flags : ℕ) → Paging
unfolding is_present is_user pde_of pte_of
paging_map_page s virt phys flags =
    let pd_idx = page_dir_index virt in
    let pt_idx = page_table_index virt in
    let dir = s.kernel_directory in
    let pde = entry s.mem dir pd_idx in
    let (pt_phys, pmm') = alloc_page s.pmm in
    let fresh =
      set_entry (set_entry (zero_page s.mem pt_phys) dir pd_idx (pde_of pt_phys flags)) pt_phys
        pt_idx (pte_of phys flags) in
    let shared =
      if is_user flags then set_entry s.mem dir pd_idx (bit_or pde page_user) else s.mem in
    if is_present pde
    then record s { mem = set_entry shared (s.pd_tables pd_idx) pt_idx (pte_of phys flags) }
    else if pt_phys == 0
    then record s { pmm = pmm' }
    else record s { pmm = pmm'; mem = fresh; pd_tables = set_table s.pd_tables pd_idx pt_phys }

pub paging_map_user : Paging → (virt phys : ℕ) → (rw_flag : Bool) → Paging
unfolding paging_map_page
paging_map_user s virt phys rw_flag =
    let flags = bit_or page_present page_user in
    paging_map_page s virt phys (if rw_flag then bit_or flags page_writable else flags)

unfoldable pub paging_unmap_page : Paging → (virt : ℕ) → Paging
unfolding is_present
paging_unmap_page s virt =
    let pd_idx = page_dir_index virt in
    let table = s.pd_tables pd_idx in
    if not (is_present (entry s.mem s.kernel_directory pd_idx))
    then s
    else if table == null
    then s
    else record s { mem = set_entry s.mem table (page_table_index virt) 0 }

pub paging_translate : Paging → (virt : ℕ) → ℕ
unfolding is_present
paging_translate s virt =
    let pd_idx = page_dir_index virt in
    let table = s.pd_tables pd_idx in
    let pte = entry s.mem table (page_table_index virt) in
    if not (is_present (entry s.mem s.kernel_directory pd_idx))
    then 0
    else if table == null
    then 0
    else if not (is_present pte)
    then 0
    else bit_or (bit_and pte page_frame_mask) (bit_and virt 0xFFF)

-- The loops over the entries of a table.
user_loop : ℕ → (pt j : ℕ) → Mem → Mem
unfolding is_present
user_loop zero pt j mem = mem
user_loop (suc k) pt j mem =
    let e = entry mem pt j in
    user_loop k pt (j + 1) (if is_present e then set_entry mem pt j (bit_or e page_user) else mem)

-- The four tables of the identity mapping.
access_loop : ℕ → Paging → (i : ℕ) → Mem → Mem
unfolding user_loop
access_loop zero s i mem = mem
access_loop (suc k) s i mem =
    let pde = entry mem s.kernel_directory i in
    let mem' = set_entry mem s.kernel_directory i (bit_or pde page_user) in
    let opened =
      if s.pd_tables i == null then mem' else user_loop pages_per_table (s.pd_tables i) 0 mem' in
    access_loop k s (i + 1) (if is_present pde then opened else mem)

pub paging_enable_user_access : Paging → Paging
unfolding access_loop
paging_enable_user_access s = record s { mem = access_loop 4 s 0 s.mem }

identity_loop : ℕ → (pt chunk_base j : ℕ) → Mem → Mem
identity_loop zero pt chunk_base j mem = mem
identity_loop (suc k) pt chunk_base j mem =
    let phys_addr = chunk_base + j * 0x1000 in
    identity_loop k pt chunk_base (j + 1)
      (set_entry mem pt j (bit_or (bit_or phys_addr page_present) page_writable))

-- The loop over the 4 MB chunks; the state when memory runs out, and whether it did not.
chunk_loop : ℕ → Paging → (i : ℕ) → Paging × Bool
unfolding identity_loop
chunk_loop zero s i = (s, true)
chunk_loop (suc k) s i =
    let (pt_phys, pmm') = alloc_page s.pmm in
    let filled = identity_loop pages_per_table pt_phys (i * 0x400000) 0 s.mem in
    let rest =
      chunk_loop k
        (record s {
          pmm = pmm';
          mem =
              set_entry filled s.kernel_directory i
                (bit_or (bit_or pt_phys page_present) page_writable);
          pd_tables = set_table s.pd_tables i pt_phys;
        })
        (i + 1) in
    if pt_phys == 0 then (record s { pmm = pmm' }, false) else rest

pub paging_init : Paging → Paging
unfolding chunk_loop
paging_init s =
    let (pd_phys, pmm') = alloc_page s.pmm in
    let started = record s {
      pmm = pmm';
      mem = zero_page s.mem pd_phys;
      kernel_directory = pd_phys;
      pd_tables = λ i. 0;
      pd_physical_address = pd_phys;
    } in
    let (mapped, complete) = chunk_loop 4 started 0 in
    if pd_phys == 0
    then record s { pmm = pmm' }
    else if complete
    then record mapped { cr3 = pd_phys; paging_on = true }
    else mapped
