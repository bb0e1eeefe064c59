-- ===== src/Paging/Tests.antt =====
-- The page tables at concrete states, and the theorems there.
use ap_pa.Base.{ℕ, ◌+◌, ◌*◌, ◌≡◌, refl, true, false, arith}
use ap_pa.Pmm.{pmm_init, alloc_page, test_frame}
use ap_pa.Pmm.Count.{IsPmm}
use ap_pa.Pmm.Alloc.{alloc_page-PageAlloc, exhausted, page}
use ap_pa.Pmm.Init.{pmm_init-IsPmm}
use ap_pa.Paging.{
  Paging, is_present, paging_map_page, paging_map_user, paging_unmap_page, paging_translate,
  paging_enable_user_access, user_loop, identity_loop, chunk_loop, paging_init,
}
use ap_pa.Paging.Tables.{Present, IsPaging}
use ap_pa.Paging.Change.{MapPage, paging_map_page-MapPage, Unmapped, paging_unmap_page-Unmapped}

abbrev pub dir : ℕ
dir = 513 * 4096

-- A directory without tables, in the first free page at boot.
abbrev pub bare : Paging
bare = record {
  pmm = (alloc_page pmm_init).1;
  mem = λ a. 0;
  kernel_directory = dir;
  pd_tables = λ i. 0;
  pd_physical_address = dir;
  cr3 = 0;
  paging_on = false;
}

valid : IsPmm (alloc_page pmm_init).1
valid = elim (alloc_page-PageAlloc pmm_init-IsPmm.0) [
  | exhausted _ same _ ↦ rw same pmm_init-IsPmm.0
  | page f _ _ k ↦ k.valid
]

no_table : (i : ℕ) → Present bare i → ⊥
unfolding is_present
no_table i h = absurd cc h

in_use : test_frame (alloc_page pmm_init).1 513 ≡ true
unfolding test_frame alloc_page pmm_init
in_use = refl

bare-IsPaging : IsPaging bare
bare-IsPaging = record {
  valid = valid;
  dir = record { aligned = refl; low = omega arith; nonzero = omega arith; taken = in_use };
  tables = λ i lt h. absurd (no_table i h);
  off_dir = λ i lt h. absurd (no_table i h);
  apart = λ i j li lj ne h _. absurd (no_table i h);
}

-- Mapping a page, and reading it through the tables.
mapped_user : paging_translate (paging_map_user bare 0x40001000 0x5000 true) 0x40001234 ≡ 0x5234
unfolding paging_translate paging_map_user alloc_page pmm_init
mapped_user = refl

twice_mapped :
    paging_translate
      (paging_map_user (paging_map_page bare 0x40001000 0x5000 2) 0x40002000 0x7000 true)
      0x40002001
    ≡ 0x7001
unfolding paging_translate paging_map_user paging_map_page alloc_page pmm_init
twice_mapped = refl

unmapped :
    paging_translate
      (paging_unmap_page (paging_map_page bare 0x40001000 0x5000 2) 0x40001000)
      0x40001234
    ≡ 0
unfolding paging_translate paging_map_page paging_unmap_page alloc_page pmm_init
unmapped = refl

opened : user_loop 3 0 0 (λ a. a + 1) 4 ≡ 5
unfolding user_loop
opened = refl

access_bare : (paging_enable_user_access bare).mem 0 ≡ 0
unfolding paging_enable_user_access
access_bare = refl

identity : identity_loop 3 0x1000 0x400000 0 (λ a. 0) 0x1008 ≡ 0x402003
unfolding identity_loop
identity = refl

started : (chunk_loop 2 bare 0).0.pd_tables 1 ≡ 515 * 4096
unfolding chunk_loop alloc_page pmm_init
started = refl

directory_at_boot : (paging_init (record bare { pmm = pmm_init })).kernel_directory ≡ dir
unfolding paging_init alloc_page pmm_init
directory_at_boot = refl

paging_map_page-MapPage_example :
    MapPage bare 0x40001000 0x5000 (paging_map_page bare 0x40001000 0x5000 6)
paging_map_page-MapPage_example =
    paging_map_page-MapPage bare-IsPaging 0x40001000 0x5000 6 (omega arith) (omega arith)

paging_unmap_page-Unmapped_example : Unmapped bare (paging_unmap_page bare 0x40001000) 0x40001000
paging_unmap_page-Unmapped_example =
    paging_unmap_page-Unmapped bare-IsPaging 0x40001000 (omega arith)
