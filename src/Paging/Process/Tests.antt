-- ===== src/Paging/Process/Tests.antt =====
-- Directories of processes at concrete states.
use ap_pa.Base.{ℕ, ◌+◌, ◌*◌, ◌≡◌, refl, false}
use ap_pa.Pmm.{pmm_init, alloc_page, free_page, test_frame}
use ap_pa.Paging.{Paging}
use ap_pa.Paging.Process.{
  paging_clone_directory, paging_map_page_in, paging_free_directory, paging_get_kernel_cr3,
  free_loop, mapped_loop, tally_loop, paging_status,
}

abbrev dir : ℕ
dir = 513 * 4096

abbrev bare : Paging
bare = record {
  pmm = (alloc_page pmm_init).1;
  mem = λ a. 0;
  kernel_directory = dir;
  pd_tables = λ i. 0;
  pd_physical_address = dir;
  cr3 = 0;
  paging_on = false;
}

-- A directory of a process.
cloned : (paging_clone_directory bare).0 ≡ 514 * 4096
unfolding paging_clone_directory alloc_page pmm_init
cloned = refl

mapped_in : (paging_map_page_in bare dir 0x40001000 0x5000 6).mem (514 * 4096 + 4) ≡ 0x5007
unfolding paging_map_page_in alloc_page pmm_init
mapped_in = refl

counted : mapped_loop 3 (λ a. a + 1) 0 0 0 ≡ 3
unfolding mapped_loop
counted = refl

tallied : tally_loop 4 bare 0 0 0 ≡ (0, 0)
unfolding tally_loop
tallied = refl

released : free_loop 3 (λ a. 0) 0 0 pmm_init ≡ pmm_init
unfolding free_loop
released = refl

freed_dir : test_frame (paging_free_directory bare dir).pmm 513 ≡ false
unfolding paging_free_directory test_frame alloc_page free_page pmm_init
freed_dir = refl

no_cr3 : paging_get_kernel_cr3 bare ≡ dir
unfolding paging_get_kernel_cr3
no_cr3 = refl

no_tables : paging_status bare ≡ (0, 0, 0)
unfolding paging_status
no_tables = refl
