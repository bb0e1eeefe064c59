-- ===== src/Pmm/Tests.antt =====
-- The page allocator at boot, and the theorems at that state.
use ap_pa.Base.{◌-◌, ◌*◌, ◌≡◌, refl, arith, some}
use ap_pa.Pmm.{pmm_init, alloc_page, alloc_pages, free_page, bit_loop, get_free_memory}
use ap_pa.Pmm.Count.{IsPmm}
use ap_pa.Pmm.Alloc.{
  PageAlloc, alloc_page-PageAlloc, PagesAlloc, alloc_pages-PagesAlloc, PageFree, free_page-PageFree,
}
use ap_pa.Pmm.Init.{pmm_init-IsPmm}

boot : IsPmm pmm_init
boot = pmm_init-IsPmm.0

first_zero : bit_loop 32 0b10111 0 ≡ some 3
unfolding bit_loop
first_zero = refl

first_page : (alloc_page pmm_init).0 ≡ 513 * 4096
unfolding alloc_page pmm_init
first_page = refl

run_of_pages : (alloc_pages pmm_init 64).0 ≡ 513 * 4096
unfolding alloc_pages pmm_init
run_of_pages = refl

free_memory_at_boot : get_free_memory pmm_init ≡ (4096 - 769) * 4096
unfolding get_free_memory pmm_init
free_memory_at_boot = refl

alloc_page-PageAlloc_example : PageAlloc pmm_init (alloc_page pmm_init).0 (alloc_page pmm_init).1
alloc_page-PageAlloc_example = alloc_page-PageAlloc boot

alloc_pages-PagesAlloc_example :
    PagesAlloc pmm_init 64 (alloc_pages pmm_init 64).0 (alloc_pages pmm_init 64).1
alloc_pages-PagesAlloc_example = alloc_pages-PagesAlloc boot 64 (omega arith)

free_page-PageFree_example :
    PageFree pmm_init 0x1000 (free_page pmm_init 0x1000).0 (free_page pmm_init 0x1000).1
free_page-PageFree_example = free_page-PageFree boot 0x1000
