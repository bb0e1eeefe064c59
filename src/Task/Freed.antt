-- ===== src/Task/Freed.antt =====
-- What the reaper gives back of the memory of a dead task: `free_memory` of kernel/task/task.c.
use ap_pa.Base.{
  ℕ, ◌/◌, ◌%◌, ◌<◌, ◌≡◌, ◌≢◌, sym, ap, ◌∙◌, false, not, ◌==◌, ==_iff, ==_false, if_true, if_false,
}
use mathlib.Core.Path.{subst}
use ap_pa.Pmm.{Pmm, free_page, test_frame}
use ap_pa.Pmm.Count.{IsPmm}
use ap_pa.Paging.{Paging, paging_unmap_page}
use ap_pa.Paging.Process.Release.{
  free_page-IsPmm, paging_free_directory-IsPmm, paging_unmap_page-pmm, if-IsPmm_paging, StaysFree,
  StaysFree-trans, free_page-StaysFree, free_page-free, if-StaysFree_paging,
  paging_free_directory-StaysFree, paging_free_directory-free,
}
use ap_pa.Task.{Tasks, Tcb}
use ap_pa.Task.User.{free_memory}

-- The frames of the kernel stack, of the directory, and without a directory of the user stack, are
-- free, where the addresses in the block are those of pages.
pub record Freed (p : Pmm) (tcb : Tcb) : Type 0 where
  pub stack : test_frame p (tcb.kernel_stack / 4096) ≡ false
  pub directory :
      tcb.page_dir ≢ 0
      → tcb.page_dir % 4096 ≡ 0
      → tcb.page_dir / 4096 < 4096
      → test_frame p (tcb.page_dir / 4096) ≡ false
  pub user_page :
      tcb.page_dir ≡ 0
      → tcb.user_stack ≢ 0
      → tcb.user_stack % 4096 ≡ 0
      → tcb.user_stack / 4096 < 4096
      → test_frame p (tcb.user_stack / 4096) ≡ false

pub StaysFree-Freed : {p p' : Pmm} {tcb : Tcb} → StaysFree p p' → Freed p tcb → Freed p' tcb
StaysFree-Freed {tcb = tcb} h f = record {
  stack = h (tcb.kernel_stack / 4096) f.stack;
  directory = λ ne al low. h (tcb.page_dir / 4096) (f.directory ne al low);
  user_page = λ z ne al low. h (tcb.user_stack / 4096) (f.user_page z ne al low);
}

-- The state when the kernel stack is given back.
abbrev unstacked : Tasks → (t : ℕ) → Paging
unstacked s t = record s.paging { pmm = (free_page s.paging.pmm (s.tcbs t).kernel_stack).1 }

module _ (s : Tasks) (t : ℕ) (v : IsPmm s.paging.pmm) where
  unstacked-IsPmm : IsPmm (unstacked s t).pmm
  unstacked-IsPmm = free_page-IsPmm v (s.tcbs t).kernel_stack

  unmapped-IsPmm : IsPmm (paging_unmap_page (unstacked s t) (s.tcbs t).user_stack).pmm
  unmapped-IsPmm =
      subst IsPmm (sym (paging_unmap_page-pmm (unstacked s t) (s.tcbs t).user_stack))
        unstacked-IsPmm

  pub free_memory-IsPmm : IsPmm (free_memory s t).pmm
  unfolding free_memory
  free_memory-IsPmm =
      let tcb = s.tcbs t in
      if-IsPmm_paging (not (tcb.page_dir == 0)) _ _
        (paging_free_directory-IsPmm (unstacked s t) tcb.page_dir unstacked-IsPmm)
        (if-IsPmm_paging (not (tcb.user_stack == 0)) _ (unstacked s t)
          (free_page-IsPmm unmapped-IsPmm tcb.user_stack) unstacked-IsPmm)

  -- From the kernel stack on.
  unmapped-StaysFree :
      StaysFree
        (unstacked s t).pmm
        (free_page
          (paging_unmap_page (unstacked s t) (s.tcbs t).user_stack).pmm
          (s.tcbs t).user_stack).1
  unmapped-StaysFree =
      subst
        (λ p.
          StaysFree p
            (free_page (paging_unmap_page (unstacked s t) (s.tcbs t).user_stack).pmm
              (s.tcbs t).user_stack).1)
        (paging_unmap_page-pmm (unstacked s t) (s.tcbs t).user_stack)
        (free_page-StaysFree unmapped-IsPmm (s.tcbs t).user_stack)

  rest-StaysFree : StaysFree (unstacked s t).pmm (free_memory s t).pmm
  unfolding free_memory
  rest-StaysFree =
      let tcb = s.tcbs t in
      let p = unstacked s t in
      if-StaysFree_paging (not (tcb.page_dir == 0)) p.pmm _ _
        (paging_free_directory-StaysFree p tcb.page_dir unstacked-IsPmm)
        (if-StaysFree_paging (not (tcb.user_stack == 0)) p.pmm _ p unmapped-StaysFree
          (λ g free. free))

  pub free_memory-StaysFree : StaysFree s.paging.pmm (free_memory s t).pmm
  free_memory-StaysFree =
      StaysFree-trans s.paging.pmm (unstacked s t).pmm (free_memory s t).pmm
        (free_page-StaysFree v (s.tcbs t).kernel_stack) rest-StaysFree

  pub free_memory-Freed :
      (s.tcbs t).kernel_stack % 4096 ≡ 0
      → (s.tcbs t).kernel_stack / 4096 < 4096
      → Freed (free_memory s t).pmm (s.tcbs t)
  unfolding free_memory
  free_memory-Freed aligned low =
      let tcb = s.tcbs t in
      let p = unstacked s t in
      record {
        stack =
            rest-StaysFree (tcb.kernel_stack / 4096)
              (free_page-free v tcb.kernel_stack aligned low);
        directory = λ ne al inside.
            ap {A = Paging} (λ q. test_frame q.pmm (tcb.page_dir / 4096))
              (if_true (not (tcb.page_dir == 0)) _ _ (ap not (==_false tcb.page_dir 0 ne)))
            ∙ paging_free_directory-free p tcb.page_dir unstacked-IsPmm ne al inside;
        user_page = λ z ne al inside.
            ap {A = Paging} (λ q. test_frame q.pmm (tcb.user_stack / 4096))
              (if_false (not (tcb.page_dir == 0)) _ _ (ap not ((==_iff tcb.page_dir 0).1 z))
                ∙ if_true (not (tcb.user_stack == 0)) _ _ (ap not (==_false tcb.user_stack 0 ne)))
            ∙ free_page-free unmapped-IsPmm tcb.user_stack al inside;
      }
