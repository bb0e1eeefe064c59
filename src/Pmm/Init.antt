-- ===== src/Pmm/Init.antt =====
-- `pmm_init`: which frames are reserved.
use ap_pa.Base.{
  ℕ, ◌/◌, ◌%◌, ◌≡◌, refl, sym, ◌∙◌, false, ◌&&◌, ◌||◌, arith, ltb, leb, get_or-replicate, bit-zero,
  replicate,
}
use ap_pa.Pmm.{Pmm, test_frame, mark_reserved_regions, pmm_init}
use ap_pa.Pmm.Frames.{IsBitmap, test-bit}
use ap_pa.Pmm.Count.{IsPmm, count_ext, count_none}
use ap_pa.Pmm.Alloc.{set_frames-Takes}

cleared : Pmm
cleared = record {
  total_frames = 4096;
  used_frames = 0;
  bitmap = replicate 128 0;
  bitmap_size = 128;
}

cleared-IsBitmap : IsBitmap cleared
unfolding cleared
cleared-IsBitmap = record {
  frames = refl;
  size = refl;
  stored = refl;
  words = λ i. rw (get_or-replicate {A = ℕ} 128 0 i) (omega arith);
}

test-cleared : (g : ℕ) → test_frame cleared g ≡ false
unfolding cleared
test-cleared g =
    rw (test-bit cleared-IsBitmap g, get_or-replicate {A = ℕ} 128 0 (g / 32), bit-zero (g % 32))
      refl

cleared-IsPmm : IsPmm cleared
unfolding cleared
cleared-IsPmm = record {
  bitmap = cleared-IsBitmap;
  counted =
      sym (
        count_ext 4096 (test_frame cleared) (λ _. false) (λ i lt. test-cleared i)
        ∙ count_none 4096);
}

-- After `pmm_init` the state is valid, and exactly 769 frames are used: those of the first 2 MB, the
-- one of the bitmap, and those from 15 MB to 16 MB.
pub pmm_init-IsPmm :
    IsPmm pmm_init
    × (pmm_init.used_frames ≡ 769)
    × ((g : ℕ) → test_frame pmm_init g ≡ (ltb g 513 || leb 3840 g && ltb g 4096))
unfolding pmm_init mark_reserved_regions cleared
pmm_init-IsPmm =
    let low = set_frames-Takes 256 0 cleared-IsPmm (omega arith) (λ g lo hi. test-cleared g) in
    let heap =
      set_frames-Takes 256 256 low.valid (omega arith)
        (λ g lo hi. ground (arith, low.marked g, test-cleared g)) in
    let own =
      set_frames-Takes 1 512 heap.valid (omega arith)
        (λ g lo hi. ground (arith, heap.marked g, low.marked g, test-cleared g)) in
    let high =
      set_frames-Takes 256 3840 own.valid (omega arith)
        (λ g lo hi. ground (arith, own.marked g, heap.marked g, low.marked g, test-cleared g)) in
    (
      high.valid,
      omega (arith, high.counted, own.counted, heap.counted, low.counted),
      λ g. ground (arith, high.marked g, own.marked g, heap.marked g, low.marked g, test-cleared g),
    )
