-- ===== src/Kmalloc/Wrap.antt =====
-- A request so large that `kmalloc` wraps.
use ap_pa.Base.{
  ℕ, zero, suc, ◌+◌, ◌-◌, ◌^◌, ◌≤◌, ◌<◌, ◌≡◌, refl, true, false, none, some, arith, ◌==◌, null,
  add32,
}
use ap_pa.Kmalloc.{
  header, Mem, heap_start, heap_size, header_size, rounds, kmalloc_init, align, find_loop, split,
  place, allocate, kmalloc,
}
use ap_pa.Kmalloc.Blocks.{kmalloc_init-IsHeap}

-- With a block of size 0 that is in use at the start of the heap no scan gets past it.
find_loop_stuck :
    (k : ℕ) (m : Mem) (total best best_size : ℕ)
    → m heap_start ≡ header 0 false
    → find_loop k m total heap_start best best_size ≡ none
unfolding find_loop
find_loop_stuck zero m total best best_size e = refl
find_loop_stuck (suc k) m total best best_size e = rw e (find_loop_stuck k m total best best_size e)

align_wraps :
    (size : ℕ) → 2 ^ 32 - 12 < size → size ≤ 2 ^ 32 - 8 → add32 (align size) header_size ≡ 0
unfolding align
align_wraps size lo hi = ground arith

find_loop_first :
    (k : ℕ) (m : Mem)
    → m heap_start ≡ header heap_size true
    → find_loop (suc (suc k)) m 0 heap_start null 0xFFFFFFFF ≡ some heap_start
unfolding find_loop
find_loop_first k m e = rw e refl

find_loop_fresh :
    (m : Mem)
    → m heap_start ≡ header heap_size true
    → find_loop rounds m 0 heap_start null 0xFFFFFFFF ≡ some heap_start
unfolding rounds
find_loop_fresh m e =
    let two : rounds ≡ suc (suc 131071) = omega arith in rw two (find_loop_first 131071 m e)

allocate_fresh :
    (m : Mem)
    → m heap_start ≡ header heap_size true
    → allocate m 0 ≡ some (heap_start + header_size, place m 0 heap_start)
unfolding allocate
allocate_fresh m e = rw (find_loop_fresh m e, allocate) refl

-- On a fresh heap a request of more than 2 ^ 32 - 12 and at most 2 ^ 32 - 8 bytes is not refused:
-- the size with its header wraps to 0, and `kmalloc` returns the first payload address. From then
-- on the scan of no request ever ends, whatever the number of rounds.
pub kmalloc_wrap :
    (m : Mem) (size : ℕ)
    → 2 ^ 32 - 12 < size
    → size ≤ 2 ^ 32 - 8
    → (m' : Mem) × (kmalloc (kmalloc_init m) size ≡ some (heap_start + header_size, m'))
      × ((k total : ℕ) → find_loop k m' total heap_start null 0xFFFFFFFF ≡ none)
unfolding kmalloc place split
kmalloc_wrap m size lo hi =
    let start = kmalloc_init m in
    let m' = place start 0 heap_start in
    let more : (size == 0) ≡ false = ground arith in
    let at : start heap_start ≡ header heap_size true = (kmalloc_init-IsHeap m).0 in
    (
      m',
      rw (more, align_wraps size lo hi, allocate_fresh start at),
      λ k total. find_loop_stuck k m' total null 0xFFFFFFFF (rw at refl),
    )
