-- ===== src/Pmm.antt =====
-- kernel/mem/pmm.c and pmm.h: the physical page allocator, a bitmap with one bit for each frame.
-- `pmm.bitmap` is the list of its `uint32_t` words; it stands at `pmm_bitmap_address`. The kernel
-- assumes 16 MB of memory, so there are 4096 frames. Each loop recurs on the rounds left.
pub mod Frames
pub mod Count
pub mod Scan
pub mod Alloc
pub mod Init
mod Tests
use ap_pa.Base.{
  ℕ, zero, suc, ◌+◌, ◌-◌, ◌*◌, ◌/◌, ◌%◌, ◌^◌, Bool, true, false, not, Option, none, some, List, ltb,
  leb, ◌==◌, if◌then◌else◌, add32, sub32, mul32, get_or, set, replicate, bit_and, bit_or,
}

abbrev pub page_size : ℕ
page_size = 4096

abbrev pub total_frames : ℕ
total_frames = 16 * 1024 * 1024 / page_size

abbrev pub pmm_bitmap_address : ℕ
pmm_bitmap_address = 0x200000

pub record Pmm : Type 0 where
  pub total_frames : ℕ
  pub used_frames : ℕ
  pub bitmap : List ℕ
  pub bitmap_size : ℕ

-- `pmm.bitmap[i]`. The memory behind the bitmap is not modelled: it would read as 0, but the operations
-- compare a frame with the number of frames before they look it up, which `PageFree` of Pmm/Alloc states
-- for `free_page`.
abbrev pub word : Pmm → ℕ → ℕ
word p i = get_or p.bitmap i 0

pub set_frame : Pmm → ℕ → Pmm
set_frame p frame =
    let i = frame / 32 in
    record p {
      bitmap = set p.bitmap i (bit_or (word p i) (2 ^ (frame % 32)));
      used_frames = add32 p.used_frames 1;
    }

pub clear_frame : Pmm → ℕ → Pmm
clear_frame p frame =
    let i = frame / 32 in
    record p {
      bitmap = set p.bitmap i (bit_and (word p i) (2 ^ 32 - 1 - 2 ^ (frame % 32)));
      used_frames = sub32 p.used_frames 1;
    }

unfoldable pub test_frame : Pmm → ℕ → Bool
test_frame p frame = not (bit_and (word p (frame / 32)) (2 ^ (frame % 32)) == 0)

-- The inner loop of `pmm_first_free_frame`: the first zero bit from `j` on.
pub bit_loop : ℕ → (w j : ℕ) → Option ℕ
bit_loop zero w j = none
bit_loop (suc k) w j =
    let rest = bit_loop k w (j + 1) in if bit_and w (2 ^ j) == 0 then some j else rest

pub word_loop : ℕ → Pmm → ℕ → ℕ
unfolding bit_loop
word_loop zero p i = total_frames
word_loop (suc k) p i =
    let rest = word_loop k p (i + 1) in
    if word p i == 0xFFFFFFFF
    then rest
    else elim (bit_loop 32 (word p i) 0) [ some j ↦ i * 32 + j | none ↦ rest ]

pub first_free_frame : Pmm → ℕ
unfolding word_loop
first_free_frame p = word_loop p.bitmap_size p 0

-- `for (i = 0; i < count; i++) pmm_set_frame(frame + i);`
pub set_frames : ℕ → ℕ → Pmm → Pmm
unfolding set_frame
set_frames zero frame p = p
set_frames (suc k) frame p = set_frames k (frame + 1) (set_frame p frame)

pub mark_reserved_regions : Pmm → Pmm
unfolding set_frames
mark_reserved_regions p =
    let low = set_frames 256 0 p in
    let heap = set_frames (512 - 256) 256 low in
    let bitmap_frames = p.bitmap_size * 4 / page_size + 1 in
    let own = set_frames bitmap_frames (pmm_bitmap_address / page_size) heap in
    set_frames (4096 - 3840) 3840 own

-- `memset` clears the words of the bitmap, whatever they were.
unfoldable pub pmm_init : Pmm
unfolding mark_reserved_regions
pmm_init =
    let bitmap_size = (total_frames + 31) / 32 in
    mark_reserved_regions (record {
      total_frames = total_frames;
      used_frames = 0;
      bitmap = replicate bitmap_size 0;
      bitmap_size = bitmap_size;
    })

-- The address that is returned (0 for failure) and the state after the call.
unfoldable pub alloc_page : Pmm → ℕ × Pmm
unfolding first_free_frame set_frame
alloc_page p =
    let frame = first_free_frame p in
    if frame == total_frames then (0, p) else (mul32 frame page_size, set_frame p frame)

-- The first of `count` consecutive free frames.
pub run_loop : ℕ → Pmm → (count frame start consecutive : ℕ) → Option ℕ
unfolding test_frame
run_loop zero p count frame start consecutive = none
run_loop (suc k) p count frame start consecutive =
    let start' = if consecutive == 0 then frame else start in
    let longer = run_loop k p count (frame + 1) start' (consecutive + 1) in
    let reset = run_loop k p count (frame + 1) start 0 in
    if test_frame p frame then reset else if consecutive + 1 == count then some start' else longer

pub alloc_pages : Pmm → ℕ → ℕ × Pmm
unfolding alloc_page run_loop set_frames
alloc_pages p count =
    if count == 0
    then (0, p)
    else if count == 1
    then alloc_page p
    else elim (run_loop p.total_frames p count 0 0 0) [
      | none ↦ (0, p)
      | some start ↦ (mul32 start page_size, set_frames count start p)
    ]

-- What `free_page` reports.
pub data Report : Type 0 where
  not_aligned out_of_range double_free freed : Report

unfoldable pub free_page : Pmm → ℕ → Report × Pmm
unfolding test_frame clear_frame
free_page p addr =
    let frame = addr / page_size in
    if not (addr % page_size == 0)
    then (not_aligned, p)
    else if leb p.total_frames frame
    then (out_of_range, p)
    else if not (test_frame p frame)
    then (double_free, p)
    else (freed, clear_frame p frame)

pub get_total_memory : Pmm → ℕ
get_total_memory p = mul32 p.total_frames page_size

pub get_used_memory : Pmm → ℕ
get_used_memory p = mul32 p.used_frames page_size

pub get_free_memory : Pmm → ℕ
get_free_memory p = mul32 (sub32 p.total_frames p.used_frames) page_size
