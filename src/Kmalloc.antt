-- ===== src/Kmalloc.antt =====
-- kernel/mem/kmalloc.c and kmalloc.h: the best-fit heap allocator of the kernel.
-- The heap is a map from an address to the block header that stands there. A header is read only
-- where one was written, and the headers of a well-formed heap lie at least 8 bytes apart, so they
-- do not overlap. `is_free` is only ever 1 or 0. A walk over the heap takes fuel: `rounds` is one
-- more than the number of blocks that fit (`Kmalloc.Blocks`), and `none` means that it ran out.
pub mod Blocks
pub mod Search
pub mod Alloc
pub mod Free
pub mod Order
pub mod Lifecycle
pub mod Stats
pub mod Wrap
mod Tests
use ap_pa.Base.{
  ℕ, zero, suc, ◌+◌, ◌-◌, ◌*◌, ◌/◌, ◌%◌, ◌^◌, Bool, true, false, not, ◌&&◌, Option, none, some, ltb,
  leb, ◌==◌, if◌then◌else◌, add32, sub32, null,
}

pub record Header : Type 0 where
  pub size : ℕ
  pub is_free : Bool

abbrev pub header : ℕ → Bool → Header
header n b = record { size = n; is_free = b }

abbrev pub Mem : Type 0
Mem = ℕ → Header

abbrev pub heap_start : ℕ
heap_start = 0x100000

abbrev pub heap_end : ℕ
heap_end = 0x200000

abbrev pub heap_size : ℕ
heap_size = heap_end - heap_start

abbrev pub header_size : ℕ
header_size = 8

abbrev pub min_alloc_size : ℕ
min_alloc_size = 16

pub rounds : ℕ
rounds = heap_size / header_size + 1

abbrev pub store : Mem → ℕ → Header → Mem
store m p h a = if a == p then h else m a

-- `p->size = n` and `p->is_free = b`
abbrev pub set_size : Mem → ℕ → ℕ → Mem
set_size m p n = store m p (header n (m p).is_free)

abbrev pub set_free : Mem → ℕ → Bool → Mem
set_free m p b = store m p (header (m p).size b)

pub kmalloc_init : Mem → Mem
kmalloc_init m = set_free (set_size m heap_start heap_size) heap_start true

pub align : ℕ → ℕ
align size = if size % 4 == 0 then size else add32 size (4 - size % 4)

-- `current->is_free && current->size >= total_size`
abbrev pub suits : ℕ → Header → Bool
suits total h = h.is_free && leb total h.size

-- The scan for the smallest block that suits; it stops early at a perfect fit.
pub find_loop : ℕ → Mem → (total current best best_size : ℕ) → Option ℕ
find_loop zero m total current best best_size = none
find_loop (suc k) m total current best best_size =
    let h = m current in
    let better = find_loop k m total (add32 current h.size) current h.size in
    let worse = find_loop k m total (add32 current h.size) best best_size in
    if ltb current heap_end
    then (if suits total h && ltb h.size best_size
        then (if h.size == total then some current else better)
        else worse)
    else some best

pub split : Mem → (total best : ℕ) → Mem
split m total best =
    let rest = add32 best total in
    let m₁ = set_size m rest (sub32 (m best).size total) in
    let m₂ = set_free m₁ rest true in set_size m₂ best total

-- Splits the block if the remainder is large enough, and marks it allocated.
pub place : Mem → (total best : ℕ) → Mem
unfolding split
place m total best =
    set_free
      (if leb (add32 (add32 total header_size) min_alloc_size) (m best).size
        then split m total best
        else m)
      best false

-- The pointer that is returned, and the heap after the call.
pub allocate : Mem → ℕ → Option (ℕ × Mem)
unfolding place find_loop
allocate m total = elim (find_loop rounds m total heap_start null 0xFFFFFFFF) [
  | none ↦ none
  | some best ↦
      if best == null then some (null, m) else some (add32 best header_size, place m total best)
]

pub kmalloc : Mem → ℕ → Option (ℕ × Mem)
unfolding allocate align
kmalloc m size = if size == 0 then some (null, m) else allocate m (add32 (align size) header_size)

pub merge_next : Mem → ℕ → Mem
merge_next m block =
    let next = add32 block (m block).size in
    if ltb next heap_end && (m next).is_free
    then set_size m block (add32 (m block).size (m next).size)
    else m

-- The block just before `block`, or `NULL`.
pub prev_loop : ℕ → Mem → (block current prev : ℕ) → Option ℕ
prev_loop zero m block current prev = none
prev_loop (suc k) m block current prev =
    let rest = prev_loop k m block (add32 current (m current).size) current in
    if ltb current heap_end && not (current == block) then rest else some prev

pub merge_prev : Mem → (prev block : ℕ) → Mem
merge_prev m prev block =
    if not (prev == null) && (m prev).is_free && add32 prev (m prev).size == block
    then set_size m prev (add32 (m prev).size (m block).size)
    else m

pub kfree : Mem → ℕ → Option Mem
unfolding merge_next prev_loop merge_prev
kfree m ptr =
    if ptr == null
    then some m
    else (let block = sub32 ptr header_size in
        let m' = merge_next (set_free m block true) block in
        elim (prev_loop rounds m' block heap_start null) [
          | none ↦ none
          | some prev ↦ some (merge_prev m' prev block)
        ])

-- What `kmalloc_status` counts.
pub record Status : Type 0 where
  pub free_blocks : ℕ
  pub allocated_blocks : ℕ
  pub total_free : ℕ
  pub total_allocated : ℕ

pub count_block : Header → Status → Status
count_block h s =
    if h.is_free
    then record s {
      free_blocks = add32 s.free_blocks 1;
      total_free = add32 s.total_free (sub32 h.size header_size);
    }
    else record s {
      allocated_blocks = add32 s.allocated_blocks 1;
      total_allocated = add32 s.total_allocated (sub32 h.size header_size);
    }

pub status_loop : ℕ → Mem → ℕ → (total_blocks : ℕ) → Status → Option (ℕ × Status)
unfolding count_block
status_loop zero m current n s = none
status_loop (suc k) m current n s =
    let rest =
      status_loop k m (add32 current (m current).size) (add32 n 1) (count_block (m current) s) in
    if ltb current heap_end then rest else some (n, s)

pub kmalloc_status : Mem → Option (ℕ × Status)
unfolding status_loop
kmalloc_status m =
    status_loop rounds m heap_start 0
      (record { free_blocks = 0; allocated_blocks = 0; total_free = 0; total_allocated = 0 })
