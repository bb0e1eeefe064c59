-- ===== src/Kmalloc/Stats.antt =====
-- `kmalloc_status`: the counts that it prints.
use ap_pa.Base.{
  ℕ, zero, suc, ◌+◌, ◌-◌, ◌*◌, ◌≤◌, ◌<◌, ◌≡◌, true, inl, inr, some, List, [], ◌∷◌, arith, length,
  ltb, if◌then◌else◌, Bool-cases, add32,
}
use ap_pa.Kmalloc.{
  Header, Mem, heap_start, heap_end, heap_size, rounds, Status, count_block, status_loop,
  kmalloc_status,
}
use ap_pa.Kmalloc.Blocks.{span, Blocks, IsHeap, Blocks-span, length-lt-rounds}

-- How many blocks of `bs` are free or in use, and how many payload bytes they have.
abbrev pub tally : List Header → Status
tally [] = record { free_blocks = 0; allocated_blocks = 0; total_free = 0; total_allocated = 0 }
tally (h ∷ bs) =
    let t = tally bs in
    if h.is_free
    then record t { free_blocks = t.free_blocks + 1; total_free = t.total_free + (h.size - 8) }
    else record t {
      allocated_blocks = t.allocated_blocks + 1;
      total_allocated = t.total_allocated + (h.size - 8);
    }

-- Field by field sum.
plus : Status → Status → Status
plus s t = record {
  free_blocks = s.free_blocks + t.free_blocks;
  allocated_blocks = s.allocated_blocks + t.allocated_blocks;
  total_free = s.total_free + t.total_free;
  total_allocated = s.total_allocated + t.total_allocated;
}

-- The counters stay far below 2 ^ 32.
Small : ℕ → Status → ℕ → Type 0
Small n s rest =
    (8 * n + s.total_free + s.total_allocated + rest ≤ heap_size)
    × (s.free_blocks + s.allocated_blocks ≤ n)

status_loop-tally :
    (m : Mem) (bs : List Header) (k a n : ℕ) (s : Status)
    → Blocks m a bs heap_end
    → length bs < k
    → Small n s (span bs)
    → status_loop k m a n s ≡ some (n + length bs, plus s (tally bs))
unfolding status_loop count_block plus Small
status_loop-tally m bs zero a n s w fuel small = absurd (omega arith)
status_loop-tally m [] (suc k) a n s w fuel small = ground arith
status_loop-tally m (h ∷ bs) (suc k) a n s w fuel small =
    let end = Blocks-span m (a + h.size) bs heap_end w.2 in
    let sum : add32 a h.size ≡ a + h.size = omega arith in
    let inside : ltb a heap_end ≡ true = ground arith in
    let next : add32 n 1 ≡ n + 1 = omega arith in
    rw (inside, w.0, sum, next)
      (elim (Bool-cases h.is_free) [
        | inl free ↦
            ground (arith, status_loop-tally m bs k (a + h.size) (n + 1) (count_block h s) w.2)
        | inr used ↦
            ground (arith, status_loop-tally m bs k (a + h.size) (n + 1) (count_block h s) w.2)
      ])

tally_total :
    (m : Mem) (a : ℕ) (bs : List Header) (c : ℕ)
    → Blocks m a bs c
    → ((tally bs).total_free + (tally bs).total_allocated + 8 * length bs ≡ span bs)
      × ((tally bs).free_blocks + (tally bs).allocated_blocks ≡ length bs)
tally_total m a [] c w = omega arith
tally_total m a (h ∷ bs) c w = ground (arith, tally_total m (a + h.size) bs c w.2)

-- `kmalloc_status` ends on every heap and reports the number of blocks, of free and of allocated
-- ones, and their payload bytes; with 8 bytes for each header the bytes make up the whole heap.
pub kmalloc_status-tally :
    (m : Mem) (bs : List Header)
    → IsHeap m bs
    → (kmalloc_status m ≡ some (length bs, tally bs))
      × ((tally bs).total_free + (tally bs).total_allocated + 8 * length bs ≡ heap_size)
      × ((tally bs).free_blocks + (tally bs).allocated_blocks ≡ length bs)
unfolding kmalloc_status plus Small
kmalloc_status-tally m bs w =
    let end = Blocks-span m heap_start bs heap_end w in
    let (bytes, blocks) = tally_total m heap_start bs heap_end w in
    let zeros = tally [] in
    (
      ground (
        arith,
        status_loop-tally m bs rounds heap_start 0 zeros w (length-lt-rounds m bs w) (omega arith),
      ),
      omega arith,
      blocks,
    )
