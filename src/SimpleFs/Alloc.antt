-- ===== src/SimpleFs/Alloc.antt =====
-- fs/simplefs.c: the allocation of data blocks.
use ap_pa.Base.{
  ℕ, zero, suc, ◌+◌, ◌/◌, Bool, true, false, not, ◌||◌, ◌&&◌, List, none, some, ltb, leb, ◌==◌,
  if◌then◌else◌, replicate, set, get_or, add32, sub32,
}
use ap_pa.SimpleFs.{
  BlockDevice, Fs, fs_max_entries, fs_type_free, fs_type_dir, blocks_for, fs_read_entry,
}

-- `fs_alloc_blocks` on failure.
abbrev pub no_blocks : ℕ
no_blocks = 0xFFFFFFFF

-- The blocks of one file; `used` holds the bits of the array of that name.
mark_loop : (k start b data_blocks : ℕ) → List Bool → List Bool
mark_loop zero start b data_blocks used = used
mark_loop (suc k) start b data_blocks used =
    let blk = add32 start b in
    let rest =
      mark_loop k start (b + 1) data_blocks
        (if ltb (blk / 8) 128 then set used blk true else used) in
    if ltb blk data_blocks then rest else used

-- The search for `count` free blocks in a row: `k` blocks from `b` on.
unfoldable pub gap_loop : (k b consecutive start count : ℕ) → List Bool → ℕ
gap_loop zero b consecutive start count used = no_blocks
gap_loop (suc k) b consecutive start count used =
    let taken = get_or used b false in
    let start' = if not taken && consecutive == 0 then b else start in
    let consecutive' = if taken then 0 else consecutive + 1 in
    let rest = gap_loop k (b + 1) consecutive' start' count used in
    if leb 128 (b / 8)
    then no_blocks
    else if not taken && consecutive' == count
    then start'
    else rest

module _ {D : Type 0} (io : BlockDevice D) where
  pub all_marks : (k : ℕ) → Fs D → (i data_blocks : ℕ) → List Bool → List Bool
  unfolding mark_loop fs_read_entry
  all_marks zero s i data_blocks used = used
  all_marks (suc k) s i data_blocks used =
      let used' = elim (fs_read_entry io s i) as (λ o. List Bool) [
        | none ↦ used
        | some e ↦
            if e.kind == fs_type_free || e.kind == fs_type_dir
            then used
            else mark_loop (blocks_for e.size) e.start_block 0 data_blocks used
      ] in
      all_marks k s (i + 1) data_blocks used'

  unfoldable pub fs_alloc_blocks : Fs D → (count : ℕ) → ℕ
  unfolding all_marks gap_loop
  fs_alloc_blocks s count =
      let data_blocks = sub32 s.superblock.total_blocks s.superblock.data_start_block in
      let used = all_marks fs_max_entries s 0 data_blocks (replicate 1024 false) in
      if count == 0
      then no_blocks
      else if ltb s.superblock.free_blocks count
      then no_blocks
      else gap_loop data_blocks 0 0 0 count used
