-- ===== src/SimpleFs/Files.antt =====
-- fs/simplefs.c: formatting, creating, writing and reading files. A status is
-- `true` where the code returns 0; the state afterwards has all that was written before a failure.
use ap_pa.Base.{
  ℕ, zero, suc, ◌+◌, ◌-◌, ◌%◌, ◌^◌, Bool, true, false, not, ◌||◌, ◌&&◌, List, [], ◌∷◌, ◌++◌, Option,
  none, some, ltb, leb, ◌==◌, if◌then◌else◌, length, take, drop, replicate, set, add32, sub32,
}
use ap_pa.CString.{strncpy}
use ap_pa.SimpleFs.{
  block_size, BlockDevice, Superblock, FsEntry, Fs, fs_magic, fs_version, fs_name_max,
  fs_dir_blocks, fs_max_entries, fs_type_file, fs_type_dir, decode_superblock, blocks_for,
  fs_flush_superblock, fs_read_entry, fs_write_entry, fs_find_entry, fs_find_free_slot,
}
use ap_pa.SimpleFs.Alloc.{no_blocks, fs_alloc_blocks}

-- The name field of a new entry.
pub name_field : List ℕ → List ℕ
unfolding strncpy
name_field name = elim (strncpy (replicate 24 0) (name ++ 0 ∷ []) fs_name_max) [
  | none ↦ replicate 24 0
  | some field ↦ set field fs_name_max 0
]

-- What an entry adds to the number of freed blocks.
abbrev pub file_blocks : FsEntry → ℕ
file_blocks e = if e.kind == fs_type_file && ltb 0 e.size then blocks_for e.size else 0

module _ {D : Type 0} (io : BlockDevice D) where
  zero_loop : (k i : ℕ) → Fs D → Bool × Fs D
  zero_loop zero i s = (true, s)
  zero_loop (suc k) i s =
      elim (io.write s.dev (add32 s.superblock.dir_start_block i) (replicate 512 0)) [
        | none ↦ (false, s)
        | some d ↦ zero_loop k (i + 1) (record s { dev = d })
      ]

  unfoldable pub fs_format : Fs D → Bool × Fs D
  unfolding fs_flush_superblock zero_loop
  fs_format s =
      let total = io.total_blocks s.dev in
      let fresh : Superblock = record {
        magic = fs_magic;
        version = fs_version;
        total_blocks = total;
        free_blocks = sub32 total (1 + fs_dir_blocks);
        dir_start_block = 1;
        dir_block_count = fs_dir_blocks;
        data_start_block = 1 + fs_dir_blocks;
        first_free_block = 0;
        reserved = replicate 480 0;
      } in
      let (flushed, s₁) = fs_flush_superblock io (record s { superblock = fresh }) in
      if not flushed then (false, s₁) else zero_loop fs_dir_blocks 0 s₁

  unfoldable pub fs_init : Fs D → (dev : D) → Bool × Fs D
  unfolding fs_format decode_superblock
  fs_init s dev =
      let s₁ = record s { dev = dev; ready = true } in
      elim (io.read dev 0) [
        | none ↦ fs_format s₁
        | some b ↦
            let s₂ = record s₁ { superblock = decode_superblock b } in
            if not (s₂.superblock.magic == fs_magic) then fs_format s₂ else (true, s₂)
      ]

  unfoldable pub fs_create : Fs D → (name : List ℕ) → (kind : ℕ) → Bool × Fs D
  unfolding fs_find_entry fs_find_free_slot fs_write_entry name_field
  fs_create s name kind =
      let entry : FsEntry = record {
        name = name_field name;
        kind = kind;
        reserved = 0;
        start_block = 0;
        size = 0;
      } in
      let slot = fs_find_free_slot io s in
      let stored = elim (fs_write_entry io s slot entry) as (λ o. Bool × Fs D) [
        | none ↦ (false, s)
        | some s' ↦ (true, s')
      ] in
      let fresh = elim (fs_find_entry io s name) as (λ o. Bool) [
        | none ↦ true
        | some found ↦ false
      ] in
      if not s.ready
      then (false, s)
      else if length name == 0 || ltb fs_name_max (length name)
      then (false, s)
      else if not (kind == fs_type_file) && not (kind == fs_type_dir)
      then (false, s)
      else if not fresh
      then (false, s)
      else if leb fs_max_entries slot
      then (false, s)
      else stored

  -- The blocks of the file: `k` blocks from `i` on.
  unfoldable pub write_loop :
      (k : ℕ) → Fs D → (start i : ℕ) → (src : List ℕ) → (remaining : ℕ) → Bool × Fs D
  write_loop zero s start i src remaining = (true, s)
  write_loop (suc k) s start i src remaining =
      let abs_block = add32 (add32 s.superblock.data_start_block start) i in
      let chunk = if ltb block_size remaining then block_size else remaining in
      let block =
        if ltb chunk block_size
        then take chunk src ++ replicate (512 - chunk) 0
        else take 512 src in
      elim (io.write s.dev abs_block block) [
        | none ↦ (false, s)
        | some d ↦
            write_loop k (record s { dev = d }) start (i + 1) (drop chunk src) (remaining - chunk)
      ]

  unfoldable pub used_loop : (k : ℕ) → Fs D → (i total_used : ℕ) → ℕ
  used_loop zero s i total_used = total_used
  used_loop (suc k) s i total_used =
      let more = elim (fs_read_entry io s i) as (λ o. ℕ) [ none ↦ 0 | some e ↦ file_blocks e ] in
      used_loop k s (i + 1) (add32 total_used more)

  -- The superblock with the free blocks counted again.
  abbrev pub recount : Fs D → Superblock
  recount s =
      let total_used = used_loop fs_max_entries s 0 0 in
      let data_total = sub32 s.superblock.total_blocks s.superblock.data_start_block in
      record (s.superblock) {
        free_blocks = if ltb total_used data_total then data_total - total_used else 0;
      }

  -- The end of `fs_write_file`, once the data is written.
  unfoldable pub finish_write :
      Fs D → (entry : FsEntry) → (index start_block size : ℕ) → Bool × Fs D
  unfolding used_loop fs_write_entry fs_flush_superblock
  finish_write s entry index start_block size =
      elim (fs_write_entry io s index
        (record entry { start_block = start_block % 2 ^ 16; size = size })) [
          | none ↦ (false, s)
          | some s' ↦ (true, (fs_flush_superblock io (record s' { superblock = recount s' })).1)
        ]

  unfoldable pub fs_write_file : Fs D → (name bytes : List ℕ) → (size : ℕ) → Bool × Fs D
  unfolding fs_find_entry fs_alloc_blocks write_loop finish_write
  fs_write_file s name bytes size =
      let needed = blocks_for size in
      let start = if ltb 0 needed then fs_alloc_blocks io s needed else 0 in
      let (written, s') = write_loop needed s start 0 bytes size in
      let found = elim (fs_find_entry io s name) as (λ o. Bool × Fs D) [
        | none ↦ (false, s)
        | some (entry, index) ↦
            if not (entry.kind == fs_type_file)
            then (false, s)
            else if ltb 0 needed && start == no_blocks
            then (false, s)
            else if not written
            then (false, s')
            else finish_write s' entry index start size
      ] in
      if not s.ready then (false, s) else found

  -- The bytes of the file; `none` if a block cannot be read.
  unfoldable pub read_loop : (k : ℕ) → Fs D → (start i remaining : ℕ) → Option (List ℕ)
  read_loop zero s start i remaining = some []
  read_loop (suc k) s start i remaining =
      let abs_block = add32 (add32 s.superblock.data_start_block start) i in
      let chunk = if ltb block_size remaining then block_size else remaining in
      let rest = read_loop k s start (i + 1) (remaining - chunk) in
      elim (io.read s.dev abs_block) [
        | none ↦ none
        | some b ↦ elim rest as (λ o. Option (List ℕ)) [
          | none ↦ none
          | some bytes ↦ some (take chunk b ++ bytes)
        ]
      ]

  -- The bytes that are stored in the buffer, whose number is returned; `none` is -1.
  unfoldable pub fs_read_file : Fs D → (name : List ℕ) → (max_size : ℕ) → Option (List ℕ)
  unfolding fs_find_entry read_loop
  fs_read_file s name max_size =
      let found = elim (fs_find_entry io s name) as (λ o. Option (List ℕ)) [
        | none ↦ none
        | some (entry, index) ↦
            let to_read = if ltb max_size entry.size then max_size else entry.size in
            if not (entry.kind == fs_type_file)
            then none
            else read_loop (blocks_for to_read) s entry.start_block 0 to_read
      ] in
      if not s.ready then none else found
