-- ===== src/SimpleFs.antt =====
-- fs/simplefs.c: the file system, over a block device (fs/block.h) that is a parameter. A block is
-- the list of its 512 bytes. A name is the list of its characters, without the NUL; pointers
-- that are passed are not null. `block_buf` is a scratch area, filled before each use, and left out.
pub mod Alloc
pub mod Files
pub mod Remove
pub mod Device
pub mod Entries
pub mod Find
pub mod Data
pub mod Gap
pub mod Finish
pub mod ReadBack
pub mod OnRamdisk
mod Tests
use ap_pa.Base.{
  to_bytes, of_bytes, ℕ, zero, suc, ◌+◌, ◌-◌, ◌*◌, ◌/◌, ◌%◌, Bool, true, false, not, ◌||◌, ◌&&◌,
  List, [], ◌∷◌, ◌++◌, Option, none, some, ltb, leb, ◌==◌, if◌then◌else◌, length, take, drop,
  replicate, set, get_or, add32, sub32, ℤ, pos, negsuc,
}
use ap_pa.CString.{strcmp}

abbrev pub Block : Type 0
Block = List ℕ

abbrev pub block_size : ℕ
block_size = 512

-- The calls of a device with the state `D`; `none` is the result -1.
pub record BlockDevice (D : Type 0) : Type 0 where
  pub read : D → (block : ℕ) → Option Block
  pub write : D → (block : ℕ) → Block → Option D
  pub total_blocks : D → ℕ

abbrev pub fs_magic : ℕ
fs_magic = 0x41504653

abbrev pub fs_version : ℕ
fs_version = 1

abbrev pub fs_name_max : ℕ
fs_name_max = 23

abbrev pub fs_dir_blocks : ℕ
fs_dir_blocks = 2

abbrev pub fs_entries_per_block : ℕ
fs_entries_per_block = 16

abbrev pub fs_max_entries : ℕ
fs_max_entries = fs_dir_blocks * fs_entries_per_block

abbrev pub fs_type_free : ℕ
fs_type_free = 0

abbrev pub fs_type_file : ℕ
fs_type_file = 1

abbrev pub fs_type_dir : ℕ
fs_type_dir = 2

pub record Superblock : Type 0 where
  pub magic : ℕ
  pub version : ℕ
  pub total_blocks : ℕ
  pub free_blocks : ℕ
  pub dir_start_block : ℕ
  pub dir_block_count : ℕ
  pub data_start_block : ℕ
  pub first_free_block : ℕ
  pub reserved : List ℕ

-- `name` has 24 bytes.
pub record FsEntry : Type 0 where
  pub name : List ℕ
  pub kind : ℕ
  pub reserved : ℕ
  pub start_block : ℕ
  pub size : ℕ

-- The bytes of the packed structs.
pub encode_superblock : Superblock → Block
encode_superblock b =
    to_bytes 4 b.magic
    ++ to_bytes 4 b.version
    ++ to_bytes 4 b.total_blocks
    ++ to_bytes 4 b.free_blocks
    ++ to_bytes 4 b.dir_start_block
    ++ to_bytes 4 b.dir_block_count
    ++ to_bytes 4 b.data_start_block
    ++ to_bytes 4 b.first_free_block
    ++ b.reserved

pub decode_superblock : Block → Superblock
decode_superblock b = record {
  magic = of_bytes (take 4 b);
  version = of_bytes (take 4 (drop 4 b));
  total_blocks = of_bytes (take 4 (drop 8 b));
  free_blocks = of_bytes (take 4 (drop 12 b));
  dir_start_block = of_bytes (take 4 (drop 16 b));
  dir_block_count = of_bytes (take 4 (drop 20 b));
  data_start_block = of_bytes (take 4 (drop 24 b));
  first_free_block = of_bytes (take 4 (drop 28 b));
  reserved = drop 32 b;
}

pub encode_entry : FsEntry → List ℕ
encode_entry e = e.name ++ (e.kind ∷ e.reserved ∷ to_bytes 2 e.start_block ++ to_bytes 4 e.size)

pub decode_entry : List ℕ → FsEntry
decode_entry b =
    let behind = drop 24 b in
    record {
      name = take 24 b;
      kind = get_or behind 0 0;
      reserved = get_or behind 1 0;
      start_block = of_bytes (take 2 (drop 2 behind));
      size = of_bytes (take 4 (drop 4 behind));
    }

-- `ready`: `fs_dev` is not null.
pub record Fs (D : Type 0) : Type 0 where
  pub dev : D
  pub ready : Bool
  pub superblock : Superblock

-- `strcmp(e.name, name) == 0`; a comparison that leaves the name field counts as unequal.
pub same_name : FsEntry → (name : List ℕ) → Bool
unfolding strcmp
same_name e name = elim (strcmp e.name (name ++ 0 ∷ [])) [
  | none ↦ false
  | some (pos n) ↦ n == 0
  | some (negsuc n) ↦ false
]

-- The blocks of a file of `size` bytes.
abbrev pub blocks_for : ℕ → ℕ
blocks_for size = add32 size 511 / block_size

abbrev pub entry_block : {D : Type 0} → Fs D → ℕ → ℕ
entry_block s index = add32 s.superblock.dir_start_block (index / fs_entries_per_block)

abbrev pub entry_offset : ℕ → ℕ
entry_offset index = index % fs_entries_per_block * 32

module _ {D : Type 0} (io : BlockDevice D) where
  -- Whether the superblock was written, and the state afterwards.
  pub fs_flush_superblock : Fs D → Bool × Fs D
  unfolding encode_superblock
  fs_flush_superblock s = elim (io.write s.dev 0 (encode_superblock s.superblock)) [
    | none ↦ (false, s)
    | some d ↦ (true, record s { dev = d })
  ]

  pub fs_read_entry : Fs D → (index : ℕ) → Option FsEntry
  unfolding decode_entry
  fs_read_entry s index =
      let found = elim (io.read s.dev (entry_block s index)) as (λ o. Option FsEntry) [
        | none ↦ none
        | some b ↦ some (decode_entry (take 32 (drop (entry_offset index) b)))
      ] in
      if leb fs_max_entries index then none else found

  pub fs_write_entry : Fs D → (index : ℕ) → FsEntry → Option (Fs D)
  unfolding encode_entry
  fs_write_entry s index e =
      let o = entry_offset index in
      let stored = elim (io.read s.dev (entry_block s index)) as (λ o. Option (Fs D)) [
        | none ↦ none
        | some b ↦
            elim (io.write s.dev (entry_block s index)
              (take o b ++ (encode_entry e ++ drop (o + 32) b))) [
                | none ↦ none
                | some d ↦ some (record s { dev = d })
              ]
      ] in
      if leb fs_max_entries index then none else stored

  -- The loops over the directory: `k` entries from `i` on.
  pub find_loop : (k : ℕ) → Fs D → (name : List ℕ) → (i : ℕ) → Option (FsEntry × ℕ)
  unfolding fs_read_entry same_name
  find_loop zero s name i = none
  find_loop (suc k) s name i =
      let rest = find_loop k s name (i + 1) in
      elim (fs_read_entry s i) [
        | none ↦ rest
        | some e ↦ if not (e.kind == fs_type_free) && same_name e name then some (e, i) else rest
      ]

  pub fs_find_entry : Fs D → (name : List ℕ) → Option (FsEntry × ℕ)
  unfolding find_loop
  fs_find_entry s name = find_loop fs_max_entries s name 0

  slot_loop : (k : ℕ) → Fs D → (i : ℕ) → ℕ
  unfolding fs_read_entry
  slot_loop zero s i = fs_max_entries
  slot_loop (suc k) s i =
      let rest = slot_loop k s (i + 1) in
      elim (fs_read_entry s i) [ none ↦ rest | some e ↦ if e.kind == fs_type_free then i else rest ]

  pub fs_find_free_slot : Fs D → ℕ
  unfolding slot_loop
  fs_find_free_slot s = slot_loop fs_max_entries s 0
