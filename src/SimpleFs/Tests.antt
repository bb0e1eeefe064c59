-- ===== src/SimpleFs/Tests.antt =====
-- A device of blocks in a list, and runs of the file system on it.
use ap_pa.Base.{
  ◌<◌, ◌≢◌, ◌++◌, inr, take, arith, length-replicate, ℕ, ◌≡◌, refl, Bool, true, false, List, [],
  ◌∷◌, none, some, get_elem?, set, replicate, ltb, length, if◌then◌else◌,
}
use ap_pa.SimpleFs.{Block, BlockDevice, Fs, Superblock, FsEntry, fs_read_entry, fs_find_entry}
use ap_pa.CString.{strcmp, memcpy}
use ap_pa.Ramdisk.{Ramdisk, total_blocks, ramdisk_read}
use ap_pa.SimpleFs.Device.{IsDevice}
use ap_pa.SimpleFs.OnRamdisk.{ramdisk_dev, HasBlocks, ramdisk_dev-IsDevice}
use ap_pa.SimpleFs.Finish.{IsFs}
use ap_pa.SimpleFs.ReadBack.{fs_read_file-fs_write_file}
use ap_pa.SimpleFs.Alloc.{fs_alloc_blocks}
use ap_pa.SimpleFs.Files.{fs_init, fs_create, fs_write_file, fs_read_file}
use ap_pa.SimpleFs.Remove.{fs_delete, fs_list, fs_stat}

abbrev array : BlockDevice (List Block)
array = record {
  read = λ d block. get_elem? d block;
  write = λ d block b. if ltb block (length d) then some (set d block b) else none;
  total_blocks = λ d. length d;
}

abbrev blank : List Block
blank = replicate 6 (replicate 512 0)

abbrev unset : Superblock
unset = record {
  magic = 0;
  version = 0;
  total_blocks = 0;
  free_blocks = 0;
  dir_start_block = 0;
  dir_block_count = 0;
  data_start_block = 0;
  first_free_block = 0;
  reserved = [];
}

abbrev start : Fs (List Block)
start = record { dev = []; ready = false; superblock = unset }

formatted : Fs (List Block)
formatted = (fs_init array start blank).1

free_after_format : formatted.superblock.free_blocks ≡ 3
unfolding formatted fs_init
free_after_format = refl

abbrev hello : List ℕ
hello = 104 ∷ 105 ∷ []

created : Bool × Fs (List Block)
created = fs_create array formatted hello 1

created_ok : created.0 ≡ true
unfolding created formatted fs_init fs_create
created_ok = refl

-- Two files, of which the first is written twice and moves to fresh blocks.
second : List ℕ
second = 98 ∷ []

stored : Fs (List Block)
stored =
    let one = (fs_write_file array created.1 hello (replicate 3 7) 3).1 in
    let two = (fs_create array one second 1).1 in
    let three = (fs_write_file array two second (replicate 600 9) 513).1 in three

read_first : fs_read_file array stored hello 10 ≡ some (7 ∷ 7 ∷ 7 ∷ [])
unfolding stored second created formatted fs_init fs_create fs_write_file fs_read_file
read_first = refl

read_second : fs_read_file array stored second 1000 ≡ some (replicate 513 9)
unfolding stored second created formatted fs_init fs_create fs_write_file fs_read_file
read_second = refl

-- The disk is full: the first file cannot be written again.
full : (fs_write_file array stored hello (5 ∷ []) 1).0 ≡ false
unfolding stored second created formatted fs_init fs_create fs_write_file
full = refl

-- Deleting makes room.
removed : Bool × Fs (List Block)
removed = fs_delete array stored second

again :
    fs_read_file array (fs_write_file array removed.1 hello (5 ∷ []) 1).1 hello 9 ≡ some (5 ∷ [])
unfolding removed stored second created formatted fs_init fs_create fs_write_file fs_delete
    fs_read_file
again = refl

no_second : fs_stat array removed.1 second ≡ none
unfolding removed stored second created formatted fs_init fs_create fs_write_file fs_delete fs_stat
no_second = refl

listed : length (fs_list array stored 10) ≡ 2
unfolding stored second created formatted fs_init fs_create fs_write_file fs_list
listed = refl

-- A RAM disk of six blocks, mounted, with one empty file.
abbrev with_file : List ℕ
with_file = replicate 512 0 ++ (104 ∷ 105 ∷ (replicate 22 0 ++ (1 ∷ replicate 2535 0)))

abbrev disk : Ramdisk
disk = record { ramdisk_base = 4096; ramdisk_size = 3072; bytes = with_file }

abbrev mounted : Fs Ramdisk
mounted = record {
  dev = disk;
  ready = true;
  superblock = record {
    magic = 0x41504653;
    version = 1;
    total_blocks = 6;
    free_blocks = 3;
    dir_start_block = 1;
    dir_block_count = 2;
    data_start_block = 3;
    first_free_block = 0;
    reserved = replicate 480 0;
  };
}

sized : length with_file ≡ 3072
sized = refl

six : total_blocks disk ≡ 6
unfolding total_blocks
six = refl

mounted-IsFs : IsFs (HasBlocks 6) 6 mounted
mounted-IsFs = record {
  dir = record {
    valid = record {
      disk = record { set_up = omega arith; sized = sized; bounded = omega arith };
      count = six;
    };
    first = refl;
    room = omega arith;
  };
  ready = refl;
  data_start = refl;
  total = refl;
  bounded = omega arith;
  padded = length-replicate {A = ℕ} 480 0;
}

abbrev empty_file : FsEntry
empty_file = record {
  name = 104 ∷ 105 ∷ replicate 22 0;
  kind = 1;
  reserved = 0;
  start_block = 0;
  size = 0;
}

there : fs_find_entry ramdisk_dev mounted hello ≡ some (empty_file, 0)
unfolding fs_find_entry strcmp memcpy ramdisk_read
there = refl

first_gap : fs_alloc_blocks ramdisk_dev mounted 2 ≡ 0
unfolding fs_alloc_blocks memcpy ramdisk_read
first_gap = refl

abbrev contents : List ℕ
contents = replicate 600 7

fs_read_file-fs_write_file_example :
    let (done, s') = fs_write_file ramdisk_dev mounted hello contents 513 in
    (done ≡ true)
    × IsFs (HasBlocks 6) 6 s'
    × ((j : ℕ)
        → j < 32
        → j ≢ 0
        → fs_read_entry ramdisk_dev s' j ≡ fs_read_entry ramdisk_dev mounted j)
    × (fs_read_file ramdisk_dev s' hello 600 ≡ some (take 513 contents))
fs_read_file-fs_write_file_example =
    fs_read_file-fs_write_file (ramdisk_dev-IsDevice 6) mounted-IsFs hello contents 513 empty_file 0
      there refl (omega (arith, length-replicate {A = ℕ} 600 7)) (omega arith)
      (inr (λ z. absurd (omega (arith, first_gap, z)))) 600 (omega arith)

ramdisk_dev-IsDevice_example : IsDevice ramdisk_dev (HasBlocks 6) 6
ramdisk_dev-IsDevice_example = ramdisk_dev-IsDevice 6
