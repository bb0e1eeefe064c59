-- ===== src/SimpleFs/Remove.antt =====
-- fs/simplefs.c: deleting, listing and looking up entries.
use ap_pa.Base.{
  ℕ, zero, suc, ◌+◌, Bool, true, false, not, ◌&&◌, List, [], ◌∷◌, ◌++◌, Option, none, some, ltb,
  ◌==◌, if◌then◌else◌, length, replicate, get_or, add32, pos, negsuc,
}
use ap_pa.CString.{strncmp}
use ap_pa.SimpleFs.{
  BlockDevice, Superblock, FsEntry, Fs, fs_max_entries, fs_type_free, fs_type_dir,
  fs_flush_superblock, fs_read_entry, fs_write_entry, fs_find_entry,
}
use ap_pa.SimpleFs.Files.{file_blocks}

-- An entry that is free.
abbrev pub free_entry : FsEntry
free_entry = record {
  name = replicate 24 0;
  kind = fs_type_free;
  reserved = 0;
  start_block = 0;
  size = 0;
}

-- Whether the entry is a child of the directory `name`.
pub is_child : (name : List ℕ) → FsEntry → Bool
unfolding strncmp
is_child name child =
    let same = elim (strncmp child.name (name ++ 0 ∷ []) (length name)) as (λ o. Bool) [
      | none ↦ false
      | some (pos n) ↦ n == 0
      | some (negsuc n) ↦ false
    ] in
    same && get_or child.name (length name) 0 == 47

module _ {D : Type 0} (io : BlockDevice D) where
  -- The children of a directory; a write that fails is skipped.
  child_loop : (k : ℕ) → Fs D → (name : List ℕ) → (i freed_blocks : ℕ) → ℕ × Fs D
  unfolding is_child
  child_loop zero s name i freed = (freed, s)
  child_loop (suc k) s name i freed =
      let wiped = elim (fs_write_entry io s i free_entry) as (λ o. Fs D) [
        | none ↦ s
        | some s' ↦ s'
      ] in
      let (freed', s') = elim (fs_read_entry io s i) as (λ o. ℕ × Fs D) [
        | none ↦ (freed, s)
        | some child ↦
            if not (child.kind == fs_type_free) && is_child name child
            then (add32 freed (file_blocks child), wiped)
            else (freed, s)
      ] in
      child_loop k s' name (i + 1) freed'

  unfoldable pub fs_delete : Fs D → (name : List ℕ) → Bool × Fs D
  unfolding fs_find_entry child_loop fs_write_entry fs_flush_superblock
  fs_delete s name =
      let found = elim (fs_find_entry io s name) as (λ o. Bool × Fs D) [
        | none ↦ (false, s)
        | some (entry, index) ↦
            let (freed, s₁) =
              if entry.kind == fs_type_dir
              then child_loop fs_max_entries s name 0 (file_blocks entry)
              else (file_blocks entry, s) in
            elim (fs_write_entry io s₁ index free_entry) as (λ o. Bool × Fs D) [
              | none ↦ (false, s₁)
              | some s₂ ↦
                  let sb : Superblock = record (s₂.superblock) {
                    free_blocks = add32 s₂.superblock.free_blocks freed;
                  } in
                  (true, (fs_flush_superblock io (record s₂ { superblock = sb })).1)
            ]
      ] in
      if not s.ready then (false, s) else found

  -- The entries that are stored; their number is returned.
  list_loop : (k : ℕ) → Fs D → (i count max : ℕ) → List FsEntry
  list_loop zero s i count max = []
  list_loop (suc k) s i count max =
      let here = elim (fs_read_entry io s i) as (λ o. List FsEntry) [
        | none ↦ []
        | some e ↦ if e.kind == fs_type_free then [] else e ∷ []
      ] in
      let rest = list_loop k s (i + 1) (count + length here) max in
      if ltb count max then here ++ rest else []

  unfoldable pub fs_list : Fs D → (max : ℕ) → List FsEntry
  unfolding list_loop
  fs_list s max = if not s.ready then [] else list_loop fs_max_entries s 0 0 max

  unfoldable pub fs_stat : Fs D → (name : List ℕ) → Option FsEntry
  unfolding fs_find_entry
  fs_stat s name =
      let found = elim (fs_find_entry io s name) as (λ o. Option FsEntry) [
        | none ↦ none
        | some (entry, index) ↦ some entry
      ] in
      if not s.ready then none else found
