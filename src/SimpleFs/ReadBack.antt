-- ===== src/SimpleFs/ReadBack.antt =====
-- A file that is written is read back.
use ap_pa.Base.{
  ℕ, ◌+◌, ◌-◌, ◌%◌, ◌^◌, ◌≤◌, ◌<◌, ◌≡◌, ◌≢◌, ◌⊎◌, inl, inr, refl, ap, sym, ◌∙◌, Bool, true, false,
  not, ◌&&◌, List, Option, none, some, ltb, ltb→lt, ◌==◌, if◌then◌else◌, length, take, sub32, arith,
  if_true, if_false, Bool-cases, ==_iff, ==_false,
}
use std.Path.{subst}
use ap_pa.SimpleFs.{
  BlockDevice, FsEntry, Fs, fs_type_file, same_name, blocks_for, fs_read_entry, fs_find_entry,
  entry_block,
}
use ap_pa.SimpleFs.Device.{IsDevice}
use ap_pa.SimpleFs.Entries.{block_lem, read_entry-same, read_entry_named}
use ap_pa.SimpleFs.Find.{Found, find_loop-Found, find_loop-changed}
use ap_pa.SimpleFs.Data.{Stored, Stored-kept, read_loop-Stored, write_loop-DataWritten}
use ap_pa.SimpleFs.Gap.{fs_alloc_blocks-IsGap}
use ap_pa.SimpleFs.Finish.{IsFs, finish_write-Finished}
use ap_pa.SimpleFs.Alloc.{no_blocks, fs_alloc_blocks}
use ap_pa.SimpleFs.Files.{write_loop, read_loop, finish_write, fs_write_file, fs_read_file}

uncut : (m z : ℕ) → z ≤ m → (if ltb m z then m else z) ≡ z
uncut m z h = ground arith

module _ {D : Type 0} {io : BlockDevice D} {V : D → Type 0} {n : ℕ} (law : IsDevice io V n)
    {s : Fs D} (v : IsFs V n s) (name bytes : List ℕ) (size : ℕ) (e : FsEntry) (index : ℕ)
    (found : fs_find_entry io s name ≡ some (e, index)) (file : e.kind ≡ fs_type_file)
    (le : size ≤ length bytes) (small : size < 2 ^ 32 - 511)
    (room : (blocks_for size ≡ 0) ⊎ (fs_alloc_blocks io s (blocks_for size) ≢ no_blocks)) where
  abbrev needed : ℕ
  needed = blocks_for size

  abbrev start : ℕ
  start = if ltb 0 needed then fs_alloc_blocks io s needed else 0

  start_fits : (start < 1024) × (3 + start + needed ≤ n)
  start_fits = elim (Bool-cases (ltb 0 needed)) [
    | inl some_blocks ↦
        let ne : fs_alloc_blocks io s needed ≢ no_blocks = elim room [
          | inl none_needed ↦ absurd (omega (arith, ltb→lt 0 needed some_blocks))
          | inr ok ↦ ok
        ] in
        let gap = fs_alloc_blocks-IsGap io s needed ne in
        let e₀ : start ≡ fs_alloc_blocks io s needed = if_true (ltb 0 needed) _ _ some_blocks in
        let data_blocks : sub32 s.superblock.total_blocks s.superblock.data_start_block ≡ n - 3 =
          omega (arith, v.total, v.data_start, v.bounded, v.dir.room) in
        (omega (arith, e₀, gap.low), omega (arith, e₀, gap.inside, data_blocks, v.dir.room))
    | inr no_need ↦
        let e₀ : start ≡ 0 = if_false (ltb 0 needed) _ _ no_need in
        let none_needed : needed ≡ 0 = ground arith in
        (omega (arith, e₀), omega (arith, e₀, none_needed, v.dir.room))
  ]

  entry-Found : Found io s name 0 32 e index
  unfolding fs_find_entry
  entry-Found = find_loop-Found io 32 s name 0 e index found

  no_failure : (ltb 0 needed && start == no_blocks) ≡ false
  no_failure =
      and_false (ltb 0 needed) (start == no_blocks)
        (==_false start no_blocks (λ z. omega (arith, start_fits.0, z)))
    where
      and_false : (a b : Bool) → b ≡ false → (a && b) ≡ false
      and_false true b h = h
      and_false false b h = refl

  -- The state when the data stands on the device, and the one at the end.
  record Written (s' : Fs D) : Type 0 where
    result : fs_write_file io s name bytes size ≡ (true, s')
    fs : IsFs V n s'
    entry : fs_read_entry io s' index ≡ some (record e { start_block = start; size = size })
    others : (j : ℕ) → j < 32 → j ≢ index → fs_read_entry io s' j ≡ fs_read_entry io s j
    stored : Stored io s'.dev needed (3 + start) bytes size

  written : (s' : Fs D) × Written s'
  unfolding fs_write_file
  written =
      let f = entry-Found in
      let (d₁, wl, w) =
        write_loop-DataWritten law needed s start 0 bytes size v.dir.valid v.data_start
          (omega (arith, start_fits.1)) v.bounded le in
      let s₁ : Fs D = record s { dev = d₁ } in
      let v₁ : IsFs V n s₁ = record {
        dir = record { valid = w.valid; first = v.dir.first; room = v.dir.room };
        ready = v.ready;
        data_start = v.data_start;
        total = v.total;
        bounded = v.bounded;
        padded = v.padded;
      } in
      let entries : (j : ℕ) → j < 32 → fs_read_entry io s₁ j ≡ fs_read_entry io s j = λ j lj.
        let at = block_lem law s j v.dir lj in
        read_entry-same law s s₁ j
          (w.kept (entry_block s j) (omega (arith, at, v.dir.room)) (inl (omega (arith, at)))) in
      let named = read_entry_named law s index e v.dir (omega (arith, f.below)) f.entry in
      let (s₂, fin, done) =
        finish_write-Finished law s₁ e index start size v₁ named (omega (arith, f.below))
          (omega arith) in
      let cut : start % 2 ^ 16 ≡ start = omega (arith, start_fits.0) in
      (
        s₂,
        record {
          result =
              if_false (not s.ready) _ _ (ap not v.ready)
              ∙ ap
                  (λ o. elim o as (λ o. Bool × Fs D) [
                    | none ↦ (false, s)
                    | some (entry, index) ↦
                        if not (entry.kind == fs_type_file)
                        then (false, s)
                        else if ltb 0 needed && start == no_blocks
                        then (false, s)
                        else if not (write_loop io needed s start 0 bytes size).0
                        then (false, (write_loop io needed s start 0 bytes size).1)
                        else finish_write io (write_loop io needed s start 0 bytes size).1 entry
                            index start size
                  ])
                  found
              ∙ if_false (not (e.kind == fs_type_file)) _ _
                  (ap not ((==_iff e.kind fs_type_file).1 file))
              ∙ if_false (ltb 0 needed && start == no_blocks) _ _ no_failure
              ∙ ap (λ r. if not r.0 then (false, r.1) else finish_write io r.1 e index start size)
                  wl
              ∙ fin;
          fs = done.fs;
          entry = done.read_back ∙ ap (λ x. some (record e { start_block = x; size = size })) cut;
          others = λ j lj ne. done.others j lj ne ∙ entries j lj;
          stored =
              Stored-kept io d₁ s₂.dev needed (3 + start) bytes size
                (λ b le' lt. done.kept b (omega (arith, start_fits.1)) (omega arith))
                (subst (λ c. Stored io d₁ needed c bytes size) (omega arith) w.stored);
        },
      )

  -- On a mounted file system, for a file of the directory and `size` bytes of data, below 2^32 - 511,
  -- for which the allocator finds room, `fs_write_file` returns 0 and keeps the file system mounted;
  -- all other directory entries are as before, and `fs_read_file` of that name, with a buffer of at
  -- least `size` bytes, returns the data.
  pub fs_read_file-fs_write_file :
      (max_size : ℕ)
      → size ≤ max_size
      → let (ok, s') = fs_write_file io s name bytes size in
        (ok ≡ true)
        × IsFs V n s'
        × ((j : ℕ) → j < 32 → j ≢ index → fs_read_entry io s' j ≡ fs_read_entry io s j)
        × (fs_read_file io s' name max_size ≡ some (take size bytes))
  unfolding fs_read_file fs_find_entry same_name
  fs_read_file-fs_write_file max_size fits =
      let (s', w) = written in
      let f = entry-Found in
      let e' : FsEntry = record e { start_block = start; size = size } in
      let find : fs_find_entry io s' name ≡ some (e', index) =
        find_loop-changed io 32 s s' name 0 e e' index found (omega arith) w.others w.entry
          f.matched in
      let read =
        read_loop-Stored io needed s' start 0 bytes size w.fs.data_start
          (omega (arith, start_fits.1, v.bounded)) (omega arith)
          (subst (λ c. Stored io s'.dev needed c bytes size) (omega arith) w.stored) in
      let all : (if ltb max_size size then max_size else size) ≡ size = uncut max_size size fits in
      subst
        (λ r.
          (r.0 ≡ true)
          × IsFs V n r.1
          × ((j : ℕ) → j < 32 → j ≢ index → fs_read_entry io r.1 j ≡ fs_read_entry io s j)
          × (fs_read_file io r.1 name max_size ≡ some (take size bytes)))
        (sym w.result)
        (
          refl,
          w.fs,
          w.others,
          if_false (not s'.ready) _ _ (ap not w.fs.ready)
              ∙ ap
                  (λ o. elim o as (λ o. Option (List ℕ)) [
                    | none ↦ none
                    | some (entry, index) ↦
                        let to_read = if ltb max_size entry.size then max_size else entry.size in
                        if not (entry.kind == fs_type_file)
                        then none
                        else read_loop io (blocks_for to_read) s' entry.start_block 0 to_read
                  ])
                  find
              ∙ if_false (not (e.kind == fs_type_file)) _ _
                  (ap not ((==_iff e.kind fs_type_file).1 file))
              ∙ ap (λ z. read_loop io (blocks_for z) s' start 0 z) all
              ∙ read,
        )
