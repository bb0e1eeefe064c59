-- ===== src/SimpleFs/Finish.antt =====
-- The end of `fs_write_file`: the entry and the superblock.
use ap_pa.Base.{
  ℕ, ◌%◌, ◌^◌, ◌≤◌, ◌<◌, ◌≡◌, ◌≢◌, ap, ◌∙◌, Bool, true, false, none, some, length, arith,
}
use ap_pa.SimpleFs.{
  BlockDevice, Superblock, FsEntry, Fs, encode_superblock, fs_flush_superblock, fs_read_entry,
  entry_block,
}
use ap_pa.SimpleFs.Device.{IsDevice}
use ap_pa.SimpleFs.Entries.{
  IsEntry, HasDirectory, fs_write_entry-EntryWritten, block_lem, read_entry-same,
}
use ap_pa.SimpleFs.Files.{finish_write, recount}

length-encode_superblock :
    (b : Superblock) → length b.reserved ≡ 480 → length (encode_superblock b) ≡ 512
unfolding encode_superblock
length-encode_superblock b h = omega (arith, h)

-- A mounted file system on a device of `n` blocks.
pub record IsFs {D : Type 0} (V : D → Type 0) (n : ℕ) (s : Fs D) : Type 0 where
  pub dir : HasDirectory V n s
  pub ready : s.ready ≡ true
  pub data_start : s.superblock.data_start_block ≡ 3
  pub total : s.superblock.total_blocks ≡ n
  pub bounded : n < 2 ^ 32
  pub padded : length s.superblock.reserved ≡ 480

module _ {D : Type 0} {io : BlockDevice D} {V : D → Type 0} {n : ℕ} (law : IsDevice io V n) where
  -- What the end of `fs_write_file` leaves.
  pub record Finished (s : Fs D) (index : ℕ) (e : FsEntry) (s' : Fs D) : Type 0 where
    pub fs : IsFs V n s'
    pub read_back : fs_read_entry io s' index ≡ some e
    pub others : (j : ℕ) → j < 32 → j ≢ index → fs_read_entry io s' j ≡ fs_read_entry io s j
    pub kept : (c : ℕ) → c < n → 3 ≤ c → io.read s'.dev c ≡ io.read s.dev c

  pub finish_write-Finished :
      (s : Fs D) (e : FsEntry) (index start size : ℕ)
      → IsFs V n s
      → length e.name ≡ 24
      → index < 32
      → size < 2 ^ 32
      → (s' : Fs D) × (finish_write io s e index start size ≡ (true, s'))
        × Finished s index (record e { start_block = start % 2 ^ 16; size = size }) s'
  unfolding finish_write fs_flush_superblock
  finish_write-Finished s e index start size v named lt small =
      let e' : FsEntry = record e { start_block = start % 2 ^ 16; size = size } in
      let ve : IsEntry e' = record {
        named = named;
        start_small = omega arith;
        size_small = small;
      } in
      let (s₁, stored, w) = fs_write_entry-EntryWritten law s index e' v.dir lt ve in
      let sb = recount io s₁ in
      let s₂ : Fs D = record s₁ { superblock = sb } in
      let reserved : length sb.reserved ≡ 480 =
        ap (λ b. length b.reserved) w.kept_superblock ∙ v.padded in
      let (d', flushed, valid, back, kept) =
        law.writes s₁.dev 0 (encode_superblock sb) w.dir.valid (omega (arith, v.dir.room))
          (length-encode_superblock sb reserved) in
      let s₃ : Fs D = record s₂ { dev = d' } in
      let same : (j : ℕ) → j < 32 → fs_read_entry io s₃ j ≡ fs_read_entry io s₁ j = λ j lj.
        let at = block_lem law s₁ j w.dir lj in
        read_entry-same law s₁ s₃ j
          (kept (entry_block s₁ j) (omega (arith, at, v.dir.room)) (omega (arith, at))) in
      (
        s₃,
        ap
              (λ r. elim r as (λ r. Bool × Fs D) [
                | none ↦ (false, s)
                | some s' ↦
                    (true, (fs_flush_superblock io (record s' { superblock = recount io s' })).1)
              ])
              stored
            ∙ ap
                (λ r.
                  let f = elim r as (λ r. Bool × Fs D) [
                    | none ↦ (false, s₂)
                    | some d ↦ (true, record s₂ { dev = d })
                  ] in
                  (true, f.1))
                flushed,
        record {
          fs = record {
            dir = record { valid = valid; first = w.dir.first; room = v.dir.room };
            ready = w.kept_ready ∙ v.ready;
            data_start = ap (λ b. b.data_start_block) w.kept_superblock ∙ v.data_start;
            total = ap (λ b. b.total_blocks) w.kept_superblock ∙ v.total;
            bounded = v.bounded;
            padded = reserved;
          };
          read_back = same index lt ∙ w.read_back;
          others = λ j lj ne. same j lj ∙ w.others j lj ne;
          kept = λ c lc le.
              kept c lc (omega arith) ∙ w.rest c lc (omega (arith, block_lem law s index v.dir lt));
        },
      )
