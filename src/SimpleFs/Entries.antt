-- ===== src/SimpleFs/Entries.antt =====
-- Directory entries on the device: an entry that is written is read back, and the others stay.
use ap_pa.Base.{
  to_bytes, of_bytes, ℕ, ◌+◌, ◌/◌, ◌%◌, ◌^◌, ◌≤◌, ◌<◌, ◌≡◌, ◌≢◌, inl, inr, refl, ap, sym, ◌∙◌,
  false, List, ◌∷◌, ◌++◌, Option, none, some, leb, ◌==◌, if◌then◌else◌, length, take, drop, get_or,
  length-append, length-take, length-drop, add32, take-append, drop-append, leb→le, drop-take,
  take-drop_before, drop-splice, length-splice, arith, if_false, Bool-cases, ==_iff, ==_ne,
}
use ap_pa.SimpleFs.{
  Block, BlockDevice, FsEntry, Fs, encode_entry, decode_entry, fs_read_entry, fs_write_entry,
  entry_block, entry_offset,
}
use ap_pa.SimpleFs.Device.{IsDevice}

-- The fields have the sizes of the struct.
pub record IsEntry (e : FsEntry) : Type 0 where
  pub named : length e.name ≡ 24
  pub start_small : e.start_block < 2 ^ 16
  pub size_small : e.size < 2 ^ 32

pub length-encode_entry : (e : FsEntry) → length e.name ≡ 24 → length (encode_entry e) ≡ 32
unfolding encode_entry
length-encode_entry e h = omega (
  arith,
  length-append e.name (e.kind ∷ e.reserved ∷ to_bytes 2 e.start_block ++ to_bytes 4 e.size),
)

some_inj : {a b : FsEntry} → some a ≡ some b → a ≡ b
some_inj h = cc

abbrev entry_of : List ℕ → ℕ → ℕ → ℕ → ℕ → FsEntry
entry_of n k r s z = record { name = n; kind = k; reserved = r; start_block = s; size = z }

decode_entry-encode_entry : (e : FsEntry) → IsEntry e → decode_entry (encode_entry e) ≡ e
unfolding encode_entry decode_entry
decode_entry-encode_entry e v =
    let behind = e.kind ∷ e.reserved ∷ to_bytes 2 e.start_block ++ to_bytes 4 e.size in
    let two : of_bytes (to_bytes 2 e.start_block) ≡ e.start_block = omega (arith, v.start_small) in
    let four : of_bytes (to_bytes 4 e.size) ≡ e.size = omega (arith, v.size_small) in
    ap
      (λ l.
        entry_of (take 24 (e.name ++ behind)) (get_or l 0 0) (get_or l 1 0)
          (of_bytes (take 2 (drop 2 l))) (of_bytes (take 4 (drop 4 l))))
      (drop-append 24 e.name behind v.named)
    ∙ ap
        (λ n.
          entry_of n e.kind e.reserved (of_bytes (to_bytes 2 e.start_block))
            (of_bytes (to_bytes 4 e.size)))
        (take-append 24 e.name behind v.named)
    ∙ ap (λ x. entry_of e.name e.kind e.reserved x (of_bytes (to_bytes 4 e.size))) two
    ∙ ap (λ x. entry_of e.name e.kind e.reserved e.start_block x) four

-- The directory stands in blocks 1 and 2 of a device of `n` blocks.
pub record HasDirectory {D : Type 0} (V : D → Type 0) (n : ℕ) (s : Fs D) : Type 0 where
  pub valid : V s.dev
  pub first : s.superblock.dir_start_block ≡ 1
  pub room : 3 ≤ n

module _ {D : Type 0} {io : BlockDevice D} {V : D → Type 0} {n : ℕ} (law : IsDevice io V n) where
  pub read_entry :
      (s : Fs D) (i : ℕ) (x : Block)
      → i < 32
      → io.read s.dev (entry_block s i) ≡ some x
      → fs_read_entry io s i ≡ some (decode_entry (take 32 (drop (entry_offset i) x)))
  unfolding fs_read_entry
  read_entry s i x lt e =
      let inside : leb 32 i ≡ false = ground arith in
      if_false (leb 32 i) _ _ inside
      ∙ ap
          (λ o. elim o as (λ o. Option FsEntry) [
            | none ↦ none
            | some b ↦ some (decode_entry (take 32 (drop (entry_offset i) b)))
          ])
          e

  pub block_lem : (s : Fs D) (i : ℕ) → HasDirectory V n s → i < 32 → entry_block s i ≡ 1 + i / 16
  block_lem s i v lt = ap (λ b. add32 b (i / 16)) v.first ∙ omega arith

  -- The block with an entry can be read.
  entry_there :
      (s : Fs D) (i : ℕ)
      → HasDirectory V n s
      → i < 32
      → (x : Block) × (io.read s.dev (entry_block s i) ≡ some x) × (length x ≡ 512)
  entry_there s i v lt =
      law.reads s.dev (entry_block s i) v.valid (omega (arith, block_lem s i v lt, v.room))

  -- Two entries of one block do not overlap.
  other_slot :
      (i j : ℕ) (x mid : Block)
      → length x ≡ 512
      → length mid ≡ 32
      → i / 16 ≡ j / 16
      → i ≢ j
      → take 32
          (drop (entry_offset j) (take (entry_offset i) x ++ (mid ++ drop (entry_offset i + 32) x)))
        ≡ take 32 (drop (entry_offset j) x)
  other_slot i j x mid lx lm same ne =
      elim (Bool-cases (leb (entry_offset j + 32) (entry_offset i))) [
        | inl before ↦
            take-drop_before 32 (entry_offset j) (entry_offset i) x
              (mid ++ drop (entry_offset i + 32) x)
              (leb→le (entry_offset j + 32) (entry_offset i) before) (omega (arith, lx))
        | inr behind ↦
            let le : entry_offset i < entry_offset j + 32 = ground arith in
            let apart : i % 16 ≢ j % 16 = λ e. ne (omega arith) in
            let past : entry_offset i + 32 ≤ entry_offset j = omega arith in
            ap (take 32) (
              drop-splice (entry_offset j) (entry_offset i) (entry_offset i + 32) mid x
                (omega (arith, lm)) past (omega (arith, lx)))
      ]

  -- What writing entry `i` leaves.
  pub record EntryWritten (s : Fs D) (i : ℕ) (e : FsEntry) (s' : Fs D) : Type 0 where
    pub dir : HasDirectory V n s'
    pub kept_superblock : s'.superblock ≡ s.superblock
    pub kept_ready : s'.ready ≡ s.ready
    pub read_back : fs_read_entry io s' i ≡ some e
    pub others : (j : ℕ) → j < 32 → j ≢ i → fs_read_entry io s' j ≡ fs_read_entry io s j
    pub rest : (c : ℕ) → c < n → c ≢ entry_block s i → io.read s'.dev c ≡ io.read s.dev c

  pub fs_write_entry-EntryWritten :
      (s : Fs D) (i : ℕ) (e : FsEntry)
      → HasDirectory V n s
      → i < 32
      → IsEntry e
      → (s' : Fs D) × (fs_write_entry io s i e ≡ some s') × EntryWritten s i e s'
  unfolding fs_write_entry
  fs_write_entry-EntryWritten s i e v lt ve =
      let o = entry_offset i in
      let mid = encode_entry e in
      let (x, rx, lx) = entry_there s i v lt in
      let lm = length-encode_entry e ve.named in
      let new = take o x ++ (mid ++ drop (o + 32) x) in
      let fits : o + 32 ≤ length x = omega (arith, lx) in
      let ln : length new ≡ 512 = omega (arith, length-splice o 32 mid x lm fits, lx) in
      let (d', w, vd, back, kept) =
        law.writes s.dev (entry_block s i) new v.valid (omega (arith, block_lem s i v lt, v.room))
          ln in
      let s' : Fs D = record s { dev = d' } in
      let inside : leb 32 i ≡ false = ground arith in
      let stored : Option D → Option (Fs D) = λ r. elim r as (λ r. Option (Fs D)) [
        | none ↦ none
        | some d ↦ some (record s { dev = d })
      ] in
      (
        s',
        if_false (leb 32 i) _ _ inside
            ∙ ap
                (λ r. elim r as (λ r. Option (Fs D)) [
                  | none ↦ none
                  | some b ↦
                      stored
                        (io.write s.dev (entry_block s i) (take o b ++ (mid ++ drop (o + 32) b)))
                ])
                rx
            ∙ ap stored w,
        record {
          dir = record { valid = vd; first = v.first; room = v.room };
          kept_superblock = refl;
          kept_ready = refl;
          read_back =
              read_entry s' i new lt back
              ∙ ap (λ l. some (decode_entry (take 32 l)))
                  (drop-take o x (mid ++ drop (o + 32) x) (omega (arith, lx)))
              ∙ ap (λ l. some (decode_entry l)) (take-append 32 mid (drop (o + 32) x) lm)
              ∙ ap some (decode_entry-encode_entry e ve);
          others = λ j lj ne.
              let (y, ry, ly) = entry_there s j v lj in
              elim (Bool-cases (i / 16 == j / 16)) [
                | inl q ↦
                    let same : i / 16 ≡ j / 16 = (==_iff (i / 16) (j / 16)).0 q in
                    let at : entry_block s j ≡ entry_block s i =
                      ap (add32 s.superblock.dir_start_block) (sym same) in
                    read_entry s' j new lj (ap (io.read d') at ∙ back)
                    ∙ ap (λ l. some (decode_entry l))
                        (other_slot i j x mid lx lm same (λ k. ne (sym k)))
                    ∙ sym (read_entry s j x lj (ap (io.read s.dev) at ∙ rx))
                | inr q ↦
                    let off : entry_block s j ≢ entry_block s i = λ k.
                      ==_ne (i / 16) (j / 16) q
                        (omega (arith, block_lem s i v lt, block_lem s j v lj, k)) in
                    read_entry s' j y lj
                      (kept (entry_block s j) (omega (arith, block_lem s j v lj, v.room)) off ∙ ry)
                    ∙ sym (read_entry s j y lj ry)
              ];
          rest = λ c lc ne. kept c lc ne;
        },
      )

  -- A block that an entry is read from.
  pub read_entry-same :
      (s s' : Fs D) (i : ℕ)
      → io.read s'.dev (entry_block s' i) ≡ io.read s.dev (entry_block s i)
      → fs_read_entry io s' i ≡ fs_read_entry io s i
  unfolding fs_read_entry
  read_entry-same s s' i e =
      ap
        (λ r. if leb 32 i then none else elim r as (λ o. Option FsEntry) [
          | none ↦ none
          | some b ↦ some (decode_entry (take 32 (drop (entry_offset i) b)))
        ])
        e

  pub read_entry_named :
      (s : Fs D) (i : ℕ) (e : FsEntry)
      → HasDirectory V n s
      → i < 32
      → fs_read_entry io s i ≡ some e
      → length e.name ≡ 24
  unfolding decode_entry
  read_entry_named s i e v lt h =
      let (x, rx, lx) = entry_there s i v lt in
      let o = entry_offset i in
      let same : decode_entry (take 32 (drop o x)) ≡ e =
        some_inj (sym (read_entry s i x lt rx) ∙ h) in
      ap (λ y. length y.name) (sym same)
      ∙ omega (
        arith,
        length-take 24 (take 32 (drop o x)),
        length-take 32 (drop o x),
        length-drop o x,
        lx,
      )
