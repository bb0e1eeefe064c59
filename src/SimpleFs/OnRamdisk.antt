-- ===== src/SimpleFs/OnRamdisk.antt =====
-- fs/ramdisk.c as the block device of the file system.
use ap_pa.Base.{
  ℕ, zero, suc, ◌+◌, ◌*◌, ◌≤◌, ◌<◌, ◌≡◌, ◌≢◌, inl, inr, refl, ap, sym, ◌∙◌, List, [], ◌∷◌, ◌++◌,
  Option, none, some, leb, leb→le, length, take, drop, replicate, length-take, length-drop,
  length-replicate, take-append, drop-take, take-drop_before, drop-splice, arith, Bool-cases,
}
use ap_pa.Ramdisk.{Ramdisk, Result, ok, fail, ramdisk_read, ramdisk_write, total_blocks}
use ap_pa.Ramdisk.Blocks.{IsDisk, read_some, write_some, written, written-IsDisk, offset_lem}
use ap_pa.SimpleFs.{Block, BlockDevice}
use ap_pa.SimpleFs.Device.{IsDevice}

-- The result of a call as the status of the interface; an access outside the memory is a failure.
abbrev status {ℓ} : {A : Type ℓ} → Option (Result A) → Option A
status none = none
status (some (ok a)) = some a
status (some fail) = none

-- `ramdisk_dev`; a read fills a buffer of one block.
abbrev pub ramdisk_dev : BlockDevice Ramdisk
ramdisk_dev = record {
  read = λ d block. status (ramdisk_read d block (replicate 512 0));
  write = λ d block b. status (ramdisk_write d block b);
  total_blocks = λ d. total_blocks d;
}

-- A disk that is set up, with `n` blocks.
pub record HasBlocks (n : ℕ) (d : Ramdisk) : Type 0 where
  pub disk : IsDisk d
  pub count : total_blocks d ≡ n

-- What is read of a block.
abbrev block_of : Ramdisk → ℕ → Block
block_of d b = take 512 (drop (b * 512) d.bytes)

blank_rest : drop {A = ℕ} 512 (replicate 512 0) ≡ []
blank_rest = refl

append_nil : (xs : List ℕ) → xs ++ [] ≡ xs
append_nil [] = refl
append_nil (x ∷ xs) = ap (λ l. x ∷ l) (append_nil xs)

take_whole : (n : ℕ) (xs : List ℕ) → length xs ≡ n → take n xs ≡ xs
take_whole zero [] h = refl
take_whole zero (x ∷ xs) h = absurd (omega arith)
take_whole (suc n) [] h = refl
take_whole (suc n) (x ∷ xs) h = ap (λ l. x ∷ l) (take_whole n xs (omega arith))

read_block :
    (d : Ramdisk) (b : ℕ)
    → IsDisk d
    → b < total_blocks d
    → ramdisk_dev.read d b ≡ some (block_of d b)
read_block d b v lt =
    ap status (read_some d b (replicate 512 0) v lt (omega (arith, length-replicate {A = ℕ} 512 0)))
    ∙ ap (λ l. some (block_of d b ++ l)) blank_rest
    ∙ ap some (append_nil (block_of d b))

block_back :
    (d : Ramdisk) (b : ℕ) (x : Block)
    → IsDisk d
    → b < total_blocks d
    → length x ≡ 512
    → block_of (written d b x) b ≡ x
block_back d b x v lt lx =
    let inside = (offset_lem d b v lt).1 in
    ap (take 512) (
      drop-take (b * 512) d.bytes (take 512 x ++ drop 512 (drop (b * 512) d.bytes))
        (omega (arith, inside)))
    ∙ take-append 512 (take 512 x) (drop 512 (drop (b * 512) d.bytes))
        (omega (arith, lx, length-take 512 x))
    ∙ take_whole 512 x lx

drop-drop : (m n q : ℕ) (xs : List ℕ) → m + n ≡ q → drop n (drop m xs) ≡ drop q xs
drop-drop zero n q xs e = ap (λ k. drop k xs) (omega arith)
drop-drop (suc m) n zero xs e = absurd (omega arith)
drop-drop (suc m) zero (suc q) [] e = refl
drop-drop (suc m) (suc n) (suc q) [] e = refl
drop-drop (suc m) n (suc q) (x ∷ xs) e = drop-drop m n q xs (omega arith)

block_other :
    (d : Ramdisk) (b c : ℕ) (x : Block)
    → IsDisk d
    → b < total_blocks d
    → length x ≡ 512
    → c ≢ b
    → block_of (written d b x) c ≡ block_of d c
block_other d b c x v lt lx ne =
    let inside = (offset_lem d b v lt).1 in
    let o = b * 512 in
    let mid = take 512 x in
    elim (Bool-cases (leb (c * 512 + 512) o)) [
      | inl before ↦
          take-drop_before 512 (c * 512) o d.bytes (mid ++ drop 512 (drop o d.bytes))
            (leb→le (c * 512 + 512) o before) (omega (arith, inside))
      | inr behind ↦
          let past : o + 512 ≤ c * 512 = ground arith in
          ap (λ l. take 512 (drop (c * 512) (take o d.bytes ++ (mid ++ l))))
            (drop-drop o 512 (o + 512) d.bytes refl)
          ∙ ap (take 512) (
              drop-splice (c * 512) o (o + 512) mid d.bytes (omega (arith, length-take 512 x, lx))
                past (omega (arith, inside)))
    ]

-- A RAM disk keeps the blocks that are written: it is a device for the file system.
pub ramdisk_dev-IsDevice : (n : ℕ) → IsDevice ramdisk_dev (HasBlocks n) n
unfolding total_blocks
ramdisk_dev-IsDevice n = record {
  reads = λ d b v lt.
      let lt' : b < total_blocks d = omega (arith, v.count) in
      let inside = (offset_lem d b v.disk lt').1 in
      (
        block_of d b,
        read_block d b v.disk lt',
        omega (
          arith,
          length-take 512 (drop (b * 512) d.bytes),
          length-drop (b * 512) d.bytes,
          inside,
        ),
      );
  writes = λ d b x v lt lx.
      let lt' : b < total_blocks d = omega (arith, v.count) in
      let d' = written d b x in
      let v' = written-IsDisk d b x v.disk lt' (omega (arith, lx)) in
      (
        d',
        ap status (write_some d b x v.disk lt' (omega (arith, lx))),
        record { disk = v'; count = v.count },
        read_block d' b v' lt' ∙ ap some (block_back d b x v.disk lt' lx),
        λ c lc ne.
            let lc' : c < total_blocks d = omega (arith, v.count) in
            read_block d' c v' lc'
            ∙ ap some (block_other d b c x v.disk lt' lx ne)
            ∙ sym (read_block d c v.disk lc'),
      );
}
