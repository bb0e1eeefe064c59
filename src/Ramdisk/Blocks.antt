-- ===== src/Ramdisk/Blocks.antt =====
-- Reading a block back, and the guard of both operations.
use ap_pa.Base.{
  drop-take, take-take_append, ℕ, false, sub32, ◌+◌, ◌-◌, ◌*◌, ◌/◌, ◌^◌, ◌≤◌, ◌<◌, ◌≡◌, ◌≢◌, ap,
  ◌∙◌, List, ◌++◌, Option, none, some, ltb, ◌==◌, length, take, drop, replicate, length-append,
  length-take, length-drop, length-replicate, add32, mul32, null, arith, if_false, ==_false,
}
use ap_pa.CString.Copy.{memcpy_lem}
use ap_pa.Ramdisk.{Ramdisk, Result, ok, ramdisk_read, ramdisk_write, ramdisk_init, total_blocks}
use ap_pa.Pmm.{Pmm, alloc_pages}

-- The disk is set up, and smaller than the memory of the machine.
pub record IsDisk (s : Ramdisk) : Type 0 where
  pub set_up : s.ramdisk_base ≢ null
  pub sized : length s.bytes ≡ s.ramdisk_size
  pub bounded : s.ramdisk_size < 2 ^ 32 - 512

-- What both operations compute of a block number below the number of blocks.
pub offset_lem :
    (s : Ramdisk) (block : ℕ)
    → IsDisk s
    → block < total_blocks s
    → (mul32 block 512 ≡ block * 512)
      × (block * 512 + 512 ≤ length s.bytes)
      × (ltb s.ramdisk_size (add32 (mul32 block 512) 512) ≡ false)
unfolding total_blocks
offset_lem s block v lt =
    let inside : block * 512 + 512 ≤ s.ramdisk_size = omega arith in
    let exact : mul32 block 512 ≡ block * 512 = omega (arith, v.bounded) in
    let fits : add32 (mul32 block 512) 512 ≤ s.ramdisk_size = omega (arith, v.bounded) in
    (exact, omega (arith, v.sized), ground arith)

pub read_some :
    (s : Ramdisk) (block : ℕ) (buf : List ℕ)
    → IsDisk s
    → block < total_blocks s
    → 512 ≤ length buf
    → ramdisk_read s block buf ≡ some (ok (take 512 (drop (block * 512) s.bytes) ++ drop 512 buf))
unfolding ramdisk_read
read_some s block buf v lt room =
    let (exact, inside, fits) = offset_lem s block v lt in
    let copied =
      memcpy_lem 512 buf (drop (mul32 block 512) s.bytes) room
        (omega (arith, length-drop (mul32 block 512) s.bytes)) in
    if_false _ _ _ (==_false s.ramdisk_base null v.set_up)
    ∙ if_false _ _ _ fits
    ∙ ap
        (λ o. elim o as (λ o. Option (Result (List ℕ))) [
          | none ↦ none
          | some filled ↦ some (ok filled)
        ])
        copied
    ∙ ap (λ o. some (ok (take 512 (drop o s.bytes) ++ drop 512 buf))) exact

-- The disk with another block.
abbrev pub written : Ramdisk → (block : ℕ) → (buf : List ℕ) → Ramdisk
written s block buf = record s {
  bytes = take (block * 512) s.bytes ++ (take 512 buf ++ drop 512 (drop (block * 512) s.bytes));
}

pub write_some :
    (s : Ramdisk) (block : ℕ) (buf : List ℕ)
    → IsDisk s
    → block < total_blocks s
    → 512 ≤ length buf
    → ramdisk_write s block buf ≡ some (ok (written s block buf))
unfolding ramdisk_write
write_some s block buf v lt room =
    let (exact, inside, fits) = offset_lem s block v lt in
    let copied =
      memcpy_lem 512 (drop (mul32 block 512) s.bytes) buf
        (omega (arith, length-drop (mul32 block 512) s.bytes)) room in
    if_false _ _ _ (==_false s.ramdisk_base null v.set_up)
    ∙ if_false _ _ _ fits
    ∙ ap
        (λ o. elim o as (λ o. Option (Result Ramdisk)) [
          | none ↦ none
          | some filled ↦ some (ok (record s { bytes = take (mul32 block 512) s.bytes ++ filled }))
        ])
        copied
    ∙ ap
        (λ o.
          some (
            ok
              (record s { bytes = take o s.bytes ++ (take 512 buf ++ drop 512 (drop o s.bytes)) })))
        exact

pub written-IsDisk :
    (s : Ramdisk) (block : ℕ) (buf : List ℕ)
    → IsDisk s
    → block < total_blocks s
    → 512 ≤ length buf
    → IsDisk (written s block buf)
written-IsDisk s block buf v lt room =
    let inside = (offset_lem s block v lt).1 in
    let front = take (block * 512) s.bytes in
    let rest = drop (block * 512) s.bytes in
    record {
      set_up = v.set_up;
      sized = omega (
        arith,
        v.sized,
        length-append front (take 512 buf ++ drop 512 rest),
        length-append (take 512 buf) (drop 512 rest),
        length-take (block * 512) s.bytes,
        length-take 512 buf,
        length-drop 512 rest,
        length-drop (block * 512) s.bytes,
      );
      bounded = v.bounded;
    }

-- On a disk that is set up, for a block below `total_blocks` and buffers of at least 512 bytes,
-- `ramdisk_write` succeeds, keeps the disk valid, and `ramdisk_read` of the same block then fills a
-- buffer with the 512 bytes that were written.
pub ramdisk_read-ramdisk_write :
    (s : Ramdisk) (block : ℕ) (buf out : List ℕ)
    → IsDisk s
    → block < total_blocks s
    → 512 ≤ length buf
    → 512 ≤ length out
    → (s' : Ramdisk) × (ramdisk_write s block buf ≡ some (ok s'))
      × IsDisk s'
      × (ramdisk_read s' block out ≡ some (ok (take 512 buf ++ drop 512 out)))
unfolding total_blocks
ramdisk_read-ramdisk_write s block buf out v lt room room' =
    let s' = written s block buf in
    let v' = written-IsDisk s block buf v lt room in
    let inside = (offset_lem s block v lt).1 in
    let rest = drop 512 (drop (block * 512) s.bytes) in
    (
      s',
      write_some s block buf v lt room,
      v',
      read_some s' block out v' lt room'
          ∙ ap (λ l. some (ok (take 512 l ++ drop 512 out)))
              (drop-take (block * 512) s.bytes (take 512 buf ++ rest) (omega arith))
          ∙ ap (λ l. some (ok (l ++ drop 512 out))) (take-take_append 512 buf rest room),
    )

-- The pages that `ramdisk_init` asks for.
abbrev pub pages_for : ℕ → ℕ
pages_for size_kb = sub32 (add32 (mul32 size_kb 1024) 4096) 1 / 4096

-- Once the pages are there, `ramdisk_init` makes a valid disk, its blocks zero.
pub ramdisk_init-IsDisk :
    (p : Pmm) (s : Ramdisk) (size_kb : ℕ)
    → (alloc_pages p (pages_for size_kb)).0 ≢ 0
    → (s' : Ramdisk) × ((ramdisk_init p s size_kb).0 ≡ ok s') × IsDisk s'
unfolding ramdisk_init
ramdisk_init-IsDisk p s size_kb ne =
    let size = mul32 (pages_for size_kb) 4096 in
    let addr = (alloc_pages p (pages_for size_kb)).0 in
    (
      record { ramdisk_base = addr; ramdisk_size = size; bytes = replicate size 0 },
      ap {A = Result Ramdisk × Pmm} (λ r. r.0) (if_false (addr == 0) _ _ (==_false addr 0 ne)),
      record { set_up = ne; sized = length-replicate size 0; bounded = omega arith },
    )
