-- ===== src/Ramdisk.antt =====
-- fs/ramdisk.c: the RAM disk, a run of pages that is read and written in blocks of 512 bytes. `bytes`
-- is the memory from `ramdisk_base` on. `none` is an access outside that memory or the buffer; a
-- call that returns -1 is `fail`.
pub mod Blocks
mod Tests
use ap_pa.Base.{
  ℕ, ◌+◌, ◌-◌, ◌/◌, List, ◌++◌, Option, none, some, ltb, ◌==◌, if◌then◌else◌, length, take, drop,
  replicate, add32, sub32, mul32, null,
}
use ap_pa.CString.{memcpy}
use ap_pa.Pmm.{Pmm, alloc_pages, page_size}

abbrev pub block_size : ℕ
block_size = 512

pub record Ramdisk : Type 0 where
  pub ramdisk_base : ℕ
  pub ramdisk_size : ℕ
  pub bytes : List ℕ

-- 0 with what the call has produced, or -1.
pub data Result {ℓ} (A : Type ℓ) : Type ℓ where
  ok : A → Result A
  fail : Result A

-- The buffer after the call.
unfoldable pub ramdisk_read : Ramdisk → (block : ℕ) → (buf : List ℕ) → Option (Result (List ℕ))
ramdisk_read s block buf =
    let offset = mul32 block block_size in
    if s.ramdisk_base == null
    then some fail
    else if ltb s.ramdisk_size (add32 offset block_size)
    then some fail
    else elim (memcpy buf (drop offset s.bytes) block_size) [
      | none ↦ none
      | some filled ↦ some (ok filled)
    ]

-- The disk after the call.
pub ramdisk_write : Ramdisk → (block : ℕ) → (buf : List ℕ) → Option (Result Ramdisk)
ramdisk_write s block buf =
    let offset = mul32 block block_size in
    if s.ramdisk_base == null
    then some fail
    else if ltb s.ramdisk_size (add32 offset block_size)
    then some fail
    else elim (memcpy (drop offset s.bytes) buf block_size) [
      | none ↦ none
      | some filled ↦ some (ok (record s { bytes = take offset s.bytes ++ filled }))
    ]

-- The disk and the page allocator after the call; the disk stays if there is no room.
pub ramdisk_init : Pmm → Ramdisk → (size_kb : ℕ) → Result Ramdisk × Pmm
ramdisk_init p s size_kb =
    let size_bytes = mul32 size_kb 1024 in
    let pages_needed = sub32 (add32 size_bytes page_size) 1 / page_size in
    let (phys_addr, p') = alloc_pages p pages_needed in
    let size = mul32 pages_needed page_size in
    if phys_addr == 0 then (fail, p') else (
      ok (record { ramdisk_base = phys_addr; ramdisk_size = size; bytes = replicate size 0 }),
      p',
    )

-- `ramdisk_dev.total_blocks`
unfoldable pub total_blocks : Ramdisk → ℕ
total_blocks s = s.ramdisk_size / block_size
