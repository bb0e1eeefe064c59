-- ===== src/Ramdisk/Tests.antt =====
-- A disk of two blocks.
use ap_pa.Base.{ℕ, ◌≡◌, ◌++◌, List, arith, take, drop, replicate, length-replicate, some}
use ap_pa.Ramdisk.{Ramdisk, ok, ramdisk_read, ramdisk_write, total_blocks}
use ap_pa.Ramdisk.Blocks.{IsDisk, ramdisk_read-ramdisk_write}

abbrev disk : Ramdisk
disk = record { ramdisk_base = 4096; ramdisk_size = 1024; bytes = replicate 1024 0 }

disk-IsDisk : IsDisk disk
disk-IsDisk = record {
  set_up = omega arith;
  sized = length-replicate {A = ℕ} 1024 0;
  bounded = omega arith;
}

abbrev sevens : List ℕ
sevens = replicate 512 7

ramdisk_read-ramdisk_write_example :
    (s' : Ramdisk) × (ramdisk_write disk 1 sevens ≡ some (ok s'))
    × IsDisk s'
    × (ramdisk_read s' 1 sevens ≡ some (ok (take 512 sevens ++ drop 512 sevens)))
unfolding total_blocks
ramdisk_read-ramdisk_write_example =
    ramdisk_read-ramdisk_write disk 1 sevens sevens disk-IsDisk (omega arith)
      (omega (arith, length-replicate {A = ℕ} 512 7))
      (omega (arith, length-replicate {A = ℕ} 512 7))
