-- ===== src/SimpleFs/Device.antt =====
-- What the file system relies on: a device that keeps the blocks that are written.
use ap_pa.Base.{ℕ, ◌<◌, ◌≡◌, ◌≢◌, some, length}
use ap_pa.SimpleFs.{Block, BlockDevice}

-- On valid states the blocks below `n` can be read and written, and a write changes one block.
pub record IsDevice {D : Type 0} (io : BlockDevice D) (V : D → Type 0) (n : ℕ) : Type 0 where
  pub reads :
      (d : D) (b : ℕ) → V d → b < n → (x : Block) × (io.read d b ≡ some x) × (length x ≡ 512)
  pub writes :
      (d : D) (b : ℕ) (x : Block)
      → V d
      → b < n
      → length x ≡ 512
      → (d' : D) × (io.write d b x ≡ some d')
        × V d'
        × (io.read d' b ≡ some x)
        × ((c : ℕ) → c < n → c ≢ b → io.read d' c ≡ io.read d c)
