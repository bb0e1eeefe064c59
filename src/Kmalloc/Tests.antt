-- ===== src/Kmalloc/Tests.antt =====
-- The allocator at concrete heaps, and the theorems at inputs that meet their hypotheses.
use ap_pa.Base.{ℕ, ◌+◌, ◌-◌, ◌%◌, ◌≤◌, ◌≡◌, refl, true, false, some, List, [], ◌∷◌, arith, null}
use ap_pa.Kmalloc.{
  Header, header, Mem, heap_start, heap_end, heap_size, header_size, store, kmalloc, kfree, place,
  rounds,
}
use ap_pa.Kmalloc.Blocks.{IsHeap}
use ap_pa.Kmalloc.Alloc.{needed, Allocated, kmalloc-Allocated}
use ap_pa.Kmalloc.Free.{release, kfree-release}
use ap_pa.Kmalloc.Lifecycle.{IsSound, kmalloc-IsSound, kfree-IsSound, kmalloc_bounds, kfree-kmalloc}

abbrev empty : Mem
empty = λ _. header 0 false

-- 40 bytes in use, 64 free, the rest in use
abbrev used₁ : Header
used₁ = header 40 false

abbrev hole : Header
hole = header 64 true

abbrev used₂ : Header
used₂ = header (heap_size - 104) false

abbrev mem : Mem
mem = store (store (store empty heap_start used₁) (heap_start + 40) hole) (heap_start + 104) used₂

abbrev blocks : List Header
blocks = used₁ ∷ hole ∷ used₂ ∷ []

mem-IsSound : IsSound mem blocks
mem-IsSound = record {
  tiled = (refl, omega arith, (refl, omega arith, (refl, omega arith, refl)));
  coalesced = (refl, (refl, tt));
  aligned = (refl, (refl, (refl, tt)));
}

abbrev after_ten : Mem
after_ten = place mem 20 (heap_start + 40)

ten : kmalloc mem 10 ≡ some (heap_start + 48, after_ten)
unfolding kmalloc rounds
ten = refl

kmalloc_zero : kmalloc mem 0 ≡ some (null, mem)
unfolding kmalloc rounds
kmalloc_zero = refl

kmalloc-Allocated_example :
    (p : ℕ) × (m' : Mem) × (kmalloc mem 10 ≡ some (p, m')) × Allocated mem (needed 10) blocks p m'
kmalloc-Allocated_example =
    kmalloc-Allocated mem 10 blocks (omega arith) (omega arith) mem-IsSound.tiled

kfree-release_example :
    (m' : Mem) × (kfree mem (heap_start + 8) ≡ some m')
    × IsHeap m' (release [] used₁ (hole ∷ used₂ ∷ []))
kfree-release_example =
    kfree-release mem (heap_start + 8) [] used₁ (hole ∷ used₂ ∷ []) mem-IsSound.tiled refl

kmalloc-IsSound_example :
    (p : ℕ) × (m' : Mem) × (bs' : List Header) × (kmalloc mem 10 ≡ some (p, m')) × IsSound m' bs'
kmalloc-IsSound_example = kmalloc-IsSound mem 10 blocks (omega arith) (omega arith) mem-IsSound

kfree-IsSound_example :
    (m' : Mem) × (kfree mem (heap_start + 112) ≡ some m')
    × IsSound m' (release (used₁ ∷ hole ∷ []) used₂ [])
kfree-IsSound_example =
    kfree-IsSound mem (heap_start + 112) (used₁ ∷ hole ∷ []) used₂ [] mem-IsSound refl

kmalloc_bounds_example :
    ((heap_start + 48) % 4 ≡ 0)
    × (heap_start + header_size ≤ heap_start + 48)
    × (heap_start + 48 + 10 ≤ heap_end)
kmalloc_bounds_example =
    kmalloc_bounds mem 10 blocks (heap_start + 48) after_ten (omega arith) (omega arith) mem-IsSound
      ten (omega arith)

kfree-kmalloc_example : (n : Mem) × (kfree after_ten (heap_start + 48) ≡ some n) × IsHeap n blocks
kfree-kmalloc_example =
    kfree-kmalloc mem 10 blocks (heap_start + 48) after_ten (omega arith) (omega arith) mem-IsSound
      ten (omega arith)
