-- ===== src/Kmalloc/Alloc.antt =====
-- `kmalloc`: which block is given out, and what the heap is afterwards.
use ap_pa.Base.{
  ℕ, ◌+◌, ◌-◌, ◌*◌, ◌/◌, ◌^◌, ◌≤◌, ◌<◌, ◌≡◌, refl, true, false, ◌⊎◌, inl, inr, some, List, [], ◌∷◌,
  ◌++◌, arith, leb, ◌==◌, if◌then◌else◌, Bool-cases, add32, null,
}
use ap_pa.Kmalloc.{
  Header, header, Mem, heap_start, heap_end, header_size, rounds, find_loop, align, split, place,
  allocate, kmalloc,
}
use ap_pa.Kmalloc.Blocks.{span, Blocks, IsHeap, Blocks-span, Blocks-suffix, Blocks-replace}
use ap_pa.Kmalloc.Search.{Fits, NoneBelow, NoneFits, Best, nothing, best, find_loop-Best}

-- The size of the block that a request needs: the payload rounded up to 4 bytes, and the header.
abbrev pub needed : ℕ → ℕ
needed size = (size + 3) / 4 * 4 + 8

-- What becomes of the chosen block: the rest is split off if it can hold 16 bytes.
unfoldable pub carve : ℕ → Header → List Header
carve total h =
    if leb (total + 24) h.size
    then header total false ∷ header (h.size - total) true ∷ []
    else header h.size false ∷ []

pub span-carve : (total : ℕ) (h : Header) → total ≤ h.size → span (carve total h) ≡ h.size
unfolding carve
span-carve total h fit = ground arith

module _ (m : Mem) (total p : ℕ) (h : Header) (at : m p ≡ h) (fit : total ≤ h.size)
    (big : 8 ≤ total) (inside : p + h.size ≤ heap_end) where
  place-outside : (x : ℕ) → (x < p) ⊎ (p + h.size ≤ x) → place m total p x ≡ m x
  unfolding place split
  place-outside x out = ground arith

  place-Blocks : Blocks (place m total p) p (carve total h) (p + h.size)
  unfolding place split carve
  place-Blocks = elim (Bool-cases (leb (total + 24) h.size)) [
    | inl wide ↦ rw wide (ground arith, big, (ground arith, ground arith, ground arith))
    | inr tight ↦ rw tight (ground arith, ground arith, refl)
  ]

-- What `kmalloc` does on a heap with the blocks `bs`: it returns `NULL` and changes nothing, or
-- it gives out the payload of the block `h`.
pub data Allocated (m : Mem) (total : ℕ) (bs : List Header) : ℕ → Mem → Type 0 where
  refused : {p : ℕ} {m' : Mem} → p ≡ null → m' ≡ m → NoneFits total bs → Allocated m total bs p m'
  granted :
      (xs : List Header) (h : Header) (ys : List Header) {p : ℕ} {m' : Mem}
      → bs ≡ xs ++ h ∷ ys
      → p ≡ heap_start + span xs + header_size
      → Fits total h
      → NoneBelow total h.size bs
      → IsHeap m' (xs ++ (carve total h ++ ys))
      → Allocated m total bs p m'

place-IsHeap :
    (m : Mem) (total p : ℕ) (xs : List Header) (h : Header) (ys : List Header)
    → 8 ≤ total
    → total ≤ h.size
    → IsHeap m (xs ++ h ∷ ys)
    → p ≡ heap_start + span xs
    → (p + h.size ≤ heap_end) × IsHeap (place m total p) (xs ++ (carve total h ++ ys))
place-IsHeap m total p xs h ys big fit w e =
    let tail = Blocks-suffix m heap_start xs (h ∷ ys) heap_end w in
    let at : m p ≡ h = rw e tail.0 in
    let inside : p + h.size ≤ heap_end =
      omega (arith, Blocks-span m (heap_start + span xs + h.size) ys heap_end tail.2) in
    let zero_end : p + (h.size + 0) ≡ p + h.size = omega arith in
    (
      inside,
      Blocks-replace m (place m total p) heap_start xs (h ∷ []) (carve total h) ys heap_end w
          (omega (arith, span-carve total h fit))
          (rw (← e, zero_end) (place-Blocks m total p h at fit big inside))
          (λ x q. place-outside m total p h at fit big inside x (inl (omega arith)))
          (λ x q. place-outside m total p h at fit big inside x (inr (omega arith))),
    )

align-needed : (size : ℕ) → size ≤ 2 ^ 32 - 12 → add32 (align size) header_size ≡ needed size
unfolding align
align-needed size small = ground arith

allocate-Allocated :
    (m : Mem) (total : ℕ) (bs : List Header)
    → IsHeap m bs
    → 8 ≤ total
    → (p : ℕ) × (m' : Mem) × (allocate m total ≡ some (p, m')) × Allocated m total bs p m'
unfolding allocate
allocate-Allocated m total bs w big = let (r, e, b) = find_loop-Best m total bs w in go r e b
  where
    go :
        (r : ℕ)
        → find_loop rounds m total heap_start null 0xFFFFFFFF ≡ some r
        → Best total bs r
        → (p : ℕ) × (m' : Mem) × (allocate m total ≡ some (p, m')) × Allocated m total bs p m'
    go r e (nothing is_null none_fits) =
        (0, m, rw (e, allocate) (ground arith), refused refl refl none_fits)
    go r e (best xs h ys parts at fit low) =
        let (inside, v) = place-IsHeap m total r xs h ys big fit.1 (rw parts at w) at in
        (
          r + 8,
          place m total r,
          rw (e, allocate) (ground arith),
          granted xs h ys parts (omega arith) fit low v,
        )

-- `kmalloc` on any heap, for a request that is not 0 and does not wrap: it ends, and either refuses because no
-- free block is large enough, leaving the heap alone, or gives out the payload of a smallest free
-- block that is large enough, splitting it as `carve` says and changing no other block.
pub kmalloc-Allocated :
    (m : Mem) (size : ℕ) (bs : List Header)
    → 0 < size
    → size ≤ 2 ^ 32 - 12
    → IsHeap m bs
    → (p : ℕ) × (m' : Mem) × (kmalloc m size ≡ some (p, m')) × Allocated m (needed size) bs p m'
unfolding kmalloc
kmalloc-Allocated m size bs pos small w =
    let (p, m', e, r) = allocate-Allocated m (needed size) bs w (omega arith) in
    let more : (size == 0) ≡ false = ground arith in
    (p, m', rw (more, align-needed size small) e, r)
