-- ===== src/Kmalloc/Lifecycle.antt =====
-- Sequences of calls: the invariant that `kmalloc` and `kfree` keep, what a client may rely on in
-- the pointer it gets, and freeing what was just allocated.
use ap_pa.Base.{
  ℕ, ◌+◌, ◌-◌, ◌%◌, ◌^◌, ◌≤◌, ◌<◌, ◌≡◌, ◌≢◌, refl, sym, ap, ◌∙◌, true, some, List, [], ◌∷◌, ◌++◌,
  arith, null,
}
use ap_pa.Kmalloc.{
  Header, header, Mem, heap_start, heap_end, heap_size, header_size, kmalloc, kfree, kmalloc_init,
}
use ap_pa.Kmalloc.Blocks.{span, IsHeap, Blocks-span, span-append, kmalloc_init-IsHeap}
use ap_pa.Kmalloc.Search.{Fits}
use ap_pa.Kmalloc.Alloc.{needed, carve, Allocated, refused, granted, kmalloc-Allocated}
use ap_pa.Kmalloc.Free.{joined, after, attach, release, kfree-release}
use ap_pa.Kmalloc.Order.{
  Coalesced, Aligned, carve-Coalesced, release-Coalesced, carved, left, carve-cons, release-carve,
}

Aligned-append : (xs ys : List Header) → Aligned (xs ++ ys) → Aligned xs × Aligned ys
Aligned-append [] ys a = (tt, a)
Aligned-append (x ∷ xs) ys a = ground (arith, Aligned-append xs ys)

append-Aligned : (xs ys : List Header) → Aligned xs → Aligned ys → Aligned (xs ++ ys)
append-Aligned [] ys a b = b
append-Aligned (x ∷ xs) ys a b = (a.0, append-Aligned xs ys a.1 b)

carve-Aligned :
    (size : ℕ) (xs : List Header) (h : Header) (ys : List Header)
    → needed size ≤ h.size
    → Aligned (xs ++ h ∷ ys)
    → Aligned (xs ++ (carve (needed size) h ++ ys))
unfolding carve
carve-Aligned size xs h ys fit a =
    let (b, c) = Aligned-append xs (h ∷ ys) a in
    append-Aligned xs (carve (needed size) h ++ ys) b (ground arith)

attach-Aligned :
    (xs : List Header) (b : Header) (bs : List Header)
    → Aligned xs
    → Aligned (b ∷ bs)
    → Aligned (attach xs b bs)
unfolding attach
attach-Aligned [] b bs a c = c
attach-Aligned (x ∷ []) b bs a c = ground arith
attach-Aligned (x ∷ y ∷ xs) b bs a c = (a.0, attach-Aligned (y ∷ xs) b bs a.1 c)

release-Aligned :
    (xs : List Header) (h : Header) (ys : List Header)
    → Aligned (xs ++ h ∷ ys)
    → Aligned (release xs h ys)
unfolding release joined after
release-Aligned xs h [] a =
    attach-Aligned xs (header h.size true) [] (Aligned-append xs (h ∷ []) a).0
      (Aligned-append xs (h ∷ []) a).1
release-Aligned xs h (y ∷ ys) a =
    let (b, c) = Aligned-append xs (h ∷ y ∷ ys) a in
    attach-Aligned xs (joined h (y ∷ ys)) (after (y ∷ ys)) b (ground arith)

-- The blocks tile the heap, no two free ones are neighbours, and their sizes are multiples of 4.
pub record IsSound (m : Mem) (bs : List Header) : Type 0 where
  pub tiled : IsHeap m bs
  pub coalesced : Coalesced bs
  pub aligned : Aligned bs

-- The heap that `kmalloc_init` makes, out of any memory, is sound, with one free block.
pub kmalloc_init-IsSound : (m : Mem) → IsSound (kmalloc_init m) (header heap_size true ∷ [])
kmalloc_init-IsSound m = record {
  tiled = kmalloc_init-IsHeap m;
  coalesced = tt;
  aligned = (refl, tt);
}

-- `kmalloc`, for a request that is not 0 and does not wrap, ends and keeps the heap sound, whether
-- or not it finds a block.
pub kmalloc-IsSound :
    (m : Mem) (size : ℕ) (bs : List Header)
    → 0 < size
    → size ≤ 2 ^ 32 - 12
    → IsSound m bs
    → (p : ℕ) × (m' : Mem) × (bs' : List Header) × (kmalloc m size ≡ some (p, m')) × IsSound m' bs'
kmalloc-IsSound m size bs pos small s =
    let (p, m', e, a) = kmalloc-Allocated m size bs pos small s.tiled in go p m' e a
  where
    go :
        (p : ℕ) (m' : Mem)
        → kmalloc m size ≡ some (p, m')
        → Allocated m (needed size) bs p m'
        → (p : ℕ) × (m' : Mem) × (bs' : List Header) × (kmalloc m size ≡ some (p, m'))
          × IsSound m' bs'
    go p m' e (refused null_p same nothing_fits) = (p, m', bs, e, rw same s)
    go p m' e (granted xs h ys parts at fit low w) = (
      p,
      m',
      xs ++ (carve (needed size) h ++ ys),
      e,
      record {
        tiled = w;
        coalesced = carve-Coalesced (needed size) xs h ys fit.0 (rw parts at s.coalesced);
        aligned = carve-Aligned size xs h ys fit.1 (rw parts at s.aligned);
      },
    )

-- `kfree` of the payload of any block of a sound heap ends and leaves the heap sound.
pub kfree-IsSound :
    (m : Mem) (p : ℕ) (xs : List Header) (h : Header) (ys : List Header)
    → IsSound m (xs ++ h ∷ ys)
    → p ≡ heap_start + span xs + header_size
    → (m' : Mem) × (kfree m p ≡ some m') × IsSound m' (release xs h ys)
kfree-IsSound m p xs h ys s e =
    let (m', ends, w) = kfree-release m p xs h ys s.tiled e in
    (
      m',
      ends,
      record {
        tiled = w;
        coalesced = release-Coalesced xs h ys s.coalesced;
        aligned = release-Aligned xs h ys s.aligned;
      },
    )

module _ (m : Mem) (size : ℕ) (bs : List Header) (p : ℕ) (m' : Mem) (pos : 0 < size)
    (small : size ≤ 2 ^ 32 - 12) (s : IsSound m bs) (call : kmalloc m size ≡ some (p, m'))
    (given : p ≢ null) where
  granted_block :
      (xs : List Header) × (h : Header) × (ys : List Header) × (bs ≡ xs ++ h ∷ ys)
      × (p ≡ heap_start + span xs + header_size)
      × Fits (needed size) h
      × IsHeap m' (xs ++ (carve (needed size) h ++ ys))
  granted_block =
      let (q, n, e, a) = kmalloc-Allocated m size bs pos small s.tiled in
      go q n a (cc (e, call)) (cc (e, call))
    where
      go :
          (q : ℕ) (n : Mem)
          → Allocated m (needed size) bs q n
          → q ≡ p
          → n ≡ m'
          → (xs : List Header) × (h : Header) × (ys : List Header) × (bs ≡ xs ++ h ∷ ys)
            × (p ≡ heap_start + span xs + header_size)
            × Fits (needed size) h
            × IsHeap m' (xs ++ (carve (needed size) h ++ ys))
      go q n (refused null_q same nothing_fits) e f = absurd (given (omega arith))
      go q n (granted xs h ys parts at fit low w) e f =
          (xs, h, ys, parts, sym e ∙ at, fit, rw f at w)

  -- On a sound heap, a pointer other than null that `kmalloc` returns, for a request that does not
  -- wrap, is a multiple of 4, and the `size` bytes from it lie in the heap, behind a header.
  pub kmalloc_bounds : (p % 4 ≡ 0) × (heap_start + header_size ≤ p) × (p + size ≤ heap_end)
  kmalloc_bounds =
      let (xs, h, ys, parts, at, fit, w) = granted_block in
      omega (
        arith,
        Blocks-span m heap_start bs heap_end s.tiled,
        ap span parts,
        span-append xs (h ∷ ys),
        span_aligned xs (Aligned-append xs (h ∷ ys) (rw parts at s.aligned)).0,
      )
    where
      span_aligned : (xs : List Header) → Aligned xs → span xs % 4 ≡ 0
      span_aligned [] a = refl
      span_aligned (x ∷ xs) a = omega (arith, span_aligned xs a.1)

  -- On a sound heap, freeing a block that `kmalloc` has just given out, for a request that does not
  -- wrap, ends and makes the block list what it was.
  pub kfree-kmalloc : (n : Mem) × (kfree m' p ≡ some n) × IsHeap n bs
  kfree-kmalloc =
      let (xs, h, ys, parts, at, fit, w) = granted_block in
      let total = needed size in
      let w' = rw (carve-cons total h) at w in
      let (n, ends, v) = kfree-release m' p xs (carved total h) (left total h ++ ys) w' at in
      (n, ends, rw (release-carve total xs h ys fit (rw parts at s.coalesced), ← parts) at v)
