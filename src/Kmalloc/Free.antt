-- ===== src/Kmalloc/Free.antt =====
-- `kfree`: the block is freed and merged with the free blocks beside it.
use mathlib.Core.List.{append_assoc}
use ap_pa.Base.{
  ℕ, zero, suc, ◌+◌, ◌≤◌, ◌<◌, ◌≡◌, refl, ap, ◌∙◌, Bool, true, false, inl, inr, some, List, [], ◌∷◌,
  ◌++◌, arith, length, ltb, ◌==◌, if◌then◌else◌, Bool-cases, add32, sub32, null, length-append,
}
use ap_pa.Kmalloc.{
  Header, header, Mem, heap_start, heap_end, header_size, rounds, store, set_free, merge_next,
  prev_loop, merge_prev, kfree,
}
use ap_pa.Kmalloc.Blocks.{
  span, Blocks, IsHeap, Blocks-span, Blocks-suffix, Blocks-replace, length-lt-rounds, span-append,
}

-- The freed block with what it absorbs of the blocks behind it, and what is left of those.
unfoldable pub joined : Header → List Header → Header
joined h [] = header h.size true
joined h (g ∷ gs) = if g.is_free then header (h.size + g.size) true else header h.size true

unfoldable pub after : List Header → List Header
after [] = []
after (g ∷ gs) = if g.is_free then gs else g ∷ gs

-- The last block before `b` absorbs it, if it is free.
unfoldable pub attach : List Header → Header → List Header → List Header
attach [] b bs = b ∷ bs
attach (x ∷ []) b bs = if x.is_free then header (x.size + b.size) true ∷ bs else x ∷ b ∷ bs
attach (x ∷ y ∷ xs) b bs = x ∷ attach (y ∷ xs) b bs

-- The block list after freeing the block `h` between `xs` and `ys`.
unfoldable pub release : List Header → Header → List Header → List Header
unfolding joined after attach
release xs h ys = attach xs (joined h ys) (after ys)

data Snoc (xs : List Header) : Type 0 where
  empty : xs ≡ [] → Snoc xs
  snoc : (zs : List Header) (z : Header) → xs ≡ zs ++ z ∷ [] → Snoc xs

snoc_view : (xs : List Header) → Snoc xs
snoc_view [] = empty refl
snoc_view (x ∷ xs) = go (snoc_view xs)
  where
    go : Snoc xs → Snoc (x ∷ xs)
    go (empty e) = snoc [] x (ap (λ l. x ∷ l) e)
    go (snoc zs z e) = snoc (x ∷ zs) z (ap (λ l. x ∷ l) e)

attach-snoc :
    (zs : List Header) (z b : Header) (bs : List Header)
    → attach (zs ++ z ∷ []) b bs
      ≡ zs ++ (if z.is_free then header (z.size + b.size) true ∷ bs else z ∷ b ∷ bs)
unfolding attach
attach-snoc [] z b bs = refl
attach-snoc (x ∷ []) z b bs = refl
attach-snoc (x ∷ y ∷ zs) z b bs = ap (λ l. x ∷ l) (attach-snoc (y ∷ zs) z b bs)

-- One header written over the blocks `old` makes them one block.
fuse-IsHeap :
    (m : Mem) (p n : ℕ) (b : Bool) (xs old ys : List Header)
    → IsHeap m (xs ++ (old ++ ys))
    → p ≡ heap_start + span xs
    → n ≡ span old
    → 8 ≤ n
    → IsHeap (store m p (header n b)) (xs ++ header n b ∷ ys)
fuse-IsHeap m p n b xs old ys w e total big =
    let end : p + n ≡ p + span old = omega arith in
    Blocks-replace m (store m p (header n b)) heap_start xs old (header n b ∷ []) ys heap_end w
      (omega arith) (rw (← e) (ground arith, big, end)) (λ x q. ground arith) (λ x q. ground arith)

free-IsHeap :
    (m : Mem) (p : ℕ) (xs : List Header) (h : Header) (ys : List Header)
    → IsHeap m (xs ++ h ∷ ys)
    → p ≡ heap_start + span xs
    → IsHeap (set_free m p true) (xs ++ header h.size true ∷ ys)
free-IsHeap m p xs h ys w e =
    let tail = Blocks-suffix m heap_start xs (h ∷ ys) heap_end w in
    let at : m p ≡ h = rw e tail.0 in
    rw at (fuse-IsHeap m p h.size true xs (h ∷ []) ys w e (omega arith) tail.1)

merge_next-IsHeap :
    (m : Mem) (p : ℕ) (xs : List Header) (h : Header) (ys : List Header)
    → IsHeap m (xs ++ header h.size true ∷ ys)
    → p ≡ heap_start + span xs
    → IsHeap (merge_next m p) (xs ++ joined h ys ∷ after ys)
unfolding merge_next joined after
merge_next-IsHeap m p xs h [] w e =
    let tail = Blocks-suffix m heap_start xs (header h.size true ∷ []) heap_end w in
    let at : m p ≡ header h.size true = rw e tail.0 in
    let over : ltb (add32 p h.size) heap_end ≡ false = ground arith in rw (at, over) w
merge_next-IsHeap m p xs h (g ∷ gs) w e =
    let tail = Blocks-suffix m heap_start xs (header h.size true ∷ g ∷ gs) heap_end w in
    let end = Blocks-span m (heap_start + span xs + h.size + g.size) gs heap_end tail.2.2 in
    let at : m p ≡ header h.size true = rw e tail.0 in
    let sum : add32 p h.size ≡ p + h.size = omega arith in
    let inside : ltb (p + h.size) heap_end ≡ true = ground arith in
    let next : m (p + h.size) ≡ g = rw e tail.2.0 in
    let size : add32 h.size g.size ≡ h.size + g.size = omega arith in
    elim (Bool-cases g.is_free) [
      | inr used ↦ rw (at, sum, inside, next) (simp used w)
      | inl free ↦
          rw (at, sum, inside, next)
            (simp (free, size)
              (fuse-IsHeap m p (h.size + g.size) true xs (header h.size true ∷ g ∷ []) gs w e
                (omega arith) (omega arith)))
    ]

-- The address of the last block of `xs` from `a`, or `prev` if there is none.
last_addr : ℕ → List Header → ℕ → ℕ
last_addr a [] prev = prev
last_addr a (x ∷ xs) prev = last_addr (a + x.size) xs a

last_addr-snoc :
    (a : ℕ) (zs : List Header) (z : Header) (prev : ℕ)
    → last_addr a (zs ++ z ∷ []) prev ≡ a + span zs
unfolding last_addr
last_addr-snoc a [] z prev = omega arith
last_addr-snoc a (x ∷ zs) z prev = omega (arith, last_addr-snoc (a + x.size) zs z a)

prev_loop-last_addr :
    (m : Mem) (block k a prev : ℕ) (xs : List Header) (b : Header) (bs : List Header)
    → Blocks m a (xs ++ b ∷ bs) heap_end
    → block ≡ a + span xs
    → length xs < k
    → prev_loop k m block a prev ≡ some (last_addr a xs prev)
unfolding prev_loop last_addr
prev_loop-last_addr m block zero a prev xs b bs w e fuel = absurd (omega arith)
prev_loop-last_addr m block (suc k) a prev [] b bs w e fuel = ground arith
prev_loop-last_addr m block (suc k) a prev (x ∷ xs) b bs w e fuel =
    let end = Blocks-span m (a + x.size) (xs ++ b ∷ bs) heap_end w.2 in
    let sum : add32 a x.size ≡ a + x.size = omega arith in
    let inside : ltb a heap_end ≡ true = ground arith in
    let off : (a == block) ≡ false = ground arith in
    rw (w.0, inside, off, sum)
      (prev_loop-last_addr m block k (a + x.size) a xs b bs w.2 (omega arith) (omega arith))

merge_prev-snoc :
    (m : Mem) (block prev : ℕ) (zs : List Header) (z b : Header) (bs : List Header)
    → IsHeap m (zs ++ z ∷ b ∷ bs)
    → block ≡ heap_start + span zs + z.size
    → prev ≡ heap_start + span zs
    → IsHeap
        (merge_prev m prev block)
        (zs ++ (if z.is_free then header (z.size + b.size) true ∷ bs else z ∷ b ∷ bs))
unfolding merge_prev
merge_prev-snoc m block prev zs z b bs w e last =
    let tail = Blocks-suffix m heap_start zs (z ∷ b ∷ bs) heap_end w in
    let end = Blocks-span m (heap_start + span zs + z.size + b.size) bs heap_end tail.2.2 in
    let at : m prev ≡ z = rw last tail.0 in
    let next : m block ≡ b = rw e tail.2.0 in
    let some_prev : (prev == null) ≡ false = ground arith in
    let beside : (add32 prev z.size == block) ≡ true = ground arith in
    let size : add32 z.size b.size ≡ z.size + b.size = omega arith in
    elim (Bool-cases z.is_free) [
      | inr used ↦ rw (some_prev, at, beside) (simp used w)
      | inl free ↦
          rw (some_prev, at, beside, next, size)
            (simp free (
              fuse-IsHeap m prev (z.size + b.size) true zs (z ∷ b ∷ []) bs w last (omega arith)
                (omega arith)))
    ]

merge_prev-IsHeap :
    (m : Mem) (block prev : ℕ) (xs : List Header) (b : Header) (bs : List Header)
    → Snoc xs
    → IsHeap m (xs ++ b ∷ bs)
    → block ≡ heap_start + span xs
    → prev ≡ last_addr heap_start xs null
    → IsHeap (merge_prev m prev block) (attach xs b bs)
unfolding merge_prev attach last_addr
merge_prev-IsHeap m block prev xs b bs (empty is_empty) w e last =
    let first : prev ≡ null = last ∙ ap (λ l. last_addr heap_start l null) is_empty in
    rw (first, is_empty) (rw is_empty at w)
merge_prev-IsHeap m block prev xs b bs (snoc zs z parts) w e last =
    rw (parts, attach-snoc zs z b bs)
      (merge_prev-snoc m block prev zs z b bs
        (rw (append_assoc zs (z ∷ []) (b ∷ bs)) at (rw parts at w))
        (omega (arith, ap span parts, span-append zs (z ∷ [])))
        (last ∙ ap (λ l. last_addr heap_start l null) parts ∙ last_addr-snoc heap_start zs z null))

-- `kfree` of the pointer that `kmalloc` returned for a block of the heap: it ends, and the heap
-- afterwards has the blocks of `release`: the block is free, and one with the free blocks that
-- stood directly before and behind it; all other blocks are as they were.
pub kfree-release :
    (m : Mem) (p : ℕ) (xs : List Header) (h : Header) (ys : List Header)
    → IsHeap m (xs ++ h ∷ ys)
    → p ≡ heap_start + span xs + header_size
    → (m' : Mem) × (kfree m p ≡ some m') × IsHeap m' (release xs h ys)
unfolding kfree release
kfree-release m p xs h ys w e =
    let end = Blocks-span m heap_start (xs ++ h ∷ ys) heap_end w in
    let sum = span-append xs (h ∷ ys) in
    let some_ptr : (p == null) ≡ false = ground arith in
    let block = sub32 p header_size in
    let back : block ≡ heap_start + span xs = omega arith in
    let freed = set_free m block true in
    let m' = merge_next freed block in
    let w' = merge_next-IsHeap freed block xs h ys (free-IsHeap m block xs h ys w back) back in
    let found =
      prev_loop-last_addr m' block rounds heap_start null xs (joined h ys) (after ys) w' back (
        omega (
          arith,
          length-lt-rounds m' (xs ++ joined h ys ∷ after ys) w',
          length-append xs (joined h ys ∷ after ys),
        )) in
    (
      merge_prev m' (last_addr heap_start xs null) block,
      rw (some_ptr, found),
      merge_prev-IsHeap m' block (last_addr heap_start xs null) xs (joined h ys) (after ys)
          (snoc_view xs) w' back refl,
    )
