-- ===== src/Kmalloc/Blocks.antt =====
-- The block list of a heap: the headers met by a walk from one address to another.
use ap_pa.Base.{ℕ, ◌+◌, ◌*◌, ◌≤◌, ◌<◌, ◌≡◌, refl, ◌∙◌, true, List, [], ◌∷◌, ◌++◌, arith, length}
use ap_pa.Kmalloc.{Header, header, Mem, heap_start, heap_end, heap_size, rounds, kmalloc_init}

abbrev pub span : List Header → ℕ
span [] = 0
span (h ∷ bs) = h.size + span bs

-- From `a` the sizes lead through the headers `bs` to `c`, and each block holds its header.
abbrev pub Blocks : Mem → ℕ → List Header → ℕ → Type 0
Blocks m a [] c = a ≡ c
Blocks m a (h ∷ bs) c = (m a ≡ h) × (8 ≤ h.size) × Blocks m (a + h.size) bs c

-- The blocks tile the heap.
abbrev pub IsHeap : Mem → List Header → Type 0
IsHeap m bs = Blocks m heap_start bs heap_end

pub Blocks-span : (m : Mem) (a : ℕ) (bs : List Header) (c : ℕ) → Blocks m a bs c → a + span bs ≡ c
Blocks-span m a [] c w = omega arith
Blocks-span m a (h ∷ bs) c w = omega (arith, Blocks-span m (a + h.size) bs c w.2)

pub length-le-span :
    (m : Mem) (a : ℕ) (bs : List Header) (c : ℕ) → Blocks m a bs c → 8 * length bs ≤ span bs
length-le-span m a [] c w = omega arith
length-le-span m a (h ∷ bs) c w = omega (arith, length-le-span m (a + h.size) bs c w.2)

-- The fuel of a walk from the start of the heap is enough.
pub length-lt-rounds : (m : Mem) (bs : List Header) → IsHeap m bs → length bs < rounds
unfolding rounds
length-lt-rounds m bs w =
    omega (arith, length-le-span m heap_start bs heap_end w, Blocks-span m heap_start bs heap_end w)

pub span-append : (xs ys : List Header) → span (xs ++ ys) ≡ span xs + span ys
span-append [] ys = omega arith
span-append (x ∷ xs) ys = omega (arith, span-append xs ys)

-- A walk is not affected by writes outside it.
pub Blocks-frame :
    (m m' : Mem) (a : ℕ) (bs : List Header) (c : ℕ)
    → Blocks m a bs c
    → ((x : ℕ) → a ≤ x → x < c → m' x ≡ m x)
    → Blocks m' a bs c
Blocks-frame m m' a [] c w same = w
Blocks-frame m m' a (h ∷ bs) c w same = (
  same a (omega arith) (omega (arith, Blocks-span m (a + h.size) bs c w.2)) ∙ w.0,
  w.1,
  Blocks-frame m m' (a + h.size) bs c w.2 (λ x p q. same x (omega arith) q),
)

pub Blocks-append :
    (m : Mem) (a b : ℕ) (xs ys : List Header) (c : ℕ)
    → Blocks m a xs b
    → Blocks m b ys c
    → Blocks m a (xs ++ ys) c
Blocks-append m a b [] ys c v w = rw v w
Blocks-append m a b (x ∷ xs) ys c v w = (v.0, v.1, Blocks-append m (a + x.size) b xs ys c v.2 w)

pub Blocks-prefix :
    (m : Mem) (a : ℕ) (xs ys : List Header) (c : ℕ)
    → Blocks m a (xs ++ ys) c
    → Blocks m a xs (a + span xs)
Blocks-prefix m a [] ys c w = omega arith
Blocks-prefix m a (x ∷ xs) ys c w =
    let e : a + x.size + span xs ≡ a + (x.size + span xs) = omega arith in
    (w.0, w.1, rw e at (Blocks-prefix m (a + x.size) xs ys c w.2))

pub Blocks-suffix :
    (m : Mem) (a : ℕ) (xs ys : List Header) (c : ℕ)
    → Blocks m a (xs ++ ys) c
    → Blocks m (a + span xs) ys c
Blocks-suffix m a [] ys c w = let e : a + 0 ≡ a = omega arith in rw e w
Blocks-suffix m a (x ∷ xs) ys c w =
    let e : a + x.size + span xs ≡ a + (x.size + span xs) = omega arith in
    rw e at (Blocks-suffix m (a + x.size) xs ys c w.2)

-- Blocks in the middle may be replaced by others of the same extent.
pub Blocks-replace :
    (m m' : Mem) (a : ℕ) (xs old new ys : List Header) (c : ℕ)
    → Blocks m a (xs ++ (old ++ ys)) c
    → span new ≡ span old
    → Blocks m' (a + span xs) new (a + span xs + span old)
    → ((x : ℕ) → x < a + span xs → m' x ≡ m x)
    → ((x : ℕ) → a + span xs + span old ≤ x → m' x ≡ m x)
    → Blocks m' a (xs ++ (new ++ ys)) c
Blocks-replace m m' a xs old new ys c w e v below above =
    let tail = Blocks-suffix m (a + span xs) old ys c (Blocks-suffix m a xs (old ++ ys) c w) in
    Blocks-append m' a (a + span xs) xs (new ++ ys) c
      (Blocks-frame m m' a xs (a + span xs) (Blocks-prefix m a xs (old ++ ys) c w)
        (λ x p q. below x q))
      (Blocks-append m' (a + span xs) (a + span xs + span old) new ys c v
        (Blocks-frame m m' (a + span xs + span old) ys c tail (λ x p q. above x p)))

-- After `kmalloc_init` the heap is one free block, whatever the memory held.
pub kmalloc_init-IsHeap : (m : Mem) → IsHeap (kmalloc_init m) (header heap_size true ∷ [])
unfolding kmalloc_init
kmalloc_init-IsHeap m = (refl, omega arith, refl)
