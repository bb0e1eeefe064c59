-- ===== src/Kmalloc/Order.antt =====
-- What the operations keep of the block list: no two free blocks are neighbours, and sizes stay
-- multiples of 4. Freeing what was just allocated gives the block list back.
use ap_pa.Base.{
  ℕ, ◌+◌, ◌-◌, ◌%◌, ◌≡◌, refl, ap, true, false, ◌&&◌, List, [], ◌∷◌, ◌++◌, arith, leb,
  if◌then◌else◌,
}
use ap_pa.Kmalloc.{Header, header}
use ap_pa.Kmalloc.Search.{Fits}
use ap_pa.Kmalloc.Alloc.{carve}
use ap_pa.Kmalloc.Free.{joined, after, attach, release}

-- No free block stands next to another.
abbrev pub Coalesced : List Header → Type 0
Coalesced [] = Unit
Coalesced (h ∷ []) = Unit
Coalesced (h ∷ g ∷ bs) = ((h.is_free && g.is_free) ≡ false) × Coalesced (g ∷ bs)

abbrev pub Aligned : List Header → Type 0
Aligned [] = Unit
Aligned (h ∷ bs) = (h.size % 4 ≡ 0) × Aligned bs

pub carve-Coalesced :
    (total : ℕ) (xs : List Header) (h : Header) (ys : List Header)
    → h.is_free ≡ true
    → Coalesced (xs ++ h ∷ ys)
    → Coalesced (xs ++ (carve total h ++ ys))
unfolding carve
carve-Coalesced total [] h [] free c = ground arith
carve-Coalesced total [] h (y ∷ ys) free c = ground arith
carve-Coalesced total (x ∷ []) h ys free c = ground (arith, carve-Coalesced total [] h ys free c.1)
carve-Coalesced total (x ∷ x' ∷ xs) h ys free c =
    (c.0, carve-Coalesced total (x' ∷ xs) h ys free c.1)

attach-Coalesced :
    (xs : List Header) (h b : Header) (bs : List Header)
    → Coalesced (xs ++ h ∷ [])
    → b.is_free ≡ true
    → Coalesced (b ∷ bs)
    → Coalesced (attach xs b bs)
unfolding attach
attach-Coalesced [] h b bs c free d = d
attach-Coalesced (x ∷ []) h b [] c free d = ground arith
attach-Coalesced (x ∷ []) h b (y ∷ bs) c free d = ground arith
attach-Coalesced (x ∷ x' ∷ []) h b [] c free d = ground arith
attach-Coalesced (x ∷ x' ∷ []) h b (y ∷ bs) c free d = ground arith
attach-Coalesced (x ∷ x' ∷ x'' ∷ xs) h b bs c free d =
    (c.0, attach-Coalesced (x' ∷ x'' ∷ xs) h b bs c.1 free d)

Coalesced-prefix :
    (xs : List Header) (h : Header) (ys : List Header)
    → Coalesced (xs ++ h ∷ ys)
    → Coalesced (xs ++ h ∷ [])
Coalesced-prefix [] h ys c = tt
Coalesced-prefix (x ∷ []) h ys c = (c.0, tt)
Coalesced-prefix (x ∷ x' ∷ xs) h ys c = (c.0, Coalesced-prefix (x' ∷ xs) h ys c.1)

Coalesced-suffix :
    (xs : List Header) (h : Header) (ys : List Header)
    → Coalesced (xs ++ h ∷ ys)
    → Coalesced (h ∷ ys)
Coalesced-suffix [] h ys c = c
Coalesced-suffix (x ∷ []) h ys c = c.1
Coalesced-suffix (x ∷ x' ∷ xs) h ys c = Coalesced-suffix (x' ∷ xs) h ys c.1

joined-Coalesced :
    (h : Header) (ys : List Header)
    → Coalesced (h ∷ ys)
    → ((joined h ys).is_free ≡ true) × Coalesced (joined h ys ∷ after ys)
unfolding joined after
joined-Coalesced h [] c = (refl, tt)
joined-Coalesced h (g ∷ []) c = ground arith
joined-Coalesced h (g ∷ g' ∷ gs) c = ground arith

pub release-Coalesced :
    (xs : List Header) (h : Header) (ys : List Header)
    → Coalesced (xs ++ h ∷ ys)
    → Coalesced (release xs h ys)
unfolding release
release-Coalesced xs h ys c =
    let (free, d) = joined-Coalesced h ys (Coalesced-suffix xs h ys c) in
    attach-Coalesced xs h (joined h ys) (after ys) (Coalesced-prefix xs h ys c) free d

-- In a coalesced heap the block before a free block is in use, so nothing absorbs what takes its
-- place.
attach-used :
    (xs : List Header) (h : Header) (ys : List Header) (b : Header) (bs : List Header)
    → h.is_free ≡ true
    → Coalesced (xs ++ h ∷ ys)
    → attach xs b bs ≡ xs ++ b ∷ bs
unfolding attach
attach-used [] h ys b bs free c = refl
attach-used (x ∷ []) h ys b bs free c = ground arith
attach-used (x ∷ x' ∷ xs) h ys b bs free c =
    ap (λ l. x ∷ l) (attach-used (x' ∷ xs) h ys b bs free c.1)

header_eta : (h : Header) (n : ℕ) → h.is_free ≡ true → n ≡ h.size → header n true ≡ h
header_eta h n free e = ground arith

-- The block that `carve` gives out, and what it leaves behind it.
pub carved : ℕ → Header → Header
carved total h = if leb (total + 24) h.size then header total false else header h.size false

pub left : ℕ → Header → List Header
left total h = if leb (total + 24) h.size then header (h.size - total) true ∷ [] else []

pub carve-cons : (total : ℕ) (h : Header) → carve total h ≡ carved total h ∷ left total h
unfolding carve carved left
carve-cons total h = ground arith

joined-carved :
    (total : ℕ) (h : Header) (ys : List Header)
    → Fits total h
    → Coalesced (h ∷ ys)
    → (joined (carved total h) (left total h ++ ys) ≡ h) × (after (left total h ++ ys) ≡ ys)
unfolding carved left joined after
joined-carved total h [] fit c = ground arith
joined-carved total h (y ∷ ys) fit c = ground arith

pub release-carve :
    (total : ℕ) (xs : List Header) (h : Header) (ys : List Header)
    → Fits total h
    → Coalesced (xs ++ h ∷ ys)
    → release xs (carved total h) (left total h ++ ys) ≡ xs ++ h ∷ ys
unfolding release
release-carve total xs h ys fit c =
    let (j, r) = joined-carved total h ys fit (Coalesced-suffix xs h ys c) in
    rw (j, r) (attach-used xs h ys h ys fit.0 c)
