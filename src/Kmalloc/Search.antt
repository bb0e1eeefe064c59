-- ===== src/Kmalloc/Search.antt =====
-- The scan of `kmalloc` ends, and finds the smallest block that suits the request.
use ap_pa.Base.{
  ℕ, zero, suc, ◌+◌, ◌≤◌, ◌<◌, ◌≡◌, refl, ap, true, false, ◌&&◌, inl, inr, some, List, [], ◌∷◌,
  ◌++◌, arith, length, ltb, ◌==◌, if◌then◌else◌, Bool-cases, add32, null,
}
use ap_pa.Kmalloc.{Header, Mem, heap_start, heap_end, heap_size, suits, rounds, find_loop}
use ap_pa.Kmalloc.Blocks.{span, Blocks, IsHeap, Blocks-span, length-lt-rounds}

abbrev pub Fits : ℕ → Header → Type 0
Fits total h = (h.is_free ≡ true) × (total ≤ h.size)

-- No block that fits is smaller than `n`.
abbrev pub NoneBelow : ℕ → ℕ → List Header → Type 0
NoneBelow total n [] = Unit
NoneBelow total n (h ∷ bs) = (Fits total h → n ≤ h.size) × NoneBelow total n bs

abbrev pub NoneFits : ℕ → List Header → Type 0
NoneFits total [] = Unit
NoneFits total (h ∷ bs) = (Fits total h → ⊥) × NoneFits total bs

NoneBelow-exact : (total n : ℕ) (bs : List Header) → n ≡ total → NoneBelow total n bs
NoneBelow-exact total n [] e = tt
NoneBelow-exact total n (h ∷ bs) e = ((λ f. omega arith), NoneBelow-exact total n bs e)

-- What a scan of the blocks `bs` from `a` returns, begun with the candidate `best`.
pub data Found (total a : ℕ) (bs : List Header) (best best_size : ℕ) : ℕ → Type 0 where
  kept : NoneBelow total best_size bs → Found total a bs best best_size best
  found :
      (xs : List Header) (h : Header) (ys : List Header) {r : ℕ}
      → bs ≡ xs ++ h ∷ ys
      → r ≡ a + span xs
      → Fits total h
      → h.size < best_size
      → NoneBelow total h.size bs
      → Found total a bs best best_size r

module _ (total a : ℕ) (h : Header) (bs : List Header) (best best_size : ℕ) where
  Found-better :
      {r : ℕ}
      → Fits total h
      → h.size < best_size
      → Found total (a + h.size) bs a h.size r
      → Found total a (h ∷ bs) best best_size r
  Found-better fit less (kept low) =
      found [] h bs refl (omega arith) fit less ((λ f. omega arith), low)
  Found-better fit less (found xs g ys e at g_fit g_less low) =
      found (h ∷ xs) g ys (ap (λ l. h ∷ l) e) (omega arith) g_fit (omega arith)
        ((λ f. omega arith), low)

  Found-worse :
      {r : ℕ}
      → (Fits total h → best_size ≤ h.size)
      → Found total (a + h.size) bs best best_size r
      → Found total a (h ∷ bs) best best_size r
  Found-worse bad (kept low) = kept (bad, low)
  Found-worse bad (found xs g ys e at g_fit g_less low) =
      found (h ∷ xs) g ys (ap (λ l. h ∷ l) e) (omega arith) g_fit g_less
        ((λ f. omega (arith, bad f)), low)

suits-Fits : (total : ℕ) (h : Header) → suits total h ≡ true → Fits total h
suits-Fits total h e = ground arith

Fits-suits : (total : ℕ) (h : Header) → Fits total h → suits total h ≡ true
Fits-suits total h f = ground arith

module _ (m : Mem) (total : ℕ) where
  -- One round of the loop, at a block of the heap.
  find_loop-step :
      (k a : ℕ) (h : Header) (best best_size : ℕ)
      → m a ≡ h
      → a + h.size ≤ heap_end
      → 8 ≤ h.size
      → find_loop (suc k) m total a best best_size ≡ (
          if suits total h && ltb h.size best_size
          then (if h.size == total then some a else find_loop k m total (a + h.size) a h.size)
          else find_loop k m total (a + h.size) best best_size)
  unfolding find_loop
  find_loop-step k a h best best_size e fits big =
      let next : add32 a h.size ≡ a + h.size = omega arith in
      let inside : ltb a heap_end ≡ true = ground arith in rw (e, next, inside)

  pub find_loop-Found :
      (bs : List Header) (k a best best_size : ℕ)
      → Blocks m a bs heap_end
      → length bs < k
      → (r : ℕ) × (find_loop k m total a best best_size ≡ some r)
        × Found total a bs best best_size r
  unfolding find_loop
  find_loop-Found [] zero a best best_size w fuel = absurd (omega arith)
  find_loop-Found [] (suc k) a best best_size w fuel =
      let outside : ltb a heap_end ≡ false = ground arith in (best, rw outside, kept tt)
  find_loop-Found (h ∷ bs) zero a best best_size w fuel = absurd (omega arith)
  find_loop-Found (h ∷ bs) (suc k) a best best_size w fuel =
      let end = Blocks-span m (a + h.size) bs heap_end w.2 in
      let step = find_loop-step k a h best best_size w.0 (omega arith) w.1 in
      elim (Bool-cases (suits total h && ltb h.size best_size)) [
        | inr no_gain ↦
            let (r, e, f) = find_loop-Found bs k (a + h.size) best best_size w.2 (omega arith) in
            (r, rw (step, no_gain) e, Found-worse total a h bs best best_size (λ f. ground arith) f)
        | inl gain ↦
            let fit : Fits total h = ground arith in
            let less : h.size < best_size = ground arith in
            elim (Bool-cases (h.size == total)) [
              | inl exact ↦ (
                a,
                rw (step, gain, exact),
                found [] h bs refl (omega arith) fit less
                    ((λ f. omega arith), NoneBelow-exact total h.size bs (ground arith)),
              )
              | inr inexact ↦
                  let (r, e, f) = find_loop-Found bs k (a + h.size) a h.size w.2 (omega arith) in
                  (
                    r,
                    rw (step, gain, inexact) e,
                    Found-better total a h bs best best_size fit less f,
                  )
            ]
      ]

NoneFits-of_NoneBelow :
    (m : Mem) (total n a : ℕ) (bs : List Header)
    → Blocks m a bs heap_end
    → heap_size < n
    → heap_start ≤ a
    → NoneBelow total n bs
    → NoneFits total bs
NoneFits-of_NoneBelow m total n a [] w big lo none_below = tt
NoneFits-of_NoneBelow m total n a (h ∷ bs) w big lo none_below = (
  (λ f. omega (arith, none_below.0 f, Blocks-span m (a + h.size) bs heap_end w.2)),
  NoneFits-of_NoneBelow m total n (a + h.size) bs w.2 big (omega arith) none_below.1,
)

-- The scan of a whole heap: `NULL` if no block fits, and otherwise a smallest one that does.
pub data Best (total : ℕ) (bs : List Header) : ℕ → Type 0 where
  nothing : {r : ℕ} → r ≡ null → NoneFits total bs → Best total bs r
  best :
      (xs : List Header) (h : Header) (ys : List Header) {r : ℕ}
      → bs ≡ xs ++ h ∷ ys
      → r ≡ heap_start + span xs
      → Fits total h
      → NoneBelow total h.size bs
      → Best total bs r

Found-Best :
    (m : Mem) (total : ℕ) (bs : List Header) {r : ℕ}
    → IsHeap m bs
    → Found total heap_start bs null 0xFFFFFFFF r
    → Best total bs r
Found-Best m total bs w (kept low) =
    nothing refl
      (NoneFits-of_NoneBelow m total 0xFFFFFFFF heap_start bs w (omega arith) (omega arith) low)
Found-Best m total bs w (found xs h ys e at fit less low) = best xs h ys e at fit low

pub find_loop-Best :
    (m : Mem) (total : ℕ) (bs : List Header)
    → IsHeap m bs
    → (r : ℕ) × (find_loop rounds m total heap_start null 0xFFFFFFFF ≡ some r) × Best total bs r
find_loop-Best m total bs w =
    let (r, e, f) =
      find_loop-Found m total bs rounds heap_start null 0xFFFFFFFF w (length-lt-rounds m bs w) in
    (r, e, Found-Best m total bs w f)
