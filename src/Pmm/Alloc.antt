-- ===== src/Pmm/Alloc.antt =====
-- `alloc_page`, `alloc_pages` and `free_page` against the set of used frames.
use ap_pa.Base.{
  ℕ, zero, suc, ◌+◌, ◌*◌, ◌/◌, ◌%◌, ◌≤◌, ◌<◌, ◌≡◌, ◌≢◌, refl, true, false, ◌&&◌, inl, inr, Option,
  none, some, arith, ltb, leb, ◌==◌, if◌then◌else◌, Bool-cases, mul32, ==_iff, ==_ne,
}
use native.Mathlib.Decide.{ℕ_discrete}
use ap_pa.Pmm.{
  Pmm, page_size, total_frames, set_frame, clear_frame, test_frame, first_free_frame, set_frames,
  alloc_page, run_loop, alloc_pages, Report, not_aligned, out_of_range, double_free, freed,
  free_page,
}
use ap_pa.Pmm.Frames.{test-set_frame, test-clear_frame}
use ap_pa.Pmm.Count.{IsPmm, set_frame-IsPmm, clear_frame-IsPmm, count_add, count_drop}
use ap_pa.Pmm.Scan.{
  AllUsed, AllFree, first_free_frame-IsFirstFree, Run, no_run, first_run, run_loop-first,
}

-- `count` frames from `s` on were free, and in `p'` they are used; all else is as in `p`.
pub record Takes (p : Pmm) (s count : ℕ) (p' : Pmm) : Type 0 where
  pub in_range : s + count ≤ 4096
  pub were_free : AllFree p s (s + count)
  pub valid : IsPmm p'
  pub marked :
      (g : ℕ) → test_frame p' g ≡ (if leb s g && ltb g (s + count) then true else test_frame p g)
  pub counted : p'.used_frames ≡ p.used_frames + count

set_frame-Takes :
    {p : Pmm} → IsPmm p → (f : ℕ) → f < 4096 → test_frame p f ≡ false → Takes p f 1 (set_frame p f)
set_frame-Takes {p} v f lt free = record {
  in_range = omega arith;
  were_free = λ g lo hi. let e : g ≡ f = omega arith in rw e free;
  valid = set_frame-IsPmm v f lt free;
  marked = λ g. ground (arith, test-set_frame v.bitmap f lt g);
  counted = omega (
    arith,
    v.counted,
    (set_frame-IsPmm v f lt free).counted,
    count_add 4096 f (test_frame p) (test_frame (set_frame p f)) lt free
        (test-set_frame v.bitmap f lt),
  );
}

pub set_frames-Takes :
    (k f : ℕ) {p : Pmm}
    → IsPmm p
    → f + k ≤ 4096
    → AllFree p f (f + k)
    → Takes p f k (set_frames k f p)
unfolding set_frames
set_frames-Takes zero f v inside free = record {
  in_range = inside;
  were_free = free;
  valid = v;
  marked = λ g. ground arith;
  counted = omega arith;
}
set_frames-Takes (suc k) f {p} v inside free =
    let one = set_frame-Takes v f (omega arith) (free f (omega arith) (omega arith)) in
    let rest =
      set_frames-Takes k (f + 1) one.valid (omega arith)
        (λ g lo hi. ground (arith, one.marked g, free g)) in
    record {
      in_range = inside;
      were_free = free;
      valid = rest.valid;
      marked = λ g. ground (arith, rest.marked g, one.marked g);
      counted = omega (arith, rest.counted, one.counted);
    }

-- What `alloc_page` returns.
pub data PageAlloc (p : Pmm) : ℕ → Pmm → Type 0 where
  exhausted : {a : ℕ} {p' : Pmm} → a ≡ 0 → p' ≡ p → AllUsed p 0 4096 → PageAlloc p a p'
  page :
      (f : ℕ) {a : ℕ} {p' : Pmm} → a ≡ f * 4096 → AllUsed p 0 f → Takes p f 1 p' → PageAlloc p a p'

-- On a valid state `alloc_page` takes the lowest free frame, returns its address and marks that
-- frame and no other; if no frame is free it returns 0 and changes nothing.
pub alloc_page-PageAlloc : {p : Pmm} → IsPmm p → PageAlloc p (alloc_page p).0 (alloc_page p).1
unfolding alloc_page
alloc_page-PageAlloc {p} v =
    let first = first_free_frame-IsFirstFree v.bitmap in
    elim (Bool-cases (first_free_frame p == total_frames)) [
      | inl none_free ↦
          let e : first_free_frame p ≡ 4096 = (==_iff _ _).0 none_free in
          rw none_free (exhausted refl refl (rw e at first.before))
      | inr found ↦
          let lt : first_free_frame p < 4096 = omega (arith, first.le, ==_ne _ _ found) in
          let free : test_frame p (first_free_frame p) ≡ false = elim first.ends [
            | inl end ↦ absurd (omega arith)
            | inr is_free ↦ is_free
          ] in
          rw found (
            page (first_free_frame p) (omega arith) first.before
              (set_frame-Takes v (first_free_frame p) lt free))
    ]

-- What `alloc_pages` returns.
pub data PagesAlloc (p : Pmm) (count : ℕ) : ℕ → Pmm → Type 0 where
  refused :
      {a : ℕ} {p' : Pmm}
      → a ≡ 0
      → p' ≡ p
      → ((s : ℕ) → s + count ≤ 4096 → AllFree p s (s + count) → ⊥)
      → PagesAlloc p count a p'
  pages :
      (s : ℕ) {a : ℕ} {p' : Pmm}
      → a ≡ s * 4096
      → ((t : ℕ) → t < s → AllFree p t (t + count) → ⊥)
      → Takes p s count p'
      → PagesAlloc p count a p'

module _ {p : Pmm} (v : IsPmm p) (count : ℕ) where
  from_page : {a : ℕ} {p' : Pmm} → count ≡ 1 → PageAlloc p a p' → PagesAlloc p count a p'
  from_page one (exhausted zero_addr same used) =
      refused zero_addr same (λ s inside free.
        cc (used s (omega arith) (omega arith), free s (omega arith) (omega arith)))
  from_page one (page f at used takes) =
      pages f at
        (λ t before free. cc (used t (omega arith) before, free t (omega arith) (omega arith)))
        (rw one takes)

  from_Run :
      (o : Option ℕ)
      → Run p count o
      → (q : ℕ × Pmm)
      → q
        ≡ elim o [ none ↦ (0, p) | some start ↦ (mul32 start page_size, set_frames count start p) ]
      → PagesAlloc p count q.0 q.1
  from_Run o (no_run nothing) q e = rw e (refused refl refl nothing)
  from_Run o (first_run s inside free before) q e =
      rw e (pages s (omega arith) before (set_frames-Takes count s v inside free))

  -- On a valid state `alloc_pages` for one page or more takes the first run of that many free
  -- frames, returns the address of the first and marks exactly those frames; if there is no such
  -- run it returns 0 and changes nothing.
  pub alloc_pages-PagesAlloc :
      0 < count → PagesAlloc p count (alloc_pages p count).0 (alloc_pages p count).1
  unfolding alloc_pages
  alloc_pages-PagesAlloc pos =
      let some_page : (count == 0) ≡ false = ground arith in
      elim (Bool-cases (count == 1)) [
        | inl one ↦ rw (some_page, one) (from_page (ground arith) (alloc_page-PageAlloc v))
        | inr more ↦
            rw (some_page, more)
              (from_Run (run_loop p.total_frames p count 0 0 0)
                (run_loop-first p count v.bitmap pos) _ refl)
      ]

-- What `free_page` reports and does.
pub data PageFree (p : Pmm) (addr : ℕ) : Report → Pmm → Type 0 where
  misaligned : addr % 4096 ≢ 0 → PageFree p addr not_aligned p
  beyond : 4096 * 4096 ≤ addr → PageFree p addr out_of_range p
  already :
      addr % 4096 ≡ 0
      → addr / 4096 < 4096
      → test_frame p (addr / 4096) ≡ false
      → PageFree p addr double_free p
  releases :
      {p' : Pmm}
      → addr % 4096 ≡ 0
      → addr / 4096 < 4096
      → test_frame p (addr / 4096) ≡ true
      → IsPmm p'
      → ((g : ℕ) → test_frame p' g ≡ (if addr / 4096 == g then false else test_frame p g))
      → p'.used_frames + 1 ≡ p.used_frames
      → PageFree p addr freed p'

-- On a valid state `free_page` clears the bit of a used frame of the memory, given its address, and
-- changes nothing else; it refuses an address that is not aligned, an aligned one past the
-- memory, before it looks at a bit of the bitmap, and the address of a free frame of the memory, and
-- then changes nothing.
pub free_page-PageFree :
    {p : Pmm} → IsPmm p → (addr : ℕ) → PageFree p addr (free_page p addr).0 (free_page p addr).1
unfolding free_page
free_page-PageFree {p} v addr =
    let f = addr / 4096 in
    elim (Bool-cases (addr % 4096 == 0)) [
      | inr odd ↦ rw odd (misaligned (ground arith))
      | inl aligned ↦
          let zero_rest : addr % 4096 ≡ 0 = ground arith in
          elim (Bool-cases (leb p.total_frames f)) [
            | inl past ↦ rw (aligned, past) (beyond (ground (arith, v.bitmap.frames)))
            | inr inside ↦
                let lt : f < 4096 = ground (arith, v.bitmap.frames) in
                elim (Bool-cases (test_frame p f)) [
                  | inr free ↦ rw (aligned, inside, free) (already zero_rest lt free)
                  | inl used ↦
                      rw (aligned, inside, used)
                        (let valid = clear_frame-IsPmm v f lt used in
                          let marks = test-clear_frame v.bitmap f lt in
                          releases zero_rest lt used valid marks (
                            omega (
                              arith,
                              v.counted,
                              valid.counted,
                              count_drop 4096 f (test_frame p) (test_frame (clear_frame p f)) lt
                                  used marks,
                            )))
                ]
          ]
    ]

-- On a valid state in which frame 0 is used, as `pmm_init` leaves it, `free_page` accepts address 0.
-- `alloc_page` then takes frame 0 again, counts it as used, and returns 0, which means failure.
pub alloc_page-zero :
    {p : Pmm}
    → IsPmm p
    → test_frame p 0 ≡ true
    → let (report, p') = free_page p 0 in
      let (a, p'') = alloc_page p' in
      (report ≡ freed)
      × (a ≡ 0)
      × (p'.used_frames + 1 ≡ p.used_frames)
      × (p''.used_frames ≡ p.used_frames)
alloc_page-zero {p} v used = freed_zero (free_page p 0).0 (free_page p 0).1 (free_page-PageFree v 0)
  where
    taken :
        (p' : Pmm) (a : ℕ) (p'' : Pmm)
        → test_frame p' 0 ≡ false
        → PageAlloc p' a p''
        → (a ≡ 0) × (p''.used_frames ≡ p'.used_frames + 1)
    taken p' a p'' free (exhausted zero_addr same all_used) =
        cc (free, all_used 0 (omega arith) (omega arith))
    taken p' a p'' free (page f at all_used takes) = elim (ℕ_discrete f 0) [
      | yes e ↦ (omega arith, takes.counted)
      | no ne ↦ cc (free, all_used 0 (omega arith) (omega arith))
    ]

    freed_zero :
        (r : Report) (p' : Pmm)
        → PageFree p 0 r p'
        → let (a, p'') = alloc_page p' in
          (r ≡ freed)
          × (a ≡ 0)
          × (p'.used_frames + 1 ≡ p.used_frames)
          × (p''.used_frames ≡ p.used_frames)
    freed_zero r p' (misaligned ne) = absurd (ne refl)
    freed_zero r p' (beyond past) = absurd (omega arith)
    freed_zero r p' (already aligned inside free) = cc (used, free)
    freed_zero r p' (releases aligned inside was_used valid marks counted) =
        let (e, n) =
          taken p' (alloc_page p').0 (alloc_page p').1 (marks 0) (alloc_page-PageAlloc valid) in
        (refl, e, counted, omega arith)
