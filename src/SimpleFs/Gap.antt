-- ===== src/SimpleFs/Gap.antt =====
-- The blocks that `fs_alloc_blocks` gives out lie in the data area.
use ap_pa.Base.{
  ℕ, zero, suc, ◌+◌, ◌/◌, ◌≤◌, ◌<◌, ◌≡◌, ◌≢◌, inl, inr, refl, sym, ◌∙◌, Bool, true, false, not,
  ◌&&◌, List, ltb, leb, ◌==◌, if◌then◌else◌, get_or, replicate, sub32, arith, if_true, if_false,
  Bool-cases, ==_iff, ==_ne,
}
use std.Path.{subst}
use ap_pa.SimpleFs.{BlockDevice, Fs}
use ap_pa.SimpleFs.Alloc.{no_blocks, gap_loop, all_marks, fs_alloc_blocks}

-- A run of `count` blocks from `r` on, found at a block of the first 1024 before `last`.
pub record IsGap (r count last : ℕ) : Type 0 where
  pub inside : r + count ≤ last
  pub low : r < 1024

-- The run of free blocks, one block further.
run_next :
    (taken : Bool) (b c start : ℕ)
    → (c ≢ 0 → start + c ≡ b)
    → (if taken then 0 else c + 1) ≢ 0
    → (if not taken && c == 0 then b else start) + (if taken then 0 else c + 1) ≡ b + 1
run_next true b c start run ne = absurd (ne refl)
run_next false b c start run ne = elim (Bool-cases (c == 0)) [
  | inl zero_run ↦ omega (arith, (==_iff c 0).0 zero_run, if_true (c == 0) b start zero_run)
  | inr longer ↦ omega (arith, run (==_ne c 0 longer), if_false (c == 0) b start longer)
]

next_small : (taken : Bool) (b c : ℕ) → c ≤ b → (if taken then 0 else c + 1) ≤ b + 1
next_small true b c h = omega arith
next_small false b c h = omega arith

count_met : (taken : Bool) (c' count : ℕ) → (not taken && c' == count) ≡ true → c' ≡ count
count_met true c' count h = absurd cc h
count_met false c' count h = (==_iff c' count).0 h

gap_loop-IsGap :
    (k b c start count : ℕ) (used : List Bool)
    → (c ≢ 0 → start + c ≡ b)
    → c ≤ b
    → count ≢ 0
    → gap_loop k b c start count used ≢ no_blocks
    → IsGap (gap_loop k b c start count used) count (b + k)
unfolding gap_loop
gap_loop-IsGap zero b c start count used run small many ne = absurd (ne refl)
gap_loop-IsGap (suc k) b c start count used run small many ne =
    let taken = get_or used b false in
    let start' = if not taken && c == 0 then b else start in
    let c' = if taken then 0 else c + 1 in
    let rest = gap_loop k (b + 1) c' start' count used in
    let out = leb 128 (b / 8) in
    let met = not taken && c' == count in
    elim (Bool-cases out) [
      | inl far ↦ absurd (ne (if_true out _ _ far))
      | inr within ↦ elim (Bool-cases met) [
        | inl found ↦
            let here : IsGap start' count (b + suc k) =
              let full = count_met taken c' count found in
              let sum = run_next taken b c start run (λ z. many (sym full ∙ z)) in
              record { inside = omega (arith, full, sum); low = ground (arith, full, sum) } in
            subst (λ r. IsGap r count (b + suc k))
              (sym (if_false out _ _ within ∙ if_true met start' rest found)) here
        | inr go_on ↦
            let e =
              if_false out no_blocks (if met then start' else rest) within
              ∙ if_false met start' rest go_on in
            let more =
              gap_loop-IsGap k (b + 1) c' start' count used (run_next taken b c start run)
                (next_small taken b c small) many (λ z. ne (e ∙ z)) in
            subst (λ r. IsGap r count (b + suc k)) (sym e)
              (record { inside = omega (arith, more.inside); low = more.low })
      ]
    ]

pick-IsGap :
    (count free_blocks data_blocks : ℕ) (used : List Bool)
    → let r =
        if count == 0
        then no_blocks
        else if ltb free_blocks count
        then no_blocks
        else gap_loop data_blocks 0 0 0 count used in
      r ≢ no_blocks → IsGap r count data_blocks
pick-IsGap count free_blocks data_blocks used ne = elim (Bool-cases (count == 0)) [
  | inl z ↦ absurd (ne (if_true (count == 0) _ _ z))
  | inr many ↦ elim (Bool-cases (ltb free_blocks count)) [
    | inl f ↦ absurd (ne (if_false (count == 0) _ _ many ∙ if_true (ltb free_blocks count) _ _ f))
    | inr f ↦
        let rest = gap_loop data_blocks 0 0 0 count used in
        let e =
          if_false (count == 0) no_blocks (if ltb free_blocks count then no_blocks else rest) many
          ∙ if_false (ltb free_blocks count) no_blocks rest f in
        let gap =
          gap_loop-IsGap data_blocks 0 0 0 count used (λ z. absurd (z refl)) (omega arith)
            (==_ne count 0 many) (λ z. ne (e ∙ z)) in
        subst (λ r. IsGap r count data_blocks) (sym e)
          (record { inside = omega (arith, gap.inside); low = gap.low })
  ]
]

-- What `fs_alloc_blocks` returns lies in the data area.
pub fs_alloc_blocks-IsGap :
    {D : Type 0} (io : BlockDevice D) (s : Fs D) (count : ℕ)
    → fs_alloc_blocks io s count ≢ no_blocks
    → IsGap
        (fs_alloc_blocks io s count)
        count
        (sub32 s.superblock.total_blocks s.superblock.data_start_block)
unfolding fs_alloc_blocks
fs_alloc_blocks-IsGap io s count ne =
    let data_blocks = sub32 s.superblock.total_blocks s.superblock.data_start_block in
    pick-IsGap count s.superblock.free_blocks data_blocks
      (all_marks io 32 s 0 data_blocks (replicate 1024 false)) ne
