-- ===== src/SimpleFs/Data.antt =====
-- The data blocks of a file: what `write_loop` stores, and what `read_loop` makes of it.
use ap_pa.Base.{
  ℕ, zero, suc, ◌+◌, ◌-◌, ◌*◌, ◌^◌, ◌≤◌, ◌<◌, ◌≡◌, ◌⊎◌, inl, inr, refl, ap, sym, ◌∙◌, Bool, true,
  false, List, [], ◌∷◌, ◌++◌, Option, none, some, ltb, if◌then◌else◌, length, take, drop, replicate,
  add32, min, length-append, length-take, length-drop, length-replicate, take-append, arith,
  if_true, if_false, Bool-cases,
}
use std.Path.{subst}
use ap_pa.SimpleFs.{Block, BlockDevice, Fs, block_size}
use ap_pa.SimpleFs.Device.{IsDevice}
use ap_pa.SimpleFs.Files.{write_loop, read_loop}

abbrev pub chunk : ℕ → ℕ
chunk remaining = if ltb block_size remaining then block_size else remaining

chunk-min : (r : ℕ) → chunk r ≡ min 512 r
chunk-min r = ground arith

-- The block that is written.
abbrev piece : List ℕ → ℕ → Block
piece src c = if ltb c block_size then take c src ++ replicate (512 - c) 0 else take 512 src

take-drop_append :
    (c m r : ℕ) (src : List ℕ) → c + m ≡ r → take c src ++ take m (drop c src) ≡ take r src
take-drop_append zero m r src h = ap (λ n. take n src) (omega arith)
take-drop_append (suc c) m zero src h = absurd (omega arith)
take-drop_append (suc c) m (suc r) [] h = take_nil m
  where
    take_nil : (n : ℕ) → take {A = ℕ} n [] ≡ []
    take_nil zero = refl
    take_nil (suc n) = refl
take-drop_append (suc c) m (suc r) (x ∷ src) h =
    ap (λ l. x ∷ l) (take-drop_append c m r src (omega arith))

length-piece : (src : List ℕ) (c : ℕ) → c ≤ 512 → c ≤ length src → length (piece src c) ≡ 512
length-piece src c h g = elim (Bool-cases (ltb c 512)) [
  | inl part ↦
      ap length (if_true (ltb c 512) (take c src ++ replicate (512 - c) 0) (take 512 src) part)
      ∙ omega (
        arith,
        length-append (take c src) (replicate (512 - c) 0),
        length-take c src,
        length-replicate {A = ℕ} (512 - c) 0,
      )
  | inr whole ↦
      let all : c ≡ 512 = ground arith in
      ap length (if_false (ltb c 512) (take c src ++ replicate (512 - c) 0) (take 512 src) whole)
      ∙ omega (arith, length-take 512 src)
]

take-piece : (src : List ℕ) (c : ℕ) → c ≤ 512 → c ≤ length src → take c (piece src c) ≡ take c src
take-piece src c h g = elim (Bool-cases (ltb c 512)) [
  | inl part ↦
      ap (take c) (if_true (ltb c 512) (take c src ++ replicate (512 - c) 0) (take 512 src) part)
      ∙ take-append c (take c src) (replicate (512 - c) 0) (omega (arith, length-take c src))
  | inr whole ↦
      let all : c ≡ 512 = ground arith in
      ap (take c) (if_false (ltb c 512) (take c src ++ replicate (512 - c) 0) (take 512 src) whole)
      ∙ ap (λ n. take n (take 512 src)) all
      ∙ take_take 512 src
      ∙ ap (λ n. take n src) (sym all)
]
  where
    take_take : (n : ℕ) (xs : List ℕ) → take n (take n xs) ≡ take n xs
    take_take zero xs = refl
    take_take (suc n) [] = refl
    take_take (suc n) (x ∷ xs) = ap (λ l. x ∷ l) (take_take n xs)

module _ {D : Type 0} (io : BlockDevice D) where
  -- The `k` blocks from `c` on hold the first `remaining` bytes of `src`.
  abbrev pub Stored : D → (k c : ℕ) → (src : List ℕ) → (remaining : ℕ) → Type 0
  Stored d zero c src remaining = Unit
  Stored d (suc k) c src remaining =
      ((x : Block) × (io.read d c ≡ some x)
        × (take (chunk remaining) x ≡ take (chunk remaining) src))
      × Stored d k (c + 1) (drop (chunk remaining) src) (remaining - chunk remaining)

  pub Stored-kept :
      (d d' : D) (k c : ℕ) (src : List ℕ) (remaining : ℕ)
      → ((b : ℕ) → c ≤ b → b < c + k → io.read d' b ≡ io.read d b)
      → Stored d k c src remaining
      → Stored d' k c src remaining
  Stored-kept d d' zero c src r same h = tt
  Stored-kept d d' (suc k) c src r same ((x, e, t), h) = (
    (x, same c (omega arith) (omega arith) ∙ e, t),
    Stored-kept d d' k (c + 1) (drop (chunk r) src) (r - chunk r)
        (λ b le lt. same b (omega arith) (omega arith)) h,
  )

  pub read_loop-Stored :
      (k : ℕ) (s : Fs D) (start i : ℕ) (src : List ℕ) (remaining : ℕ)
      → s.superblock.data_start_block ≡ 3
      → 3 + start + i + k < 2 ^ 32
      → remaining ≤ 512 * k
      → Stored s.dev k (3 + start + i) src remaining
      → read_loop io k s start i remaining ≡ some (take remaining src)
  unfolding read_loop
  read_loop-Stored zero s start i src r three small le h =
      let empty : r ≡ 0 = omega arith in ap (λ n. some (take n src)) (sym empty)
  read_loop-Stored (suc k) s start i src r three small le ((x, e, t), h) =
      let c = chunk r in
      let at : add32 (add32 s.superblock.data_start_block start) i ≡ 3 + start + i =
        omega (arith, three) in
      let next : 3 + start + (i + 1) ≡ 3 + start + i + 1 = omega arith in
      let rest =
        read_loop-Stored k s start (i + 1) (drop c src) (r - c) three (omega arith)
          (omega (arith, chunk-min r))
          (subst (λ b. Stored s.dev k b (drop c src) (r - c)) (sym next) h) in
      ap
        (λ o. elim o as (λ o. Option (List ℕ)) [
          | none ↦ none
          | some b ↦ elim (read_loop io k s start (i + 1) (r - c)) as (λ o. Option (List ℕ)) [
            | none ↦ none
            | some bytes ↦ some (take c b ++ bytes)
          ]
        ])
        (ap (io.read s.dev) at ∙ e)
      ∙ ap
          (λ o. elim o as (λ o. Option (List ℕ)) [
            | none ↦ none
            | some bytes ↦ some (take c x ++ bytes)
          ])
          rest
      ∙ ap (λ l. some (l ++ take (r - c) (drop c src))) t
      ∙ ap some (take-drop_append c (r - c) r src (omega (arith, chunk-min r)))

-- What `write_loop` leaves.
pub record DataWritten {D : Type 0} (io : BlockDevice D) (V : D → Type 0) (n : ℕ) (d d' : D)
    (c k : ℕ) (src : List ℕ) (size : ℕ) : Type 0 where
  pub valid : V d'
  pub stored : Stored io d' k c src size
  pub kept : (b : ℕ) → b < n → (b < c) ⊎ (c + k ≤ b) → io.read d' b ≡ io.read d b

module _ {D : Type 0} {io : BlockDevice D} {V : D → Type 0} {n : ℕ} (law : IsDevice io V n) where
  pub write_loop-DataWritten :
      (k : ℕ) (s : Fs D) (start i : ℕ) (src : List ℕ) (remaining : ℕ)
      → V s.dev
      → s.superblock.data_start_block ≡ 3
      → 3 + start + i + k ≤ n
      → n < 2 ^ 32
      → remaining ≤ length src
      → (d' : D) × (write_loop io k s start i src remaining ≡ (true, record s { dev = d' }))
        × DataWritten io V n s.dev d' (3 + start + i) k src remaining
  unfolding write_loop
  write_loop-DataWritten zero s start i src r v three room small le =
      (s.dev, refl, record { valid = v; stored = tt; kept = λ b lt off. refl })
  write_loop-DataWritten (suc k) s start i src r v three room small le =
      let c = chunk r in
      let at : add32 (add32 s.superblock.data_start_block start) i ≡ 3 + start + i =
        omega (arith, three) in
      let abs_block = add32 (add32 s.superblock.data_start_block start) i in
      let x = piece src c in
      let (d₁, w, v₁, back, others) =
        law.writes s.dev abs_block x v (omega (arith, at))
          (length-piece src c (omega (arith, chunk-min r)) (omega (arith, chunk-min r))) in
      let s₁ : Fs D = record s { dev = d₁ } in
      let (d', e, done) =
        write_loop-DataWritten k s₁ start (i + 1) (drop c src) (r - c) v₁ three (omega arith) small
          (omega (arith, length-drop c src)) in
      let next : 3 + start + (i + 1) ≡ 3 + start + i + 1 = omega arith in
      (
        d',
        ap
              (λ o. elim o as (λ o. Bool × Fs D) [
                | none ↦ (false, s)
                | some d ↦ write_loop io k (record s { dev = d }) start (i + 1) (drop c src) (r - c)
              ])
              w
            ∙ e,
        record {
          valid = done.valid;
          stored = (
            (
              x,
              done.kept (3 + start + i) (omega arith) (inl (omega arith))
                  ∙ ap (io.read d₁) (sym at)
                  ∙ back,
              take-piece src c (omega (arith, chunk-min r)) (omega (arith, chunk-min r)),
            ),
            subst (λ b. Stored io d' k b (drop c src) (r - c)) next done.stored,
          );
          kept = λ b lt off.
              done.kept b lt
                (elim off as (λ o. (b < 3 + start + (i + 1)) ⊎ (3 + start + (i + 1) + k ≤ b)) [
                  | inl before ↦ inl (omega arith)
                  | inr behind ↦ inr (omega arith)
                ])
              ∙ others b lt (λ q. elim off [
                | inl before ↦ absurd (omega (arith, at))
                | inr behind ↦ absurd (omega (arith, at))
              ]);
        },
      )
