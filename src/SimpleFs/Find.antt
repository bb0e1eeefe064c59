-- ===== src/SimpleFs/Find.antt =====
-- The search of the directory, before and after one entry is written.
use ap_pa.Base.{
  ℕ, zero, suc, ◌+◌, ◌≤◌, ◌<◌, ◌≡◌, ◌≢◌, inl, inr, refl, ap, sym, ◌∙◌, Bool, true, not, ◌&&◌, List,
  Option, none, some, ◌==◌, if◌then◌else◌, arith, if_true, if_false, Bool-cases,
}
use ap_pa.SimpleFs.{BlockDevice, FsEntry, Fs, fs_type_free, same_name, fs_read_entry, find_loop}

-- The entry counts as the one of that name.
abbrev pub matches : FsEntry → List ℕ → Bool
matches e name = not (e.kind == fs_type_free) && same_name e name

module _ {D : Type 0} (io : BlockDevice D) where
  -- What a search has found.
  pub record Found (s : Fs D) (name : List ℕ) (i : ℕ) (k : ℕ) (e : FsEntry) (index : ℕ)
      : Type 0 where
    pub above : i ≤ index
    pub below : index < i + k
    pub entry : fs_read_entry io s index ≡ some e
    pub matched : matches e name ≡ true

  -- One step of the search.
  abbrev pub step :
      Option FsEntry → (name : List ℕ) → ℕ → Option (FsEntry × ℕ) → Option (FsEntry × ℕ)
  step r name i rest = elim r [
    | none ↦ rest
    | some e ↦ if not (e.kind == fs_type_free) && same_name e name then some (e, i) else rest
  ]

  -- A step finds its own entry, or goes on.
  data Step (r : Option FsEntry) (name : List ℕ) (i : ℕ) (rest : Option (FsEntry × ℕ))
      : Option (FsEntry × ℕ) → Type 0 where
    here :
        (e : FsEntry) {o : Option (FsEntry × ℕ)}
        → r ≡ some e
        → matches e name ≡ true
        → o ≡ some (e, i)
        → Step r name i rest o
    beyond :
        {o : Option (FsEntry × ℕ)}
        → o ≡ rest
        → ((rest' : Option (FsEntry × ℕ)) → step r name i rest' ≡ rest')
        → Step r name i rest o

  step-Step :
      (r : Option FsEntry) (name : List ℕ) (i : ℕ) (rest : Option (FsEntry × ℕ))
      → Step r name i rest (step r name i rest)
  step-Step none name i rest = beyond refl (λ rest'. refl)
  step-Step (some e) name i rest = elim (Bool-cases (matches e name)) [
    | inl m ↦ here e refl m (if_true (matches e name) _ _ m)
    | inr m ↦
        beyond (if_false (matches e name) _ _ m) (λ rest'. if_false (matches e name) _ rest' m)
  ]

  pub find_loop-Found :
      (k : ℕ) (s : Fs D) (name : List ℕ) (i : ℕ) (e : FsEntry) (index : ℕ)
      → find_loop io k s name i ≡ some (e, index)
      → Found s name i k e index
  unfolding find_loop
  find_loop-Found zero s name i e index h = absurd cc h
  find_loop-Found (suc k) s name i e index h =
      elim (step-Step (fs_read_entry io s i) name i (find_loop io k s name (i + 1))) [
        | here e' r m o ↦
            let same : e' ≡ e = cc in
            let at : i ≡ index = cc in
            record {
              above = omega arith;
              below = omega arith;
              entry = ap (fs_read_entry io s) (sym at) ∙ r ∙ ap some same;
              matched = ap (λ x. matches x name) (sym same) ∙ m;
            }
        | beyond o _ ↦
            let f = find_loop-Found k s name (i + 1) e index (sym o ∙ h) in
            record {
              above = omega (arith, f.above);
              below = omega (arith, f.below);
              entry = f.entry;
              matched = f.matched;
            }
      ]

  -- After a change of the entry that was found, to one of that name, the search finds the new one.
  pub find_loop-changed :
      (k : ℕ) (s s' : Fs D) (name : List ℕ) (i : ℕ) (e e' : FsEntry) (index : ℕ)
      → find_loop io k s name i ≡ some (e, index)
      → i + k ≤ 32
      → ((j : ℕ) → j < 32 → j ≢ index → fs_read_entry io s' j ≡ fs_read_entry io s j)
      → fs_read_entry io s' index ≡ some e'
      → matches e' name ≡ true
      → find_loop io k s' name i ≡ some (e', index)
  unfolding find_loop
  find_loop-changed zero s s' name i e e' index h le others new m = absurd cc h
  find_loop-changed (suc k) s s' name i e e' index h le others new m =
      elim (step-Step (fs_read_entry io s i) name i (find_loop io k s name (i + 1))) [
        | here e₀ r _ o ↦
            let at : i ≡ index = cc in
            ap (λ x. step x name i (find_loop io k s' name (i + 1)))
              (ap (fs_read_entry io s') at ∙ new)
            ∙ if_true (matches e' name) _ _ m
            ∙ ap (λ x. some (e', x)) at
        | beyond o skip ↦
            let f = find_loop-Found k s name (i + 1) e index (sym o ∙ h) in
            ap (λ x. step x name i (find_loop io k s' name (i + 1)))
              (others i (omega arith) (omega (arith, f.above)))
            ∙ skip (find_loop io k s' name (i + 1))
            ∙ find_loop-changed k s s' name (i + 1) e e' index (sym o ∙ h) (omega arith) others new
                m
      ]
