-- ===== src/Task/Frame.antt =====
-- The words on the stack of a new task.
use ap_pa.Base.{
  ℕ, ◌-◌, ◌*◌, ◌^◌, ◌≤◌, ◌<◌, ◌≡◌, refl, ap, ◌∙◌, List, [], ◌∷◌, arith, length, sub32, ==_iff,
  ==_false,
}
use ap_pa.Paging.{Mem, set_word}
use ap_pa.Task.{push_all}

-- From `sp` downwards, the words of the frame.
abbrev pub FrameAt : List ℕ → Mem → ℕ → Type 0
FrameAt [] mem sp = Unit
FrameAt (v ∷ vs) mem sp = (mem (sp - 4) ≡ v) × FrameAt vs mem (sp - 4)

push_all-cons :
    (v : ℕ) (vs : List ℕ) (mem : Mem) (sp : ℕ)
    → 4 ≤ sp
    → sp < 2 ^ 32
    → push_all (v ∷ vs) mem sp ≡ push_all vs (set_word mem (sp - 4) v) (sp - 4)
unfolding push_all
push_all-cons v vs mem sp h b =
    let e : sub32 sp 4 ≡ sp - 4 = omega arith in ap (λ sp'. push_all vs (set_word mem sp' v) sp') e

pub push_all_above :
    (vs : List ℕ) (mem : Mem) (sp a : ℕ)
    → 4 * length vs ≤ sp
    → sp < 2 ^ 32
    → sp ≤ a
    → (push_all vs mem sp).0 a ≡ mem a
unfolding push_all
push_all_above [] mem sp a h b le = refl
push_all_above (v ∷ vs) mem sp a h b le =
    rw (push_all-cons v vs mem sp (omega arith) (omega arith)) (
      push_all_above vs (set_word mem (sp - 4) v) (sp - 4) a (omega arith) (omega arith)
        (omega arith)
      ∙ rw (==_false a (sp - 4) (omega arith)) refl)

pub push_all_off :
    (vs : List ℕ) (mem : Mem) (sp a : ℕ)
    → 4 * length vs ≤ sp
    → sp < 2 ^ 32
    → (a < sp - 4 * length vs)
    → (push_all vs mem sp).0 a ≡ mem a
unfolding push_all
push_all_off [] mem sp a h b le = refl
push_all_off (v ∷ vs) mem sp a h b le = rw (push_all-cons v vs mem sp (omega arith) (omega arith)) (
    push_all_off vs (set_word mem (sp - 4) v) (sp - 4) a (omega arith) (omega arith) (omega arith)
    ∙ rw (==_false a (sp - 4) (omega arith)) refl)

pub push_all-sp :
    (vs : List ℕ) (mem : Mem) (sp : ℕ)
    → 4 * length vs ≤ sp
    → sp < 2 ^ 32
    → (push_all vs mem sp).1 ≡ sp - 4 * length vs
unfolding push_all
push_all-sp [] mem sp h b = omega arith
push_all-sp (v ∷ vs) mem sp h b =
    rw (push_all-cons v vs mem sp (omega arith) (omega arith))
      (push_all-sp vs (set_word mem (sp - 4) v) (sp - 4) (omega arith) (omega arith) ∙ omega arith)

pub push_all-FrameAt :
    (vs : List ℕ) (mem : Mem) (sp : ℕ)
    → 4 * length vs ≤ sp
    → sp < 2 ^ 32
    → FrameAt vs (push_all vs mem sp).0 sp
unfolding push_all
push_all-FrameAt [] mem sp h b = tt
push_all-FrameAt (v ∷ vs) mem sp h b = rw (push_all-cons v vs mem sp (omega arith) (omega arith)) (
  push_all_above vs (set_word mem (sp - 4) v) (sp - 4) (sp - 4) (omega arith) (omega arith)
        (omega arith)
      ∙ rw ((==_iff (sp - 4) (sp - 4)).1 refl) refl,
  push_all-FrameAt vs (set_word mem (sp - 4) v) (sp - 4) (omega arith) (omega arith),
)
