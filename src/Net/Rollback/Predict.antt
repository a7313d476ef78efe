-- ===== src/Net/Rollback/Predict.antt =====
-- src/net/RollbackPredict.h and RollbackPredict.cpp: which input to assume, and where it was wrong.
mod Tests
use retro_park.Base.{
  ℕ, zero, suc, ◌+◌, ◌-◌, ◌^◌, ◌≤◌, ◌<◌, ◌≡◌, ◌↔◌, refl, Bool, true, false, not, ◌&&◌, none, some,
  List, [], ◌∷◌, arith, Bool-cases, lt→ltb, le→ltb, ◌⊎◌, inl, inr, subst, ltb, ◌==◌, if◌then◌else◌,
}
use native.Mathlib.Decide.{ℕ_discrete, dec_lt}
use retro_park.Base.Map.{Map, find, find_or}
use retro_park.Abi.{InputState, neutral}

-- `memcmp` of two arrays of one length
list_equal : List ℕ → List ℕ → Bool
list_equal [] [] = true
list_equal (x ∷ xs) (y ∷ ys) = x == y && list_equal xs ys
list_equal _ _ = false

-- `rb_input_equal`. The struct has no padding, so `memcmp` compares the fields.
pub input_equal : InputState → InputState → Bool
unfolding list_equal
input_equal a b =
    list_equal a.keys b.keys && list_equal a.pad_axes b.pad_axes && a.pad_buttons == b.pad_buttons

-- `rb_predict`
pub predict : Map InputState → ℕ → InputState
predict remote confirmed = find_or confirmed neutral remote

-- `UINT64_MAX`
abbrev pub none_mispredicted : ℕ
none_mispredicted = 2 ^ 64 - 1

-- The test in the loop: a real input that differs from the one that was used
pub mispredicted : Map InputState → Map InputState → ℕ → Bool
mispredicted real used f = elim (find f real) [
  | none ↦ false
  | some r ↦ not (input_equal r (find_or f neutral used))
]

-- The loop from `f` to its terminal check, `n` frames on
scan : Map InputState → Map InputState → ℕ → ℕ → ℕ
scan real used zero f = if mispredicted real used f then f else none_mispredicted
scan real used (suc n) f =
    let rest = scan real used n (f + 1) in if mispredicted real used f then f else rest

-- `rb_first_mispredicted`
pub first_mispredicted : Map InputState → Map InputState → ℕ → ℕ → ℕ
unfolding scan
first_mispredicted real used from to =
    if ltb to from then none_mispredicted else scan real used (to - from) from

list_equal→eq : (xs ys : List ℕ) → list_equal xs ys ≡ true → xs ≡ ys
unfolding list_equal
list_equal→eq [] [] h = refl
list_equal→eq [] (y ∷ ys) h = cc
list_equal→eq (x ∷ xs) [] h = cc
list_equal→eq (x ∷ xs) (y ∷ ys) h = ground (arith, list_equal→eq xs ys)

list_equal_refl : (xs : List ℕ) → list_equal xs xs ≡ true
unfolding list_equal
list_equal_refl [] = refl
list_equal_refl (x ∷ xs) = ground (arith, list_equal_refl xs)

-- The comparison of inputs decides their equality.
pub input_equal_iff : (a b : InputState) → (input_equal a b ≡ true) ↔ (a ≡ b)
unfolding input_equal
input_equal_iff a b = (
  λ h. ground (arith, list_equal→eq a.keys b.keys, list_equal→eq a.pad_axes b.pad_axes),
  λ e. ground (arith, list_equal_refl a.keys, list_equal_refl a.pad_axes),
)

-- A frame that was not mispredicted used the real input, where that is known.
pub not_mispredicted :
    (real used : Map InputState) (f : ℕ) {r : InputState}
    → mispredicted real used f ≡ false
    → find f real ≡ some r
    → find_or f neutral used ≡ r
unfolding mispredicted
not_mispredicted real used f {r} h e = ground (arith, input_equal_iff r (find_or f neutral used))

-- What the search from `from` to `to` has found out, when it returns `g`
abbrev pub Found : Map InputState → Map InputState → ℕ → ℕ → ℕ → Type 0
Found real used from to g =
    ((g ≡ none_mispredicted) × ((k : ℕ) → from ≤ k → k ≤ to → mispredicted real used k ≡ false))
    ⊎ ((from ≤ g)
        × (g ≤ to)
        × (mispredicted real used g ≡ true)
        × ((k : ℕ) → from ≤ k → k < g → mispredicted real used k ≡ false))

scan-Found :
    (real used : Map InputState) (n f : ℕ)
    → f + n < none_mispredicted
    → Found real used f (f + n) (scan real used n f)
unfolding scan
scan-Found real used zero f h = elim (Bool-cases (mispredicted real used f)) [
  | inl bad ↦ rw bad (inr (omega arith, omega arith, bad, λ k lo hi. absurd (omega arith)))
  | inr good ↦
      rw good
        (inl (refl, λ k lo hi. subst (λ j. mispredicted real used j ≡ false) (omega arith) good))
]
scan-Found real used (suc n) f h = elim (Bool-cases (mispredicted real used f)) [
  | inl bad ↦ rw bad (inr (omega arith, omega arith, bad, λ k lo hi. absurd (omega arith)))
  | inr good ↦ rw good (elim (scan-Found real used n (f + 1) (omega arith)) [
    | inl (e, all) ↦ inl (
      e,
      λ k lo hi. elim (ℕ_discrete f k) [
        | yes same ↦ subst (λ j. mispredicted real used j ≡ false) same good
        | no later ↦ all k (omega arith) (omega arith)
      ],
    )
    | inr (lo, hi, bad, before) ↦ inr (
      omega arith,
      omega arith,
      bad,
      λ k lo' hi'. elim (ℕ_discrete f k) [
        | yes same ↦ subst (λ j. mispredicted real used j ≡ false) same good
        | no later ↦ before k (omega arith) hi'
      ],
    )
  ])
]

-- The search returns the first frame of its range whose real input is known and is not the one that
-- was used, and `UINT64_MAX` exactly if the range has none. The range ends below `UINT64_MAX`.
pub first_mispredicted-Found :
    (real used : Map InputState) (from to : ℕ)
    → to < none_mispredicted
    → Found real used from to (first_mispredicted real used from to)
unfolding first_mispredicted
first_mispredicted-Found real used from to h = elim (dec_lt to from) [
  | yes none_left ↦ rw (lt→ltb _ _ none_left) (inl (refl, λ k lo hi. absurd (omega arith)))
  | no some_left ↦
      let e : from + (to - from) ≡ to = omega arith in
      rw (le→ltb to from (omega arith)) (
        subst (λ t. Found real used from t (scan real used (to - from) from)) e
          (scan-Found real used (to - from) from (omega arith)))
]
