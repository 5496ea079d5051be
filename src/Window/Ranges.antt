-- ===== src/Window/Ranges.antt =====
-- The values of a range with a step.
use native.Mathlib.Nat.{suc-mul}
use maintenance_orchestrator.Prelude.{
  ℕ, zero, suc, ◌+◌, ◌*◌, ◌≤◌, ◌<◌, ◌≡◌, refl, ap, ◌∙◌, leb, inl, inr, ℤ, pos, negsuc, ◌+ℤ◌, leb_ℤ,
  int64, int64_fits, pos-+ℤ-pos, true, false, List, [], ◌∷◌, arith, All, Bool-cases, All-map,
}
use maintenance_orchestrator.Window.Cron.{range_values, has_value}

-- A value of the range from `lo` to `hi` with step `s`.
abbrev pub InRange : (lo hi s : ℕ) → ℤ → Type 0
InRange lo hi s v = (k : ℕ) × (v ≡ pos (lo + k * s)) × (lo + k * s ≤ hi)

next_value :
    (i hi s : ℕ) → i ≤ hi → hi + s ≤ 9223372036854775807 → int64 (pos i +ℤ pos s) ≡ pos (i + s)
next_value i hi s le fits = rw (pos-+ℤ-pos i s) (int64_fits (i + s) (omega arith))

InRange-later : (i hi s : ℕ) (v : ℤ) → InRange (i + s) hi s v → InRange i hi s v
InRange-later i hi s v (k, e, le) =
    (suc k, e ∙ ap pos (omega (arith, suc-mul k s)), omega (arith, suc-mul k s, le))

module _ (hi s : ℕ) (positive : 1 ≤ s) (fits : hi + s ≤ 9223372036854775807) where
  range_values-InRange :
      (fuel i : ℕ) → All (InRange i hi s) (range_values fuel (pos i) (pos hi) (pos s))
  unfolding range_values
  range_values-InRange zero i = tt
  range_values-InRange (suc fuel) i = elim (Bool-cases (leb_ℤ (pos i) (pos hi))) [
    | inl more ↦
        rw (more, next_value i hi s (ground arith) fits)
          (
            (0, ground arith, ground arith),
            All-map _ (InRange-later i hi s) (range_values-InRange fuel (i + s)),
          )
    | inr done ↦ rw done tt
  ]

  has_value-range_values :
      (fuel i k v : ℕ)
      → v ≡ i + k * s
      → k < fuel
      → v ≤ hi
      → has_value v (range_values fuel (pos i) (pos hi) (pos s)) ≡ true
  unfolding range_values has_value
  has_value-range_values zero i k v e h le = elim h [ ]
  has_value-range_values (suc fuel) i zero v e h le =
      let at : v ≡ i = omega (arith, e) in ground arith
  has_value-range_values (suc fuel) i (suc k) v e h le =
      let next = next_value i hi s (omega (arith, e, le)) fits in
      let rest =
        has_value-range_values fuel (i + s) k v (omega (arith, e, suc-mul k s)) (omega (arith, h))
          le in
      let before : i ≤ hi = omega (arith, e, le) in rw next (ground (arith, rest, before))

few_steps : (k s : ℕ) → 1 ≤ s → k ≤ k * s
few_steps zero s h = omega arith
few_steps (suc k) s h = omega (arith, few_steps k s h, suc-mul k s)

has_value_above :
    (lo hi s v : ℕ) (vs : List ℤ)
    → All (InRange lo hi s) vs
    → leb v hi ≡ false
    → has_value v vs ≡ false
unfolding has_value
has_value_above lo hi s v [] h above = refl
has_value_above lo hi s v (pos m ∷ vs) ((k, e, le), h) above =
    ground (arith, has_value_above lo hi s v vs h above, e, le, above)
has_value_above lo hi s v (negsuc m ∷ vs) (_, h) above = has_value_above lo hi s v vs h above

-- The fuel is enough, and the loop over a range of a cron field gives the values `lo`, `lo + s`, ... up
-- to `hi`, and no other: for bounds below 60, and steps that leave room for one of them in an int64.
pub range_values_lem :
    (lo hi s k : ℕ)
    → hi ≤ 59
    → 1 ≤ s
    → hi + s ≤ 9223372036854775807
    → All (InRange lo hi s) (range_values 128 (pos lo) (pos hi) (pos s))
      × (has_value (lo + k * s) (range_values 128 (pos lo) (pos hi) (pos s)) ≡ leb (lo + k * s) hi)
range_values_lem lo hi s k bound positive fits =
    let members = range_values-InRange hi s positive fits 128 lo in
    (
      members,
      elim (Bool-cases (leb (lo + k * s) hi)) [
        | inl within ↦ rw within (
            has_value-range_values hi s positive fits 128 lo k (lo + k * s) refl
              (omega (arith, few_steps k s positive, le_of within, bound)) (le_of within))
        | inr above ↦ rw above (has_value_above lo hi s (lo + k * s) _ members above)
      ],
    )
  where
    le_of : leb (lo + k * s) hi ≡ true → lo + k * s ≤ hi
    le_of h = ground arith
