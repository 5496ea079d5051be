-- ===== src/Controller/Policies/Validation.antt =====
-- What a validated policy guarantees.
use maintenance_orchestrator.Prelude.{
  ℕ, ◌+◌, ◌/◌, ◌≡◌, refl, ℤ, pos, pos_part, leb_ℤ, Bool-cases, Bool, true, false, Option, none,
  some, List, [], ◌∷◌, String, arith, inl, inr,
}
use mathlib.Core.List
use maintenance_orchestrator.Api.Spec.{Window, MaintenancePolicySpec}
use maintenance_orchestrator.Window.Openings.{
  Answer, ◌>>=◌, schedule_of, zone_of, Answer-cases, answer, is_open, minute, location, open_from,
  open_if, any_open, any_open_loop,
}
use maintenance_orchestrator.Window.Cron.{
  Schedule, CalendarFields, Parsed, parsed, invalid, parse_cron,
}
use maintenance_orchestrator.Controller.World.{World}
use maintenance_orchestrator.Controller.Policies.{
  window_problems, validate_policy_spec, is_no_percentage, problem_if,
}

abbrev open_with :
    Parsed Schedule → String → Option (ℤ → CalendarFields) → (now : ℕ) → ℤ → Answer Bool
open_with p tz places now d = do
  s ← schedule_of p
  calendar ← zone_of tz places
  open_if s calendar now d

module _ (w : World) where
  open_if-cases :
      (s : Schedule) (calendar : ℤ → CalendarFields) (now later : ℕ) (d : ℤ) (b : Bool)
      → open_if s calendar now d ≡ answer b
      → (b' : Bool) × (open_if s calendar later d ≡ answer b')
  unfolding open_if
  open_if-cases s calendar now later d b e = elim (Bool-cases (leb_ℤ d (pos 0))) [
    | inl h ↦ absurd (ground (arith, h, e))
    | inr h ↦ rw h (open_from s calendar later (pos_part d / minute + 2) d 0, refl)
  ]

  open_with-cases :
      (p : Parsed Schedule) (tz : String) (places : Option (ℤ → CalendarFields)) (now later : ℕ)
      (d : ℤ) (b : Bool)
      → open_with p tz places now d ≡ answer b
      → (b' : Bool) × (open_with p tz places later d ≡ answer b')
  open_with-cases (invalid e) tz places now later d b h = absurd (cc)
  open_with-cases (parsed s) tz none now later d b h = absurd (cc)
  open_with-cases (parsed s) tz (some calendar) now later d b h =
      open_if-cases s calendar now later d b h

  -- Whether a window can be read does not depend on the time.
  is_open-cases :
      (win : Window) (now later : ℕ) (b : Bool)
      → is_open w.zones win now ≡ answer b
      → (b' : Bool) × (is_open w.zones win later ≡ answer b')
  unfolding is_open
  is_open-cases win now later b e =
      open_with-cases (parse_cron win.cron) win.time_zone (location w.zones win.time_zone) now later
        win.duration b e

  any_open_loop-cases :
      (now later i : ℕ) (wins : List Window)
      → window_problems w now i wins ≡ []
      → (b : Bool) × (any_open_loop w.zones wins later ≡ answer b)
  unfolding window_problems any_open_loop
  any_open_loop-cases now later i [] e = (false, refl)
  any_open_loop-cases now later i (win ∷ wins) e = elim (Answer-cases (is_open w.zones win now)) [
    | inr (failure, e') ↦ absurd (ground (arith, e, e'))
    | inl (is, e') ↦
        let (is', e'') = is_open-cases win now later is e' in
        let (b, e''') = any_open_loop-cases now later (i + 1) wins (ground (arith, e, e')) in
        elim (Bool-cases is') [
          | inl h ↦ (true, ground (arith, e'', h))
          | inr h ↦ (b, ground (arith, e'', h, e'''))
        ]
  ]

any_open-cases :
    (w : World) (now later : ℕ) (wins : List Window)
    → window_problems w now 0 wins ≡ []
    → (b : Bool) × (any_open w.zones wins later ≡ answer b)
unfolding any_open
any_open-cases w now later [] e = (true, refl)
any_open-cases w now later (win ∷ wins) e = any_open_loop-cases w now later 0 (win ∷ wins) e

-- Nothing precedes an empty list of problems.
problem_if-nil :
    (b : Bool) (problem : String) (rest : List String)
    → List.◌++◌ (problem_if b problem) rest ≡ []
    → (b ≡ false) × (rest ≡ [])
problem_if-nil true problem rest e = absurd (cc)
problem_if-nil false problem rest e = (refl, e)

-- A policy in whose spec the validation finds no problem has its percentages between 0 and 100, and at
-- no time does the test of its windows fail: a request is never failed for a window of such a policy.
pub validate_policy_spec_lem :
    (w : World) (spec : MaintenancePolicySpec) (now later : ℕ)
    → validate_policy_spec w now spec ≡ []
    → (is_no_percentage spec.max_unavailable_percent ≡ false)
      × (is_no_percentage spec.min_capacity_headroom_percent ≡ false)
      × ((b : Bool) × (any_open w.zones spec.allowed_windows later ≡ answer b))
unfolding validate_policy_spec
validate_policy_spec_lem w spec now later e =
    let (unavailable, rest) =
      problem_if-nil (is_no_percentage spec.max_unavailable_percent) _ _ e in
    let (headroom, wins) =
      problem_if-nil (is_no_percentage spec.min_capacity_headroom_percent) _ _ rest in
    (unavailable, headroom, any_open-cases w now later spec.allowed_windows wins)
