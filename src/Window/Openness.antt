-- ===== src/Window/Openness.antt =====
-- When a window is open, and which opening is the next.
use mathlib.Core.Path.{ap₂}
use maintenance_orchestrator.Prelude.{
  ℕ, zero, suc, ◌+◌, ◌*◌, ◌/◌, ◌%◌, ◌≤◌, ◌<◌, ◌≡◌, ◌↔◌, ◌⊎◌, inl, inr, ltb, ℤ, pos, ◌+ℤ◌, ◌-ℤ◌,
  ◌*ℤ◌, ltb_ℤ, Bool, true, false, ◌&&◌, Option, none, some, arith, Bool-cases,
}
use maintenance_orchestrator.Api.Spec.{Window}
use maintenance_orchestrator.Window.Cron.{Schedule, CalendarFields, parsed, parse_cron, matches}
use maintenance_orchestrator.Window.Openings.{
  Zones, answer, minute, minutes_ago, max_lookahead_minutes, location, open_if, open_from,
  next_from, next_after, is_open, next_open, found_or, no_opening, schedule_of, zone_of, ◌>>=◌,
}

-- The time between the start of the minute `i` minutes ago and the instant `now`.
abbrev pub elapsed : ℕ → ℕ → ℕ
elapsed now i = now % minute + i * minute

within_duration :
    (now i d : ℕ)
    → ltb_ℤ (pos now) (minutes_ago now i *ℤ pos minute +ℤ pos d) ≡ ltb (elapsed now i) d
unfolding ◌-ℤ◌ ◌*ℤ◌ ◌+ℤ◌
within_duration now i d = ground arith

module _ (s : Schedule) (calendar : ℤ → CalendarFields) (now : ℕ) where
  -- The window opened `j` minutes ago and is open for `d` nanoseconds.
  abbrev pub OpenedAgo : (d j : ℕ) → Type 0
  OpenedAgo d j = (matches s (calendar (minutes_ago now j)) ≡ true) × (elapsed now j < d)

  open_from_sound :
      (turns d i : ℕ) → open_from s calendar now turns (pos d) i ≡ true → (j : ℕ) × OpenedAgo d j
  unfolding open_from
  open_from_sound zero d i h = absurd (ground arith)
  open_from_sound (suc turns) d i h =
      elim (Bool-cases (matches s (calendar (minutes_ago now i)) && ltb (elapsed now i) d)) [
        | inl here ↦ (i, ground arith)
        | inr there ↦ open_from_sound turns d (i + 1) (ground (arith, within_duration now i d))
      ]

  open_from_complete :
      (turns d i k j : ℕ)
      → j ≡ i + k
      → k < turns
      → OpenedAgo d j
      → open_from s calendar now turns (pos d) i ≡ true
  unfolding open_from
  open_from_complete zero d i k j at h opened = elim h [ ]
  open_from_complete (suc turns) d i zero j at h (fires, before) =
      let here : j ≡ i = omega (arith, at) in ground (arith, within_duration now j d)
  open_from_complete (suc turns) d i (suc k) j at h opened =
      let rest =
        open_from_complete turns d (i + 1) k j (omega (arith, at)) (omega (arith, h)) opened in
      ground (arith, rest)

  -- What the search over `turns` minutes from `t` on promises of its result; `v` is any minute.
  abbrev pub IsNext : (turns t v : ℕ) → Option ℕ → Type 0
  IsNext turns t v none = (v < t) ⊎ (t + turns ≤ v) ⊎ (matches s (calendar (pos v)) ≡ false)
  IsNext turns t v (some u) =
      (t ≤ u)
      × (u < t + turns)
      × (matches s (calendar (pos u)) ≡ true)
      × ((v < t) ⊎ (u ≤ v) ⊎ (matches s (calendar (pos v)) ≡ false))

  IsNext-later :
      (turns t v : ℕ) (o : Option ℕ)
      → matches s (calendar (pos t)) ≡ false
      → IsNext turns (t + 1) v o
      → IsNext (suc turns) t v o
  IsNext-later turns t v none h next = ground (arith, h, next)
  IsNext-later turns t v (some u) h next = ground (arith, h, next)

  next_from-IsNext : (turns t v : ℕ) → IsNext turns t v (next_from s calendar now turns t)
  unfolding next_from
  next_from-IsNext zero t v = ground arith
  next_from-IsNext (suc turns) t v = elim (Bool-cases (matches s (calendar (pos t)))) [
    | inl here ↦ rw here (omega arith, omega arith, here, ground arith)
    | inr there ↦ rw there (IsNext-later turns t v _ there (next_from-IsNext turns (t + 1) v))
  ]

enough_turns : (now j d : ℕ) → elapsed now j < d → j < d / minute + 2
enough_turns now j d h = omega (arith, h)

open_if-lem :
    (s : Schedule) (calendar : ℤ → CalendarFields) (now d : ℕ)
    → 1 ≤ d
    → (b : Bool) × (open_if s calendar now (pos d) ≡ answer b)
      × ((b ≡ true) ↔ ((j : ℕ) × OpenedAgo s calendar now d j))
unfolding open_if
open_if-lem s calendar now zero positive = elim positive [ ]
open_if-lem s calendar now (suc d) positive = (
  open_from s calendar now (suc d / minute + 2) (pos (suc d)) 0,
  ground arith,
  (
    λ h. open_from_sound s calendar now (suc d / minute + 2) (suc d) 0 h,
    λ (j, opened).
        open_from_complete s calendar now (suc d / minute + 2) (suc d) 0 j j (omega arith)
          (enough_turns now j (suc d) opened.1) opened,
  ),
)

-- For a window with a well-formed expression, a known time zone and a positive duration `d`, `is_open`
-- answers, and it answers true exactly where the schedule fires at the start of some minute, not
-- after the current one, from which less than `d` has elapsed.
pub is_open_lem :
    (z : Zones) (w : Window) (now d : ℕ) (s : Schedule) (calendar : ℤ → CalendarFields)
    → parse_cron w.cron ≡ parsed s
    → location z w.time_zone ≡ some calendar
    → w.duration ≡ pos d
    → 1 ≤ d
    → (b : Bool) × (is_open z w now ≡ answer b)
      × ((b ≡ true) ↔ ((j : ℕ) × OpenedAgo s calendar now d j))
unfolding is_open
is_open_lem z w now d s calendar cron zone duration positive =
    rw (cron, zone, duration) (open_if-lem s calendar now d positive)

next_after-IsNext :
    (s : Schedule) (calendar : ℤ → CalendarFields) (now v : ℕ)
    → IsNext s calendar now max_lookahead_minutes (now / minute + 1) v (next_after s calendar now)
unfolding next_after
next_after-IsNext s calendar now v =
    next_from-IsNext s calendar now max_lookahead_minutes (now / minute + 1) v

next_open-next_after :
    (z : Zones) (w : Window) (now : ℕ) (s : Schedule) (calendar : ℤ → CalendarFields)
    → parse_cron w.cron ≡ parsed s
    → location z w.time_zone ≡ some calendar
    → next_open z w now ≡ found_or (no_opening w.cron) (next_after s calendar now)
unfolding next_open
next_open-next_after z w now s calendar cron zone =
    ap₂
      (λ p o. schedule_of p >>= λ s. zone_of w.time_zone o >>= λ calendar.
        found_or (no_opening w.cron) (next_after s calendar now))
      cron zone

-- For a window with a well-formed expression and a known time zone, `next_open` gives a minute after
-- the current one, within the lookahead, at which the schedule fires, with no firing minute between;
-- and it gives none only where the schedule fires at no minute of the lookahead.
pub next_open_lem :
    (z : Zones) (w : Window) (now v : ℕ) (s : Schedule) (calendar : ℤ → CalendarFields)
    → parse_cron w.cron ≡ parsed s
    → location z w.time_zone ≡ some calendar
    → (o : Option ℕ) × (next_open z w now ≡ found_or (no_opening w.cron) o)
      × IsNext s calendar now max_lookahead_minutes (now / minute + 1) v o
next_open_lem z w now v s calendar cron zone = (
  next_after s calendar now,
  next_open-next_after z w now s calendar cron zone,
  next_after-IsNext s calendar now v,
)
