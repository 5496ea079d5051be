-- ===== src/Window/Openings.antt =====
-- `IsOpen`, `NextOpen`, `AnyOpen` and `NextOpenAny` of window.go, and `WindowsOpen` of
-- internal/preflight/preflight.go. Instants are nanoseconds since Go's zero time, at which its
-- minutes start. The calendar of package time and its time zones are a parameter.
use maintenance_orchestrator.Prelude.{
  ℕ, ◌≡◌, refl, ◌⊎◌, inl, inr, zero, suc, ◌+◌, ◌*◌, ◌/◌, ltb, ℤ, pos, pos_part, ◌+ℤ◌, ◌-ℤ◌, ◌*ℤ◌,
  leb_ℤ, ltb_ℤ, Bool, true, false, ◌&&◌, Option, none, some, List, [], ◌∷◌, String, if◌then◌else◌,
  is_empty,
}
use maintenance_orchestrator.Api.Spec.{Window, MaintenanceSpec, MaintenancePolicySpec}
use maintenance_orchestrator.Window.Cron.{
  CronError, Parsed, parsed, invalid, Schedule, CalendarFields, parse_cron, matches,
}

-- time.Minute, in nanoseconds.
abbrev pub minute : ℕ
minute = 60000000000

abbrev pub max_lookahead_minutes : ℕ
max_lookahead_minutes = 366 * 24 * 60

-- What package time knows of the time zones: the fields that a clock there shows at the start of a
-- minute, counted from the zero time; `load` is time.LoadLocation.
pub record Zones : Type 0 where
  pub utc : ℤ → CalendarFields
  pub load : String → Option (ℤ → CalendarFields)

pub data WindowError : Type 0 where
  cron : CronError → WindowError
  invalid_time_zone : String → WindowError
  invalid_duration no_windows : WindowError
  no_opening : String → WindowError

pub data Answer {ℓ} (A : Type ℓ) : Type ℓ where
  answer : A → Answer A
  refused : WindowError → Answer A

pub Answer-cases {ℓ} :
    {A : Type ℓ} (r : Answer A) → ((a : A) × (r ≡ answer a)) ⊎ ((e : WindowError) × (r ≡ refused e))
Answer-cases (answer a) = inl (a, refl)
Answer-cases (refused e) = inr (e, refl)

infixl 5 ◌>>=◌
abbrev pub ◌>>=◌ : {A B : Type 0} → Answer A → (A → Answer B) → Answer B
answer a >>= f = f a
refused e >>= f = refused e

abbrev pub schedule_of : Parsed Schedule → Answer Schedule
schedule_of (parsed s) = answer s
schedule_of (invalid e) = refused (cron e)

unfoldable pub location : Zones → String → Option (ℤ → CalendarFields)
location z tz = if is_empty tz then some z.utc else z.load tz

abbrev pub zone_of : String → Option (ℤ → CalendarFields) → Answer (ℤ → CalendarFields)
zone_of tz none = refused (invalid_time_zone tz)
zone_of tz (some calendar) = answer calendar

-- The minute `i` minutes before the one of the instant `now`.
abbrev pub minutes_ago : ℕ → ℕ → ℤ
minutes_ago now i = pos (now / minute) -ℤ pos i

module _ (s : Schedule) (calendar : ℤ → CalendarFields) (now : ℕ) where
  -- The loop of `IsOpen`, from its turn `i` on.
  unfoldable pub open_from : (turns : ℕ) → (duration : ℤ) → ℕ → Bool
  unfolding matches ◌-ℤ◌ ◌+ℤ◌ ◌*ℤ◌
  open_from zero duration i = false
  open_from (suc turns) duration i =
      let t = minutes_ago now i in
      let rest = open_from turns duration (i + 1) in
      if matches s (calendar t) && ltb_ℤ (pos now) (t *ℤ pos minute +ℤ duration) then true else rest

  -- The loop of `NextOpen`, from the minute `t` on.
  unfoldable pub next_from : (turns : ℕ) → ℕ → Option ℕ
  unfolding matches
  next_from zero t = none
  next_from (suc turns) t =
      let rest = next_from turns (t + 1) in if matches s (calendar (pos t)) then some t else rest

-- The search of `NextOpen` from the minute after `now` on.
unfoldable pub next_after : Schedule → (ℤ → CalendarFields) → (now : ℕ) → Option ℕ
unfolding next_from
next_after s calendar now = next_from s calendar now max_lookahead_minutes (now / minute + 1)

abbrev pub found_or : WindowError → Option ℕ → Answer ℕ
found_or e none = refused e
found_or e (some t) = answer t

-- The earlier of two openings, `none` standing for none found so far.
abbrev sooner : Option ℕ → ℕ → ℕ
sooner none next = next
sooner (some best) next = if ltb next best then next else best

unfoldable pub open_if : Schedule → (ℤ → CalendarFields) → (now : ℕ) → (duration : ℤ) → Answer Bool
unfolding open_from
open_if s calendar now duration =
    if leb_ℤ duration (pos 0)
    then refused invalid_duration
    else answer (open_from s calendar now (pos_part duration / minute + 2) duration 0)

module _ (z : Zones) where
  unfoldable pub is_open : Window → (now : ℕ) → Answer Bool
  unfolding parse_cron location open_if
  is_open w now = do
    s ← schedule_of (parse_cron w.cron)
    calendar ← zone_of w.time_zone (location z w.time_zone)
    open_if s calendar now w.duration

  -- The opening is given as the minute that starts with it.
  unfoldable pub next_open : Window → (now : ℕ) → Answer ℕ
  unfolding parse_cron location next_after
  next_open w now = do
    s ← schedule_of (parse_cron w.cron)
    calendar ← zone_of w.time_zone (location z w.time_zone)
    found_or (no_opening w.cron) (next_after s calendar now)

  unfoldable pub any_open_loop : List Window → (now : ℕ) → Answer Bool
  unfolding is_open
  any_open_loop [] now = answer false
  any_open_loop (w ∷ ws) now =
      let rest = any_open_loop ws now in do is ← is_open w now; if is then answer true else rest

  unfoldable pub any_open : List Window → (now : ℕ) → Answer Bool
  unfolding any_open_loop
  any_open [] now = answer true
  any_open (w ∷ ws) now = any_open_loop (w ∷ ws) now

  next_open_loop : Option ℕ → List Window → (now : ℕ) → Answer ℕ
  unfolding next_open
  next_open_loop best [] now = found_or no_windows best
  next_open_loop best (w ∷ ws) now = do
    next ← next_open w now
    next_open_loop (some (sooner best next)) ws now

  unfoldable pub next_open_any : List Window → (now : ℕ) → Answer ℕ
  unfolding next_open_loop
  next_open_any ws now = next_open_loop none ws now

  abbrev request_window_open : Option Window → (now : ℕ) → Answer Bool
  request_window_open none now = answer true
  request_window_open (some w) now = is_open w now

  -- `WindowsOpen`: the request's window, and one of the policy's.
  unfoldable pub windows_open : MaintenanceSpec → MaintenancePolicySpec → (now : ℕ) → Answer Bool
  unfolding is_open any_open
  windows_open spec policy now = do
    is ← request_window_open spec.maintenance_window now
    if is then any_open policy.allowed_windows now else answer false
