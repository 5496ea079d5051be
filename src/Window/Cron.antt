-- ===== src/Window/Cron.antt =====
-- `parseField`, `parseCron` and `schedule.matches` of window.go. An int is a ℤ, wrapped to 64 bits
-- where the loop over a range adds the step. That loop runs on 128 turns of fuel: a range holds at
-- most 60 values (Window.Ranges).
use maintenance_orchestrator.Prelude.{
  ℕ, zero, suc, ℤ, pos, ◌+ℤ◌, leb_ℤ, ltb_ℤ, int64, Bool, true, false, not, ◌&&◌, ◌||◌, Option, none,
  some, List, [], ◌∷◌, ◌++◌, String, if◌then◌else◌, ◌==◌, str_eq, length, cut,
}
use maintenance_orchestrator.Window.Text.{split_on, text_fields, atoi}

-- The errors of the parser, with the text that they quote. `in_field` names the field.
pub data CronError : Type 0 where
  invalid_step invalid_range_start invalid_range_end invalid_value : String → CronError
  out_of_range : String → ℤ → ℤ → CronError
  field_count : ℕ → String → CronError
  in_field : String → CronError → CronError

pub data Parsed {ℓ} (A : Type ℓ) : Type ℓ where
  parsed : A → Parsed A
  invalid : CronError → Parsed A

infixl 5 ◌>>=◌
abbrev ◌>>=◌ : {A B : Type 0} → Parsed A → (A → Parsed B) → Parsed B
parsed a >>= f = f a
invalid e >>= f = invalid e

abbrev or_invalid : Option ℤ → CronError → Parsed ℤ
or_invalid none e = invalid e
or_invalid (some n) e = parsed n

-- `for i := lo; i <= hi; i += step { out[i] = true }`
unfoldable pub range_values : (fuel : ℕ) → (i hi step : ℤ) → List ℤ
unfolding int64 ◌+ℤ◌
range_values zero i hi step = []
range_values (suc fuel) i hi step =
    let rest = range_values fuel (int64 (i +ℤ step)) hi step in if leb_ℤ i hi then i ∷ rest else []

-- The bounds of the range part, which has a step or not.
abbrev bounds_of : (part range : String) → Bool → (least most : ℤ) → Parsed (ℤ × ℤ)
bounds_of part range has_step least most =
    if str_eq range "*" then parsed (least, most) else elim (cut b'-' range) [
      | some (first, last) ↦ do
        a ← or_invalid (atoi first) (invalid_range_start part)
        b ← or_invalid (atoi last) (invalid_range_end part)
        parsed (a, b)
      | none ↦ do
        v ← or_invalid (atoi range) (invalid_value part)
        parsed (v, if has_step then most else v)
    ]

-- The step of the part, `none` standing for an error.
abbrev step_of : String → Option ℤ
step_of text = elim (atoi text) [ none ↦ none | some s ↦ if leb_ℤ s (pos 0) then none else some s ]

abbrev values_between : (part : String) → (least most step : ℤ) → ℤ × ℤ → Parsed (List ℤ)
values_between part least most step (lo, hi) =
    if ltb_ℤ lo least || ltb_ℤ most hi || ltb_ℤ hi lo
    then invalid (out_of_range part least most)
    else parsed (range_values 128 lo hi step)

-- The body of the loop of `parseField`: the values of one part.
unfoldable pub parse_part : String → (least most : ℤ) → Parsed (List ℤ)
unfolding cut atoi range_values
parse_part part least most = elim (cut b'/' part) [
  | none ↦ do
    bounds ← bounds_of part part false least most
    values_between part least most (pos 1) bounds
  | some (range, text) ↦ do
    step ← or_invalid (step_of text) (invalid_step part)
    bounds ← bounds_of part range true least most
    values_between part least most step bounds
]

abbrev parse_parts : List String → (least most : ℤ) → Parsed (List ℤ)
parse_parts [] least most = parsed []
parse_parts (part ∷ parts) least most = do
  values ← parse_part part least most
  rest ← parse_parts parts least most
  parsed (values ++ rest)

unfoldable pub parse_field : String → (least most : ℤ) → Parsed (List ℤ)
unfolding split_on parse_part
parse_field field least most = parse_parts (split_on b',' field) least most

-- `out[i]`
unfoldable pub has_value : ℕ → List ℤ → Bool
has_value n [] = false
has_value n (pos m ∷ vs) = m == n || has_value n vs
has_value n (v ∷ vs) = has_value n vs

pub record Schedule : Type 0 where
  pub minutes : List ℤ
  pub hours : List ℤ
  pub doms : List ℤ
  pub months : List ℤ
  pub dows : List ℤ
  pub dom_star : Bool
  pub dow_star : Bool

abbrev field_of : String → Parsed (List ℤ) → Parsed (List ℤ)
field_of name (parsed vs) = parsed vs
field_of name (invalid e) = invalid (in_field name e)

unfoldable pub parse_cron : String → Parsed Schedule
unfolding text_fields parse_field has_value
parse_cron expr = elim (text_fields expr) [
  | m ∷ h ∷ dom ∷ mon ∷ dow ∷ [] ↦ do
    minutes ← field_of "minute" (parse_field m (pos 0) (pos 59))
    hours ← field_of "hour" (parse_field h (pos 0) (pos 23))
    doms ← field_of "day-of-month" (parse_field dom (pos 1) (pos 31))
    months ← field_of "month" (parse_field mon (pos 1) (pos 12))
    dows ← field_of "day-of-week" (parse_field dow (pos 0) (pos 7))
    parsed (record {
      minutes = minutes;
      hours = hours;
      doms = doms;
      months = months;
      dows = if has_value 7 dows then pos 0 ∷ dows else dows;
      dom_star = str_eq dom "*";
      dow_star = str_eq dow "*";
    })
  | fs ↦ invalid (field_count (length fs) expr)
]

-- The fields of a time.Time that a schedule looks at; Sunday is 0.
pub record CalendarFields : Type 0 where
  pub minute : ℕ
  pub hour : ℕ
  pub day : ℕ
  pub month : ℕ
  pub weekday : ℕ

unfoldable pub matches : Schedule → CalendarFields → Bool
unfolding has_value
matches s t =
    let dom_match = has_value t.day s.doms in
    let dow_match = has_value t.weekday s.dows in
    if not (has_value t.minute s.minutes)
      || not (has_value t.hour s.hours)
      || not (has_value t.month s.months)
    then false
    else if not s.dom_star && not s.dow_star
    then dom_match || dow_match
    else if not s.dom_star
    then dom_match
    else if not s.dow_star
    then dow_match
    else true
