-- ===== src/StateMachine.antt =====
-- internal/statemachine/statemachine.go: the table of the phase transitions of a request.
pub mod Lifecycle
use maintenance_orchestrator.Prelude.{
  ℕ, ◌≡◌, refl, Bool, true, false, not, ◌&&◌, ◌||◌, Option, none, some, List, [], ◌∷◌, map, String,
  ◌==◌, if◌then◌else◌, str_eq, any, sort_by, arith,
}
use maintenance_orchestrator.Api.Enums.{Phase}

-- The text of a Go constant of type Phase.
unfoldable pub phase_text : Phase → String
phase_text Phase.unset = ""
phase_text Phase.pending = "Pending"
phase_text Phase.validating = "Validating"
phase_text Phase.awaiting_approval = "AwaitingApproval"
phase_text Phase.planned = "Planned"
phase_text Phase.executing = "Executing"
phase_text Phase.paused = "Paused"
phase_text Phase.blocked = "Blocked"
phase_text Phase.completed = "Completed"
phase_text Phase.failed = "Failed"
phase_text Phase.cancelled = "Cancelled"
phase_text (Phase.other s) = s

-- `p == q` on phases.
abbrev rank : Phase → ℕ
rank Phase.unset = 0
rank Phase.pending = 1
rank Phase.validating = 2
rank Phase.awaiting_approval = 3
rank Phase.planned = 4
rank Phase.executing = 5
rank Phase.paused = 6
rank Phase.blocked = 7
rank Phase.completed = 8
rank Phase.failed = 9
rank Phase.cancelled = 10
rank (Phase.other s) = 11

abbrev unknown_text : Phase → String
unknown_text (Phase.other s) = s
unknown_text _ = ""

unfoldable pub phase_eq : Phase → Phase → Bool
phase_eq p q = rank p == rank q && str_eq (unknown_text p) (unknown_text q)

-- The map `transitions`: none where the phase is no key of it.
unfoldable pub transitions : Phase → Option (List Phase)
transitions Phase.pending = some (Phase.validating ∷ Phase.cancelled ∷ Phase.failed ∷ [])
transitions Phase.validating = some (
    Phase.awaiting_approval ∷ Phase.planned ∷ Phase.blocked ∷ Phase.completed ∷ Phase.failed
    ∷ Phase.cancelled ∷ [])
transitions Phase.awaiting_approval =
    some (Phase.planned ∷ Phase.executing ∷ Phase.paused ∷ Phase.cancelled ∷ Phase.failed ∷ [])
transitions Phase.planned = some (
    Phase.executing ∷ Phase.paused ∷ Phase.blocked ∷ Phase.completed ∷ Phase.cancelled
    ∷ Phase.failed ∷ [])
transitions Phase.executing = some (
    Phase.awaiting_approval ∷ Phase.paused ∷ Phase.blocked ∷ Phase.completed ∷ Phase.failed
    ∷ Phase.cancelled ∷ [])
transitions Phase.paused = some (
    Phase.executing ∷ Phase.planned ∷ Phase.validating ∷ Phase.awaiting_approval ∷ Phase.cancelled
    ∷ Phase.failed ∷ [])
transitions Phase.blocked = some (
    Phase.validating ∷ Phase.planned ∷ Phase.executing ∷ Phase.paused ∷ Phase.completed
    ∷ Phase.failed ∷ Phase.cancelled ∷ [])
transitions Phase.completed = some []
transitions Phase.failed = some []
transitions Phase.cancelled = some []
transitions Phase.unset = none
transitions (Phase.other s) = none

-- `_, ok := allowed[to]`
unfoldable pub in_set : Phase → List Phase → Bool
unfolding phase_eq
in_set to ps = any (phase_eq to) ps

abbrev pub terminal_phases : List Phase
terminal_phases = Phase.completed ∷ Phase.failed ∷ Phase.cancelled ∷ []

abbrev pub initial_phase : Phase
initial_phase = Phase.pending

unfoldable pub is_terminal : Phase → Bool
unfolding in_set
is_terminal p = in_set p terminal_phases

abbrev is_unset : Phase → Bool
is_unset Phase.unset = true
is_unset _ = false

unfoldable pub is_active : Phase → Bool
unfolding transitions is_terminal
is_active p =
    if is_unset p
    then false
    else elim (transitions p) [ none ↦ false | some _ ↦ not (is_terminal p) ]

unfoldable pub can_transition : Phase → Phase → Bool
unfolding transitions in_set
can_transition from to =
    if phase_eq from to
    then true
    else if is_unset from
    then phase_eq to Phase.pending || phase_eq to Phase.validating
    else elim (transitions from) [ none ↦ false | some allowed ↦ in_set to allowed ]

-- `Validate`: an error where the transition is not allowed; its text names both phases.
pub data IllegalTransition : Type 0 where
  illegal : (from to : Phase) → IllegalTransition

unfoldable pub validate : Phase → Phase → Option IllegalTransition
unfolding can_transition
validate from to = if not (can_transition from to) then some (illegal from to) else none

-- `AllowedFrom`: the keys of `transitions[p]`, sorted by their text. A missing key gives the nil map.
unfoldable pub allowed_from : Phase → List Phase
unfolding transitions sort_by phase_text
allowed_from p = elim (transitions p) [ none ↦ [] | some allowed ↦ sort_by phase_text allowed ]
