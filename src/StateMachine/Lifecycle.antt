-- ===== src/StateMachine/Lifecycle.antt =====
-- What the table of statemachine.go promises about the life of a request.
use text.Mathlib.TextEquality.{eq_iff}
use text.Mathlib.TextPositions.{eq_refl}
use maintenance_orchestrator.Prelude.{◌≡◌, refl, ap, true, arith}
use maintenance_orchestrator.Api.Enums.{Phase}
use maintenance_orchestrator.StateMachine.{
  phase_eq, is_terminal, is_active, can_transition, initial_phase,
}

pub phase_eq_refl : (p : Phase) → phase_eq p p ≡ true
unfolding phase_eq
phase_eq_refl (Phase.other s) = eq_refl s
phase_eq_refl Phase.unset = refl
phase_eq_refl _ = refl

pub phase_eq→eq : (p q : Phase) → phase_eq p q ≡ true → p ≡ q
unfolding phase_eq
phase_eq→eq (Phase.other s) (Phase.other t) h = ap Phase.other ((eq_iff s t).0 h)
phase_eq→eq p q h = ground arith

-- A finished request never moves again: from a terminal phase the only allowed target is the phase
-- itself.
pub can_transition_terminal :
    (p q : Phase) → is_terminal p ≡ true → can_transition p q ≡ phase_eq p q
unfolding is_terminal can_transition phase_eq
can_transition_terminal p q h = ground arith

-- A chain of transitions.
infix 40 ◌⟶*◌
pub data ◌⟶*◌ : Phase → Phase → Type 0 where
  here : {p : Phase} → p ⟶* p
  then : {p q r : Phase} → can_transition p q ≡ true → q ⟶* r → p ⟶* r

completes : (p : Phase) → is_active p ≡ true → (initial_phase ⟶* p) × (p ⟶* Phase.completed)
unfolding is_active can_transition
completes Phase.pending h = (here, then {q = Phase.validating} refl (then refl here))
completes Phase.validating h = (then refl here, then refl here)
completes Phase.awaiting_approval h = (
  then {q = Phase.validating} refl (then refl here),
  then {q = Phase.planned} refl (then refl here),
)
completes Phase.planned h = (then {q = Phase.validating} refl (then refl here), then refl here)
completes Phase.executing h = (
  then {q = Phase.validating} refl (then {q = Phase.planned} refl (then refl here)),
  then refl here,
)
completes Phase.paused h = (
  then {q = Phase.validating} refl (then {q = Phase.planned} refl (then refl here)),
  then {q = Phase.planned} refl (then refl here),
)
completes Phase.blocked h = (then {q = Phase.validating} refl (then refl here), then refl here)
completes _ h = cc

interrupts :
    (p : Phase)
    → is_active p ≡ true
    → (can_transition p Phase.cancelled ≡ true) × (can_transition p Phase.failed ≡ true)
unfolding is_active can_transition
interrupts Phase.unset h = cc
interrupts Phase.completed h = cc
interrupts Phase.cancelled h = cc
interrupts Phase.failed h = cc
interrupts (Phase.other s) h = cc
interrupts _ h = (refl, refl)

-- Every active phase lies on a chain of transitions from the initial phase to completion, and from
-- every active phase the request may be cancelled and may fail.
pub active_completes :
    (p : Phase)
    → is_active p ≡ true
    → (initial_phase ⟶* p)
      × (p ⟶* Phase.completed)
      × (can_transition p Phase.cancelled ≡ true)
      × (can_transition p Phase.failed ≡ true)
active_completes p h =
    let (first, last) = completes p h in
    let (cancel, fail) = interrupts p h in (first, last, cancel, fail)
