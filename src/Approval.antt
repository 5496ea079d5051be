-- ===== src/Approval.antt =====
-- internal/approval/approval.go: the manual approval gates.
pub mod Gates
use maintenance_orchestrator.Prelude.{
  ℕ, Bool, true, false, not, ◌&&◌, ◌||◌, Option, none, some, List, [], ◌∷◌, ltb, if◌then◌else◌,
  str_eq,
}
use maintenance_orchestrator.Api.Enums.{ApprovalPolicy, Gate, Decision}
use maintenance_orchestrator.Api.Spec.{GateDecision, ApprovalSpec}

pub data Result : Type 0 where
  not_required pending approved rejected : Result

unfoldable pub effective_policy : (spec_policy default_policy : ApprovalPolicy) → ApprovalPolicy
effective_policy ApprovalPolicy.unset ApprovalPolicy.unset = ApprovalPolicy.auto
effective_policy ApprovalPolicy.unset default_policy = default_policy
effective_policy spec_policy default_policy = spec_policy

abbrev is_before_drain : ApprovalPolicy → Bool
is_before_drain ApprovalPolicy.manual_before_drain = true
is_before_drain _ = false

abbrev is_before_uncordon : ApprovalPolicy → Bool
is_before_uncordon ApprovalPolicy.manual_before_uncordon = true
is_before_uncordon _ = false

abbrev is_before_both : ApprovalPolicy → Bool
is_before_both ApprovalPolicy.manual_before_both = true
is_before_both _ = false

unfoldable pub requires_gate : ApprovalPolicy → Gate → Bool
requires_gate policy Gate.drain = is_before_drain policy || is_before_both policy
requires_gate policy Gate.uncordon = is_before_uncordon policy || is_before_both policy
requires_gate policy gate = false

-- `g.Gate == gate`
unfoldable pub gate_eq : Gate → Gate → Bool
gate_eq Gate.unset Gate.unset = true
gate_eq Gate.drain Gate.drain = true
gate_eq Gate.uncordon Gate.uncordon = true
gate_eq (Gate.other s) (Gate.other t) = str_eq s t
gate_eq _ _ = false

-- `g.Time != nil && (found.Time == nil || g.Time.After(found.Time.Time))`
unfoldable pub is_later : Option ℕ → Option ℕ → Bool
is_later none found = false
is_later (some t) none = true
is_later (some t) (some u) = ltb u t

-- One turn of the loop of `DecisionFor`.
unfoldable pub prefer : Gate → Option GateDecision → GateDecision → Option GateDecision
unfolding gate_eq is_later
prefer gate found g =
    if not (gate_eq g.gate gate)
    then found
    else elim found [ none ↦ some g | some f ↦ if is_later g.time f.time then some g else some f ]

unfoldable pub decision_loop : Gate → Option GateDecision → List GateDecision → Option GateDecision
unfolding prefer
decision_loop gate found [] = found
decision_loop gate found (g ∷ gs) = decision_loop gate (prefer gate found g) gs

-- The latest decision recorded for the gate.
unfoldable pub decision_for : ApprovalSpec → Gate → Option GateDecision
unfolding decision_loop
decision_for spec gate = decision_loop gate none spec.gates

unfoldable pub result_of : Decision → Result
result_of Decision.approved = approved
result_of Decision.rejected = rejected
result_of (Decision.other s) = pending

unfoldable pub evaluate : ApprovalPolicy → ApprovalSpec → Gate → Result × Option GateDecision
unfolding requires_gate decision_for result_of
evaluate policy spec gate =
    if not (requires_gate policy gate)
    then (not_required, none)
    else elim (decision_for spec gate) [
      | none ↦ (pending, none)
      | some decision ↦ (result_of decision.decision, some decision)
    ]
