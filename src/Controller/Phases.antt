-- ===== src/Controller/Phases.antt =====
-- The handlers of the phases of a request (internal/controller/phases.go and execute.go), and the
-- helpers that they share. A handler passes the changed request on.
pub mod Waiting
pub mod Planning
pub mod Executing
pub mod Retry
use maintenance_orchestrator.Prelude.{
  ℕ, Bool, true, false, List, [], ◌∷◌, Option, none, some, String,
}
use maintenance_orchestrator.Api.Enums.{Phase, Gate}
use maintenance_orchestrator.Api.Spec.{GateDecision}
use maintenance_orchestrator.Api.Request.{ExecutionPlan, MaintenanceStatus}
use maintenance_orchestrator.Kube.Cluster
use maintenance_orchestrator.Kube.Cluster.{M, pure, tell, Action}

abbrev pub has_nodes {ℓ} : {A : Type ℓ} → List A → Bool
has_nodes [] = false
has_nodes (n ∷ ns) = true

-- The switch of `resumePhase`, by its gate, its plan and whether there are nodes.
unfoldable pub resume_with : Gate → Option ExecutionPlan → Bool → Phase
resume_with Gate.unset none any = Phase.validating
resume_with Gate.unset (some plan) true = Phase.executing
resume_with Gate.unset (some plan) false = Phase.planned
resume_with gate plan any = Phase.awaiting_approval

-- `resumePhase`
unfoldable pub resume_phase : MaintenanceStatus → Phase
resume_phase st = resume_with st.approval_gate st.plan (has_nodes st.nodes)

-- `nextPhaseAfterGate`
unfoldable pub next_phase_after_gate : Gate → Phase
next_phase_after_gate Gate.uncordon = Phase.executing
next_phase_after_gate gate = Phase.planned

-- `canPause`
unfoldable pub can_pause : Phase → Bool
can_pause Phase.planned = true
can_pause Phase.executing = true
can_pause Phase.blocked = true
can_pause Phase.awaiting_approval = true
can_pause p = false

-- The text of a Go constant of type Gate.
unfoldable pub gate_text : Gate → String
gate_text Gate.unset = ""
gate_text Gate.drain = "Drain"
gate_text Gate.uncordon = "Uncordon"
gate_text (Gate.other s) = s

unfoldable pub record_decision : Option GateDecision → Action → M (Unit {0})
record_decision none action = pure tt
record_decision (some decision) action = tell (Cluster.Call.audit action "")
