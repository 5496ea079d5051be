-- ===== src/Kube/Cluster.antt =====
-- The world around the controller. The API server, the clock, the audit log and the metrics are not
-- part of the repository: a program of type `M A` extends the trace of the calls made so far, and the
-- answers come from an `Env`, whose every answer may depend on the whole trace before the call. A
-- theorem for every `Env` holds for every behaviour of the cluster and every interleaving with other
-- clients.
use maintenance_orchestrator.Prelude.{
  ℕ, ℤ, Bool, List, ◌∷◌, Option, String, ◌≡◌, refl, ◌⊎◌, inl, inr,
}
use maintenance_orchestrator.Api.Enums.{BlockReason, Mode, TargetType}
use maintenance_orchestrator.Api.Spec.{LabelSelector}
use maintenance_orchestrator.Api.Request.{
  MaintenanceStatus, MaintenanceRequest, MaintenancePolicyStatus, MaintenancePolicy,
}
use maintenance_orchestrator.Kube.Objects.{
  Node, Pod, Machine, GroupVersionKind, ReplicatedObject, PodDisruptionBudget,
}

-- An error of the API server, by what the program asks of it: IsNotFound, IsTooManyRequests,
-- IsNoMatchError. Wrapping by fmt.Errorf with %w keeps the answers.
pub data Error : Type 0 where
  not_found too_many_requests no_match : Error
  other : String → Error

pub data Result {ℓ} (A : Type ℓ) : Type ℓ where
  ok : A → Result A
  err : Error → Result A

pub Result-cases {ℓ} :
    {A : Type ℓ} (r : Result A) → ((a : A) × (r ≡ ok a)) ⊎ ((e : Error) × (r ≡ err e))
Result-cases (ok a) = inl (a, refl)
Result-cases (err e) = inr (e, refl)

pub record MachineRef : Type 0 where
  pub gvk : GroupVersionKind
  pub namespace : String
  pub name : String

-- The audit actions of internal/audit/audit.go that the controller records.
pub data Action : Type 0 where
  created preflight_completed approval_requested approval_granted approval_denied : Action
  plan_generated node_cordoned node_drained node_uncordoned node_replacing node_replaced : Action
  node_blocked paused resumed blocked completed failed cancelled : Action

-- The metrics of internal/metrics/metrics.go that the controller updates, with their labels.
pub data Metric : Type 0 where
  blocked_drains : BlockReason → Metric
  node_replacements : String → Metric
  drain_duration : String → Metric
  preflight_failures : String → Metric
  blocked_by_preflight : Metric
  requests : Mode → TargetType → Metric
  success : Metric
  failure : String → Metric
  active_maintenances : ℕ → Metric

-- One interaction with the outside. `audit` carries the node that the record names, or "".
pub data Call : Type 0 where
  get_node : String → Call
  patch_unschedulable : String → Bool → Call
  list_nodes : Call
  list_pods : String → Call
  evict : Pod → Option ℤ → Call
  delete_pod : Pod → ℤ → Call
  list_machines : GroupVersionKind → Call
  delete_machine : MachineRef → Call
  get_request : String → Call
  update_status : String → MaintenanceStatus → Call
  list_requests : Call
  get_policy : String → Call
  update_policy : String → MaintenancePolicyStatus → Call
  list_matching_nodes : LabelSelector → Call
  list_all_pods : Call
  list_budgets : String → Call
  get_replica_set get_deployment get_stateful_set : (namespace name : String) → Call
  read_clock : Call
  audit : Action → String → Call
  metric : Metric → Call

-- The calls so far, the latest first.
abbrev pub Trace : Type 0
Trace = List Call

pub record Env : Type 0 where
  pub get_node : Trace → String → Result Node
  pub patch_unschedulable : Trace → String → Bool → Result (Unit {0})
  pub list_nodes : Trace → Result (List Node)
  pub list_pods : Trace → String → Result (List Pod)
  pub evict : Trace → Pod → Option ℤ → Result (Unit {0})
  pub delete_pod : Trace → Pod → ℤ → Result (Unit {0})
  pub list_machines : Trace → GroupVersionKind → Result (List Machine)
  pub delete_machine : Trace → MachineRef → Result (Unit {0})
  pub get_request : Trace → String → Result MaintenanceRequest
  pub update_status : Trace → String → MaintenanceStatus → Result (Unit {0})
  pub list_requests : Trace → Result (List MaintenanceRequest)
  pub get_policy : Trace → String → Result MaintenancePolicy
  pub update_policy : Trace → String → MaintenancePolicyStatus → Result (Unit {0})
  pub list_matching_nodes : Trace → LabelSelector → Result (List Node)
  pub list_all_pods : Trace → Result (List Pod)
  pub list_budgets : Trace → String → Result (List PodDisruptionBudget)
  pub get_replica_set : Trace → (namespace name : String) → Result ReplicatedObject
  pub get_deployment : Trace → (namespace name : String) → Result ReplicatedObject
  pub get_stateful_set : Trace → (namespace name : String) → Result ReplicatedObject
  pub now : Trace → ℕ

abbrev pub M : Type 0 → Type 0
M A = Trace → A × Trace

infixl 5 ◌>>=◌ ◌>>◌
abbrev pub ◌>>=◌ : {A B : Type 0} → M A → (A → M B) → M B
m >>= f = λ t. let (a, t') = m t in f a t'

abbrev pub ◌>>◌ : {A B : Type 0} → M A → M B → M B
m >> n = m >>= λ _. n

abbrev pub pure : {A : Type 0} → A → M A
pure a t = (a, t)

-- A call that is answered by `answer`, and one without an answer.
abbrev pub ask : {A : Type 0} → Call → (Trace → A) → M A
ask c answer t = (answer t, c ∷ t)

abbrev pub tell : Call → M (Unit {0})
tell c t = (tt, c ∷ t)
