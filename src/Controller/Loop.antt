-- ===== src/Controller/Loop.antt =====
-- The loop of `reconcileExecuting` (internal/controller/execute.go) over the nodes of a request, and
-- the concurrency that it is given, with `globalDrainsInFlightExcept` of
-- internal/controller/maintenancerequest_controller.go.
pub mod Rounds
pub mod Cap
pub mod Gate
use maintenance_orchestrator.Prelude.{
  ℕ, ◌+◌, ℤ, pos, ◌-ℤ◌, ltb_ℤ, int32, Bool, not, ◌||◌, ◌&&◌, List, [], ◌∷◌, Option, none, some,
  String, str_eq, if◌then◌else◌, ◌==◌,
}
use maintenance_orchestrator.Api.Request.{MaintenanceRequest}
use maintenance_orchestrator.Api.Status.{NodeExecutionStatus}
use maintenance_orchestrator.StateMachine.{is_terminal}
use maintenance_orchestrator.Kube.Cluster.{Env, M, ◌>>=◌, pure, Error, Result, ok, err}
use maintenance_orchestrator.Policy.{Effective, concurrency}
use maintenance_orchestrator.Controller.Nodes.{is_node_terminal, count_in_flight}
use maintenance_orchestrator.Controller.NodeState.{Step}
use maintenance_orchestrator.Controller.Step.{Setting, step_node}

-- The loop over the listed requests.
unfoldable pub drains_except : String → List MaintenanceRequest → ℕ
unfolding is_terminal count_in_flight
drains_except self [] = 0
drains_except self (it ∷ rest) =
    if str_eq it.name self || is_terminal it.status.phase
    then drains_except self rest
    else count_in_flight it.status.nodes + drains_except self rest

-- The drains of the other active requests; a list that fails counts as none.
unfoldable pub global_drains_in_flight_except : String → Result (List MaintenanceRequest) → ℕ
unfolding drains_except
global_drains_in_flight_except self (ok items) = drains_except self items
global_drains_in_flight_except self (err e) = 0

-- The concurrency of the loop: what the request and the policy allow, and no more than the other
-- requests leave of the policy's cap.
unfoldable pub drain_budget : Effective → (requested : ℤ) → (others : ℕ) → ℤ
unfolding concurrency int32 ◌-ℤ◌
drain_budget pol requested others =
    let c = concurrency pol requested in
    let cap = pol.spec.max_concurrent_drains in
    let budget = int32 (cap -ℤ pos others) in
    if ltb_ℤ (pos 0) cap && ltb_ℤ budget c then budget else c

-- The nodes after the loop, and the error that stopped it.
pub record Round : Type 0 where
  pub nodes : List NodeExecutionStatus
  pub in_flight : ℤ
  pub error : Option Error

abbrev push : NodeExecutionStatus → Round → Round
push ns r = record r { nodes = ns ∷ r.nodes }

module _ (env : Env) (s : Setting) (batch : ℕ) where
  -- Each node of the batch that is not terminal takes one step; an error ends the loop, with the
  -- steps so far kept.
  unfoldable pub step_batch : List NodeExecutionStatus → ℤ → M Round
  unfolding is_node_terminal
  step_batch [] in_flight = pure (record { nodes = []; in_flight = in_flight; error = none })
  step_batch (ns ∷ rest) in_flight =
      let continue = step_batch rest in
      if not (ns.batch == batch) || is_node_terminal ns.phase
      then (do r ← continue in_flight; pure (push ns r))
      else (do
        st ← step_node env s ns in_flight
        elim st.error [
          | some e ↦
              pure (record { nodes = st.node ∷ rest; in_flight = st.in_flight; error = some e })
          | none ↦ do r ← continue st.in_flight; pure (push st.node r)
        ])
