-- ===== src/Controller/Stores/Steps.antt =====
-- What one step of a node, and a round of steps, may do: no status is stored.
use maintenance_orchestrator.Prelude.{
  ℕ, ◌≡◌, refl, inl, inr, true, ℤ, arith, Bool, List, [], ◌∷◌, Option, none, some, String,
}
use maintenance_orchestrator.Api.Enums.{NodePhase, MachineApi}
use maintenance_orchestrator.Api.Spec.{MaintenanceSpec, effective_machine_api}
use maintenance_orchestrator.Api.Status.{NodeExecutionStatus}
use maintenance_orchestrator.Kube.Objects.{Pod}
use maintenance_orchestrator.Kube.Cluster.{Env, Trace, Call, Result-cases}
use maintenance_orchestrator.Kube.Calls
use maintenance_orchestrator.Kube.Calls.{count_ready_nodes_at_version, find_machine}
use maintenance_orchestrator.Executor.{
  Options, Round, no_pods, visit_pod, visit_pods, evict_once, cordon, uncordon, replace, node_gone,
}
use maintenance_orchestrator.Policy.{Effective, force_allowed}
use maintenance_orchestrator.Controller.Config.{
  Config, timed_out, global_timed_out, drain_timed_out,
}
use maintenance_orchestrator.Controller.Drain.{
  step_pending, step_cordoning, step_draining, step_post_check, step_uncordoning,
}
use maintenance_orchestrator.Controller.Replace.{step_replacing, step_awaiting_replacement}
use maintenance_orchestrator.Controller.Step.{Setting, dispatch, step_node}
use maintenance_orchestrator.Controller.Loop.{step_batch}
use maintenance_orchestrator.Controller.Finish.Updates.{Rule, Silent, Silent-refl, Silent-trans}

module _ (env : Env) (P : Rule) where
  timed_out-Silent :
      (start : Option ℕ) (limit : ℤ) (t : Trace) → Silent P t (timed_out env start limit t).1
  unfolding timed_out Calls.clock
  timed_out-Silent none limit t = Silent-refl P t
  timed_out-Silent (some start) limit t = record { fitting = refl; none_stored = refl }

  pub global_timed_out-Silent :
      (cfg : Config) (spec : MaintenanceSpec) (start : Option ℕ) (t : Trace)
      → Silent P t (global_timed_out env cfg spec start t).1
  unfolding global_timed_out
  global_timed_out-Silent cfg spec start t = timed_out-Silent start _ t

-- Under a rule that permits mutations.
module _ (env : Env) (P : Rule) (may : P.mutations ≡ true) where
  visit_pod-Silent :
      (opts : Options) (r : Round) (pod : Pod) (t : Trace)
      → Silent P t (visit_pod env opts r pod t).1
  unfolding visit_pod
  visit_pod-Silent opts r pod t = ground arith

  visit_pods-Silent :
      (opts : Options) (r : Round) (pods : List Pod) (t : Trace)
      → Silent P t (visit_pods env opts r pods t).1
  unfolding visit_pods
  visit_pods-Silent opts r [] t = Silent-refl P t
  visit_pods-Silent opts r (pod ∷ pods) t =
      let (r', t') = visit_pod env opts r pod t in
      Silent-trans P _ _ _ (visit_pod-Silent opts r pod t) (visit_pods-Silent opts r' pods t')

  evict_once-Silent :
      (opts : Options) (name : String) (t : Trace) → Silent P t (evict_once env name opts t).1
  unfolding evict_once
  evict_once-Silent opts name t = elim (Result-cases (env.list_pods t name)) [
    | inl (pods, e) ↦
        ground (arith, e, visit_pods-Silent opts no_pods pods (Call.list_pods name ∷ t))
    | inr (failure, e) ↦ ground (arith, e)
  ]

  replace-Silent :
      (name : String) (api : MachineApi) (t : Trace) → Silent P t (replace env name api t).1
  unfolding replace
  replace-Silent name api t = ground arith

  module _ (cfg : Config) (spec : MaintenanceSpec) (pol : Effective) where
    pending-Silent :
        (ns : NodeExecutionStatus) (f : ℤ) (concurrency : ℤ) (window_open : Bool) (t : Trace)
        → Silent P t (step_pending env cfg spec pol ns f concurrency window_open t).1
    unfolding step_pending
    pending-Silent ns f concurrency window_open t = ground arith

    cordoning-Silent :
        (ns : NodeExecutionStatus) (f : ℤ) (t : Trace)
        → Silent P t (step_cordoning env cfg spec pol ns f t).1
    unfolding step_cordoning cordon
    cordoning-Silent ns f t = ground arith

    draining-Silent :
        (ns : NodeExecutionStatus) (f : ℤ) (t : Trace)
        → Silent P t (step_draining env cfg spec pol ns f t).1
    unfolding step_draining drain_timed_out
    draining-Silent ns f t =
        let opts : Options = record {
          force = force_allowed pol spec.force;
          grace_period_seconds = none;
          now = (Calls.clock env t).0;
        } in
        ground (arith, evict_once-Silent opts ns.node (Calls.clock env t).1)

    post_check-Silent :
        (ns : NodeExecutionStatus) (f : ℤ) (gated : Bool) (t : Trace)
        → Silent P t (step_post_check env cfg spec pol ns f gated t).1
    unfolding step_post_check
    post_check-Silent ns f gated t = ground arith

    uncordoning-Silent :
        (ns : NodeExecutionStatus) (f : ℤ) (t : Trace)
        → Silent P t (step_uncordoning env cfg spec pol ns f t).1
    unfolding step_uncordoning uncordon
    uncordoning-Silent ns f t = ground arith

    replacing-Silent :
        (ns : NodeExecutionStatus) (f : ℤ) (t : Trace)
        → Silent P t (step_replacing env spec ns f t).1
    unfolding step_replacing count_ready_nodes_at_version
    replacing-Silent ns f t =
        let api = effective_machine_api spec in
        ground
          (arith, replace-Silent ns.node api t, replace-Silent ns.node api (Call.list_nodes ∷ t))

    awaiting_replacement-Silent :
        (ns : NodeExecutionStatus) (f : ℤ) (t : Trace)
        → Silent P t (step_awaiting_replacement env cfg spec ns f t).1
    unfolding step_awaiting_replacement node_gone count_ready_nodes_at_version
    awaiting_replacement-Silent ns f t = ground arith

  dispatch-Silent :
      (s : Setting) (p : NodePhase) (ns : NodeExecutionStatus) (f : ℤ) (t : Trace)
      → Silent P t (dispatch env s p ns f t).1
  unfolding dispatch
  dispatch-Silent s NodePhase.pending ns f t =
      pending-Silent s.config s.spec s.policy ns f s.concurrency s.window_open t
  dispatch-Silent s NodePhase.cordoning ns f t = cordoning-Silent s.config s.spec s.policy ns f t
  dispatch-Silent s NodePhase.draining ns f t = draining-Silent s.config s.spec s.policy ns f t
  dispatch-Silent s NodePhase.post_check ns f t =
      post_check-Silent s.config s.spec s.policy ns f s.uncordon_gated t
  dispatch-Silent s NodePhase.uncordoning ns f t =
      uncordoning-Silent s.config s.spec s.policy ns f t
  dispatch-Silent s NodePhase.replacing ns f t = replacing-Silent s.config s.spec s.policy ns f t
  dispatch-Silent s NodePhase.awaiting_replacement ns f t =
      awaiting_replacement-Silent s.config s.spec s.policy ns f t
  dispatch-Silent s NodePhase.completed ns f t = Silent-refl P t
  dispatch-Silent s NodePhase.blocked ns f t = Silent-refl P t
  dispatch-Silent s NodePhase.failed ns f t = Silent-refl P t
  dispatch-Silent s NodePhase.skipped ns f t = Silent-refl P t

  step_node-Silent :
      (s : Setting) (ns : NodeExecutionStatus) (f : ℤ) (t : Trace)
      → Silent P t (step_node env s ns f t).1
  unfolding step_node
  step_node-Silent s ns f t = dispatch-Silent s ns.phase ns f t

  pub step_batch-Silent :
      (s : Setting) (batch : ℕ) (nodes : List NodeExecutionStatus) (f : ℤ) (t : Trace)
      → Silent P t (step_batch env s batch nodes f t).1
  unfolding step_batch
  step_batch-Silent s batch [] f t = Silent-refl P t
  step_batch-Silent s batch (ns ∷ rest) f t =
      let (st, u) = step_node env s ns f t in
      ground (
        arith,
        step_node-Silent s ns f t,
        step_batch-Silent s batch rest f t,
        step_batch-Silent s batch rest st.in_flight u,
      )
