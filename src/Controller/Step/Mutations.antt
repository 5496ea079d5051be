-- ===== src/Controller/Step/Mutations.antt =====
-- What one step of a node may change in the cluster.
use maintenance_orchestrator.Prelude.{
  ℕ, ◌+◌, ◌≤◌, ◌≡◌, refl, ◌⊎◌, inr, ℤ, Bool, true, not, ◌&&◌, none, ◌∷◌, arith, if◌then◌else◌,
}
use maintenance_orchestrator.Api.Enums.{NodePhase}
use maintenance_orchestrator.Api.Spec.{MaintenanceSpec, effective_machine_api}
use maintenance_orchestrator.Api.Status.{NodeExecutionStatus}
use maintenance_orchestrator.Kube.Cluster.{Env, Trace, Call}
use maintenance_orchestrator.Kube.Calls.{count_ready_nodes_at_version, clock}
use maintenance_orchestrator.Kube.Traces.{
  count_calls, is_evict, is_delete_pod, is_cordon, is_uncordon, is_delete_machine,
}
use maintenance_orchestrator.Executor.{Options, cordon, uncordon, node_gone}
use maintenance_orchestrator.Executor.Effects.{replace-Mutates, evict_once-Mutates, replace-Removes}
use maintenance_orchestrator.Policy.{Effective, force_allowed}
use maintenance_orchestrator.Controller.Config.{Config, drain_timed_out}
use maintenance_orchestrator.Controller.Nodes.{node_phase_eq}
use maintenance_orchestrator.Controller.Drain.{
  step_pending, step_cordoning, step_draining, step_post_check, step_uncordoning,
}
use maintenance_orchestrator.Controller.Replace.{step_replacing, step_awaiting_replacement}
use maintenance_orchestrator.Controller.Step.{Setting, dispatch, step_node}

abbrev at_most_one : NodePhase → NodePhase → ℕ
at_most_one p q = if node_phase_eq p q then 1 else 0

-- What a step from the phase `p` may ask of the cluster, from the trace `t` to the trace `u`; `force`
-- says that both the request and the policy allow forced removals.
pub record MayMutate (p : NodePhase) (force : Bool) (t u : Trace) : Type 0 where
  pub cordons :
      count_calls is_cordon u ≤ count_calls is_cordon t + at_most_one p NodePhase.cordoning
  pub uncordons :
      count_calls is_uncordon u ≤ count_calls is_uncordon t + at_most_one p NodePhase.uncordoning
  pub machines :
      count_calls is_delete_machine u
      ≤ count_calls is_delete_machine t + at_most_one p NodePhase.replacing
  pub evictions :
      ((node_phase_eq p NodePhase.draining && not force) ≡ true)
      ⊎ (count_calls is_evict u ≡ count_calls is_evict t)
  pub deletions :
      ((node_phase_eq p NodePhase.draining && force) ≡ true)
      ⊎ (count_calls is_delete_pod u ≡ count_calls is_delete_pod t)

module _ (env : Env) (cfg : Config) (spec : MaintenanceSpec) (pol : Effective) where
  abbrev May : NodePhase → (t u : Trace) → Type 0
  May p t u = MayMutate p (force_allowed pol spec.force) t u

  pending-May :
      (ns : NodeExecutionStatus) (f : ℤ) (concurrency : ℤ) (window_open : Bool) (t : Trace)
      → May NodePhase.pending t (step_pending env cfg spec pol ns f concurrency window_open t).1
  unfolding step_pending node_phase_eq
  pending-May ns f concurrency window_open t = record {
    cordons = ground arith;
    uncordons = ground arith;
    machines = ground arith;
    evictions = ground arith;
    deletions = ground arith;
  }

  cordoning-May :
      (ns : NodeExecutionStatus) (f : ℤ) (t : Trace)
      → May NodePhase.cordoning t (step_cordoning env cfg spec pol ns f t).1
  unfolding step_cordoning node_phase_eq cordon
  cordoning-May ns f t = record {
    cordons = ground arith;
    uncordons = ground arith;
    machines = ground arith;
    evictions = ground arith;
    deletions = ground arith;
  }

  draining-May :
      (ns : NodeExecutionStatus) (f : ℤ) (t : Trace)
      → May NodePhase.draining t (step_draining env cfg spec pol ns f t).1
  unfolding step_draining node_phase_eq drain_timed_out
  draining-May ns f t =
      let force = force_allowed pol spec.force in
      let opts : Options = record {
        force = force;
        grace_period_seconds = none;
        now = (clock env t).0;
      } in
      let (cordons, uncordons, machines, evictions, deletions) =
        evict_once-Mutates env opts ns.node (clock env t).1 in
      record {
        cordons = ground (arith, cordons);
        uncordons = ground (arith, uncordons);
        machines = ground (arith, machines);
        evictions = ground (arith, evictions);
        deletions = ground (arith, deletions);
      }

  post_check-May :
      (ns : NodeExecutionStatus) (f : ℤ) (gated : Bool) (t : Trace)
      → May NodePhase.post_check t (step_post_check env cfg spec pol ns f gated t).1
  unfolding step_post_check node_phase_eq
  post_check-May ns f gated t = record {
    cordons = ground arith;
    uncordons = ground arith;
    machines = ground arith;
    evictions = ground arith;
    deletions = ground arith;
  }

  uncordoning-May :
      (ns : NodeExecutionStatus) (f : ℤ) (t : Trace)
      → May NodePhase.uncordoning t (step_uncordoning env cfg spec pol ns f t).1
  unfolding step_uncordoning node_phase_eq uncordon
  uncordoning-May ns f t = record {
    cordons = ground arith;
    uncordons = ground arith;
    machines = ground arith;
    evictions = ground arith;
    deletions = ground arith;
  }

  replacing-May :
      (ns : NodeExecutionStatus) (f : ℤ) (t : Trace)
      → May NodePhase.replacing t (step_replacing env spec ns f t).1
  unfolding step_replacing node_phase_eq count_ready_nodes_at_version
  replacing-May ns f t =
      let api = effective_machine_api spec in
      let direct = replace-Mutates env ns.node api t in
      let counted = replace-Mutates env ns.node api (Call.list_nodes ∷ t) in
      let direct' = replace-Removes env ns.node api t in
      let counted' = replace-Removes env ns.node api (Call.list_nodes ∷ t) in
      record {
        cordons = ground (arith, direct, counted);
        uncordons = ground (arith, direct, counted);
        machines = ground (arith, direct, counted);
        evictions = ground (arith, direct', counted');
        deletions = ground (arith, direct', counted');
      }

  awaiting_replacement-May :
      (ns : NodeExecutionStatus) (f : ℤ) (t : Trace)
      → May NodePhase.awaiting_replacement t (step_awaiting_replacement env cfg spec ns f t).1
  unfolding step_awaiting_replacement node_phase_eq node_gone count_ready_nodes_at_version
  awaiting_replacement-May ns f t = record {
    cordons = ground arith;
    uncordons = ground arith;
    machines = ground arith;
    evictions = ground arith;
    deletions = ground arith;
  }

dispatch-May :
    (env : Env) (s : Setting) (p : NodePhase) (ns : NodeExecutionStatus) (f : ℤ) (t : Trace)
    → May env s.config s.spec s.policy p t (dispatch env s p ns f t).1
unfolding dispatch node_phase_eq
dispatch-May env s NodePhase.pending ns f t =
    pending-May env s.config s.spec s.policy ns f s.concurrency s.window_open t
dispatch-May env s NodePhase.cordoning ns f t = cordoning-May env s.config s.spec s.policy ns f t
dispatch-May env s NodePhase.draining ns f t = draining-May env s.config s.spec s.policy ns f t
dispatch-May env s NodePhase.post_check ns f t =
    post_check-May env s.config s.spec s.policy ns f s.uncordon_gated t
dispatch-May env s NodePhase.uncordoning ns f t =
    uncordoning-May env s.config s.spec s.policy ns f t
dispatch-May env s NodePhase.replacing ns f t = replacing-May env s.config s.spec s.policy ns f t
dispatch-May env s NodePhase.awaiting_replacement ns f t =
    awaiting_replacement-May env s.config s.spec s.policy ns f t
dispatch-May env s _ ns f t = record {
  cordons = omega arith;
  uncordons = omega arith;
  machines = omega arith;
  evictions = inr refl;
  deletions = inr refl;
}

-- Whatever the cluster answers: a node is cordoned only by a step from Cordoning, uncordoned only
-- from Uncordoning, and its Machine deleted only from Replacing, each at most once in a step; pods are
-- evicted only from Draining and where forced removal is not allowed by both the request and the
-- policy, and deleted only from Draining and where it is.
pub step_node-MayMutate :
    (env : Env) (s : Setting) (ns : NodeExecutionStatus) (in_flight : ℤ) (t : Trace)
    → MayMutate ns.phase (force_allowed s.policy s.spec.force) t (step_node env s ns in_flight t).1
unfolding step_node
step_node-MayMutate env s ns in_flight t = dispatch-May env s ns.phase ns in_flight t
