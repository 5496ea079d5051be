-- ===== src/Executor/Effects.antt =====
-- Which calls the operations of the executor make.
use maintenance_orchestrator.Prelude.{
  ℕ, ◌+◌, ◌≤◌, ◌≡◌, refl, ◌∙◌, inl, inr, Bool, true, false, List, [], ◌∷◌, String, arith,
}
use maintenance_orchestrator.Api.Enums.{MachineApi}
use maintenance_orchestrator.Kube.Objects.{Pod}
use maintenance_orchestrator.Kube.Cluster.{Env, Trace, Call, Result-cases}
use maintenance_orchestrator.Kube.Traces.{
  count_calls, is_evict, is_delete_pod, is_cordon, is_uncordon, is_delete_machine,
}
use maintenance_orchestrator.Executor.{
  Options, Round, no_pods, visit_pod, visit_pods, evict_once, cordon, uncordon, replace, node_gone,
}

-- How often each kind of mutation was asked for from the trace `t` to the trace `u`, at most.
pub record Mutates (evictions deletions cordons uncordons machines : ℕ) (t u : Trace) : Type 0 where
  pub evicted : count_calls is_evict u ≤ count_calls is_evict t + evictions
  pub deleted : count_calls is_delete_pod u ≤ count_calls is_delete_pod t + deletions
  pub cordoned : count_calls is_cordon u ≤ count_calls is_cordon t + cordons
  pub uncordoned : count_calls is_uncordon u ≤ count_calls is_uncordon t + uncordons
  pub replaced : count_calls is_delete_machine u ≤ count_calls is_delete_machine t + machines

-- Neither cordons nor uncordons a node, nor deletes a Machine; deletes pods only if forced, and evicts
-- them only if not.
abbrev pub IsRemoval : (force : Bool) (t u : Trace) → Type 0
IsRemoval force t u =
    (count_calls is_cordon u ≡ count_calls is_cordon t)
    × (count_calls is_uncordon u ≡ count_calls is_uncordon t)
    × (count_calls is_delete_machine u ≡ count_calls is_delete_machine t)
    × (force ≡ true → count_calls is_evict u ≡ count_calls is_evict t)
    × (force ≡ false → count_calls is_delete_pod u ≡ count_calls is_delete_pod t)

module _ (env : Env) where
  pub cordon-Mutates : (name : String) (t : Trace) → Mutates 0 0 1 0 0 t (cordon env name t).1
  unfolding cordon
  cordon-Mutates name t = ground arith

  pub uncordon-Mutates : (name : String) (t : Trace) → Mutates 0 0 0 1 0 t (uncordon env name t).1
  unfolding uncordon
  uncordon-Mutates name t = ground arith

  pub replace-Mutates :
      (name : String) (api : MachineApi) (t : Trace)
      → Mutates 0 0 0 0 1 t (replace env name api t).1
  unfolding replace
  replace-Mutates name api t = ground arith

  -- The replacement of a node removes no pod.
  pub replace-Removes :
      (name : String) (api : MachineApi) (t : Trace)
      → let u = (replace env name api t).1 in
        (count_calls is_evict u ≡ count_calls is_evict t)
        × (count_calls is_delete_pod u ≡ count_calls is_delete_pod t)
  unfolding replace
  replace-Removes name api t = ground arith

  pub node_gone-Mutates : (name : String) (t : Trace) → Mutates 0 0 0 0 0 t (node_gone env name t).1
  unfolding node_gone
  node_gone-Mutates name t = ground arith

  module _ (opts : Options) where
    visit_pod-Mutates :
        (r : Round) (pod : Pod) (t : Trace)
        → let (s, u) = visit_pod env opts r pod t in IsRemoval opts.force t u
    unfolding visit_pod
    visit_pod-Mutates r pod t =
        (ground arith, ground arith, ground arith, λ h. ground arith, λ h. ground arith)

    visit_pods-Mutates :
        (r : Round) (pods : List Pod) (t : Trace)
        → let (s, u) = visit_pods env opts r pods t in IsRemoval opts.force t u
    unfolding visit_pods
    visit_pods-Mutates r [] t = (refl, refl, refl, λ _. refl, λ _. refl)
    visit_pods-Mutates r (pod ∷ pods) t =
        let (r', t') = visit_pod env opts r pod t in
        let (a, b, c, d, e) = visit_pod-Mutates r pod t in
        let (a', b', c', d', e') = visit_pods-Mutates r' pods t' in
        (a' ∙ a, b' ∙ b, c' ∙ c, λ h. d' h ∙ d h, λ h. e' h ∙ e h)

    pub evict_once-Mutates :
        (name : String) (t : Trace)
        → let u = (evict_once env name opts t).1 in IsRemoval opts.force t u
    unfolding evict_once
    evict_once-Mutates name t = elim (Result-cases (env.list_pods t name)) [
      | inl (pods, e) ↦
          rw (e, evict_once) (visit_pods-Mutates no_pods pods (Call.list_pods name ∷ t))
      | inr (failure, e) ↦ rw (e, evict_once) (refl, refl, refl, λ _. refl, λ _. refl)
    ]
