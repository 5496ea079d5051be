-- ===== src/Preflight/Guardrails.antt =====
-- What a run of the checks without a failed one guarantees.
use maintenance_orchestrator.Prelude.{◌≡◌, inl, inr, true, false, any, List, arith}
use maintenance_orchestrator.Api.Request.{PreflightCheckResult}
use maintenance_orchestrator.Kube.Cluster.{Trace, ok, Result-cases}
use maintenance_orchestrator.Controller.World.{World}
use maintenance_orchestrator.Preflight.Results.{has_fail}
use maintenance_orchestrator.Preflight.Truncation.{has_fail-truncate}
use maintenance_orchestrator.Preflight.Pods.{Checks}
use maintenance_orchestrator.Preflight.Checks.{
  Input, check_missing, check_unavailability, check_window, check_capacity,
}
use maintenance_orchestrator.Preflight.Run.{no_checks, check_nodes, check_scope, run}
use maintenance_orchestrator.Preflight.Failures.{
  fails, is_forbidden, is_nil, is_too_many, is_denied, check_missing-fails,
  check_unavailability-fails, check_window-fails, check_replacement-fails, check_nodes-fails,
}
use maintenance_orchestrator.Preflight.Headroom.{HasHeadroom, check_capacity-fails}

check_scope-fails :
    (w : World) (in_ : Input) (c c' : Checks) (t : Trace)
    → (check_scope w in_ c t).0 ≡ ok c'
    → fails c' ≡ false
    → (fails c ≡ false) × (is_too_many in_ ≡ false) × (is_denied in_ ≡ false) × HasHeadroom w in_ t
unfolding check_scope
check_scope-fails w in_ c c' t e h =
    let (c1, u) = check_capacity w in_ c t in
    let c2 = check_unavailability in_ c1 in
    let (replaced, denied) = check_replacement-fails w in_ (check_window w in_ c2) c' u e h in
    let all : fails c1 ≡ false =
      ground (arith, replaced, check_window-fails w in_ c2, check_unavailability-fails in_ c1) in
    let (before, spare) = check_capacity-fails w in_ c t all in
    (
      before,
      ground (arith, replaced, check_window-fails w in_ c2, check_unavailability-fails in_ c1),
      denied,
      spare,
    )

-- Where the checks of a request have run and none has failed: every node named by the request exists,
-- no target node is a protected control-plane node or carries a reserved label or a reserved taint,
-- the nodes that are unavailable at once do not exceed the policy's limit where it has a cap, the
-- request does not replace nodes without the policy's permission, and the headroom estimated without
-- the target nodes is at least the policy's minimum, unless the policy has none or the headroom cannot
-- be estimated, for which there is only a warning.
pub run_guardrails :
    (w : World) (in_ : Input) (results : List PreflightCheckResult) (t : Trace)
    → (run w in_ t).0 ≡ ok results
    → has_fail results ≡ false
    → let checked =
        check_nodes w in_ in_.nodes (check_missing in_.missing_nodes (no_checks in_.now)) in
      (is_nil in_.missing_nodes ≡ true)
      × (any (is_forbidden in_) in_.nodes ≡ false)
      × (is_too_many in_ ≡ false)
      × (is_denied in_ ≡ false)
      × HasHeadroom w in_ (checked t).1
unfolding run
run_guardrails w in_ results t e h =
    let first = check_missing in_.missing_nodes (no_checks in_.now) in
    let (r, u) = check_nodes w in_ in_.nodes first t in
    elim (Result-cases r) [
      | inr (failure, e') ↦ absurd (ground (arith, e, e'))
      | inl (c, e') ↦ elim (Result-cases (check_scope w in_ c u).0) [
        | inr (failure, e'') ↦ absurd (ground (arith, e, e', e''))
        | inl (c', e'') ↦
            let none_failed : fails c' ≡ false =
              ground (arith, e, e', e'', h, has_fail-truncate c'.out) in
            let (before, few, allowed, spare) = check_scope-fails w in_ c c' u e'' none_failed in
            let nodes = check_nodes-fails w in_ in_.nodes first c t e' in
            let missing = check_missing-fails in_.missing_nodes (no_checks in_.now) in
            (
              ground (arith, before, nodes, missing),
              ground (arith, before, nodes),
              few,
              allowed,
              spare,
            )
      ]
    ]
