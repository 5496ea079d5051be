-- ===== src/Preflight/Run.antt =====
-- `Run`: all the checks, in their order.
use maintenance_orchestrator.Prelude.{ℕ, List, [], ◌∷◌}
use maintenance_orchestrator.Api.Request.{PreflightCheckResult}
use maintenance_orchestrator.Kube.Objects.{Node}
use maintenance_orchestrator.Kube.Cluster.{M, ◌>>=◌, pure, Result, ok, err}
use maintenance_orchestrator.Kube.Calls.{list_pods_on_node}
use maintenance_orchestrator.Controller.World.{World}
use maintenance_orchestrator.Preflight.Results.{truncate}
use maintenance_orchestrator.Preflight.Pods.{Checks, check_pods}
use maintenance_orchestrator.Preflight.Checks.{
  Input, check_node, check_missing, check_unavailability, check_window, check_capacity,
  check_replacement,
}

abbrev pub no_checks : (now : ℕ) → Checks
no_checks now = record {
  time = now;
  out = [];
  seen_single = [];
  seen_pdb = [];
  daemon_set_pods = 0;
}

module _ (w : World) (in_ : Input) where
  -- The loop over the nodes.
  unfoldable pub check_nodes : List Node → Checks → M (Result Checks)
  check_nodes [] c = pure (ok c)
  check_nodes (node ∷ nodes) c = do
    r ← list_pods_on_node w.env node.name
    elim r [
      | err e ↦ pure (err e)
      | ok pods ↦ do c' ← check_pods w node.name pods (check_node in_ node c); check_nodes nodes c'
    ]

  -- The checks after the loop.
  unfoldable pub check_scope : Checks → M (Result Checks)
  check_scope c = do
    c' ← check_capacity w in_ c
    check_replacement w in_ (check_window w in_ (check_unavailability in_ c'))

  unfoldable pub run : M (Result (List PreflightCheckResult))
  run = do
    r ← check_nodes in_.nodes (check_missing in_.missing_nodes (no_checks in_.now))
    elim r [
      | err e ↦ pure (err e)
      | ok c ↦ do
        r' ← check_scope c
        pure (elim r' [ err e ↦ err e | ok c' ↦ ok (truncate c'.out) ])
    ]
