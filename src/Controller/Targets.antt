-- ===== src/Controller/Targets.antt =====
-- internal/controller/targets.go: the nodes that a request is about.
use maintenance_orchestrator.Prelude.{
  ◌||◌, List, [], ◌∷◌, Option, none, some, String, if◌then◌else◌, is_empty, sort_by,
}
use maintenance_orchestrator.Api.Enums.{TargetType}
use maintenance_orchestrator.Api.Spec.{TargetRef, LabelSelector}
use maintenance_orchestrator.Kube.Objects.{Node}
use maintenance_orchestrator.Kube.Cluster.{M, ◌>>=◌, pure, Error, ok, err}
use maintenance_orchestrator.Kube.Calls
use maintenance_orchestrator.Kube.Calls.{get_node}
use maintenance_orchestrator.Kube.Workloads.{list_nodes}
use maintenance_orchestrator.Policy.Resolve.{Resolved, resolved, failed}
use maintenance_orchestrator.Controller.World.{
  World, api, unsupported_target, no_node_names, no_selector, no_pool, invalid_selector,
}

pub record ResolvedTarget : Type 0 where
  pub nodes : List Node
  pub missing : List String
  pub universe : List Node

unfoldable pub sort_nodes : List Node → List Node
unfolding sort_by
sort_nodes = sort_by (λ n. n.name)

abbrev in_scope : List Node → ResolvedTarget
in_scope nodes =
    let sorted = sort_nodes nodes in record { nodes = sorted; missing = []; universe = sorted }

module _ (w : World) where
  -- The loop over the names: the nodes found, and the names without a node, in order.
  unfoldable pub find_nodes : List String → M (Resolved (List Node × List String))
  unfolding Calls.get_node
  find_nodes [] = pure (resolved ([], []))
  find_nodes (name ∷ names) =
      let continue = find_nodes names in
      (do
        r ← get_node w.env name
        elim r [
          | ok node ↦ do
            rest ← continue
            pure (elim rest [ resolved (ns, ms) ↦ resolved (node ∷ ns, ms) | failed f ↦ failed f ])
          | err e ↦ elim e [
            | Error.not_found ↦ do
              rest ← continue
              pure
                  (elim rest [ resolved (ns, ms) ↦ resolved (ns, name ∷ ms) | failed f ↦ failed f ])
            | failure ↦ pure (failed (api failure))
          ]
        ])

  unfoldable pub resolve_node_names : List String → M (Resolved ResolvedTarget)
  unfolding find_nodes sort_nodes
  resolve_node_names [] = pure (failed no_node_names)
  resolve_node_names (name ∷ names) = do
    r ← find_nodes (name ∷ names)
    pure (elim r [
      | resolved (ns, ms) ↦
          resolved (record { nodes = sort_nodes ns; missing = ms; universe = sort_nodes ns })
      | failed f ↦ failed f
    ])

  -- The nodes of a valid selector.
  unfoldable pub select_nodes : LabelSelector → M (Resolved ResolvedTarget)
  unfolding list_nodes sort_nodes
  select_nodes sel = do
    r ← list_nodes w.env sel
    pure (elim r [ ok nodes ↦ resolved (in_scope nodes) | err e ↦ failed (api e) ])

  unfoldable pub resolve_selector : Option LabelSelector → M (Resolved ResolvedTarget)
  unfolding select_nodes
  resolve_selector none = pure (failed no_selector)
  resolve_selector (some sel) = elim (w.selector_matches sel) [
    | none ↦ pure (failed invalid_selector)
    | some _ ↦ select_nodes sel
  ]

  unfoldable pub resolve_pool : (key value : String) → M (Resolved ResolvedTarget)
  unfolding select_nodes
  resolve_pool key value =
      if is_empty key || is_empty value
      then pure (failed no_pool)
      else select_nodes (record { match_labels = (key, value) ∷ []; match_expressions = [] })

  unfoldable pub resolve_target : TargetRef → M (Resolved ResolvedTarget)
  unfolding resolve_node_names resolve_selector resolve_pool
  resolve_target t = elim t.type [
    | TargetType.node ↦ resolve_node_names t.node_names
    | TargetType.node_selector ↦ resolve_selector t.selector
    | TargetType.pool ↦ resolve_pool t.pool_key t.pool_value
    | type ↦ pure (failed (unsupported_target type))
  ]
