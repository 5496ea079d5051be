-- ===== src/Kube/Workloads.antt =====
-- `ResolveWorkload` (internal/kube/pods.go) and `PDBForPod` (internal/kube/pdb.go), and the listing of
-- nodes by a selector (internal/kube/nodes.go).
use maintenance_orchestrator.Prelude.{
  ℕ, ℤ, pos, Bool, true, false, not, ◌&&◌, List, [], ◌∷◌, Option, none, some, String, if◌then◌else◌,
  str_eq,
}
use maintenance_orchestrator.Api.Spec.{LabelSelector}
use maintenance_orchestrator.Kube.Objects.{
  Node, Pod, OwnerReference, ReplicatedObject, PodDisruptionBudget,
}
use maintenance_orchestrator.Kube.Cluster
use maintenance_orchestrator.Kube.Cluster.{Env, M, ◌>>=◌, pure, ask, Error, Result, ok, err}
use maintenance_orchestrator.Kube.Calls
use maintenance_orchestrator.Kube.Calls.{list_all_nodes}

pub record Workload : Type 0 where
  pub kind : String
  pub namespace : String
  pub name : String
  pub replicas : ℤ
  pub controller_uid : String
  pub is_controller : Bool

unfoldable pub int32_or_default : Option ℤ → ℤ → ℤ
int32_or_default none d = d
int32_or_default (some n) d = n

-- The workload of a stored object.
abbrev stored : (kind : String) → ReplicatedObject → Workload
stored kind o = record {
  kind = kind;
  namespace = o.namespace;
  name = o.name;
  replicas = int32_or_default o.replicas (pos 1);
  controller_uid = o.uid;
  is_controller = true;
}

-- The workload that an owner reference names, where no object is read.
abbrev named : (pod : Pod) → OwnerReference → (kind : String) → (replicas : ℤ) → Workload
named pod ctrl kind replicas = record {
  kind = kind;
  namespace = pod.namespace;
  name = ctrl.name;
  replicas = replicas;
  controller_uid = ctrl.uid;
  is_controller = true;
}

abbrev naked : Pod → Workload
naked pod = record {
  kind = "Pod";
  namespace = pod.namespace;
  name = pod.name;
  replicas = pos 1;
  controller_uid = "";
  is_controller = false;
}

abbrev is_nil {ℓ} : {A : Type ℓ} → List A → Bool
is_nil [] = true
is_nil (x ∷ xs) = false

-- `sel.Empty()`
abbrev pub selects_all : LabelSelector → Bool
selects_all sel = is_nil sel.match_labels && is_nil sel.match_expressions

module _ (env : Env) where
  -- A found ReplicaSet stands for its Deployment, if that can be read.
  unfoldable pub resolve_deployment : Pod → ReplicatedObject → M Workload
  unfolding int32_or_default
  resolve_deployment pod rs = elim rs.controller [
    | none ↦ pure (stored "ReplicaSet" rs)
    | some owner ↦
        if str_eq owner.kind "Deployment"
        then (do
          r ←
              ask (Cluster.Call.get_deployment pod.namespace owner.name)
                (λ t. env.get_deployment t pod.namespace owner.name)
          pure (elim r [ ok dep ↦ stored "Deployment" dep | err e ↦ stored "ReplicaSet" rs ]))
        else pure (stored "ReplicaSet" rs)
  ]

  -- An object that is not found counts as one replica.
  unfoldable pub resolve_replica_set : Pod → OwnerReference → M (Result Workload)
  unfolding resolve_deployment
  resolve_replica_set pod ctrl = do
    r ←
        ask (Cluster.Call.get_replica_set pod.namespace ctrl.name)
          (λ t. env.get_replica_set t pod.namespace ctrl.name)
    elim r [
      | ok rs ↦ do wl ← resolve_deployment pod rs; pure (ok wl)
      | err e ↦ elim e [
        | Error.not_found ↦ pure (ok (named pod ctrl "ReplicaSet" (pos 1)))
        | failure ↦ pure (err failure)
      ]
    ]

  unfoldable pub resolve_stateful_set : Pod → OwnerReference → M (Result Workload)
  unfolding int32_or_default
  resolve_stateful_set pod ctrl = do
    r ←
        ask (Cluster.Call.get_stateful_set pod.namespace ctrl.name)
          (λ t. env.get_stateful_set t pod.namespace ctrl.name)
    elim r [
      | ok ss ↦ pure (ok (stored "StatefulSet" ss))
      | err e ↦ elim e [
        | Error.not_found ↦ pure (ok (named pod ctrl "StatefulSet" (pos 1)))
        | failure ↦ pure (err failure)
      ]
    ]

  unfoldable pub resolve_workload : Pod → M (Result Workload)
  unfolding resolve_replica_set resolve_stateful_set
  resolve_workload pod = elim pod.controller [
    | none ↦ pure (ok (naked pod))
    | some ctrl ↦
        if str_eq ctrl.kind "ReplicaSet"
        then resolve_replica_set pod ctrl
        else if str_eq ctrl.kind "StatefulSet"
        then resolve_stateful_set pod ctrl
        else if str_eq ctrl.kind "DaemonSet"
        then pure (ok (named pod ctrl "DaemonSet" (pos 0)))
        else pure (ok (named pod ctrl ctrl.kind (pos 1)))
  ]

  -- `ListNodes`, with a selector that is valid.
  unfoldable pub list_nodes : LabelSelector → M (Result (List Node))
  unfolding Calls.list_all_nodes
  list_nodes sel =
      if selects_all sel
      then list_all_nodes env
      else ask (Cluster.Call.list_matching_nodes sel) (λ t. env.list_matching_nodes t sel)

unfoldable pub pdb_is_tight : PodDisruptionBudget → Bool
pdb_is_tight pdb = elim pdb.disruptions_allowed [ pos ℕ.zero ↦ true | _ ↦ false ]

module _ (selector_matches : LabelSelector → Option (List (String × String) → Bool)) where
  -- Whether the budget's selector is there, valid, and matches the pod.
  abbrev pub applies : PodDisruptionBudget → Pod → Bool
  applies pdb pod = elim pdb.selector [
    | none ↦ false
    | some sel ↦ elim (selector_matches sel) [ none ↦ false | some m ↦ m pod.labels ]
  ]

  abbrev or_first : Option PodDisruptionBudget → PodDisruptionBudget → Option PodDisruptionBudget
  or_first none pdb = some pdb
  or_first (some match) pdb = some match

  -- The loop of `PDBForPod`.
  unfoldable pub budget_loop :
      Pod → Option PodDisruptionBudget → List PodDisruptionBudget → Option PodDisruptionBudget
  unfolding pdb_is_tight
  budget_loop pod match [] = match
  budget_loop pod match (pdb ∷ rest) =
      if not (applies pdb pod)
      then budget_loop pod match rest
      else if pdb_is_tight pdb
      then some pdb
      else budget_loop pod (or_first match pdb) rest

  unfoldable pub pdb_for_pod : Env → Pod → M (Result (Option PodDisruptionBudget))
  unfolding budget_loop
  pdb_for_pod env pod = do
    r ← ask (Cluster.Call.list_budgets pod.namespace) (λ t. env.list_budgets t pod.namespace)
    pure (elim r [ ok pdbs ↦ ok (budget_loop pod none pdbs) | err e ↦ err e ])
