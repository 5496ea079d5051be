-- ===== src/Controller/World.antt =====
-- What the reconcilers are given besides the API server: the time zones, the third-party functions
-- on conditions and selectors, and the texts of errors, which Go's fmt and the libraries render.
use maintenance_orchestrator.Prelude.{
  ℕ, zero, suc, ◌/◌, ◌%◌, ℤ, pos, negsuc, leb_ℤ, Bool, List, Option, String, ltb, if◌then◌else◌,
  ◌==◌,
}
use Prim.Native.String.{◌++◌}
use maintenance_orchestrator.Api.Enums.{TargetType}
use maintenance_orchestrator.Api.Spec.{LabelSelector}
use maintenance_orchestrator.Api.Request.{Condition}
use maintenance_orchestrator.Kube.Cluster.{Env, Error}
use maintenance_orchestrator.Window.Openings.{Zones, WindowError}
use maintenance_orchestrator.Kube.Capacity.{Quantities}
use maintenance_orchestrator.Controller.Config.{Config}

-- What a request fails of, or a reconcile returns.
pub data Failure : Type 0 where
  api : Error → Failure
  window : WindowError → Failure
  unsupported_target : TargetType → Failure
  no_node_names no_selector no_pool : Failure
  invalid_selector : Failure
  policy_not_found : String → Failure

pub record World : Type 0 where
  pub env : Env
  pub config : Config
  pub zones : Zones
  pub quantities : Quantities
  -- The text of an error.
  pub text : Failure → String
  -- `apimeta.SetStatusCondition`, and whether it changed the list.
  pub set_status_condition : List Condition → Condition → List Condition × Bool
  -- `metav1.LabelSelectorAsSelector` and `Matches`: none for a selector that is not valid.
  pub selector_matches : LabelSelector → Option (List (String × String) → Bool)

-- ctrl.Result, or an error.
pub data Outcome : Type 0 where
  finished requeue_now : Outcome
  requeue_after : ℤ → Outcome
  error : Failure → Outcome

-- `r.requeue`
unfoldable pub requeue : Config → ℤ → Outcome
requeue cfg d =
    if leb_ℤ d (pos 0) then requeue_after cfg.global_requeue_interval else requeue_after d

abbrev digit : ℕ → String
digit n =
    if n == 0
    then "0"
    else if n == 1
    then "1"
    else if n == 2
    then "2"
    else if n == 3
    then "3"
    else if n == 4
    then "4"
    else if n == 5
    then "5"
    else if n == 6
    then "6"
    else if n == 7
    then "7"
    else if n == 8
    then "8"
    else "9"

abbrev decimal : (fuel : ℕ) → ℕ → String
decimal zero n = digit (n % 10)
decimal (suc fuel) n =
    let rest = decimal fuel (n / 10) in if ltb n 10 then digit n else rest ++ digit (n % 10)

-- `%d` of an int64, of 19 digits at most.
unfoldable pub itoa : ℤ → String
itoa (pos n) = decimal 19 n
itoa (negsuc n) = "-" ++ decimal 19 (suc n)
