-- ===== src/Controller/Policies.antt =====
-- internal/controller/maintenancepolicy_controller.go: the validation of policies.
pub mod Validation
use Prim.Native.String.{◌++◌}
use maintenance_orchestrator.Prelude.{
  ℕ, suc, ◌+◌, ℤ, pos, ltb_ℤ, leb_ℤ, ◌&&◌, Bool, true, false, not, ◌||◌, List, [], ◌∷◌, String,
  if◌then◌else◌,
}
use mathlib.Core.List
use maintenance_orchestrator.Api.Spec.{Window, MaintenancePolicySpec}
use maintenance_orchestrator.Api.Request.{Condition, MaintenancePolicyStatus, MaintenancePolicy}
use maintenance_orchestrator.Kube.Cluster
use maintenance_orchestrator.Kube.Cluster.{M, ◌>>=◌, ◌>>◌, pure, ask, Error, ok, err}
use maintenance_orchestrator.Kube.Calls.{clock}
use maintenance_orchestrator.Window.Openings.{answer, refused, is_open}
use maintenance_orchestrator.Controller.World.{World, Outcome, finished, error, api, window, itoa}

-- No percentage.
abbrev pub is_no_percentage : ℤ → Bool
is_no_percentage p = ltb_ℤ p (pos 0) || ltb_ℤ (pos 100) p

abbrev same : ℤ → ℤ → Bool
same a b = leb_ℤ a b && leb_ℤ b a

abbrev pub problem_if : Bool → String → List String
problem_if true problem = problem ∷ []
problem_if false problem = []

-- `strings.Join(problems, "; ")`
unfoldable pub join_problems : List String → String
join_problems [] = ""
join_problems (p ∷ []) = p
join_problems (p ∷ q ∷ ps) = p ++ ("; " ++ join_problems (q ∷ ps))

module _ (w : World) where
  -- The loop over the windows, from the index `i` on.
  unfoldable pub window_problems : (now i : ℕ) → List Window → List String
  window_problems now i [] = []
  window_problems now i (win ∷ wins) =
      let rest = window_problems now (i + 1) wins in
      elim (is_open w.zones win now) [
        | answer is ↦ rest
        | refused e ↦ ("allowedWindows[" ++ (itoa (pos i) ++ ("]: " ++ w.text (window e)))) ∷ rest
      ]

  unfoldable pub validate_policy_spec : (now : ℕ) → MaintenancePolicySpec → List String
  validate_policy_spec now spec =
      List.◌++◌
        (problem_if (is_no_percentage spec.max_unavailable_percent)
          "maxUnavailablePercent must be between 0 and 100")
        (List.◌++◌
          (problem_if (is_no_percentage spec.min_capacity_headroom_percent)
            "minCapacityHeadroomPercent must be between 0 and 100")
          (window_problems now 0 spec.allowed_windows))

  -- The condition for the problems found.
  abbrev pub validated : MaintenancePolicy → List String → (now : ℕ) → Condition
  validated pol [] now = record {
    type = "Validated";
    status = true;
    reason = "Valid";
    message = "policy is valid";
    observed_generation = pol.generation;
    last_transition_time = now;
  }
  validated pol (p ∷ ps) now = record {
    type = "Validated";
    status = false;
    reason = "Invalid";
    message = join_problems (p ∷ ps);
    observed_generation = pol.generation;
    last_transition_time = now;
  }

  -- The status is stored where the condition or the generation has changed.
  unfoldable pub store_policy : MaintenancePolicy → Condition → M Outcome
  store_policy pol cond =
      let (conditions, changed) = w.set_status_condition pol.status.conditions cond in
      let stale = not (same pol.status.observed_generation pol.generation) in
      let st : MaintenancePolicyStatus = record {
        conditions = conditions;
        observed_generation = pol.generation;
      } in
      if changed || stale
      then (do
        r ← ask (Cluster.Call.update_policy pol.name st) (λ t. w.env.update_policy t pol.name st)
        pure (elim r [ ok _ ↦ finished | err e ↦ error (api e) ]))
      else pure finished

  -- The clock is read in the validation, and again for the condition; the log is left out.
  unfoldable pub validate_policy : MaintenancePolicy → M Outcome
  validate_policy pol = do
    now ← clock w.env
    let problems = validate_policy_spec now pol.spec
    at ← clock w.env
    store_policy pol (validated pol problems at)

  unfoldable pub reconcile_policy : (name : String) → M Outcome
  reconcile_policy name = do
    r ← ask (Cluster.Call.get_policy name) (λ t. w.env.get_policy t name)
    elim r [
      | ok pol ↦ validate_policy pol
      | err e ↦ elim e [ Error.not_found ↦ pure finished | failure ↦ pure (error (api failure)) ]
    ]
