-- ===== src/Policy/Resolve.antt =====
-- `Resolve` of internal/policy/policy.go: the policy of a request.
use maintenance_orchestrator.Prelude.{
  ◌≡◌, refl, ◌⊎◌, inl, inr, Bool, true, false, not, Option, none, some, String, if◌then◌else◌,
  is_empty,
}
use maintenance_orchestrator.Api.Spec.{MaintenanceSpec}
use maintenance_orchestrator.Kube.Cluster
use maintenance_orchestrator.Kube.Cluster.{M, ◌>>=◌, pure, ask, Error, ok, err}
use maintenance_orchestrator.Policy.{Effective, default_spec, with_defaults}
use maintenance_orchestrator.Controller.World.{World, Failure, api, policy_not_found}

-- A policy, or why there is none.
pub data Resolved {ℓ} (A : Type ℓ) : Type ℓ where
  resolved : A → Resolved A
  failed : Failure → Resolved A

pub Resolved-cases {ℓ} :
    {A : Type ℓ} (r : Resolved A) → ((a : A) × (r ≡ resolved a)) ⊎ ((f : Failure) × (r ≡ failed f))
Resolved-cases (resolved a) = inl (a, refl)
Resolved-cases (failed f) = inr (f, refl)

abbrev named_policy : Option String → String
named_policy none = ""
named_policy (some name) = name

abbrev built_in : String → Effective
built_in name = record { spec = with_defaults default_spec; name = name; found = false }

-- The policy that is read under the name.
unfoldable pub read_policy : World → (explicit : Bool) → String → M (Resolved Effective)
unfolding default_spec with_defaults
read_policy w explicit name = do
  r ← ask (Cluster.Call.get_policy name) (λ t. w.env.get_policy t name)
  elim r [
    | ok pol ↦ pure (resolved (record { spec = with_defaults pol.spec; name = name; found = true }))
    | err e ↦ elim e [
      | Error.not_found ↦
          if explicit
          then pure (failed (policy_not_found name))
          else pure (resolved (built_in name))
      | failure ↦ pure (failed (api failure))
    ]
  ]

unfoldable pub resolve : World → MaintenanceSpec → (default_name : String) → M (Resolved Effective)
unfolding read_policy
resolve w spec default_name =
    let explicit = not (is_empty (named_policy spec.policy_ref)) in
    let name = if explicit then named_policy spec.policy_ref else default_name in
    if is_empty name then pure (resolved (built_in "")) else read_policy w explicit name
