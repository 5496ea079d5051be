-- ===== src/Preflight/Headroom.antt =====
-- What a check of the capacity that has not failed depends on.
use maintenance_orchestrator.Prelude.{
  ◌≡◌, inl, inr, ℤ, pos, ◌≤ℤ◌, ltb_ℤ, leb_ℤ, Bool, Bool-cases, false, List, Option, none, some,
  String, arith, Option-cases, map,
}
use maintenance_orchestrator.Kube.Cluster.{Trace, Result, Error, ok, err, Result-cases}
use maintenance_orchestrator.Kube.Capacity.{compute_headroom}
use maintenance_orchestrator.Controller.World.{World}
use maintenance_orchestrator.Preflight.Pods.{Checks}
use maintenance_orchestrator.Preflight.Checks.{
  Input, check_capacity, check_headroom, compare_headroom, scope_selector,
}
use maintenance_orchestrator.Preflight.Failures.{fails, fails-add}

-- The minimal headroom of the policy.
abbrev pub required : Input → ℤ
required in_ = in_.policy.spec.min_capacity_headroom_percent

module _ (w : World) (in_ : Input) where
  -- The estimate in a scope, made after the calls of the trace.
  abbrev pub estimate : Option (List (String × String) → Bool) → Trace → Result ℤ
  estimate matches t =
      (compute_headroom w.quantities w.env (map (λ n. n.name) in_.nodes) matches t).0

  -- The policy requires no headroom, the headroom cannot be estimated, or it is at least what is
  -- required.
  pub data HasHeadroom (t : Trace) : Type 0 where
    not_required : required in_ ≤ℤ pos 0 → HasHeadroom t
    bad_selector : scope_selector w in_.policy ≡ none → HasHeadroom t
    unknown :
        (matches : Option (List (String × String) → Bool)) (e : Error)
        → scope_selector w in_.policy ≡ some matches
        → estimate matches t ≡ err e
        → HasHeadroom t
    enough :
        (matches : Option (List (String × String) → Bool)) (headroom : ℤ)
        → scope_selector w in_.policy ≡ some matches
        → estimate matches t ≡ ok headroom
        → required in_ ≤ℤ headroom
        → HasHeadroom t

  compare_headroom-fails :
      (headroom : ℤ) (c : Checks)
      → fails (compare_headroom w (required in_) headroom c) ≡ false
      → (fails c ≡ false) × (required in_ ≤ℤ headroom)
  unfolding compare_headroom
  compare_headroom-fails headroom c h = elim (Bool-cases (ltb_ℤ headroom (required in_))) [
    | inl e ↦ absurd (grind (arith, e, h, fails-add))
    | inr e ↦ (grind (arith, e, h), ground (arith, e))
  ]

  -- A later check does not take back a failed one.
  pub check_capacity-fails :
      (c : Checks) (t : Trace)
      → fails (check_capacity w in_ c t).0 ≡ false
      → (fails c ≡ false) × HasHeadroom t
  unfolding check_capacity check_headroom
  check_capacity-fails c t h = elim (Bool-cases (leb_ℤ (required in_) (pos 0))) [
    | inl free ↦ (ground (arith, free, h), not_required (ground (arith, free)))
    | inr asked ↦ elim (Option-cases (scope_selector w in_.policy)) [
      | inl e ↦ (grind (arith, asked, e, h, fails-add), bad_selector e)
      | inr (matches, e) ↦ elim (Result-cases (estimate matches t)) [
        | inl (headroom, e') ↦
            let (before, above) =
              compare_headroom-fails headroom c (ground (arith, asked, e, e', h)) in
            (before, enough matches headroom e e' above)
        | inr (failure, e') ↦
            (grind (arith, asked, e, e', h, fails-add), unknown matches failure e e')
      ]
    ]
  ]
