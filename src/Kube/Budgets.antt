-- ===== src/Kube/Budgets.antt =====
-- Which disruption budget the preflight checks look at.
use maintenance_orchestrator.Prelude.{
  ◌≡◌, refl, Bool, false, ◌&&◌, any, List, [], ◌∷◌, Option, none, some, String, arith, inl, inr,
  Bool-cases,
}
use maintenance_orchestrator.Api.Spec.{LabelSelector}
use maintenance_orchestrator.Kube.Objects.{Pod, PodDisruptionBudget}
use maintenance_orchestrator.Kube.Workloads.{pdb_is_tight, applies, budget_loop}

abbrev pub is_tight : Option PodDisruptionBudget → Bool
is_tight none = false
is_tight (some pdb) = pdb_is_tight pdb

module _ (m : LabelSelector → Option (List (String × String) → Bool)) (pod : Pod) where
  -- The budget applies to the pod and allows no disruption.
  abbrev pub blocks : PodDisruptionBudget → Bool
  blocks pdb = applies m pdb pod && pdb_is_tight pdb

  budget_loop-from :
      (match : Option PodDisruptionBudget) (pdbs : List PodDisruptionBudget)
      → is_tight match ≡ false
      → is_tight (budget_loop m pod match pdbs) ≡ any blocks pdbs
  unfolding budget_loop
  budget_loop-from match [] h = h
  budget_loop-from none (pdb ∷ pdbs) h = elim (Bool-cases (pdb_is_tight pdb)) [
    | inl e ↦ ground (arith, e, budget_loop-from none pdbs refl)
    | inr e ↦ ground (arith, e, budget_loop-from none pdbs refl, budget_loop-from (some pdb) pdbs e)
  ]
  budget_loop-from (some found) (pdb ∷ pdbs) h =
      ground (arith, h, budget_loop-from (some found) pdbs h)

-- The budget that is found for a pod is tight exactly where some listed budget applies to the pod and is
-- tight, wherever in the list that budget stands.
pub budget_loop_lem :
    (m : LabelSelector → Option (List (String × String) → Bool)) (pod : Pod)
    (pdbs : List PodDisruptionBudget)
    → is_tight (budget_loop m pod none pdbs) ≡ any (blocks m pod) pdbs
budget_loop_lem m pod pdbs = budget_loop-from m pod none pdbs refl
