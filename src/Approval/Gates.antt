-- ===== src/Approval/Gates.antt =====
-- Which decision counts at a gate, and when a gate lets a request pass.
use mathlib.Core.List.{Memᴰ}
use maintenance_orchestrator.Prelude.{
  ℕ, ◌≡◌, refl, ◌⊎◌, inl, inr, ◌↔◌, true, false, ◌&&◌, Option, none, some, List, [], ◌∷◌, arith,
  All, Bool-cases,
}
use maintenance_orchestrator.Api.Enums.{ApprovalPolicy, Gate, Decision}
use maintenance_orchestrator.Api.Spec.{GateDecision, ApprovalSpec}
use maintenance_orchestrator.Approval.{
  not_required, approved, requires_gate, gate_eq, is_later, prefer, decision_loop, decision_for,
  evaluate, result_of,
}

is_later_trans :
    (s t u : Option ℕ) → is_later s t ≡ false → is_later t u ≡ false → is_later s u ≡ false
unfolding is_later
is_later_trans s t u h k = ground arith

is_later_asym : (s t : Option ℕ) → is_later s t ≡ true → is_later t s ≡ false
unfolding is_later
is_later_asym s t h = ground arith

module _ (gate : Gate) where
  -- No decision `g` for the gate is later than `d`.
  abbrev pub IsNewest : GateDecision → List GateDecision → Type 0
  IsNewest d gs = All (λ g. (gate_eq g.gate gate && is_later g.time d.time) ≡ false) gs

  -- What `decision_for` promises of its result for the decisions `gs`.
  abbrev pub IsChosen : List GateDecision → Option GateDecision → Type 0
  IsChosen gs none = All (λ g. gate_eq g.gate gate ≡ false) gs
  IsChosen gs (some d) = Memᴰ d gs × (gate_eq d.gate gate ≡ true) × IsNewest d gs

  -- What the loop makes of a decision found before: it only changes it for a later one.
  pub record Improves (f : GateDecision) (gs : List GateDecision) (d : GateDecision) : Type 0 where
    pub listed : (d ≡ f) ⊎ Memᴰ d gs
    pub at_gate : gate_eq d.gate gate ≡ true
    pub newest : IsNewest d gs
    pub not_before : is_later f.time d.time ≡ false

  Improves-skip :
      {f g d : GateDecision} {gs : List GateDecision}
      → (gate_eq g.gate gate ≡ true → is_later g.time f.time ≡ false)
      → Improves f gs d
      → Improves f (g ∷ gs) d
  Improves-skip {f} {g} {d} old i = record {
    listed = elim i.listed [ inl e ↦ inl e | inr m ↦ inr (Memᴰ.tail m) ];
    at_gate = i.at_gate;
    newest = (ground (arith, old, is_later_trans g.time f.time d.time), i.newest);
    not_before = i.not_before;
  }

  Improves-take :
      {f g d : GateDecision} {gs : List GateDecision}
      → is_later g.time f.time ≡ true
      → Improves g gs d
      → Improves f (g ∷ gs) d
  Improves-take {f} {g} {d} later i = record {
    listed = elim i.listed [ inl e ↦ inr (Memᴰ.head e) | inr m ↦ inr (Memᴰ.tail m) ];
    at_gate = i.at_gate;
    newest = (ground (arith, i.not_before), i.newest);
    not_before =
        is_later_trans f.time g.time d.time (is_later_asym g.time f.time later) i.not_before;
  }

  -- What the loop returns after a decision `f` was found.
  abbrev Returns : GateDecision → List GateDecision → Option GateDecision → Type 0
  Returns f gs o = (d : GateDecision) × (o ≡ some d) × Improves f gs d

  decision_loop-some :
      (gs : List GateDecision) (f : GateDecision)
      → gate_eq f.gate gate ≡ true
      → Returns f gs (decision_loop gate (some f) gs)
  unfolding decision_loop prefer is_later
  decision_loop-some [] f h =
      (f, refl, record { listed = inl refl; at_gate = h; newest = tt; not_before = ground arith })
  decision_loop-some (g ∷ gs) f h = elim (Bool-cases (gate_eq g.gate gate)) [
    | inr other ↦
        let (d, e, i) = decision_loop-some gs f h in rw other (d, e, Improves-skip (λ at. cc) i)
    | inl at ↦ elim (Bool-cases (is_later g.time f.time)) [
      | inl later ↦
          let (d, e, i) = decision_loop-some gs g at in rw (at, later) (d, e, Improves-take later i)
      | inr old ↦
          let (d, e, i) = decision_loop-some gs f h in
          rw (at, old) (d, e, Improves-skip (λ _. old) i)
    ]
  ]

  IsChosen-some :
      {f : GateDecision} {gs : List GateDecision} {o : Option GateDecision}
      → Returns f gs o
      → IsChosen (f ∷ gs) o
  IsChosen-some {f} {gs} (d, e, i) = rw e (
    elim i.listed [ inl same ↦ Memᴰ.head same | inr m ↦ Memᴰ.tail m ],
    i.at_gate,
    (ground (arith, i.not_before), i.newest),
  )

  IsChosen-cons :
      (g : GateDecision) (gs : List GateDecision) (o : Option GateDecision)
      → gate_eq g.gate gate ≡ false
      → IsChosen gs o
      → IsChosen (g ∷ gs) o
  IsChosen-cons g gs none other c = (other, c)
  IsChosen-cons g gs (some d) other c = (Memᴰ.tail c.0, c.1, (ground arith, c.2))

  decision_loop-none : (gs : List GateDecision) → IsChosen gs (decision_loop gate none gs)
  unfolding decision_loop prefer
  decision_loop-none [] = tt
  decision_loop-none (g ∷ gs) = elim (Bool-cases (gate_eq g.gate gate)) [
    | inl at ↦ rw at (IsChosen-some (decision_loop-some gs g at))
    | inr other ↦ rw other (IsChosen-cons g gs _ other (decision_loop-none gs))
  ]

-- The decision found for a gate is one of the recorded decisions for that gate, and no recorded
-- decision for the gate is later (one without a time counts as the oldest); none is found only where
-- none is recorded for the gate.
pub decision_for_lem :
    (spec : ApprovalSpec) (gate : Gate) → IsChosen gate spec.gates (decision_for spec gate)
unfolding decision_for
decision_for_lem spec gate = decision_loop-none gate spec.gates

-- A gate is `approved` exactly where the policy requires it and the decision found for it approves,
-- and `not_required` exactly where the policy does not gate it.
pub evaluate_cases :
    (policy : ApprovalPolicy) (spec : ApprovalSpec) (gate : Gate)
    → (((evaluate policy spec gate).0 ≡ approved) ↔ (
        (d : GateDecision) × (requires_gate policy gate ≡ true)
        × (decision_for spec gate ≡ some d)
        × (d.decision ≡ Decision.approved)))
      × (((evaluate policy spec gate).0 ≡ not_required) ↔ (requires_gate policy gate ≡ false))
unfolding evaluate result_of
evaluate_cases policy spec gate =
    ((λ h. ground arith, λ h. ground arith), (λ h. ground arith, λ h. ground arith))
