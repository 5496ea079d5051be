-- ===== src/Preflight/Truncation.antt =====
-- The cap on the results of the checks.
use maintenance_orchestrator.Prelude.{
  ℕ, suc, ◌+◌, ◌-◌, ◌≤◌, ◌≡◌, refl, ap, ◌∙◌, sym, inl, inr, ◌||◌, List, [], ◌∷◌, ◌++◌, leb, length,
  arith, Bool-cases,
}
use maintenance_orchestrator.Api.Request.{PreflightCheckResult}
use Prim.Native.Nat.{max}
use maintenance_orchestrator.Preflight.Results.{max_results, has_fail, fails_of, fill, truncate}

pub has_fail-append :
    (xs ys : List PreflightCheckResult) → has_fail (xs ++ ys) ≡ (has_fail xs || has_fail ys)
unfolding has_fail
has_fail-append [] ys = refl
has_fail-append (x ∷ xs) ys = ground (arith, has_fail-append xs ys)

fails_of-append :
    (xs ys : List PreflightCheckResult) → fails_of (xs ++ ys) ≡ fails_of xs ++ fails_of ys
unfolding fails_of
fails_of-append [] ys = refl
fails_of-append (x ∷ xs) ys = ground (arith, fails_of-append xs ys)

fails_of-fails_of : (rs : List PreflightCheckResult) → fails_of (fails_of rs) ≡ fails_of rs
unfolding fails_of
fails_of-fails_of [] = refl
fails_of-fails_of (r ∷ rs) = ground (arith, fails_of-fails_of rs)

fails_of-fill : (kept : ℕ) (rs : List PreflightCheckResult) → fails_of (fill kept rs) ≡ []
unfolding fails_of fill
fails_of-fill kept [] = refl
fails_of-fill kept (r ∷ rs) = ground (arith, fails_of-fill kept rs, fails_of-fill (suc kept) rs)

length-fill :
    (kept : ℕ) (rs : List PreflightCheckResult) → length (fill kept rs) ≤ max_results - kept
unfolding fill
length-fill kept [] = ground arith
length-fill kept (r ∷ rs) = ground (arith, length-fill kept rs, length-fill (suc kept) rs)

has_fail-fails_of : (rs : List PreflightCheckResult) → has_fail (fails_of rs) ≡ has_fail rs
unfolding has_fail fails_of
has_fail-fails_of [] = refl
has_fail-fails_of (r ∷ rs) = ground (arith, has_fail-fails_of rs)

append_nil {ℓ} : {A : Type ℓ} (xs : List A) → xs ++ [] ≡ xs
append_nil [] = refl
append_nil (x ∷ xs) = ap (λ l. x ∷ l) (append_nil xs)

length-append_lem : (xs ys : List PreflightCheckResult) → length (xs ++ ys) ≡ length xs + length ys
length-append_lem [] ys = omega arith
length-append_lem (x ∷ xs) ys = ground (arith, length-append_lem xs ys)

capped-fails_of :
    (rs : List PreflightCheckResult)
    → fails_of (fails_of rs ++ fill (length (fails_of rs)) rs) ≡ fails_of rs
capped-fails_of rs =
    fails_of-append (fails_of rs) (fill (length (fails_of rs)) rs)
    ∙ rw (fails_of-fails_of rs, fails_of-fill (length (fails_of rs)) rs) (append_nil (fails_of rs))

-- The cap keeps every failed check, in order, and leaves no more results than 200 or the number of
-- failed checks, whichever is greater.
pub truncate_lem :
    (rs : List PreflightCheckResult)
    → (fails_of (truncate rs) ≡ fails_of rs)
      × (length (truncate rs) ≤ max max_results (length (fails_of rs)))
unfolding truncate
truncate_lem rs = elim (Bool-cases (leb (length rs) max_results)) [
  | inl e ↦ rw e (refl, ground (arith, e))
  | inr e ↦ rw e (
    capped-fails_of rs,
    ground (
      arith,
      length-append_lem (fails_of rs) (fill (length (fails_of rs)) rs),
      length-fill (length (fails_of rs)) rs,
    ),
  )
]

pub has_fail-truncate : (rs : List PreflightCheckResult) → has_fail (truncate rs) ≡ has_fail rs
has_fail-truncate rs =
    sym (has_fail-fails_of (truncate rs)) ∙ (ap has_fail (truncate_lem rs).0 ∙ has_fail-fails_of rs)
