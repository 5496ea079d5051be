-- ===== src/Preflight/Results.antt =====
-- The results of the checks: `Worst`, `HasFail`, `FailCodes` and `truncate`.
use maintenance_orchestrator.Prelude.{
  ℕ, suc, Bool, true, false, not, ◌&&◌, List, [], ◌∷◌, ◌++◌, String, if◌then◌else◌, leb, length,
  has,
}
use maintenance_orchestrator.Api.Enums.{CheckStatus}
use maintenance_orchestrator.Api.Request.{PreflightCheckResult}

abbrev pub max_results : ℕ
max_results = 200

abbrev pub is_fail : PreflightCheckResult → Bool
is_fail r = elim r.status [ CheckStatus.fail ↦ true | _ ↦ false ]

unfoldable pub has_fail : List PreflightCheckResult → Bool
has_fail [] = false
has_fail (r ∷ rs) = if is_fail r then true else has_fail rs

-- The loop of `Worst`, with the worst status so far.
abbrev worst_loop : CheckStatus → List PreflightCheckResult → CheckStatus
worst_loop so_far [] = so_far
worst_loop so_far (r ∷ rs) = elim r.status [
  | CheckStatus.fail ↦ CheckStatus.fail
  | CheckStatus.warn ↦ worst_loop CheckStatus.warn rs
  | CheckStatus.pass ↦ worst_loop so_far rs
]

unfoldable pub worst : List PreflightCheckResult → CheckStatus
worst rs = worst_loop CheckStatus.pass rs

abbrev codes_loop : (seen : List String) → List PreflightCheckResult → List String
codes_loop seen [] = []
codes_loop seen (r ∷ rs) =
    let first = codes_loop (r.code ∷ seen) rs in
    let rest = codes_loop seen rs in
    if is_fail r && not (has r.code seen) then r.code ∷ first else rest

-- The distinct codes of the failed checks, in order.
unfoldable pub fail_codes : List PreflightCheckResult → List String
fail_codes rs = codes_loop [] rs

unfoldable pub fails_of : List PreflightCheckResult → List PreflightCheckResult
fails_of [] = []
fails_of (r ∷ rs) = let rest = fails_of rs in if is_fail r then r ∷ rest else rest

-- The second loop of `truncate`, after `kept` results.
unfoldable pub fill : (kept : ℕ) → List PreflightCheckResult → List PreflightCheckResult
fill kept [] = []
fill kept (r ∷ rs) =
    let more = fill (suc kept) rs in
    let rest = fill kept rs in
    if leb max_results kept then [] else if is_fail r then rest else r ∷ more

unfoldable pub truncate : List PreflightCheckResult → List PreflightCheckResult
unfolding fails_of fill
truncate rs =
    if leb (length rs) max_results then rs else fails_of rs ++ fill (length (fails_of rs)) rs
