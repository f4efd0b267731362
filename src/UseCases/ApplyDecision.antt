-- ===== src/UseCases/ApplyDecision.antt =====
-- use_cases/apply_decision.py
use reimbursement_analyzer.Prelude.{ℕ, String, Bool, true, false, Option, none, some, [], ◌∷◌}
use reimbursement_analyzer.Status
use reimbursement_analyzer.Status.{DecisionStatus}
use reimbursement_analyzer.World.{Action, pure, count, ◌>>=◌, ◌>>◌}
use reimbursement_analyzer.Repository.{Receipts, update_decision}

-- The metric names "pending" as the status before, which is not read from the row.
unfoldable pub reported : ℕ → DecisionStatus → Bool → Action (Option ℕ)
reported uuid status false = pure none
reported uuid status true = do
  count "reimbursement_status_transitions" ("pending" ∷ Status.value (Status.to_status status) ∷ [])
  pure (some uuid)

-- The uuid, or `none` for a uuid that has no row.
unfoldable pub apply_decision : ℕ → DecisionStatus → String → Receipts → Action (Option ℕ)
unfolding reported
apply_decision uuid status reason x = do
  updated ← update_decision uuid status reason x
  reported uuid status updated
