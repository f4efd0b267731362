-- ===== src/UseCases/ReviewReimbursement.antt =====
-- use_cases/review_reimbursement.py: a reviewer's decision and its audit row, in one transaction.
pub mod Atomic
use reimbursement_analyzer.Prelude.{ℕ, String, Option, none, some, List, [], ◌∷◌}
use reimbursement_analyzer.Decimal.{Decimal}
use reimbursement_analyzer.Errors.{Exc, not_found, not_eligible}
use reimbursement_analyzer.World.{
  World, Result, ok, raised, Action, pure, raise, transaction, ◌>>=◌, ◌>>◌,
}
use reimbursement_analyzer.Repository.{
  Receipts, Updated, approve, reject, find_reimbursement_state, record_human_review_decision,
}
use reimbursement_analyzer.Repository.Tables.{Row, Verdict, approved, rejected}

abbrev pub eligible_statuses : List String
eligible_statuses = "human-review" ∷ "auto-rejected" ∷ "human-rejected" ∷ []

refusal : Option Row → Exc
refusal none = not_found
refusal (some r) = not_eligible

-- `_disambiguate`: always raises.
unfoldable pub disambiguate {ℓ} : {A : Type ℓ} → ℕ → Action A
unfolding refusal
disambiguate uuid = do state ← find_reimbursement_state uuid; raise (refusal state)

-- What follows approve() or reject(), inside the transaction.
recorded : ℕ → Verdict → String → String → Option Updated → Action Updated
unfolding disambiguate
recorded uuid verdict by reason none = disambiguate uuid
recorded uuid verdict by reason (some u) = do
  record_human_review_decision uuid verdict by reason
  pure u

unfoldable pub approve_reimbursement : ℕ → Decimal → ℕ → String → String → String → Action Updated
unfolding recorded
approve_reimbursement uuid value date currency reason approved_by = transaction (do
  row ← approve uuid eligible_statuses value date currency reason
  recorded uuid approved approved_by reason row)

unfoldable pub reject_reimbursement : ℕ → String → String → Receipts → Action Updated
unfolding recorded
reject_reimbursement uuid reason approved_by x =
    transaction (do
      row ← reject uuid eligible_statuses reason x
      recorded uuid rejected approved_by reason row)
