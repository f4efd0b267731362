-- ===== src/UseCases/GetReimbursement/Reachable.antt =====
-- The states that the statements of repository.py lead to, and the two queries in them.
use reimbursement_analyzer.Prelude.{ℕ, String, ◌≡◌, List, []}
use reimbursement_analyzer.Json.{Fields}
use reimbursement_analyzer.Decimal.{Decimal}
use reimbursement_analyzer.Status.{DecisionStatus}
use reimbursement_analyzer.Env.{Env}
use reimbursement_analyzer.World.{World}
use reimbursement_analyzer.Repository.{
  Receipts, insert_pending, insert_human_review, update_decision, approve, reject,
  record_human_review_decision, delete_pending,
}
use reimbursement_analyzer.Repository.Tables.{Verdict}

-- The tables are empty at first. Each step is a statement, which may fail or lose its reply, or
-- changes nothing of the tables; a rollback goes on from the state before the transaction.
pub data IsReachable (env : Env) : World → Type 0 where
  empty : {w : World} → w.db.rows ≡ [] → w.db.reviews ≡ [] → IsReachable env w
  elsewhere : {w w' : World} → IsReachable env w → w'.db ≡ w.db → IsReachable env w'
  inserted :
      {w : World} (item : Fields)
      → IsReachable env w
      → IsReachable env (insert_pending env item w).1
  escalated :
      {w : World} (item : Fields) (reason : String)
      → IsReachable env w
      → IsReachable env (insert_human_review env item reason w).1
  decided :
      {w : World} (uuid : ℕ) (status : DecisionStatus) (reason : String) (x : Receipts)
      → IsReachable env w
      → IsReachable env (update_decision uuid status reason x w).1
  approving :
      {w : World} (uuid : ℕ) (eligible : List String) (value : Decimal) (date : ℕ)
      (currency reason : String)
      → IsReachable env w
      → IsReachable env (approve uuid eligible value date currency reason w).1
  rejecting :
      {w : World} (uuid : ℕ) (eligible : List String) (reason : String) (x : Receipts)
      → IsReachable env w
      → IsReachable env (reject uuid eligible reason x w).1
  recorded :
      {w : World} (uuid : ℕ) (verdict : Verdict) (by reason : String)
      → IsReachable env w
      → IsReachable env (record_human_review_decision uuid verdict by reason w).1
  removed : {w : World} (uuid : ℕ) → IsReachable env w → IsReachable env (delete_pending uuid w).1
