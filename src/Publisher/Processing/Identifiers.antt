-- ===== src/Publisher/Processing/Identifiers.antt =====
-- The length of a request_id: what ReimbursementRequest accepts and what the table accepts.
use reimbursement_analyzer.Prelude
use reimbursement_analyzer.Prelude.{ℕ, ◌≤◌, ◌<◌, String, ◌≡◌, ◌≢◌, Option, arith}
use reimbursement_analyzer.Json.{Fields}
use reimbursement_analyzer.Status.{Status}
use reimbursement_analyzer.Config.{Config}
use reimbursement_analyzer.Models.{RequestEnvelope}
use reimbursement_analyzer.Models.Request.{ReimbursementRequest, valid, model_validate}
use reimbursement_analyzer.Env.{Env}
use reimbursement_analyzer.Repository.Inserts.{IsInserted}
use reimbursement_analyzer.Repository.Tables.{Db}
use reimbursement_analyzer.World.{World, ok}
use reimbursement_analyzer.Publisher.Processing.{published, escalated, process_item, escalate_item}
use reimbursement_analyzer.Publisher.Processing.Outcomes.{process_item-Outbox}
use reimbursement_analyzer.Publisher.Processing.Escalations.{escalate_item-Escalated}

module _ (env : Env) (item : Fields) (r : ReimbursementRequest)
    (validates : model_validate env item ≡ valid r)
    (too_long : 64 < Prelude.Text.length r.request_id) where
  not_inserted :
      (status : Status) (reason : Option String) (db : Db) (uuid : ℕ) (db' : Db)
      → IsInserted env item status reason db uuid db'
      → ⊥
  not_inserted status reason db uuid db' h =
      let same : h.request ≡ r = cc in
      let id : h.row.request_id ≡ r.request_id = cc in
      let le : Prelude.Text.length r.request_id ≤ 64 = rw id at h.row_checked.request_id in
      omega (arith, le, too_long)

  -- An item that validates with a request_id of more than 64 characters is never published and
  -- never escalated, whatever the state and whatever the calls answer.
  pub too_long_item :
      (config : Config) (envelope : RequestEnvelope) (index : ℕ) (w : World)
      → ((process_item env config envelope index item w).0 ≢ ok published)
        × ((escalate_item env config envelope index item w).0 ≢ ok escalated)
  too_long_item config envelope index w = (
    λ e.
        let (uuid, h) = process_item-Outbox env config envelope index item w e in
        not_inserted _ _ _ _ _ h.0,
    λ e.
        let (uuid, h) = escalate_item-Escalated env config envelope index item w e in
        not_inserted _ _ _ _ _ h.0,
  )
