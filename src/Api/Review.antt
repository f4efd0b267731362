-- ===== src/Api/Review.antt =====
-- api/reimbursement/update/route.py: the route that applies a reviewer's decision.
pub mod Decided
pub mod Answered
pub mod Refused
use reimbursement_analyzer.Prelude
use reimbursement_analyzer.Prelude.{
  ℕ, String, Bool, true, false, not, Option, none, some, List, [], ◌∷◌, str_eq, ◌==◌, if◌then◌else◌,
}
use reimbursement_analyzer.Json.{str, obj, Fields, dict}
use reimbursement_analyzer.Status
use reimbursement_analyzer.Errors.{Exc, not_found, not_eligible, uuid_mismatch, other, sanitize}
use reimbursement_analyzer.Env.{Env}
use reimbursement_analyzer.Config.{Config}
use reimbursement_analyzer.FailureLog
use reimbursement_analyzer.World.{Action, pure, raise, acquire, count, log, try, ◌>>=◌, ◌>>◌}
use reimbursement_analyzer.Repository.{Updated}
use reimbursement_analyzer.Repository.Page.{Enriched}
use reimbursement_analyzer.UseCases.PublishPending.{uuid_text}
use reimbursement_analyzer.UseCases.ReviewReimbursement.{
  approve_reimbursement, reject_reimbursement,
}
use reimbursement_analyzer.UseCases.GetReimbursement.{is_not_found, get_reimbursement}
use reimbursement_analyzer.Api.Payload.{Stream, read_capped}
use reimbursement_analyzer.Api.ReviewRequest.{
  ReviewRequest, approve, reject, review_uuid, reviewer, validate_review,
}
use reimbursement_analyzer.Api.Response.{DetailResponse, detail, from_record, returned}

-- `review.uuid is not None and review.uuid != uuid`
abbrev pub mismatches : ℕ → Option ℕ → Bool
mismatches uuid none = false
mismatches uuid (some u) = not (u == uuid)

unfoldable pub decide : ℕ → ReviewRequest → Action Updated
decide uuid (approve r) =
    approve_reimbursement uuid r.receipts_value r.receipts_date r.receipts_currency r.reason
      r.approved_by
decide uuid (reject r) = reject_reimbursement uuid r.reason r.approved_by r.receipts

-- What is known when the connection is released: the decision with the row that was fetched again,
-- or the exception of the write.
pub data Applied : Type 0 where
  written : Updated → Enriched → Applied
  unwritten : Exc → Applied

-- `except (ReimbursementNotFound, ReimbursementNotEligible)`
abbrev pub is_refusal : Exc → Bool
is_refusal not_found = true
is_refusal not_eligible = true
is_refusal _ = false

unfoldable pub hold_error : Exc → Action Applied
hold_error e = if is_refusal e then raise e else pure (unwritten e)

-- `except ReimbursementNotFound` around the second read
unfoldable pub not_refetched : ℕ → Exc → Action Applied
not_refetched uuid e =
    if is_not_found e
    then raise (
        other "RuntimeError" (
          Prelude.Text.concat (
            "reimbursement "
            ∷ Prelude.Text.decimal uuid
            ∷ " decision committed but could not be re-fetched afterward"
            ∷ [])))
    else raise e

unfoldable pub refetch : ℕ → Updated → Action Applied
unfolding not_refetched
refetch uuid u = try (get_reimbursement uuid) (not_refetched uuid) (λ row. pure (written u row))

unfoldable pub apply_review : ℕ → ReviewRequest → Action Applied
unfolding decide hold_error refetch
apply_review uuid review = acquire (try (decide uuid review) hold_error (refetch uuid))

abbrev failed_record : ℕ → ReviewRequest → Exc → Fields
failed_record uuid review e = dict (
    ("event", str "reimbursement.decision_write_failed")
    ∷ ("uuid", uuid_text uuid)
    ∷ ("approved_by", str (reviewer review))
    ∷ ("error", str (sanitize e))
    ∷ [])

-- The time in review is one observation, whose value is not kept.
unfoldable pub observe_wait : Status.Status → Action (Unit {0})
observe_wait Status.human_review = count "reimbursement_review_wait_seconds" []
observe_wait _ = pure tt

-- The metrics, and the log line.
unfoldable pub record_decision :
    ℕ → ReviewRequest → Status.Status → Status.Status → Action (Unit {0})
unfolding observe_wait
record_decision uuid review from_status status = do
  count "reimbursement_status_transitions" (Status.value from_status ∷ Status.value status ∷ [])
  observe_wait from_status
  log (
      obj (
        dict (
          ("event", str "reimbursement.decision_recorded")
          ∷ ("uuid", uuid_text uuid)
          ∷ ("status", str (Status.value status))
          ∷ ("approved_by", str (reviewer review))
          ∷ [])))

unfoldable pub answer : Enriched → Action DetailResponse
answer row = do
  item ← returned (from_record row)
  pure (detail "reimbursement decision recorded" item)

unfoldable pub conclude : Config → ℕ → ReviewRequest → Applied → Action DetailResponse
unfolding record_decision answer
conclude config uuid review (written u row) =
    record_decision uuid review u.from_status row.row.status >> answer row
conclude config uuid review (unwritten e) = do
  FailureLog.write config.max_message_chars (failed_record uuid review e)
  raise e

unfoldable pub put_review : Config → ℕ → ReviewRequest → Action DetailResponse
unfolding apply_review conclude
put_review config uuid review =
    if mismatches uuid (review_uuid review)
    then raise uuid_mismatch
    else (apply_review uuid review >>= conclude config uuid review)

-- The route PUT /api/v1/reimbursement/{uuid}.
unfoldable pub put_reimbursement : Env → Config → ℕ → Stream → Action DetailResponse
unfolding put_review
put_reimbursement env config uuid stream = do
  raw ← returned (read_capped stream)
  review ← returned (validate_review env raw)
  put_review config uuid review
