-- ===== src/Api/Review/Answered.antt =====
-- What the route of a review has done when it answers.
use reimbursement_analyzer.Prelude.{
  ℕ, String, ◌≡◌, refl, sym, ap, ◌∙◌, false, Option, none, some, inl, inr, Bool-cases, arith,
}
use reimbursement_analyzer.Json.{Json, obj, Fields}
use reimbursement_analyzer.Decimal.{Decimal, nan, pos_inf, neg_inf, above, below}
use reimbursement_analyzer.Status
use reimbursement_analyzer.Status.{Status}
use reimbursement_analyzer.Env.{Env}
use reimbursement_analyzer.Config.{Config}
use reimbursement_analyzer.FailureLog
use reimbursement_analyzer.World.{World, ok, Result-cases, raise, count, log, ◌>>◌}
use reimbursement_analyzer.World.Gives.{Core, core, Gives, Gives-bind, Gives-raise}
use reimbursement_analyzer.Repository.{Updated}
use reimbursement_analyzer.Repository.Tables.{Row, Review}
use reimbursement_analyzer.Repository.Page.{Enriched, enrich}
use reimbursement_analyzer.Repository.Consistent.{find-uuid}
use reimbursement_analyzer.UseCases.ReviewReimbursement.Atomic.{IsReviewed}
use reimbursement_analyzer.Api.Payload.{Stream, read_capped}
use reimbursement_analyzer.Api.ReviewRequest.{ReviewRequest, review_uuid, reviewer, validate_review}
use reimbursement_analyzer.Api.Response.{
  ReimbursementItem, DetailResponse, detail, item_of, record_item, from_record,
}
use reimbursement_analyzer.Api.Review.{
  mismatches, Applied, written, unwritten, apply_review, observe_wait, record_decision, answer,
  conclude, put_review, put_reimbursement,
}
use reimbursement_analyzer.Api.Review.Decided.{
  outcome_of, verdict_of, reason_of, given_of, AppliedDone, Gives-apply,
}

-- What an item shows of its row.
abbrev Shows : Row → ReimbursementItem → Type 0
Shows r item = (item.uuid ≡ r.uuid) × (item.status ≡ Status.value r.status)

ok-Shows :
    (r : Row) (payload : Fields) (last : Option Review) (item : ReimbursementItem)
    → ok (item_of r payload last) ≡ ok item
    → Shows r item
ok-Shows r payload last item e =
    let d : item_of r payload last ≡ item = cc in rw (sym d) (refl, refl)

record_item-Shows :
    (r : Row) (last : Option Review) (j : Json) (value : Option Decimal) (item : ReimbursementItem)
    → record_item r last j value ≡ ok item
    → Shows r item
unfolding record_item
record_item-Shows r last (obj payload) none item e = ok-Shows r payload last item e
record_item-Shows r last (obj payload) (some nan) item e = cc
record_item-Shows r last (obj payload) (some pos_inf) item e = ok-Shows r payload last item e
record_item-Shows r last (obj payload) (some neg_inf) item e = ok-Shows r payload last item e
record_item-Shows r last (obj payload) (some (above m k)) item e = ok-Shows r payload last item e
record_item-Shows r last (obj payload) (some (below m k)) item e = ok-Shows r payload last item e
record_item-Shows r last _ _ item e = ground arith

from_record-Shows :
    (row : Enriched) (item : ReimbursementItem) → from_record row ≡ ok item → Shows row.row item
unfolding from_record
from_record-Shows row item =
    record_item-Shows row.row row.last row.row.original_payload row.row.receipts_value item

pub record IsAnswered (c0 : Core) (uuid : ℕ) (review : ReviewRequest) (response : DetailResponse)
    (c : Core) : Type 0 where
  pub updated : Updated
  pub reviewed :
      IsReviewed c0 uuid
        (outcome_of review)
        (verdict_of review)
        (reviewer review)
        (reason_of review)
        (given_of review)
        updated
        c
  pub item : from_record (enrich c.db updated.row) ≡ ok response.data_
  pub uuid_is : response.data_.uuid ≡ uuid
  pub status_is : response.data_.status ≡ Status.value (outcome_of review)

module _ (c0 : Core) (uuid : ℕ) (review : ReviewRequest) where
  abbrev R : DetailResponse → Core → Type 0
  R = IsAnswered c0 uuid review

  Gives-observe_wait : (P : Core → Type 0) (s : Status) → Gives P (observe_wait s) (λ _. P)
  unfolding observe_wait
  Gives-observe_wait P Status.human_review = record { at = λ w p a e. p }
  Gives-observe_wait P _ = record { at = λ w p a e. p }

  Gives-record_decision :
      (P : Core → Type 0) (s t : Status) → Gives P (record_decision uuid review s t) (λ _. P)
  unfolding record_decision
  Gives-record_decision P s t =
      Gives-bind (count _ _ >> observe_wait s) (λ _. log _) (λ _. P) (λ _. P)
        (Gives-bind (count _ _) (λ _. observe_wait s) (λ _. P) (λ _. P)
          (record { at = λ w p a e. p }) λ _. Gives-observe_wait P s)
        λ _. record { at = λ w p a e. p }

  Gives-answer :
      (u : Updated) (row : Enriched)
      → Gives (AppliedDone c0 uuid review (written u row)) (answer row) R
  unfolding answer
  Gives-answer u row = record {
    at = λ w (done, same) response. elim (Result-cases (from_record row)) [
      | inr (x, f) ↦ rw (f, answer) λ e. cc
      | inl (item, f) ↦
          rw (f, answer)
            λ e.
              let d : detail "reimbursement decision recorded" item ≡ response = cc in
              let (same_uuid, same_status) = from_record-Shows row item f in
              let v = done.same_uuid ∙ find-uuid uuid c0.db.rows done.old done.found in
              rw (sym d) (record {
                updated = u;
                reviewed = done;
                item = rw (sym same) f;
                uuid_is = same_uuid ∙ rw same v;
                status_is = same_status ∙ rw same (ap Status.value done.new_status);
              })
    ];
  }

  Gives-conclude :
      (config : Config) (a : Applied)
      → Gives (AppliedDone c0 uuid review a) (conclude config uuid review a) R
  unfolding conclude
  Gives-conclude config (written u row) =
      Gives-bind (record_decision uuid review u.from_status row.row.status) (λ _. answer row)
        (λ _. AppliedDone c0 uuid review (written u row)) R
        (Gives-record_decision (AppliedDone c0 uuid review (written u row)) u.from_status
          row.row.status)
        λ _. Gives-answer u row
  Gives-conclude config (unwritten e) =
      Gives-bind (FailureLog.write config.max_message_chars _) (λ _. raise e) (λ _ c. Unit) R
        (record { at = λ w p a d. tt }) λ _. Gives-raise e R

-- What a body says of the uuid it is for: none, or the one of the path.
abbrev pub IsAddressed : ℕ → Option ℕ → Type 0
IsAddressed uuid none = Unit
IsAddressed uuid (some u) = u ≡ uuid

addressed : (uuid : ℕ) (o : Option ℕ) → mismatches uuid o ≡ false → IsAddressed uuid o
addressed uuid none e = tt
addressed uuid (some u) e = ground arith

-- A review that the route answers is whole: the body was read and validated, it names no uuid or
-- the one of the path, which had a row of an eligible status; that row has the outcome, the reason
-- and the receipts that the body gives, and every other column but the time of update as it was;
-- one review by the body's reviewer is added; nothing else of the tables and the topics has
-- changed, and the answer shows the row as it stands now.
pub put_reimbursement-IsAnswered :
    (env : Env) (config : Config) (uuid : ℕ) (stream : Stream) (w : World)
    (response : DetailResponse)
    → (put_reimbursement env config uuid stream w).0 ≡ ok response
    → (raw : String) × (review : ReviewRequest) × (read_capped stream ≡ ok raw)
      × (validate_review env raw ≡ ok review)
      × IsAddressed uuid (review_uuid review)
      × IsAnswered
          (core w)
          uuid
          review
          response
          (core (put_reimbursement env config uuid stream w).1)
unfolding put_reimbursement put_review
put_reimbursement-IsAnswered env config uuid stream w response =
    elim (Result-cases (read_capped stream)) [
      | inr (x, r) ↦ rw (r, put_reimbursement) λ e. cc
      | inl (raw, r) ↦ elim (Result-cases (validate_review env raw)) [
        | inr (x, v) ↦ rw (r, put_reimbursement) (rw (v, put_reimbursement) λ e. cc)
        | inl (review, v) ↦ elim (Bool-cases (mismatches uuid (review_uuid review))) [
          | inl other ↦
              rw (r, put_reimbursement) (rw (v, put_reimbursement) (rw (other, put_review) λ e. cc))
          | inr own ↦
              rw (r, put_reimbursement)
                (rw (v, put_reimbursement)
                  (rw (own, put_review)
                    λ e. (
                      raw,
                      review,
                      refl,
                      v,
                      addressed uuid (review_uuid review) own,
                      (Gives-bind (apply_review uuid review) (conclude config uuid review)
                            (AppliedDone (core w) uuid review) (IsAnswered (core w) uuid review)
                            (Gives-apply (core w) uuid review)
                            (Gives-conclude (core w) uuid review config)).at
                          w refl response e,
                    )))
        ]
      ]
    ]
