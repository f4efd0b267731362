-- ===== src/Api/Review/Refused.antt =====
-- The requests for a review that are refused before the database is asked.
use reimbursement_analyzer.Prelude.{
  ℕ, String, ◌≡◌, ◌≢◌, refl, some, true, Bool-cases, inl, inr, arith, ◌==◌,
}
use reimbursement_analyzer.Errors.{Exc, uuid_mismatch}
use reimbursement_analyzer.Env.{Env}
use reimbursement_analyzer.Config.{Config}
use reimbursement_analyzer.World.{World, ok, raised}
use reimbursement_analyzer.Api.Payload.{Stream, read_capped}
use reimbursement_analyzer.Api.ReviewRequest.{ReviewRequest, review_uuid, validate_review}
use reimbursement_analyzer.Api.Review.{mismatches, put_review, put_reimbursement}

module _ (env : Env) (config : Config) (uuid : ℕ) where
  -- What a request is refused for.
  pub data IsRefusal (stream : Stream) : Exc → Type 0 where
    unread : {e : Exc} → read_capped stream ≡ raised e → IsRefusal stream e
    misshapen :
        {raw : String} {e : Exc}
        → read_capped stream ≡ ok raw
        → validate_review env raw ≡ raised e
        → IsRefusal stream e
    misdirected :
        {raw : String} {review : ReviewRequest} {named : ℕ}
        → read_capped stream ≡ ok raw
        → validate_review env raw ≡ ok review
        → review_uuid review ≡ some named
        → named ≢ uuid
        → IsRefusal stream uuid_mismatch

  other_uuid : (named : ℕ) → named ≢ uuid → mismatches uuid (some named) ≡ true
  other_uuid named h = elim (Bool-cases (named == uuid)) [
    | inl same ↦ absurd (h (ground arith))
    | inr other ↦ rw other refl
  ]

  -- A request whose body cannot be read, or does not validate, or names another uuid than the one
  -- of the path, is refused for that: the route raises the exception of the reading, that of the
  -- validation, or ReimbursementUuidMismatch, with the state as it was and no call of the database.
  pub put_reimbursement-IsRefusal :
      (stream : Stream) (e : Exc) (w : World)
      → IsRefusal stream e
      → put_reimbursement env config uuid stream w ≡ (raised e, w)
  unfolding put_reimbursement put_review
  put_reimbursement-IsRefusal stream e w (IsRefusal.unread r) = rw (r, put_reimbursement) refl
  put_reimbursement-IsRefusal stream e w (IsRefusal.misshapen r v) =
      rw (r, put_reimbursement) (rw (v, put_reimbursement) refl)
  put_reimbursement-IsRefusal stream e w (IsRefusal.misdirected {named = named} r v u h) =
      let m = other_uuid named h in
      rw (r, put_reimbursement)
        (rw (v, put_reimbursement) (rw (u, put_review) (rw (m, put_review) refl)))
