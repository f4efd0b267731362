-- ===== src/Api/Review/Decided.antt =====
-- What a review that the route answers has done, and what the route leaves alone.
use reimbursement_analyzer.Prelude.{
  ℕ, String, ◌≡◌, refl, sym, ◌∙◌, true, false, Option, none, some, List, [], ◌∷◌, inl, inr,
  Bool-cases, arith, ◌==◌,
}
use reimbursement_analyzer.Status.{Status}
use reimbursement_analyzer.World.{pure, gets, try}
use reimbursement_analyzer.World.Gives.{
  Core, core, Gives, Gives-pure, Gives-raise, Gives-interact, Gives-bind, Gives-try, Gives-acquire,
  Gives-if,
}
use reimbursement_analyzer.Repository.{Receipts, Updated}
use reimbursement_analyzer.Repository.Tables.{Row, Verdict, approved, rejected, find, replace}
use reimbursement_analyzer.Repository.Page.{
  Enriched, enriched_if, enrich, fetch_reimbursement_by_uuid,
}
use reimbursement_analyzer.Repository.Consistent.{find-uuid}
use reimbursement_analyzer.UseCases.ReviewReimbursement.Atomic.{
  IsReviewed, approve-IsReviewed, reject-IsReviewed,
}
use reimbursement_analyzer.UseCases.GetReimbursement.{or_not_found, get_reimbursement}
use reimbursement_analyzer.Api.ReviewRequest.{ReviewRequest, approve, reject, reviewer}
use reimbursement_analyzer.Api.Review.{
  decide, Applied, written, unwritten, hold_error, not_refetched, is_refusal, refetch, apply_review,
}

abbrev pub outcome_of : ReviewRequest → Status
outcome_of (approve r) = Status.human_approved
outcome_of (reject r) = Status.human_rejected

abbrev pub verdict_of : ReviewRequest → Verdict
verdict_of (approve r) = approved
verdict_of (reject r) = rejected

abbrev pub reason_of : ReviewRequest → String
reason_of (approve r) = r.reason
reason_of (reject r) = r.reason

-- The receipts that a review gives: an approval all three, a rejection what it names.
abbrev pub given_of : ReviewRequest → Receipts
given_of (approve r) = record {
  value = some r.receipts_value;
  date = some r.receipts_date;
  currency = some r.receipts_currency;
}
given_of (reject r) = r.receipts

find-replace :
    (u : ℕ) (r : Row) (rs : List Row) (old : Row)
    → find u rs ≡ some old
    → r.uuid ≡ u
    → find u (replace r rs) ≡ some r
find-replace u r [] old h e = cc
find-replace u r (s ∷ ss) old h e = elim (Bool-cases (s.uuid == r.uuid)) [
  | inl same ↦ let me : (r.uuid == u) ≡ true = ground arith in rw same (rw me refl)
  | inr other ↦
      let them : (s.uuid == u) ≡ false = ground arith in
      let behind : find u ss ≡ some old = rw them at h in
      rw other (rw them (find-replace u r ss old behind e))
]

-- The review is whole, and the row that was fetched again is the one that was written.
abbrev pub Done : Core → ℕ → ReviewRequest → Updated → Core → Type 0
Done c0 uuid review u c =
    IsReviewed c0 uuid (outcome_of review) (verdict_of review) (reviewer review) (reason_of review)
      (given_of review) u c

abbrev pub AppliedDone : Core → ℕ → ReviewRequest → Applied → Core → Type 0
AppliedDone c0 uuid review (unwritten e) c = Unit
AppliedDone c0 uuid review (written u row) c = Done c0 uuid review u c × (row ≡ enrich c.db u.row)

module _ (c0 : Core) (uuid : ℕ) where
  Gives-decide :
      (review : ReviewRequest) → Gives (λ c. c ≡ c0) (decide uuid review) (Done c0 uuid review)
  unfolding decide
  Gives-decide (approve r) = record {
    at = λ w k u e. rw (sym k) (
        approve-IsReviewed uuid r.receipts_value r.receipts_date r.receipts_currency r.reason
          r.approved_by w u e);
  }
  Gives-decide (reject r) = record {
    at = λ w k u e. rw (sym k) (reject-IsReviewed uuid r.reason r.approved_by r.receipts w u e);
  }

  abbrev Gotten : Enriched → Core → Type 0
  Gotten e c = (c ≡ c0) × (enriched_if c0.db (find uuid c0.db.rows) ≡ some e)

  Gives-fetch :
      Gives
        (λ c. c ≡ c0)
        (fetch_reimbursement_by_uuid uuid)
        (λ o c. (c ≡ c0) × (enriched_if c0.db (find uuid c0.db.rows) ≡ o))
  unfolding fetch_reimbursement_by_uuid
  Gives-fetch =
      Gives-interact (gets (λ w. enriched_if w.db (find uuid w.db.rows))) _
        (record { at = λ w k o e. (k, rw (sym k) cc) })

  Gives-found :
      (o : Option Enriched)
      → Gives
          (λ c. (c ≡ c0) × (enriched_if c0.db (find uuid c0.db.rows) ≡ o))
          (or_not_found o)
          Gotten
  unfolding or_not_found
  Gives-found none = record { at = λ w p a e. cc }
  Gives-found (some x) = record { at = λ w (k, p) a e. let d : x ≡ a = cc in rw (sym d) (k, p) }

  Gives-get : Gives (λ c. c ≡ c0) (get_reimbursement uuid) Gotten
  unfolding get_reimbursement
  Gives-get =
      Gives-bind (fetch_reimbursement_by_uuid uuid) or_not_found _ Gotten Gives-fetch Gives-found

module _ (c0 : Core) (uuid : ℕ) (review : ReviewRequest) where
  abbrev A : Applied → Core → Type 0
  A = AppliedDone c0 uuid review

  refetched :
      (u : Updated) (row : Enriched) (c : Core)
      → Done c0 uuid review u c
      → enriched_if c.db (find uuid c.db.rows) ≡ some row
      → row ≡ enrich c.db u.row
  refetched u row c h e =
      let same : u.row.uuid ≡ uuid = h.same_uuid ∙ find-uuid uuid c0.db.rows h.old h.found in
      let f : find uuid c.db.rows ≡ some u.row =
        rw h.rows (find-replace uuid u.row c0.db.rows h.old h.found same) in
      let g : enriched_if c.db (some u.row) ≡ some row = rw f at e in cc

  Gives-refetch : (u : Updated) → Gives (Done c0 uuid review u) (refetch uuid u) A
  unfolding refetch not_refetched
  Gives-refetch u = record {
    at = λ w h.
        (Gives-try (get_reimbursement uuid) (not_refetched uuid) (λ row. pure (written u row))
            (Gotten (core w) uuid) A (Gives-get (core w) uuid)
            (λ e. Gives-if _ _ _ A (Gives-raise _ A) (Gives-raise _ A))
            λ row.
              Gives-pure (written u row) A
                λ c (k, p). (rw k h, rw k (refetched u row (core w) h p))).at
          w refl;
  }

  pub Gives-apply : Gives (λ c. c ≡ c0) (apply_review uuid review) A
  unfolding apply_review hold_error
  Gives-apply = Gives-acquire (try (decide uuid review) hold_error (refetch uuid)) A (
      Gives-try (decide uuid review) hold_error (refetch uuid) (Done c0 uuid review) A
        (Gives-decide c0 uuid review)
        (λ e.
          Gives-if (is_refusal e) _ _ A (Gives-raise e A) (Gives-pure (unwritten e) A λ c p. tt))
        Gives-refetch)
