-- ===== src/UseCases/ReviewReimbursement/Atomic.antt =====
-- What review_reimbursement.py has done when it returns: the new row and its audit row.
use reimbursement_analyzer.Prelude.{
  ℕ, String, ◌≡◌, refl, sym, true, Option, none, some, [], ◌∷◌, ◌++◌, inl, inr, Option-cases,
  Bool-cases,
}
use reimbursement_analyzer.Decimal.{Decimal, to_numeric}
use reimbursement_analyzer.Status.{Status, any_of}
use reimbursement_analyzer.World.{World, ok, sql_now, Result-cases, pure}
use reimbursement_analyzer.World.Gives.{
  Core, core, Gives, Gives-raise, Gives-interact, Gives-bind, Gives-transaction,
}
use reimbursement_analyzer.Repository.{
  Receipts, Updated, coalesce, store_value, decided, write_row, review_row, review_found, approve,
  reject, insert_review, new_review, record_human_review_decision, find_reimbursement_state,
}
use reimbursement_analyzer.Repository.Tables.{
  Row, Review, Verdict, approved, rejected, violated, review_violated, find, replace,
}
use reimbursement_analyzer.UseCases.ReviewReimbursement.{
  eligible_statuses, disambiguate, recorded, approve_reimbursement, reject_reimbursement,
}

-- What a column of type NUMERIC(14,2) holds that is set to a value, if there is one to set.
abbrev pub IsStored : Option Decimal → Option Decimal → Type 0
IsStored none y = y ≡ none
IsStored (some v) y = (n : Decimal) × (to_numeric v ≡ some n) × (y ≡ some n)

store_value-IsStored : (v y : Option Decimal) → store_value v ≡ ok y → IsStored v y
store_value-IsStored none y = λ e. cc
store_value-IsStored (some v) y = elim (Option-cases (to_numeric v)) [
  | inl big ↦ rw (big, store_value) λ e. cc
  | inr (n, fits) ↦ rw (fits, store_value) λ e. (n, refl, cc)
]

-- A column that a caller may set: the value given, or else what it held.
abbrev pub set_or_kept {ℓ} : {A : Type ℓ} → Option A → Option A → Option A
set_or_kept none held = held
set_or_kept (some a) held = some a

set_or_kept-coalesce {ℓ} : {A : Type ℓ} (a held : Option A) → coalesce a held ≡ set_or_kept a held
set_or_kept-coalesce none held = refl
set_or_kept-coalesce (some a) held = refl

-- The row that a decision makes of `old`, column by column: those that are not named are kept.
pub record IsRewritten (status : Status) (reason : String) (x : Receipts) (old new : Row)
    : Type 0 where
  pub stored : Option Decimal
  pub is_stored : IsStored x.value stored
  pub row : new ≡ record old {
    status = status;
    decision_reason = some reason;
    receipts_value = set_or_kept stored old.receipts_value;
    receipts_date = set_or_kept x.date old.receipts_date;
    currency = set_or_kept x.currency old.currency;
    updated_at = new.updated_at;
  }

-- The eligible row that the uuid had, the row that replaces it, and one review of it beside those
-- there were; the topics are as they were.
pub record IsReviewed (c0 : Core) (uuid : ℕ) (status : Status) (verdict : Verdict)
    (by reason : String) (x : Receipts) (u : Updated) (c : Core) : Type 0 where
  pub old : Row
  pub found : find uuid c0.db.rows ≡ some old
  pub eligible : any_of eligible_statuses old.status ≡ true
  pub from_status : u.from_status ≡ old.status
  pub from_updated_at : u.from_updated_at ≡ old.updated_at
  pub new_status : u.row.status ≡ status
  pub new_reason : u.row.decision_reason ≡ some reason
  pub same_uuid : u.row.uuid ≡ old.uuid
  pub rewritten : IsRewritten status reason x old u.row
  pub rows : c.db.rows ≡ replace u.row c0.db.rows
  pub review : Review
  pub review_uuid : review.reimbursement_uuid ≡ uuid
  pub review_verdict : review.status ≡ verdict
  pub review_by : review.reviewed_by ≡ by
  pub review_reason : review.reason ≡ reason
  pub reviews : c.db.reviews ≡ c0.db.reviews ++ review ∷ []
  pub requests : c.requests ≡ c0.requests
  pub reimbursements : c.reimbursements ≡ c0.reimbursements

record IsDecided (c0 : Core) (uuid : ℕ) (status : Status) (reason : String) (x : Receipts)
    (u : Updated) (c : Core) : Type 0 where
  old : Row
  found : find uuid c0.db.rows ≡ some old
  eligible : any_of eligible_statuses old.status ≡ true
  from_status : u.from_status ≡ old.status
  from_updated_at : u.from_updated_at ≡ old.updated_at
  new_status : u.row.status ≡ status
  new_reason : u.row.decision_reason ≡ some reason
  same_uuid : u.row.uuid ≡ old.uuid
  rewritten : IsRewritten status reason x old u.row
  rows : c.db.rows ≡ replace u.row c0.db.rows
  reviews : c.db.reviews ≡ c0.db.reviews
  requests : c.requests ≡ c0.requests
  reimbursements : c.reimbursements ≡ c0.reimbursements

module _ (c0 : Core) (uuid : ℕ) (status : Status) (verdict : Verdict) (by reason : String)
    (x : Receipts) where
  abbrev Decided : Option Updated → Core → Type 0
  Decided none c = Unit
  Decided (some u) c = IsDecided c0 uuid status reason x u c

  abbrev Written : Row → Core → Type 0
  Written new c =
      (c.db.rows ≡ replace new c0.db.rows)
      × (c.db.reviews ≡ c0.db.reviews)
      × (c.requests ≡ c0.requests)
      × (c.reimbursements ≡ c0.reimbursements)

  Gives-write_row : (new : Row) → Gives (λ c. c ≡ c0) (write_row new) (λ _. Written new)
  unfolding write_row
  Gives-write_row new = record {
    at = λ w k a. elim (Option-cases (violated (sql_now w) new)) [
      | inr (c, v) ↦ rw (v, write_row) λ e. cc
      | inl v ↦ rw (v, write_row) λ e. rw (sym k) (refl, refl, refl, refl)
    ];
  }

  review_row-Decided :
      (r : Row) (value : Option Decimal) (w : World)
      → store_value x.value ≡ ok value
      → core w ≡ c0
      → find uuid w.db.rows ≡ some r
      → any_of eligible_statuses r.status ≡ true
      → (o : Option Updated) → (review_row r value status reason x w).0 ≡ ok o
      → Decided o (core (review_row r value status reason x w).1)
  unfolding review_row
  review_row-Decided r value w v k f el =
      let new = decided status reason value x (sql_now w) r in
      let u : Updated = record {
        row = new;
        from_status = r.status;
        from_updated_at = r.updated_at;
      } in
      (Gives-bind (write_row new) (λ _. pure (some u)) (λ _. Written new) Decided
          (Gives-write_row new)
          λ _. record {
            at = λ w' (a, b, q, p) o e.
                let d : some u ≡ o = cc in
                rw (sym d) (record {
                  old = r;
                  found = rw (sym k) f;
                  eligible = el;
                  from_status = refl;
                  from_updated_at = refl;
                  new_status = refl;
                  new_reason = refl;
                  same_uuid = refl;
                  rewritten = record {
                    stored = value;
                    is_stored = store_value-IsStored x.value value v;
                    row =
                        rw
                          (
                            sym (set_or_kept-coalesce value r.receipts_value),
                            sym (set_or_kept-coalesce x.date r.receipts_date),
                            sym (set_or_kept-coalesce x.currency r.currency),
                          )
                          refl;
                  };
                  rows = a;
                  reviews = b;
                  requests = q;
                  reimbursements = p;
                });
          }).at
        w k

  review_found-Decided :
      (r : Row) (w : World)
      → core w ≡ c0
      → find uuid w.db.rows ≡ some r
      → (o : Option Updated) → (review_found (some r) eligible_statuses status reason x w).0 ≡ ok o
      → Decided o (core (review_found (some r) eligible_statuses status reason x w).1)
  unfolding review_found
  review_found-Decided r w k f o = elim (Bool-cases (any_of eligible_statuses r.status)) [
    | inr no_match ↦ rw (no_match, review_found) λ e. let d : none ≡ o = cc in rw (sym d) tt
    | inl now ↦ elim (Result-cases (store_value x.value)) [
      | inr (e, v) ↦ rw (now, review_found) (rw (v, review_found) λ d. cc)
      | inl (value, v) ↦
          rw (now, review_found) (rw (v, review_found) (review_row-Decided r value w v k f now o))
    ]
  ]

  Gives-review_found :
      Gives
        (λ c. c ≡ c0)
        (λ w. review_found (find uuid w.db.rows) eligible_statuses status reason x w)
        Decided
  unfolding review_found
  Gives-review_found = record {
    at = λ w k o. elim (Option-cases (find uuid w.db.rows)) [
      | inl missing ↦ rw (missing, review_found) λ e. let d : none ≡ o = cc in rw (sym d) tt
      | inr (r, f) ↦ rw f (review_found-Decided r w k f o)
    ];
  }

  abbrev Reviewed : Updated → Core → Type 0
  Reviewed u c = IsReviewed c0 uuid status verdict by reason x u c

  insert_review-Reviewed :
      (u : Updated) (w : World)
      → IsDecided c0 uuid status reason x u (core w)
      → (id : ℕ) → (insert_review (new_review uuid verdict by reason w) w).0 ≡ ok id
      → Reviewed u (core (insert_review (new_review uuid verdict by reason w) w).1)
  unfolding insert_review
  insert_review-Reviewed u w h id =
      let v = new_review uuid verdict by reason w in
      elim (Option-cases (review_violated v)) [
        | inr (c, e) ↦ rw (e, insert_review) λ d. cc
        | inl e ↦ elim (Option-cases (find uuid w.db.rows)) [
          | inl missing ↦ rw (e, insert_review) (rw missing λ d. cc)
          | inr (r, f) ↦
              rw (e, insert_review)
                (rw f λ d. record {
                  old = h.old;
                  found = h.found;
                  eligible = h.eligible;
                  from_status = h.from_status;
                  from_updated_at = h.from_updated_at;
                  new_status = h.new_status;
                  new_reason = h.new_reason;
                  same_uuid = h.same_uuid;
                  rewritten = h.rewritten;
                  rows = h.rows;
                  review = v;
                  review_uuid = refl;
                  review_verdict = refl;
                  review_by = refl;
                  review_reason = refl;
                  reviews = rw h.reviews refl;
                  requests = h.requests;
                  reimbursements = h.reimbursements;
                })
        ]
      ]

  Gives-record :
      (u : Updated)
      → Gives
          (λ c. IsDecided c0 uuid status reason x u c)
          (record_human_review_decision uuid verdict by reason)
          (λ _. Reviewed u)
  unfolding record_human_review_decision
  Gives-record u =
      Gives-interact (λ w. insert_review (new_review uuid verdict by reason w) w) (λ _. Reviewed u)
        (record { at = λ w h id e. insert_review-Reviewed u w h id e })

  Gives-recorded :
      (o : Option Updated) → Gives (Decided o) (recorded uuid verdict by reason o) Reviewed
  unfolding recorded disambiguate
  Gives-recorded none =
      Gives-bind (find_reimbursement_state uuid) _ (λ _ _. Unit) Reviewed
        (record { at = λ w p a e. tt }) λ state. Gives-raise _ Reviewed
  Gives-recorded (some u) =
      Gives-bind (record_human_review_decision uuid verdict by reason) (λ _. pure u)
        (λ _. Reviewed u) Reviewed (Gives-record u)
        λ id. record { at = λ w p u' e. let d : u ≡ u' = cc in rw (sym d) p }

pub approve-IsReviewed :
    (uuid : ℕ) (value : Decimal) (date : ℕ) (currency reason by : String) (w : World) (u : Updated)
    → (approve_reimbursement uuid value date currency reason by w).0 ≡ ok u
    → IsReviewed
        (core w)
        uuid
        Status.human_approved
        approved
        by
        reason
        (record { value = some value; date = some date; currency = some currency })
        u
        (core (approve_reimbursement uuid value date currency reason by w).1)
unfolding approve_reimbursement approve
approve-IsReviewed uuid value date currency reason by w =
    let c0 = core w in
    let x : Receipts = record { value = some value; date = some date; currency = some currency } in
    (Gives-transaction _ (Reviewed c0 uuid Status.human_approved approved by reason x) (
        Gives-bind (approve uuid eligible_statuses value date currency reason) _ _ _
          (Gives-interact _ _
            (Gives-review_found c0 uuid Status.human_approved approved by reason x))
          (Gives-recorded c0 uuid Status.human_approved approved by reason x))).at
      w refl

pub reject-IsReviewed :
    (uuid : ℕ) (reason by : String) (x : Receipts) (w : World) (u : Updated)
    → (reject_reimbursement uuid reason by x w).0 ≡ ok u
    → IsReviewed
        (core w)
        uuid
        Status.human_rejected
        rejected
        by
        reason
        x
        u
        (core (reject_reimbursement uuid reason by x w).1)
unfolding reject_reimbursement reject
reject-IsReviewed uuid reason by x w =
    let c0 = core w in
    (Gives-transaction _ (Reviewed c0 uuid Status.human_rejected rejected by reason x) (
        Gives-bind (reject uuid eligible_statuses reason x) _ _ _
          (Gives-interact _ _
            (Gives-review_found c0 uuid Status.human_rejected rejected by reason x))
          (Gives-recorded c0 uuid Status.human_rejected rejected by reason x))).at
      w refl
