-- ===== src/Repository/Inserts.antt =====
-- What the two INSERT statements of repository.py have done when they return a uuid.
use reimbursement_analyzer.Prelude.{
  ℕ, String, ◌≡◌, refl, sym, false, Option, none, some, [], ◌∷◌, ◌++◌, inl, inr, any, Option-cases,
  Bool-cases,
}
use reimbursement_analyzer.Json.{Json, Fields, obj}
use reimbursement_analyzer.Status.{Status}
use reimbursement_analyzer.Models.Request.{
  ReimbursementRequest, Validated, valid, invalid, model_validate,
}
use reimbursement_analyzer.Env.{Env}
use reimbursement_analyzer.World.{World, ok, sql_now}
use reimbursement_analyzer.World.Gives.{
  Core, core, Gives, Gives-pure, Gives-raise, Gives-interact, Gives-bind,
}
use reimbursement_analyzer.Repository.{
  Columns, columns, columns_of, new_row, insert_row, insert_columns, insert_pending,
  insert_human_review,
}
use reimbursement_analyzer.Repository.Consistent.{IsChecked, violated-IsChecked}
use reimbursement_analyzer.Repository.Tables.{Row, Db, violated, same_submission}

-- The columns of an item that validates.
record IsColumns (env : Env) (item : Fields) (c : Columns) : Type 0 where
  request : ReimbursementRequest
  validated : model_validate env item ≡ valid request
  request_id : c.request_id ≡ request.request_id
  submitted_by : c.submitted_by ≡ request.submitted_by
  submitted_at : c.submitted_at ≡ request.submitted_at
  original_payload : c.original_payload ≡ obj item

-- One new row for the item, with a status and a reason, which passes its CHECKs and is of a
-- submission that no row had; the other rows and the reviews are what they were.
pub record IsInserted (env : Env) (item : Fields) (status : Status) (reason : Option String)
    (db : Db) (uuid : ℕ) (db' : Db) : Type 0 where
  pub request : ReimbursementRequest
  pub validated : model_validate env item ≡ valid request
  pub row : Row
  pub row_uuid : row.uuid ≡ uuid
  pub row_status : row.status ≡ status
  pub row_reason : row.decision_reason ≡ reason
  pub row_request_id : row.request_id ≡ request.request_id
  pub row_submitted_by : row.submitted_by ≡ some request.submitted_by
  pub row_submitted_at : row.submitted_at ≡ some request.submitted_at
  pub row_payload : env.jsonb (obj item) ≡ some row.original_payload
  pub row_checked : IsChecked row
  pub new_submission : any (same_submission env row) db.rows ≡ false
  pub rows : db'.rows ≡ db.rows ++ row ∷ []
  pub reviews : db'.reviews ≡ db.reviews

module _ (env : Env) (item : Fields) (status : Status) (reason : Option String) (c0 : Core) where
  abbrev pub Kept : Core → Type 0
  Kept c = c ≡ c0

  Gives-columns_of :
      (v : Validated)
      → model_validate env item ≡ v
      → Gives Kept (columns_of item v) (λ c core. IsColumns env item c × Kept core)
  unfolding columns_of
  Gives-columns_of (valid r) e = Gives-pure _ _ λ c k. (
    record {
      request = r;
      validated = e;
      request_id = refl;
      submitted_by = refl;
      submitted_at = refl;
      original_payload = refl;
    },
    k,
  )
  Gives-columns_of (invalid x) e = Gives-raise x _

  abbrev pub Inserted : ℕ → Core → Type 0
  Inserted uuid c =
      IsInserted env item status reason c0.db uuid c.db
      × (c.requests ≡ c0.requests)
      × (c.reimbursements ≡ c0.reimbursements)

  insert_row-Inserted :
      (cols : Columns) (payload : Json) (w : World)
      → IsColumns env item cols
      → env.jsonb cols.original_payload ≡ some payload
      → Kept (core w)
      → (uuid : ℕ)
      → let r = insert_row env (new_row w.db.next_uuid (sql_now w) cols payload status reason) w in
        r.0 ≡ ok uuid → Inserted uuid (core r.1)
  unfolding insert_row
  insert_row-Inserted cols payload w i j k uuid =
      let row = new_row w.db.next_uuid (sql_now w) cols payload status reason in
      elim (Option-cases (violated (sql_now w) row)) [
        | inr (c, v) ↦ rw (v, insert_row) λ e. cc
        | inl v ↦ elim (Bool-cases (any (same_submission env row) w.db.rows)) [
          | inl dup ↦ rw (v, insert_row) (rw dup λ e. cc)
          | inr new ↦
              rw (v, insert_row)
                (rw new (
                  rw (sym k) λ e. (
                    record {
                      request = i.request;
                      validated = i.validated;
                      row = row;
                      row_uuid = cc;
                      row_status = refl;
                      row_reason = refl;
                      row_request_id = i.request_id;
                      row_submitted_by = cc;
                      row_submitted_at = cc;
                      row_payload = cc;
                      row_checked = violated-IsChecked (sql_now w) row v;
                      new_submission = new;
                      rows = refl;
                      reviews = refl;
                    },
                    refl,
                    refl,
                  )))
        ]
      ]

  Gives-insert_columns :
      (cols : Columns)
      → Gives
          (λ core. IsColumns env item cols × Kept core)
          (insert_columns env cols status reason)
          Inserted
  unfolding insert_columns
  Gives-insert_columns cols = record {
    at = λ w p uuid. elim (Option-cases (env.jsonb cols.original_payload)) [
      | inl refused ↦ rw (refused, insert_columns) λ e. cc
      | inr (j, e) ↦ rw (e, insert_columns) (insert_row-Inserted cols j w p.0 e p.1 uuid)
    ];
  }

module _ (env : Env) (item : Fields) (c0 : Core) where
  pub Gives-insert_pending :
      Gives
        (Kept env item Status.pending none c0)
        (insert_pending env item)
        (Inserted env item Status.pending none c0)
  unfolding insert_pending columns
  Gives-insert_pending =
      Gives-bind _ _ _ _
        (Gives-columns_of env item Status.pending none c0 (model_validate env item) refl)
        λ cols. Gives-interact _ _ (Gives-insert_columns env item Status.pending none c0 cols)

  pub Gives-insert_human_review :
      (reason : String)
      → Gives
          (Kept env item Status.human_review (some reason) c0)
          (insert_human_review env item reason)
          (Inserted env item Status.human_review (some reason) c0)
  unfolding insert_human_review columns
  Gives-insert_human_review reason =
      Gives-bind _ _ _ _
        (Gives-columns_of env item Status.human_review (some reason) c0 (model_validate env item)
          refl)
        λ cols.
          Gives-interact _ _
            (Gives-insert_columns env item Status.human_review (some reason) c0 cols)
