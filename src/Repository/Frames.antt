-- ===== src/Repository/Frames.antt =====
-- Every statement of repository.py changes the tables and nothing else: an invariant that does not
-- read the tables is kept by each of them.
use reimbursement_analyzer.Prelude.{
  ℕ, String, true, Option, none, some, Option-cases, Bool-cases, inl, inr, any,
}
use reimbursement_analyzer.Json.{Fields}
use reimbursement_analyzer.Status
use reimbursement_analyzer.Status.{Status, DecisionStatus}
use reimbursement_analyzer.Env.{Env}
use reimbursement_analyzer.Models.Request.{Validated, valid, invalid}
use reimbursement_analyzer.World.{World, sql_now, Result-cases}
use reimbursement_analyzer.World.Keeps.{Keeps, IsFramed, Keeps-interact, pure_after, keeps_rules}
use reimbursement_analyzer.Repository.{
  Columns, Receipts, store_value, columns_of, insert_row, insert_columns, insert_pending,
  insert_human_review, write_row, decided, update_found, update_decision, delete_found,
  delete_pending, is_pending, is_reviewed,
}
use reimbursement_analyzer.Repository.Tables.{Row, Db, violated, same_submission, find}

module _ {P : World → Type 0} (framed : IsFramed P)
    (free : (w : World) (db : Db) → P w → P (record w { db = db })) (env : Env) where
  Kept-insert_row : (r : Row) → Keeps P (insert_row env r)
  unfolding insert_row
  Kept-insert_row r = record {
    at = λ w h. elim (Option-cases (violated (sql_now w) r)) [
      | inr (c, v) ↦ rw (v, insert_row) h
      | inl v ↦ elim (Bool-cases (any (same_submission env r) w.db.rows)) [
        | inl dup ↦ rw (v, insert_row) (rw dup h)
        | inr new ↦ rw (v, insert_row) (rw new (free w _ h))
      ]
    ];
  }

  Kept-insert_columns :
      (c : Columns) (status : Status) (reason : Option String)
      → Keeps P (insert_columns env c status reason)
  unfolding insert_columns
  Kept-insert_columns c status reason = record {
    at = λ w h. elim (Option-cases (env.jsonb c.original_payload)) [
      | inl refused ↦ rw (refused, insert_columns) h
      | inr (j, e) ↦ rw (e, insert_columns) ((Kept-insert_row _).at w h)
    ];
  }

  Kept-columns_of : (item : Fields) (v : Validated) → Keeps P (columns_of item v)
  unfolding columns_of
  Kept-columns_of item (valid r) = search keeps_rules
  Kept-columns_of item (invalid e) = search keeps_rules

  pub Kept-insert_pending : (item : Fields) → Keeps P (insert_pending env item)
  unfolding insert_pending
  Kept-insert_pending item = search (keeps_rules, Kept-columns_of, Kept-insert_columns)

  pub Kept-insert_human_review :
      (item : Fields) (reason : String) → Keeps P (insert_human_review env item reason)
  unfolding insert_human_review
  Kept-insert_human_review item reason = search (keeps_rules, Kept-columns_of, Kept-insert_columns)

  write_row-P : (w : World) (r : Row) → P w → P (write_row r w).1
  unfolding write_row
  write_row-P w r h = elim (Option-cases (violated (sql_now w) r)) [
    | inr (c, v) ↦ rw (v, write_row) h
    | inl v ↦ rw (v, write_row) (free w _ h)
  ]

  update_found-P :
      (o : Option Row) (status : Status) (reason : String) (x : Receipts) (w : World)
      → P w
      → P (update_found o status reason x w).1
  unfolding update_found
  update_found-P none status reason x w h = h
  update_found-P (some r) status reason x w h = elim (Result-cases (store_value x.value)) [
    | inr (e, v) ↦ rw (v, update_found) h
    | inl (value, v) ↦
        let new = decided status reason value x (sql_now w) r in
        rw (v, update_found) (pure_after P (write_row new) true w (write_row-P w new h))
  ]

  pub Kept-update_decision :
      (u : ℕ) (status : DecisionStatus) (reason : String) (x : Receipts)
      → Keeps P (update_decision u status reason x)
  unfolding update_decision
  Kept-update_decision u status reason x = Keeps-interact framed _ (record {
    at = λ w h. update_found-P (find u w.db.rows) (Status.to_status status) reason x w h;
  })

  delete_found-P : (o : Option Row) (u : ℕ) (w : World) → P w → P (delete_found o u w).1
  unfolding delete_found
  delete_found-P none u w h = h
  delete_found-P (some r) u w h = elim (Bool-cases (is_pending r.status)) [
    | inr other_status ↦ rw (other_status, delete_found) h
    | inl pending ↦ elim (Bool-cases (is_reviewed u w.db.reviews)) [
      | inl reviewed ↦ rw (pending, delete_found) (rw (reviewed, delete_found) h)
      | inr unreviewed ↦ rw (pending, delete_found) (rw (unreviewed, delete_found) (free w _ h))
    ]
  ]

  pub Kept-delete_pending : (u : ℕ) → Keeps P (delete_pending u)
  unfolding delete_pending
  Kept-delete_pending u =
      Keeps-interact framed _ (record { at = λ w h. delete_found-P (find u w.db.rows) u w h })
