-- ===== src/Repository/Statements.antt =====
-- Every statement of repository.py keeps the tables consistent.
use reimbursement_analyzer.Prelude.{
  ℕ, String, ◌≡◌, refl, true, Option, some, List, [], ◌∷◌, any, All-append, Option-cases,
  Bool-cases, inl, inr,
}
use reimbursement_analyzer.Json.{Fields}
use reimbursement_analyzer.Decimal.{Decimal}
use reimbursement_analyzer.Status
use reimbursement_analyzer.Status.{Status, DecisionStatus, any_of}
use reimbursement_analyzer.Env.{Env}
use reimbursement_analyzer.Models.Request.{Validated, valid, invalid}
use reimbursement_analyzer.World.{World, sql_now, Result-cases}
use reimbursement_analyzer.World.Keeps.{Keeps, IsFramed, pure_after, Keeps-interact, keeps_rules}
use reimbursement_analyzer.Repository.{
  Columns, Receipts, store_value, columns_of, insert_row, insert_columns, insert_pending,
  insert_human_review, write_row, decided, update_found, update_decision, review_row, review_found,
  approve, reject, insert_review, new_review, record_human_review_decision, delete_found,
  delete_pending, is_pending, is_reviewed,
}
use reimbursement_analyzer.Repository.Tables.{
  Row, Review, Verdict, violated, review_violated, same_submission, find,
}
use reimbursement_analyzer.Repository.Consistent.{
  IsConsistent, RefersTo, violated-IsChecked, find-uuid, AreDistinct-append, AreDistinct-replace,
  AreDistinct-delete, RefersTo-append, RefersTo-replace, RefersTo-delete, AreDistinct-later,
}

abbrev pub Consistent : Env → World → Type 0
Consistent env w = IsConsistent env w.db

pub Consistent-IsFramed : (env : Env) → IsFramed (Consistent env)
Consistent-IsFramed env = record { same = λ w w' e a b c h. rw e h; back = λ w w' h h'. h }

module _ (env : Env) where
  Keeps-insert_row :
      (w : World) (r : Row)
      → r.uuid ≡ w.db.next_uuid
      → Consistent env w
      → Consistent env (insert_row env r w).1
  unfolding insert_row
  Keeps-insert_row w r e h = elim (Option-cases (violated (sql_now w) r)) [
    | inr (c, v) ↦ rw (v, insert_row) h
    | inl v ↦ elim (Bool-cases (any (same_submission env r) w.db.rows)) [
      | inl dup ↦ rw (v, insert_row) (rw dup h)
      | inr new ↦
          rw (v, insert_row)
            (rw new (record {
              distinct =
                  AreDistinct-append env w.db.next_uuid w.db.rows r h.distinct
                    (violated-IsChecked _ r v) e new;
              referring = RefersTo-append env w.db.rows r w.db.reviews h.referring;
            }))
    ]
  ]

  Keeps-insert_columns :
      (c : Columns) (status : Status) (reason : Option String)
      → Keeps (Consistent env) (insert_columns env c status reason)
  unfolding insert_columns
  Keeps-insert_columns c status reason = record {
    at = λ w h. elim (Option-cases (env.jsonb c.original_payload)) [
      | inl refused ↦ rw (refused, insert_columns) h
      | inr (j, e) ↦ rw (e, insert_columns) (Keeps-insert_row w _ refl h)
    ];
  }

  framed : IsFramed (Consistent env)
  framed = Consistent-IsFramed env

  Keeps-columns_of : (item : Fields) (v : Validated) → Keeps (Consistent env) (columns_of item v)
  unfolding columns_of
  Keeps-columns_of item (valid r) = search keeps_rules
  Keeps-columns_of item (invalid e) = search keeps_rules

  Keeps-insert_review : (v : Review) → Keeps (Consistent env) (insert_review v)
  unfolding insert_review
  Keeps-insert_review v = record {
    at = λ w h. elim (Option-cases (review_violated v)) [
      | inr (c, violated_check) ↦ rw (violated_check, insert_review) h
      | inl e ↦ elim (Option-cases (find v.reimbursement_uuid w.db.rows)) [
        | inl missing ↦ rw (e, insert_review) (rw missing h)
        | inr (r, found) ↦
            rw (e, insert_review)
              (rw found (record {
                distinct = AreDistinct-later env w.db.next_uuid w.db.rows h.distinct;
                referring =
                    All-append (RefersTo w.db.rows) w.db.reviews (v ∷ []) h.referring
                      (rw found refl, tt);
              }))
      ]
    ];
  }

  pub Keeps-record_human_review_decision :
      (uuid : ℕ) (verdict : Verdict) (by reason : String)
      → Keeps (Consistent env) (record_human_review_decision uuid verdict by reason)
  unfolding record_human_review_decision
  Keeps-record_human_review_decision uuid verdict by reason =
      Keeps-interact framed _
        (record { at = λ w h. (Keeps-insert_review (new_review uuid verdict by reason w)).at w h })

  pub Keeps-insert_pending : (item : Fields) → Keeps (Consistent env) (insert_pending env item)
  unfolding insert_pending
  Keeps-insert_pending item = search (keeps_rules, framed, Keeps-columns_of, Keeps-insert_columns)

  pub Keeps-insert_human_review :
      (item : Fields) (reason : String)
      → Keeps (Consistent env) (insert_human_review env item reason)
  unfolding insert_human_review
  Keeps-insert_human_review item reason =
      search (keeps_rules, framed, Keeps-columns_of, Keeps-insert_columns)

  -- An UPDATE of the row that it finds.
  write_row-Consistent :
      (w : World) (old new : Row)
      → find old.uuid w.db.rows ≡ some old
      → new.uuid ≡ old.uuid
      → new.request_id ≡ old.request_id
      → new.submitted_by ≡ old.submitted_by
      → Consistent env w
      → Consistent env (write_row new w).1
  unfolding write_row
  write_row-Consistent w old new f u r s h = elim (Option-cases (violated (sql_now w) new)) [
    | inr (c, v) ↦ rw (v, write_row) h
    | inl v ↦
        rw (v, write_row)
          (record {
            distinct =
                AreDistinct-replace env old new u r s w.db.next_uuid w.db.rows h.distinct f
                  (violated-IsChecked _ new v);
            referring = RefersTo-replace env new w.db.rows w.db.reviews h.referring;
          })
  ]

  module _ (u : ℕ) (w : World) (h : Consistent env w) (r : Row)
      (found : find u w.db.rows ≡ some r) where
    found_again : find r.uuid w.db.rows ≡ some r
    found_again = simp (find-uuid u w.db.rows r found) found

    update_found-Consistent :
        (status : Status) (reason : String) (x : Receipts)
        → Consistent env (update_found (some r) status reason x w).1
    unfolding update_found
    update_found-Consistent status reason x = elim (Result-cases (store_value x.value)) [
      | inr (e, v) ↦ rw (v, update_found) h
      | inl (value, v) ↦
          rw (v, update_found)
            (pure_after (Consistent env) (write_row (decided status reason value x (sql_now w) r))
              true w
              (write_row-Consistent w r (decided status reason value x (sql_now w) r) found_again
                refl refl refl h))
    ]

    review_found-Consistent :
        (eligible : List String) (status : Status) (reason : String) (x : Receipts)
        → Consistent env (review_found (some r) eligible status reason x w).1
    unfolding review_found review_row
    review_found-Consistent eligible status reason x =
        elim (Bool-cases (any_of eligible r.status)) [
          | inr no_match ↦ rw (no_match, review_found) h
          | inl eligible_now ↦ elim (Result-cases (store_value x.value)) [
            | inr (e, v) ↦ rw (eligible_now, review_found) (rw (v, review_found) h)
            | inl (value, v) ↦
                let new = decided status reason value x (sql_now w) r in
                rw (eligible_now, review_found)
                  (rw (v, review_found)
                    (pure_after (Consistent env) (write_row new) _ w
                      (write_row-Consistent w r new found_again refl refl refl h)))
          ]
        ]

    delete_found-Consistent : Consistent env (delete_found (some r) u w).1
    unfolding delete_found
    delete_found-Consistent = elim (Bool-cases (is_pending r.status)) [
      | inr other_status ↦ rw (other_status, delete_found) h
      | inl pending ↦ elim (Bool-cases (is_reviewed u w.db.reviews)) [
        | inl reviewed ↦ rw (pending, delete_found) (rw (reviewed, delete_found) h)
        | inr free ↦
            rw (pending, delete_found)
              (rw (free, delete_found)
                (record {
                  distinct = AreDistinct-delete env w.db.next_uuid u w.db.rows h.distinct;
                  referring = RefersTo-delete env u w.db.rows w.db.reviews free h.referring;
                }))
      ]
    ]

  module _ (u : ℕ) where
    pub Keeps-update_decision :
        (status : DecisionStatus) (reason : String) (x : Receipts)
        → Keeps (Consistent env) (update_decision u status reason x)
    unfolding update_decision update_found
    Keeps-update_decision status reason x = Keeps-interact framed _ (record {
      at = λ w h. elim (Option-cases (find u w.db.rows)) [
        | inl missing ↦ rw (missing, update_found) h
        | inr (r, found) ↦
            rw found (update_found-Consistent u w h r found (Status.to_status status) reason x)
      ];
    })

    Keeps-review_found :
        (eligible : List String) (status : Status) (reason : String) (x : Receipts)
        → Keeps (Consistent env) (λ w. review_found (find u w.db.rows) eligible status reason x w)
    unfolding review_found
    Keeps-review_found eligible status reason x = record {
      at = λ w h. elim (Option-cases (find u w.db.rows)) [
        | inl missing ↦ rw (missing, review_found) h
        | inr (r, found) ↦ rw found (review_found-Consistent u w h r found eligible status reason x)
      ];
    }

    pub Keeps-approve :
        (eligible : List String) (value : Decimal) (date : ℕ) (currency reason : String)
        → Keeps (Consistent env) (approve u eligible value date currency reason)
    unfolding approve
    Keeps-approve eligible value date currency reason =
        Keeps-interact framed _ (Keeps-review_found eligible Status.human_approved reason _)

    pub Keeps-reject :
        (eligible : List String) (reason : String) (x : Receipts)
        → Keeps (Consistent env) (reject u eligible reason x)
    unfolding reject
    Keeps-reject eligible reason x =
        Keeps-interact framed _ (Keeps-review_found eligible Status.human_rejected reason x)

    pub Keeps-delete_pending : Keeps (Consistent env) (delete_pending u)
    unfolding delete_pending delete_found
    Keeps-delete_pending = Keeps-interact framed _ (record {
      at = λ w h. elim (Option-cases (find u w.db.rows)) [
        | inl missing ↦ rw (missing, delete_found) h
        | inr (r, found) ↦ rw found (delete_found-Consistent u w h r found)
      ];
    })
