-- ===== src/UseCases/PublishPending/Delivers.antt =====
-- publish_pending.py while the database and the broker answer, and when the broker fails.
use reimbursement_analyzer.Prelude.{
  ℕ, String, ◌≡◌, refl, false, Option, none, some, List, [], any, ap, ◌∙◌,
}
use reimbursement_analyzer.Json.{Json, Fields, obj}
use reimbursement_analyzer.Status
use reimbursement_analyzer.Models.{AttemptError}
use reimbursement_analyzer.Models.Request.{ReimbursementRequest, valid, model_validate}
use reimbursement_analyzer.Env.{Env}
use reimbursement_analyzer.World.{
  World, ok, transaction, interact, next_event, started, committed, finish, try, pure, raise, ◌>>◌,
}
use reimbursement_analyzer.World.Gives.{core}
use reimbursement_analyzer.World.Steady.{steady, next_event-ended, bind_ok, interact-ended}
use reimbursement_analyzer.UseCases.PublishPending.Outbox.{Outbox, publish_pending-Outbox}
use reimbursement_analyzer.Producer.{publish}
use reimbursement_analyzer.Repository.{
  Columns, columns, columns_of, new_row, insert_row, add_row, insert_columns, insert_pending,
}
use reimbursement_analyzer.Repository.Tables.{Row, violated, same_submission}
use reimbursement_analyzer.UseCases.PublishPending.{announce, compensate, publish_pending}

-- The row that an item becomes.
abbrev pub row_for : World → Fields → ReimbursementRequest → Json → Row
row_for w item r payload =
    new_row w.db.next_uuid w.clock
      (record {
        request_id = r.request_id;
        submitted_by = r.submitted_by;
        submitted_at = r.submitted_at;
        original_payload = obj item;
      })
      payload Status.pending none

module _ (env : Env) (item : Fields) (r : ReimbursementRequest) (payload : Json) (w : World)
    (validates : model_validate env item ≡ valid r) (is_json : env.jsonb (obj item) ≡ some payload)
    (checks : violated w.clock (row_for w item r payload) ≡ none)
    (new : any (same_submission env (row_for w item r payload)) w.db.rows ≡ false) where
  -- Inside the transaction.
  abbrev inside : World
  inside = record w { events = []; began = some w.clock }

  insert_row-steady :
      insert_row env (row_for w item r payload) inside
      ≡ (ok w.db.next_uuid, add_row (row_for w item r payload) inside)
  unfolding insert_row
  insert_row-steady = rw (checks, insert_row) (rw new refl)

  abbrev made : Columns
  made = record {
    request_id = r.request_id;
    submitted_by = r.submitted_by;
    submitted_at = r.submitted_at;
    original_payload = obj item;
  }

  columns-steady : columns env item inside ≡ (ok made, inside)
  unfolding columns columns_of
  columns-steady = rw (validates, columns_of) refl

  insert_columns-steady :
      insert_columns env made Status.pending none inside
      ≡ (ok w.db.next_uuid, add_row (row_for w item r payload) inside)
  unfolding insert_columns
  insert_columns-steady = rw (is_json, insert_columns) insert_row-steady

  insert_pending-steady :
      insert_pending env item inside
      ≡ (ok w.db.next_uuid, add_row (row_for w item r payload) inside)
  unfolding insert_pending
  insert_pending-steady =
      bind_ok (columns env item) (λ c. interact (insert_columns env c Status.pending none)) inside
        inside made columns-steady
      ∙ interact-ended (insert_columns env made Status.pending none) inside
      ∙ insert_columns-steady

  transaction-steady :
      transaction (insert_pending env item) (steady w)
      ≡ (ok w.db.next_uuid, add_row (row_for w item r payload) (steady w))
  unfolding transaction
  transaction-steady =
      ap (λ p. started (insert_pending env item) p.0 p.1) (next_event-ended (steady w))
      ∙ ap (λ p. finish w.db p.0 p.1) insert_pending-steady
      ∙ ap (λ p. committed w.db w.db.next_uuid p.0 p.1)
          (next_event-ended (add_row (row_for w item r payload) inside))

  publish_pending-steady :
      (errors : List AttemptError) (limit retry : ℕ) (correlation_id : Option String)
      → (publish_pending env item errors limit retry correlation_id (steady w)).0
        ≡ ok w.db.next_uuid
  unfolding publish_pending announce publish interact next_event
  publish_pending-steady errors limit retry correlation_id =
      ap (λ p. p.0)
        (bind_ok (transaction (insert_pending env item))
          (λ uuid.
            try (announce env uuid correlation_id errors)
              (λ exc. compensate env uuid item retry exc limit >> raise exc) (λ _. pure uuid))
          (steady w) (add_row (row_for w item r payload) (steady w)) w.db.next_uuid
          transaction-steady)

  -- While no call of the database and the broker fails, `publish_pending` delivers an item that
  -- validates, whose payload is JSON, that passes the CHECKs and that is no duplicate: it returns
  -- the next uuid, and that uuid has its outbox.
  pub publish_pending-delivers :
      (errors : List AttemptError) (limit retry : ℕ) (correlation_id : Option String)
      → ((publish_pending env item errors limit retry correlation_id (steady w)).0
          ≡ ok w.db.next_uuid)
        × Outbox env item
            (core (steady w))
            errors
            correlation_id
            w.db.next_uuid
            (core (publish_pending env item errors limit retry correlation_id (steady w)).1)
  publish_pending-delivers errors limit retry correlation_id =
      let e = publish_pending-steady errors limit retry correlation_id in
      (
        e,
        publish_pending-Outbox env item errors limit retry correlation_id (steady w) w.db.next_uuid
            e,
      )
