-- ===== src/UseCases/PublishPending.antt =====
-- use_cases/publish_pending.py: insert, commit, publish; and a delete if the publish fails.
pub mod Outbox
pub mod Delivers
use reimbursement_analyzer.Prelude.{
  pos, ℕ, String, Bool, true, false, Option, none, some, List, [], ◌∷◌,
}
use reimbursement_analyzer.Prelude
use reimbursement_analyzer.Json.{Json, null, int, str, obj, Fields, get, dict}
use reimbursement_analyzer.Errors.{Exc, type_name}
use reimbursement_analyzer.Models.{AttemptError, ReimbursementEnvelope}
use reimbursement_analyzer.Env.{Env}
use reimbursement_analyzer.World.{
  World, Result, ok, raised, Action, pure, raise, gets, modify, transaction, try, log, ◌>>=◌, ◌>>◌,
}
use reimbursement_analyzer.Repository.{insert_pending, delete_pending}
use reimbursement_analyzer.FailureLog
use reimbursement_analyzer.Producer.{publish, reimbursement}

-- `item.get("request_id")`, for a JSON value
abbrev pub or_null : Option Json → Json
or_null none = null
or_null (some j) = j

abbrev delete_event : Bool → String
delete_event true = "reimbursement.compensating_delete"
delete_event false = "reimbursement.compensating_delete_noop"

-- A uuid, as its text.
abbrev pub uuid_text : ℕ → Json
uuid_text u = str (Prelude.Text.decimal u)

deleted_log : ℕ → Fields → ℕ → Exc → Bool → Action (Unit {0})
deleted_log uuid item retry publish_exc deleted = log (
    obj (
      dict (
        ("event", str (delete_event deleted))
        ∷ ("uuid", uuid_text uuid)
        ∷ ("request_id", or_null (get "request_id" item))
        ∷ ("retry", int retry)
        ∷ ("publish_error_type", str (type_name publish_exc))
        ∷ [])))

delete_failed : Env → ℕ → Fields → ℕ → Exc → ℕ → Exc → Action (Unit {0})
delete_failed env uuid item retry publish_exc limit delete_exc = FailureLog.write limit (
    dict (
      ("event", str "reimbursement.compensating_delete_failed")
      ∷ ("uuid", uuid_text uuid)
      ∷ ("request_id", or_null (get "request_id" item))
      ∷ ("item", obj item)
      ∷ ("retry", int retry)
      ∷ ("publish_error_type", str (type_name publish_exc))
      ∷ ("publish_error", str (env.message publish_exc))
      ∷ ("delete_error_type", str (type_name delete_exc))
      ∷ ("delete_error", str (env.message delete_exc))
      ∷ []))

-- `_compensate`
unfoldable pub compensate : Env → ℕ → Fields → ℕ → Exc → ℕ → Action (Unit {0})
unfolding deleted_log delete_failed
compensate env uuid item retry publish_exc limit =
    try (transaction (delete_pending uuid)) (delete_failed env uuid item retry publish_exc limit)
      (deleted_log uuid item retry publish_exc)

abbrev pub pending_envelope : ℕ → ℕ → Option String → List AttemptError → ReimbursementEnvelope
pending_envelope uuid now correlation_id errors = record {
  uuid = uuid;
  retry = pos 0;
  published_at = now;
  correlation_id = correlation_id;
  errors = errors;
}

-- Builds the `Reimbursement` message of a committed row and publishes it.
unfoldable pub announce : Env → ℕ → Option String → List AttemptError → Action (Unit {0})
announce env uuid correlation_id errors = do
  now ← gets (λ w. env.app_clock w.clock)
  publish env reimbursement
      (env.encode_reimbursement (pending_envelope uuid now correlation_id errors))

unfoldable pub publish_pending : Env → Fields → List AttemptError → ℕ → ℕ → Option String → Action ℕ
unfolding announce
publish_pending env item errors limit retry correlation_id = do
  uuid ← transaction (insert_pending env item)
  try (announce env uuid correlation_id errors)
      (λ exc. compensate env uuid item retry exc limit >> raise exc) (λ _. pure uuid)
