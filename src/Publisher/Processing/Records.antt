-- ===== src/Publisher/Processing/Records.antt =====
-- publisher/processing.py: the outcomes of an item, and the records for the failure log.
use reimbursement_analyzer.Prelude.{ℕ, String, Option, none, some, List, [], ◌∷◌}
use reimbursement_analyzer.Json.{Json, int, str, arr, obj, Items, nil, Fields, get, dict, merge}
use reimbursement_analyzer.Models.{AttemptError}
use reimbursement_analyzer.Env.{Env, Loaded, loaded, not_json, load_failed}
use reimbursement_analyzer.World.{Result, ok, raised}
use reimbursement_analyzer.FailureLog.{render_errors}
use reimbursement_analyzer.UseCases.PublishPending.{or_null}

pub data ItemOutcome : Type 0 where
  published duplicate requeued escalated logged invalid_item : ItemOutcome

abbrev pub outcome_value : ItemOutcome → String
outcome_value published = "published"
outcome_value duplicate = "duplicate"
outcome_value requeued = "requeued"
outcome_value escalated = "escalated"
outcome_value logged = "logged"
outcome_value invalid_item = "invalid"

-- `_request_id`
abbrev pub request_id : Fields → Json
request_id item = or_null (get "request_id" item)

-- `_failure_record`
abbrev pub failure_record : Env → String → ℕ → Fields → List AttemptError → Fields → Fields
failure_record env event index item errors extra =
    merge
      (dict (
        ("event", str event)
        ∷ ("item_index", int index)
        ∷ ("request_id", request_id item)
        ∷ ("item", obj item)
        ∷ ("errors", render_errors env errors)
        ∷ []))
      extra

-- The items that can still be recovered from a message that is no envelope.
payload_items : Option Json → Option Items
payload_items (some (arr nil)) = none
payload_items (some (arr xs)) = some xs
payload_items _ = none

recoverable : Json → Option Items
unfolding payload_items get
recoverable (obj fs) = payload_items (get "payload" fs)
recoverable _ = none

items_record : Env → String → Option Items → Fields
items_record env raw (some xs) = dict (
    ("event", str "reimbursement.malformed_message")
    ∷ ("outcome", str (outcome_value logged))
    ∷ ("error", str (env.message (env.decode_error raw)))
    ∷ ("items", arr xs)
    ∷ [])
items_record env raw none = dict (
    ("event", str "reimbursement.malformed_message")
    ∷ ("outcome", str (outcome_value logged))
    ∷ ("error", str (env.message (env.decode_error raw)))
    ∷ ("message", str (env.decode_replace raw))
    ∷ [])

-- What `json.loads` leaves: a JSONDecodeError is caught, and any other exception passes.
unfoldable pub loaded_record : Env → String → Loaded → Result Fields
unfolding recoverable items_record
loaded_record env raw not_json = ok (items_record env raw none)
loaded_record env raw (loaded j) = ok (items_record env raw (recoverable j))
loaded_record env raw (load_failed e) = raised e

-- `_malformed_message_record`
unfoldable pub malformed_message_record : Env → String → Result Fields
unfolding loaded_record
malformed_message_record env raw = loaded_record env raw (env.loads_bytes raw)
