-- ===== src/Api/Create.antt =====
-- api/reimbursement/create: the batch's validation (validation.py), the envelope around it
-- (producer.py), and the route that publishes it (route.py).
pub mod Batch
pub mod Published
pub mod Handoff
use reimbursement_analyzer.Prelude
use reimbursement_analyzer.Prelude.{
  ℕ, suc, ◌+◌, String, Bool, Option, none, some, List, [], ◌∷◌, map, length, ltb, if◌then◌else◌,
}
use reimbursement_analyzer.Json
use reimbursement_analyzer.Json.{
  Json, null, int, str, arr, obj, Items, nil, cons, Fields, get, dict, items,
}
use reimbursement_analyzer.Errors.{Exc, batch_invalid, validation_error}
use reimbursement_analyzer.Models.Request.{
  ReimbursementRequest, Validated, valid, invalid, model_validate,
}
use reimbursement_analyzer.Env.{Env, Loaded, loaded, not_json, load_failed}
use reimbursement_analyzer.Config.{max_batch_items}
use reimbursement_analyzer.World.{
  World, Result, ok, raised, Action, pure, raise, gets, log, try, ◌>>=◌, ◌>>◌,
}
use reimbursement_analyzer.Producer
use reimbursement_analyzer.Producer.{request}
use reimbursement_analyzer.Api.Errors.{MessageResponse, text}
use reimbursement_analyzer.Api.Payload.{Stream, read_capped}
use reimbursement_analyzer.Api.Response.{returned}

-- How the adapter ends: the models, or the `loc` of the first error.
pub data Checked : Type 0 where
  accepted : List ReimbursementRequest → Checked
  refused : List String → Checked

-- The `loc` of the first error of an item.
first_loc : Exc → List String
first_loc (validation_error (loc ∷ locs)) = loc
first_loc _ = []

abbrev check_fields : ℕ → Validated → Checked → Checked
check_fields i (valid r) (accepted rs) = accepted (r ∷ rs)
check_fields i (valid r) (refused loc) = refused loc
check_fields i (invalid e) rest = refused (Prelude.Text.decimal i ∷ first_loc e)

-- The items from the index `i` on, each as a ReimbursementRequest.
unfoldable pub check_items : Env → ℕ → Items → Checked
unfolding first_loc
check_items env i nil = accepted []
check_items env i (cons j js) =
    let rest = check_items env (suc i) js in
    elim j [
      | obj fields ↦ check_fields i (model_validate env fields) rest
      | _ ↦ refused (Prelude.Text.decimal i ∷ [])
    ]

abbrev pub items_length : Items → ℕ
items_length nil = 0
items_length (cons j js) = suc (items_length js)

-- `BATCH_ADAPTER.validate_json`: a list with `max_length`, which is tested before the items.
unfoldable pub batch_adapter : Env → Option Json → Checked
unfolding check_items
batch_adapter env (some (arr js)) =
    if ltb max_batch_items (items_length js) then refused [] else check_items env 0 js
batch_adapter env _ = refused []

-- `_format_error`
unfoldable pub format_error : List String → String → String
format_error [] msg = msg
format_error (index ∷ []) msg = Prelude.Text.concat ("item " ∷ index ∷ ": " ∷ msg ∷ [])
format_error (index ∷ part ∷ parts) msg =
    Prelude.Text.concat
      ("item " ∷ index ∷ ": " ∷ Prelude.Text.join "." (part ∷ parts) ∷ " — " ∷ msg ∷ [])

abbrev pub nonempty_batch : String → Checked → Result (List ReimbursementRequest)
nonempty_batch msg (refused loc) = raised (batch_invalid (format_error loc msg))
nonempty_batch msg (accepted []) = raised (batch_invalid "batch must contain at least one request")
nonempty_batch msg (accepted (r ∷ rs)) = ok (r ∷ rs)

unfoldable pub validate_batch : Env → String → Result (List ReimbursementRequest)
unfolding batch_adapter
validate_batch env raw = nonempty_batch (env.first_msg raw) (batch_adapter env (env.parse_json raw))

-- `build_envelope`: the request's body is spliced in as it came.
unfoldable pub build_envelope : Env → String → ℕ → Option String → String
build_envelope env raw published_at correlation_id = Prelude.Text.concat (
    "{\"retry\":0,\"published_at\":\""
    ∷ env.isoformat published_at
    ∷ "\",\"correlation_id\":"
    ∷ env.dumps correlation_id
    ∷ ",\"errors\":[],\"payload\":"
    ∷ raw
    ∷ "}"
    ∷ [])

abbrev pub envelope_now : Env → String → World → String
envelope_now env raw w = build_envelope env raw (env.app_clock w.clock) w.correlation_id

-- `publish` of create/producer.py; it logs a failure as free text and raises it again.
unfoldable pub publish : Env → String → Action (Unit {0})
publish env raw = do envelope ← gets (envelope_now env raw); Producer.publish env request envelope

-- `item.get("request_id") if isinstance(item, dict) else None`
lenient_id : Json → Json
lenient_id (obj fields) = elim (get "request_id" fields) [ none ↦ null | some j ↦ j ]
lenient_id _ = null

lenient_ids : Items → Items
unfolding lenient_id
lenient_ids nil = nil
lenient_ids (cons j js) = cons (lenient_id j) (lenient_ids js)

unfoldable pub loaded_ids : Loaded → Result Items
unfolding lenient_ids
loaded_ids not_json = ok nil
loaded_ids (load_failed e) = raised e
loaded_ids (loaded (arr js)) = ok (lenient_ids js)
loaded_ids (loaded _) = ok nil

-- `_lenient_request_ids`: only a JSONDecodeError is caught.
unfoldable pub lenient_request_ids : Env → String → Result Items
unfolding loaded_ids
lenient_request_ids env raw = loaded_ids (env.loads_bytes raw)

abbrev pub batch_reason : Exc → Option String
batch_reason (batch_invalid m) = some m
batch_reason _ = none

-- `except BatchInvalid as exc`, and any other exception passes.
unfoldable pub reject_batch {ℓ} : {A : Type ℓ} → Env → String → Exc → Action A
unfolding lenient_request_ids
reject_batch env raw e = elim (batch_reason e) [
  | none ↦ raise e
  | some m ↦ do
    ids ← returned (lenient_request_ids env raw)
    log (
        obj (
          dict (
            ("event", str "reimbursement.batch_rejected")
            ∷ ("request_ids", arr ids)
            ∷ ("reason", str m)
            ∷ [])))
    raise e
]

abbrev pub ids_of : List ReimbursementRequest → List Json
ids_of batch = map (λ r. str r.request_id) batch

abbrev pub created : ℕ → MessageResponse
created n = record {
  status_code = 201;
  msg = Prelude.Text.concat (Prelude.Text.decimal n ∷ " request(s) accepted" ∷ []);
}

-- What follows the validation.
unfoldable pub accept_batch : Env → String → List ReimbursementRequest → Action MessageResponse
unfolding publish
accept_batch env raw batch = do
  publish env raw
  log (
      obj (
        dict (
          ("event", str "reimbursement.batch_accepted")
          ∷ ("request_ids", arr (items (ids_of batch)))
          ∷ ("accepted_count", int (length batch))
          ∷ [])))
  pure (created (length batch))

unfoldable pub create_body : Env → String → Action MessageResponse
unfolding validate_batch reject_batch accept_batch
create_body env raw =
    try (returned (validate_batch env raw)) (reject_batch env raw) (accept_batch env raw)

-- The route POST /api/v1/reimbursement.
unfoldable pub create_reimbursement : Env → Stream → Action MessageResponse
unfolding create_body
create_reimbursement env stream = do raw ← returned (read_capped stream); create_body env raw
