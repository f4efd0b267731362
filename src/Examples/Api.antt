-- ===== src/Examples/Api.antt =====
-- The theorems on the API's routes, at concrete requests.
use reimbursement_analyzer.Prelude
use reimbursement_analyzer.Prelude.{
  ℕ, ◌+◌, ◌≤◌, String, ◌≡◌, refl, sym, ◌⊎◌, inl, inr, ◌↔◌, true, false, Option, none, some, List,
  [], ◌∷◌, All, length, arith, str_eq, if◌then◌else◌,
}
use reimbursement_analyzer.Json.{Json, str, arr, obj, Items, nil, cons, Fields, dict}
use reimbursement_analyzer.Decimal.{above}
use reimbursement_analyzer.Errors.{Exc, batch_invalid, uuid_mismatch, other}
use reimbursement_analyzer.Env.{Env, load_failed}
use reimbursement_analyzer.Config.{max_batch_items, max_body_bytes}
use reimbursement_analyzer.Models.Request.{ReimbursementRequest}
use reimbursement_analyzer.World.{World, Result, ok, raised, ◌>>=◌}
use reimbursement_analyzer.World.Gives.{core}
use reimbursement_analyzer.Repository.Tables.{Review, approved}
use reimbursement_analyzer.Publisher.Processing.{ItemOutcome, handle_message}
use reimbursement_analyzer.Publisher.Processing.Attempts.{Processed}
use reimbursement_analyzer.Api.Payload.{Stream, finished, broken, chunk, read_chunks, read_capped}
use reimbursement_analyzer.Api.Payload.Capped.{sent, read_all, read_capped-read_all}
use reimbursement_analyzer.Api.Response.{DetailResponse, detail, item_of}
use reimbursement_analyzer.Api.Create.{
  format_error, validate_batch, build_envelope, envelope_now, created, create_reimbursement,
}
use reimbursement_analyzer.Api.Create.Batch.{
  AreModels, IsFirstBad, validate_batch_iff, validate_batch-IsFirstBad,
}
use reimbursement_analyzer.Api.Create.Published.{
  IsRefused, IsSent, IsBatch, create_reimbursement-Outbox, IsRejected, create_reimbursement-invalid,
}
use reimbursement_analyzer.Api.Create.Handoff.{
  fresh_envelope, ReadsSpliced, create_reimbursement-handled,
}
use reimbursement_analyzer.Api.ReviewRequest.{ReviewRequest, review_uuid, validate_review}
use reimbursement_analyzer.Api.Review.{put_reimbursement}
use reimbursement_analyzer.Api.Review.Answered.{
  IsAddressed, IsAnswered, put_reimbursement-IsAnswered,
}
use reimbursement_analyzer.Api.Review.Refused.{IsRefusal, put_reimbursement-IsRefusal}
use reimbursement_analyzer.Api.Middleware.{
  HeaderList, extract_or_generate_correlation_id, without_id, stamped,
}
use reimbursement_analyzer.Api.Middleware.Headers.{IsId, ids_of, extract-stamped}
use reimbursement_analyzer.Api.Migrate.{Wait, advisory_lock}
use reimbursement_analyzer.Api.Migrate.Lock.{Ended, advisory_lock-Ended}
use reimbursement_analyzer.Examples.{
  item, env, config, empty_world, failing_world, review_world, accepted_row,
}

-- A body that comes in two chunks, and one that breaks off.
abbrev body : Stream
body = chunk "[1" (chunk "]" finished)

abbrev broken_body : Stream
broken_body = chunk "[1" (broken (other "ClientDisconnect" ""))

read_capped-read_all_example :
    (read_capped broken_body ≡ read_all (sent broken_body) broken_body)
    × (Prelude.Text.length (Prelude.Text.concat (read_chunks 0 [] broken_body).1) ≤ max_body_bytes)
read_capped-read_all_example = read_capped-read_all broken_body

abbrev model : ReimbursementRequest
model = record { request_id = "r-1"; submitted_by = "ana@example.com"; submitted_at = 0 }

validate_batch_iff_example : (validate_batch env "[1]" ≡ ok (model ∷ [])) ↔ (
    (js : Items) × (env.parse_json "[1]" ≡ some (arr js))
    × AreModels env js (model ∷ [])
    × (1 ≤ length (model ∷ []))
    × (length (model ∷ []) ≤ max_batch_items))
validate_batch_iff_example = validate_batch_iff env "[1]" (model ∷ [])

-- The second item has no identifier.
abbrev half_good : Items
half_good = cons (obj item) (cons (obj (dict [])) nil)

abbrev half_env : Env
half_env = record env { parse_json = λ s. some (arr half_good) }

validate_batch-IsFirstBad_example :
    ((rs : List ReimbursementRequest) × (validate_batch half_env "[1,2]" ≡ ok rs))
    ⊎ ((k : ℕ) × (parts : List String) × IsFirstBad half_env k half_good
        × (validate_batch half_env "[1,2]"
            ≡ raised (
                batch_invalid
                  (format_error (Prelude.Text.decimal k ∷ parts) (half_env.first_msg "[1,2]")))))
validate_batch-IsFirstBad_example =
    validate_batch-IsFirstBad half_env "[1,2]" half_good refl (omega arith) (omega arith)

create_reimbursement-Outbox_example :
    IsRefused failing_world (create_reimbursement env body failing_world)
    ⊎ ((raw : String) × (batch : List ReimbursementRequest) × IsBatch env body raw batch
        × IsSent failing_world
            (envelope_now env raw failing_world)
            (created (length batch))
            (create_reimbursement env body failing_world))
create_reimbursement-Outbox_example = create_reimbursement-Outbox env body failing_world

-- A body that is not UTF-8.
abbrev decode_failure : Exc
decode_failure = other "UnicodeDecodeError" "invalid start byte"

abbrev binary_env : Env
binary_env = record env { parse_json = λ s. none; loads_bytes = λ s. load_failed decode_failure }

create_reimbursement-invalid_example :
    IsRejected binary_env "Invalid JSON" empty_world
      (binary_env.loads_bytes "[1]")
      (create_reimbursement binary_env body empty_world)
unfolding read_capped reimbursement_analyzer.Prelude.Text.concat validate_batch format_error
create_reimbursement-invalid_example =
    create_reimbursement-invalid binary_env body "[1]" "Invalid JSON" empty_world refl refl

abbrev spliced_env : Env
spliced_env = record env {
  decode_request = λ s.
      if str_eq s
        "{\"retry\":0,\"published_at\":\"2026\",\"correlation_id\":null,\"errors\":[],\"payload\":[1]}"
      then some (fresh_envelope (item ∷ []) 7 none)
      else none;
}

item-ReadsSpliced : ReadsSpliced spliced_env "[1]" 7 none
unfolding reimbursement_analyzer.Prelude.Text.concat
item-ReadsSpliced nil fs e h = cc
item-ReadsSpliced (cons j nil) fs e (f, rest, d, c, h) =
    let same : obj item ≡ j = cc in let g : item ≡ f = cc in rw (c, h, sym g) refl
item-ReadsSpliced (cons j (cons k js)) fs e h = cc

create_reimbursement-handled_example :
    (outcomes : List ItemOutcome) × ((handle_message spliced_env config
        (some (build_envelope spliced_env "[1]" 7 none))
        failing_world).0
      ≡ ok outcomes)
    × (length outcomes ≡ length (model ∷ []))
    × (1 ≤ length (model ∷ []))
    × (length (model ∷ []) ≤ max_batch_items)
    × All Processed outcomes
unfolding validate_batch reimbursement_analyzer.Models.Request.model_validate
    reimbursement_analyzer.Json.get reimbursement_analyzer.Prelude.Text.strip
create_reimbursement-handled_example =
    create_reimbursement-handled spliced_env config "[1]" (model ∷ []) 7 none failing_world
      item-ReadsSpliced refl

-- A reviewer's approval.
abbrev review_env : Env
review_env = record env {
  parse_json = λ s. some (
      obj (
        dict (
          ("status", str "approved")
          ∷ ("reason", str "receipt seen")
          ∷ ("receipts_date", str "0001-01-01")
          ∷ ("receipts_value", str "150.0")
          ∷ ("receipts_currency", str "BRL")
          ∷ ("approved_by", str "eva@example.com")
          ∷ [])));
}

abbrev approval : Review
approval = record {
  uuid = 1;
  reimbursement_uuid = 0;
  status = approved;
  reviewed_by = "eva@example.com";
  reason = "receipt seen";
  created_at = 100;
}

abbrev answered : DetailResponse
answered = detail "reimbursement decision recorded" (item_of accepted_row item (some approval))

put_reimbursement-IsAnswered_example :
    (raw : String) × (review : ReviewRequest) × (read_capped body ≡ ok raw)
    × (validate_review review_env raw ≡ ok review)
    × IsAddressed 0 (review_uuid review)
    × IsAnswered
        (core review_world)
        0
        review
        answered
        (core (put_reimbursement review_env config 0 body review_world).1)
unfolding put_reimbursement read_capped validate_review reimbursement_analyzer.Json.get
    reimbursement_analyzer.Repository.Tables.is_currency reimbursement_analyzer.World.acquire
    reimbursement_analyzer.UseCases.ReviewReimbursement.approve_reimbursement
    reimbursement_analyzer.World.transaction reimbursement_analyzer.Repository.approve
    reimbursement_analyzer.World.interact reimbursement_analyzer.Decimal.to_numeric
    reimbursement_analyzer.Repository.Tables.violated
    reimbursement_analyzer.Repository.Tables.is_address
    reimbursement_analyzer.Repository.record_human_review_decision
    reimbursement_analyzer.UseCases.GetReimbursement.get_reimbursement
    reimbursement_analyzer.Repository.Page.fetch_reimbursement_by_uuid
    reimbursement_analyzer.Repository.Page.last_review
    reimbursement_analyzer.Api.Response.from_record reimbursement_analyzer.Prelude.Text.concat
put_reimbursement-IsAnswered_example =
    put_reimbursement-IsAnswered review_env config 0 body review_world answered refl

-- The same approval, which names the uuid 0.
abbrev named_env : Env
named_env = record review_env {
  parse_json = λ s. some (
      obj (
        dict (
          ("uuid", str "0")
          ∷ ("status", str "approved")
          ∷ ("reason", str "receipt seen")
          ∷ ("receipts_date", str "0001-01-01")
          ∷ ("receipts_value", str "150.0")
          ∷ ("receipts_currency", str "BRL")
          ∷ ("approved_by", str "eva@example.com")
          ∷ [])));
}

put_reimbursement-IsRefusal_example :
    put_reimbursement named_env config 4 body failing_world ≡ (raised uuid_mismatch, failing_world)
unfolding read_capped validate_review reimbursement_analyzer.Json.get
    reimbursement_analyzer.Repository.Tables.is_currency reimbursement_analyzer.Prelude.Text.concat
put_reimbursement-IsRefusal_example =
    put_reimbursement-IsRefusal named_env config 4 body uuid_mismatch failing_world
      (IsRefusal.misdirected {named = 0} refl refl refl (λ e. omega arith))

-- A request and a response that name an id each.
abbrev request_headers : HeaderList
request_headers = ("Host", "api") ∷ ("X-Request-Id", "c-9") ∷ []

abbrev response_headers : HeaderList
response_headers = ("X-REQUEST-ID", "stale") ∷ ("Server", "uvicorn") ∷ []

new-IsId : IsId "0198"
new-IsId = record { nonempty = refl; short = omega arith; one_line = refl }

extract-stamped_example :
    let id = extract_or_generate_correlation_id "0198" request_headers in
    IsId id
    × (ids_of (stamped id response_headers) ≡ id ∷ [])
    × (without_id (stamped id response_headers) ≡ without_id response_headers)
    × (extract_or_generate_correlation_id "0199" (stamped id response_headers) ≡ id)
extract-stamped_example = extract-stamped "0198" "0199" request_headers response_headers new-IsId

advisory_lock-Ended_example :
    (o : Wait) × (advisory_lock (λ t. false) (λ t. 20) 1000000 5 ≡ some o)
    × Ended (λ t. false) (λ t. 20) (5 + 1000000) o
advisory_lock-Ended_example = advisory_lock-Ended (λ t. false) (λ t. 20) 1000000 5
