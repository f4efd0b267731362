-- ===== src/Api/Create/Handoff.antt =====
-- A batch on its way from the API to the publisher.
use reimbursement_analyzer.Prelude
use reimbursement_analyzer.Prelude.{
  ℕ, suc, ◌≤◌, String, ◌≡◌, refl, ap, Option, some, List, [], ◌∷◌, length, All, arith, ◌∙◌,
}
use reimbursement_analyzer.Json.{arr, obj, Items, nil, cons, Fields}
use reimbursement_analyzer.Models.{RequestEnvelope}
use reimbursement_analyzer.Models.Request.{ReimbursementRequest}
use reimbursement_analyzer.Env.{Env}
use reimbursement_analyzer.Config.{Config, max_batch_items}
use reimbursement_analyzer.World.{World, ok}
use reimbursement_analyzer.Publisher.Processing.{ItemOutcome, handle_message}
use reimbursement_analyzer.Publisher.Processing.NeverRaises.{
  item_count, IsReadable, handle_message-length,
}
use reimbursement_analyzer.Publisher.Processing.Attempts.{
  Processed, IsModelled, handle_message-Processed,
}
use reimbursement_analyzer.Api.Create.{build_envelope, validate_batch}
use reimbursement_analyzer.Api.Create.Batch.{AreModels, validate_batch_iff}

-- Every value of the array is an object, with these fields.
abbrev pub AreObjects : Items → List Fields → Type 0
AreObjects nil fs = fs ≡ []
AreObjects (cons j js) fs =
    (f : Fields) × (rest : List Fields) × (j ≡ obj f) × (fs ≡ f ∷ rest) × AreObjects js rest

-- The envelope that the publisher reads when the batch is spliced into one.
abbrev pub fresh_envelope : List Fields → ℕ → Option String → RequestEnvelope
fresh_envelope payload published_at correlation_id = record {
  retry = 0;
  published_at = published_at;
  correlation_id = correlation_id;
  errors = [];
  payload = payload;
}

-- pydantic reads a JSON object member by member. In the object with the members retry, published_at,
-- correlation_id, errors and payload, written out here, it reads the number 0, the time that was
-- printed, the text or null that was dumped, no errors, and for `payload` the same array that it
-- reads where the text of the array stands alone.
abbrev pub ReadsSpliced : Env → String → ℕ → Option String → Type 0
ReadsSpliced env raw t id =
    (js : Items) (fs : List Fields)
    → env.parse_json raw ≡ some (arr js)
    → AreObjects js fs
    → env.decode_request (
        Prelude.Text.concat (
          "{\"retry\":0,\"published_at\":\""
          ∷ env.isoformat t
          ∷ "\",\"correlation_id\":"
          ∷ env.dumps id
          ∷ ",\"errors\":[],\"payload\":"
          ∷ raw
          ∷ "}"
          ∷ []))
      ≡ some (fresh_envelope fs t id)

module _ (env : Env) where
  objects_of :
      (js : Items) (rs : List ReimbursementRequest)
      → AreModels env js rs
      → (fs : List Fields) × AreObjects js fs × All (IsModelled env) fs × (length fs ≡ length rs)
  objects_of nil rs h = ([], refl, tt, rw h refl)
  objects_of (cons j js) rs (f, r, rest, e, v, c, h) =
      let (fs, objects, models, n) = objects_of js rest h in
      (f ∷ fs, (f, fs, e, refl, objects), ((r, v), models), rw c (ap suc n))

  -- The API and the publisher agree, given that pydantic reads the members of the spliced object as
  -- they were printed, and the body in it as it reads the body alone: the message that an accepted batch becomes is an envelope to the publisher, which
  -- returns one outcome for each of its 1 to 500 requests, whatever the database and the broker do,
  -- and finds none of them invalid and escalates none.
  pub create_reimbursement-handled :
      (config : Config) (raw : String) (batch : List ReimbursementRequest) (t : ℕ)
      (id : Option String) (w : World)
      → ReadsSpliced env raw t id
      → validate_batch env raw ≡ ok batch
      → (outcomes : List ItemOutcome) × ((handle_message env config
            (some (build_envelope env raw t id))
            w).0
          ≡ ok outcomes)
        × (length outcomes ≡ length batch)
        × (1 ≤ length batch)
        × (length batch ≤ max_batch_items)
        × All Processed outcomes
  unfolding build_envelope
  create_reimbursement-handled config raw batch t id w reads v =
      let (js, parsed, models, some_item, few) = (validate_batch_iff env raw batch).0 v in
      let (fs, objects, modelled, n) = objects_of js batch models in
      let message = build_envelope env raw t id in
      let d = reads js fs parsed objects in
      let (outcomes, e, m) =
        handle_message-length env config (some message) w (IsReadable.envelope_of d) in
      let counted : item_count env (some message) ≡ length fs = rw (d, item_count) refl in
      (
        outcomes,
        e,
        m ∙ counted ∙ n,
        some_item,
        few,
        handle_message-Processed env config message (fresh_envelope fs t id) w outcomes d
            (omega arith) modelled e,
      )
