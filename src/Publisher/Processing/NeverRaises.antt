-- ===== src/Publisher/Processing/NeverRaises.antt =====
-- Which messages `handle_message` of publisher/processing.py returns for, whatever the database and
-- the broker do, and which one it raises for.
use reimbursement_analyzer.Prelude.{
  ℕ, suc, String, ◌≡◌, refl, ap, Bool, true, false, Option, none, some, List, [], ◌∷◌, length,
  Option-cases, inl, inr,
}
use reimbursement_analyzer.Json.{Json, Fields}
use reimbursement_analyzer.Errors.{Exc, publish_failed}
use reimbursement_analyzer.Config.{Config}
use reimbursement_analyzer.Models.{Stage, RequestEnvelope}
use reimbursement_analyzer.Models.Request.{Validated, valid, invalid}
use reimbursement_analyzer.Env.{Env, loaded, not_json}
use reimbursement_analyzer.World.{World, ok, with_correlation_id, ◌>>=◌}
use reimbursement_analyzer.World.Returns.{Returns, returns_rules}
use reimbursement_analyzer.FailureLog
use reimbursement_analyzer.Publisher.Processing.{
  ItemOutcome, accepts, accepted, requeue, log_duplicate, insert_failed, process_accepted,
  process_item, escalation_failed, escalate_accepted, escalate_item, handle_item, fan_out,
  handle_message, handle_payload, handle_parsed, null_record, malformed_message_record,
  loaded_record, write_malformed, logged,
}

pub Returns-write : (limit : ℕ) (record_ : Fields) → Returns (FailureLog.write limit record_)
unfolding FailureLog.write
Returns-write limit record_ = search returns_rules

module _ (env : Env) (config : Config) (envelope : RequestEnvelope) where
  Returns-accepted :
      (index : ℕ) (item : Fields) (v : Validated)
      → Returns (accepted env config envelope index item v)
  unfolding accepted
  Returns-accepted index item (valid r) = search returns_rules
  Returns-accepted index item (invalid e) = search (returns_rules, Returns-write)

  Returns-accepts : (index : ℕ) (item : Fields) → Returns (accepts env config envelope index item)
  unfolding accepts
  Returns-accepts index item = search Returns-accepted

  Returns-requeue :
      (index : ℕ) (item : Fields) (stage : Stage) (e : Exc)
      → Returns (requeue env config envelope index item stage e)
  unfolding requeue
  Returns-requeue index item stage e = search (returns_rules, Returns-write)

  Returns-log_duplicate :
      (item : Fields) (e : Exc) → Returns (log_duplicate env config envelope item e)
  unfolding log_duplicate
  Returns-log_duplicate item e = search returns_rules

  Returns-insert_failed :
      (index : ℕ) (item : Fields) (e : Exc)
      → Returns (insert_failed env config envelope index item e)
  unfolding insert_failed
  Returns-insert_failed index item (publish_failed m) = search Returns-requeue
  Returns-insert_failed index item _ =
      search (returns_rules, Returns-requeue, Returns-log_duplicate)

  Returns-process_accepted :
      (index : ℕ) (item : Fields) (b : Bool)
      → Returns (process_accepted env config envelope index item b)
  unfolding process_accepted
  Returns-process_accepted index item true = search (returns_rules, Returns-insert_failed)
  Returns-process_accepted index item false = search returns_rules

  Returns-escalation_failed :
      (index : ℕ) (item : Fields) (e : Exc)
      → Returns (escalation_failed env config envelope index item e)
  unfolding escalation_failed
  Returns-escalation_failed index item e =
      search (returns_rules, Returns-write, Returns-log_duplicate)

  Returns-escalate_accepted :
      (index : ℕ) (item : Fields) (b : Bool)
      → Returns (escalate_accepted env config envelope index item b)
  unfolding escalate_accepted
  Returns-escalate_accepted index item true = search (returns_rules, Returns-escalation_failed)
  Returns-escalate_accepted index item false = search returns_rules

  Returns-process_item :
      (index : ℕ) (item : Fields) → Returns (process_item env config envelope index item)
  unfolding process_item
  Returns-process_item index item =
      search (returns_rules, Returns-accepts, Returns-process_accepted)

  Returns-escalate_item :
      (index : ℕ) (item : Fields) → Returns (escalate_item env config envelope index item)
  unfolding escalate_item
  Returns-escalate_item index item =
      search (returns_rules, Returns-accepts, Returns-escalate_accepted)

  pub Returns-handle_item :
      (index : ℕ) (item : Fields) → Returns (handle_item env config envelope index item)
  unfolding handle_item
  Returns-handle_item index item =
      search (returns_rules, Returns-process_item, Returns-escalate_item)

  -- Every item has its outcome.
  fan_out-length :
      (index : ℕ) (items : List Fields) (w : World)
      → (outcomes : List ItemOutcome) × ((fan_out env config envelope index items w).0
          ≡ ok outcomes)
        × (length outcomes ≡ length items)
  unfolding fan_out
  fan_out-length index [] w = ([], refl, refl)
  fan_out-length index (item ∷ rest) w =
      let (o, e) = (Returns-handle_item index item).at w in
      let (os, d, n) =
        fan_out-length (suc index) rest (handle_item env config envelope index item w).1 in
      (o ∷ os, rw (e, ◌>>=◌) (rw (d, ◌>>=◌)), ap suc n)

-- How many outcomes a message has: one for each item of an envelope, and one for a message that is
-- no envelope.
abbrev pub item_count : Env → Option String → ℕ
item_count env none = 1
item_count env (some raw) = elim (env.decode_request raw) [
  | none ↦ 1
  | some envelope ↦ length envelope.payload
]

-- The messages that are an envelope, or a null value, or bytes on which `json.loads` raises nothing
-- but a JSONDecodeError.
pub data IsReadable (env : Env) : Option String → Type 0 where
  null_value : IsReadable env none
  envelope_of :
      {raw : String} {envelope : RequestEnvelope}
      → env.decode_request raw ≡ some envelope
      → IsReadable env (some raw)
  json_text : {raw : String} {j : Json} → env.loads_bytes raw ≡ loaded j → IsReadable env (some raw)
  no_json_text : {raw : String} → env.loads_bytes raw ≡ not_json → IsReadable env (some raw)

payload-length :
    (env : Env) (config : Config) (envelope : RequestEnvelope) (items : List Fields) (w : World)
    → (outcomes : List ItemOutcome) × ((handle_payload env config envelope items w).0 ≡ ok outcomes)
      × (length outcomes ≡ length items)
unfolding handle_payload
payload-length env config envelope [] w = ([], refl, refl)
payload-length env config envelope (item ∷ rest) w =
    fan_out-length env config envelope 0 (item ∷ rest) w

parsed-some :
    (env : Env) (config : Config) (raw : String) (envelope : RequestEnvelope) (w : World)
    → (outcomes : List ItemOutcome) × ((handle_parsed env config raw (some envelope) w).0
        ≡ ok outcomes)
      × (length outcomes ≡ length envelope.payload)
unfolding handle_parsed with_correlation_id
parsed-some env config raw envelope w =
    payload-length env config envelope envelope.payload
      (record w { correlation_id = envelope.correlation_id })

parsed-none :
    (env : Env) (config : Config) (raw : String) (r : Fields) (w : World)
    → malformed_message_record env raw ≡ ok r
    → (handle_parsed env config raw none w).0 ≡ ok (logged ∷ [])
unfolding handle_parsed write_malformed
parsed-none env config raw r w e =
    let (u, d) = (Returns-write config.max_message_chars r).at w in
    rw (e, write_malformed) (rw (d, ◌>>=◌) refl)

parsed-length :
    (env : Env) (config : Config) (raw : String) (r : Fields) (w : World)
    → malformed_message_record env raw ≡ ok r
    → (outcomes : List ItemOutcome) × ((handle_message env config (some raw) w).0 ≡ ok outcomes)
      × (length outcomes ≡ item_count env (some raw))
unfolding handle_message
parsed-length env config raw r w e = elim (Option-cases (env.decode_request raw)) [
  | inl none_ ↦
      rw (none_, handle_message)
        (logged ∷ [], parsed-none env config raw r w e, rw (none_, item_count) refl)
  | inr (envelope, d) ↦
      let (os, e, n) = parsed-some env config raw envelope w in (os, rw d e, rw (d, item_count) n)
]

-- A message that is an envelope, a null value, or bytes on which json.loads raises nothing but a
-- JSONDecodeError, is handled without an exception, whatever the database and the broker do, with
-- one outcome for each item of an envelope, and one outcome where it is none.
pub handle_message-length :
    (env : Env) (config : Config) (raw : Option String) (w : World)
    → IsReadable env raw
    → (outcomes : List ItemOutcome) × ((handle_message env config raw w).0 ≡ ok outcomes)
      × (length outcomes ≡ item_count env raw)
unfolding handle_message malformed_message_record loaded_record
handle_message-length env config none w h =
    let (u, e) = (Returns-write config.max_message_chars null_record).at w in
    (logged ∷ [], rw (e, ◌>>=◌), refl)
handle_message-length env config (some raw) w (IsReadable.envelope_of {envelope = envelope} d) =
    let (os, e, n) = parsed-some env config raw envelope w in (os, rw d e, rw (d, item_count) n)
handle_message-length env config (some raw) w (IsReadable.json_text l) =
    parsed-length env config raw _ w (ap (loaded_record env raw) l)
handle_message-length env config (some raw) w (IsReadable.no_json_text l) =
    parsed-length env config raw _ w (ap (loaded_record env raw) l)
