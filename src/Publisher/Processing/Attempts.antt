-- ===== src/Publisher/Processing/Attempts.antt =====
-- What becomes of items that validate while the ceiling is not passed.
use reimbursement_analyzer.Prelude.{
  ℕ, suc, ◌≤◌, String, ◌≡◌, Bool, true, false, some, List, [], ◌∷◌, All, ltb, arith,
}
use reimbursement_analyzer.Json.{Fields}
use reimbursement_analyzer.Errors.{Exc, publish_failed}
use reimbursement_analyzer.Models.{RequestEnvelope, Stage}
use reimbursement_analyzer.Models.Request.{ReimbursementRequest, valid, model_validate}
use reimbursement_analyzer.Env.{Env}
use reimbursement_analyzer.Config.{Config, max_retry}
use reimbursement_analyzer.World.{World, Action, ok, with_correlation_id}
use reimbursement_analyzer.World.Yields.{
  Yields, Yields-pure, Yields-if, Yields-try, Yields-then, Yields-bind,
}
use reimbursement_analyzer.Publisher.Processing.{
  ItemOutcome, escalated, invalid_item, accepted, accepts, requeue, requeue_failed, log_duplicate,
  insert_failed, item_published, process_accepted, process_item, handle_item, fan_out,
  empty_payload, handle_payload, handle_parsed, handle_message,
}

-- Neither found invalid nor escalated.
abbrev pub is_processed : ItemOutcome → Bool
is_processed invalid_item = false
is_processed escalated = false
is_processed _ = true

abbrev pub Processed : ItemOutcome → Type 0
Processed o = is_processed o ≡ true

module _ (env : Env) where
  abbrev pub IsModelled : Fields → Type 0
  IsModelled f = (r : ReimbursementRequest) × (model_validate env f ≡ valid r)

  module _ (config : Config) (envelope : RequestEnvelope) (index : ℕ) (item : Fields) where
    abbrev Y : Action ItemOutcome → Type 0
    Y m = Yields m Processed

    Y-requeue : (stage : Stage) (e : Exc) → Y (requeue env config envelope index item stage e)
    unfolding requeue requeue_failed
    Y-requeue stage e = search (Yields-then, Yields-try, Yields-pure)

    Y-log_duplicate : (e : Exc) → Y (log_duplicate env config envelope item e)
    unfolding log_duplicate
    Y-log_duplicate e = search (Yields-then, Yields-pure)

    Y-insert_failed : (e : Exc) → Y (insert_failed env config envelope index item e)
    unfolding insert_failed
    Y-insert_failed (publish_failed m) = search Y-requeue
    Y-insert_failed _ = search (Yields-if, Y-requeue, Y-log_duplicate)

    Y-item_published : (uuid : ℕ) → Y (item_published env config envelope item uuid)
    unfolding item_published
    Y-item_published uuid = search (Yields-then, Yields-pure)

    Y-accepted : Y (process_accepted env config envelope index item true)
    unfolding process_accepted
    Y-accepted = search (Yields-try, Y-insert_failed, Y-item_published)

    Y-process_item : IsModelled item → Y (process_item env config envelope index item)
    unfolding process_item accepts accepted
    Y-process_item (r, v) = rw v Y-accepted

    Y-handle_item :
        envelope.retry ≤ max_retry
        → IsModelled item
        → Y (handle_item env config envelope index item)
    unfolding handle_item
    Y-handle_item le m =
        let below : ltb max_retry envelope.retry ≡ false = ground arith in
        rw below (Y-process_item m)

  module _ (config : Config) (envelope : RequestEnvelope) (le : envelope.retry ≤ max_retry) where
    Y-fan_out :
        (index : ℕ) (items : List Fields)
        → All IsModelled items
        → Yields (fan_out env config envelope index items) (All Processed)
    unfolding fan_out
    Y-fan_out index [] h = Yields-pure [] _ tt
    Y-fan_out index (item ∷ rest) (m, h) =
        Yields-bind _ Processed (All Processed) (handle_item env config envelope index item)
          (Y-handle_item config envelope index item le m)
          λ o p.
            Yields-bind _ (All Processed) (All Processed)
              (fan_out env config envelope (suc index) rest) (Y-fan_out (suc index) rest h)
              λ os ps. Yields-pure (o ∷ os) (All Processed) (p, ps)

    Y-handle_payload :
        (items : List Fields)
        → All IsModelled items
        → Yields (handle_payload env config envelope items) (All Processed)
    unfolding handle_payload empty_payload
    Y-handle_payload [] h = search (Yields-then, Yields-pure)
    Y-handle_payload (item ∷ rest) h = Y-fan_out 0 (item ∷ rest) h

  -- A message whose items all validate, at or below the ceiling.
  pub handle_message-Processed :
      (config : Config) (raw : String) (envelope : RequestEnvelope) (w : World)
      (outcomes : List ItemOutcome)
      → env.decode_request raw ≡ some envelope
      → envelope.retry ≤ max_retry
      → All IsModelled envelope.payload
      → (handle_message env config (some raw) w).0 ≡ ok outcomes
      → All Processed outcomes
  unfolding handle_message handle_parsed with_correlation_id
  handle_message-Processed config raw envelope w outcomes d le h =
      rw (d, handle_message)
        λ e.
          (Y-handle_payload config envelope le envelope.payload h).at
            (record w { correlation_id = envelope.correlation_id }) outcomes e
