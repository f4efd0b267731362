-- ===== src/Publisher/Processing/Invariants.antt =====
-- What the publisher's handlers keep: an invariant that the database statements and the two kinds
-- of message that they publish keep is kept by the whole of `handle_message`.
use reimbursement_analyzer.Prelude.{
  ℕ, suc, String, Bool, true, false, Option, none, some, List, [], ◌∷◌,
}
use reimbursement_analyzer.Json.{Fields}
use reimbursement_analyzer.Errors.{Exc, publish_failed}
use reimbursement_analyzer.Config.{Config}
use reimbursement_analyzer.Models.{Stage, RequestEnvelope}
use reimbursement_analyzer.Models.Request.{Validated, valid, invalid}
use reimbursement_analyzer.Env.{Env}
use reimbursement_analyzer.World.{World, Result, ok, raised}
use reimbursement_analyzer.World.Keeps.{
  Keeps, IsFramed, Keeps-with_correlation_id, Keeps-bind, Keeps-pure, Keeps-if, keeps_rules,
}
use reimbursement_analyzer.FailureLog.{Keeps-write}
use reimbursement_analyzer.Producer.{Topic, publish, request, reimbursement}
use reimbursement_analyzer.Repository.{insert_pending, insert_human_review, delete_pending}
use reimbursement_analyzer.UseCases.PublishPending.{publish_pending, pending_envelope, compensate}
use reimbursement_analyzer.UseCases.SendHumanReview.{send_human_review}
use reimbursement_analyzer.Publisher.Processing.{
  accepts, accepted, requeue, log_duplicate, insert_failed, retried, process_accepted, process_item,
  escalation_failed, escalate_accepted, escalate_item, handle_item, fan_out, handle_payload,
  handle_parsed, handle_message, write_malformed,
}

pub Keeps-write_malformed :
    {P : World → Type 0} (framed : IsFramed P) (config : Config) (r : Result Fields)
    → Keeps P (write_malformed config r)
unfolding write_malformed
Keeps-write_malformed framed config (ok record_) = search (keeps_rules, framed, Keeps-write)
Keeps-write_malformed framed config (raised e) = search keeps_rules

-- What an invariant owes for the messages of one envelope.
module _ (env : Env) (config : Config) (envelope : RequestEnvelope) {P : World → Type 0}
    (framed : IsFramed P) where
  Keeps-accepted :
      (index : ℕ) (item : Fields) (v : Validated)
      → Keeps P (accepted env config envelope index item v)
  unfolding accepted
  Keeps-accepted index item (valid r) = search keeps_rules
  Keeps-accepted index item (invalid e) = search (keeps_rules, Keeps-write)

  pub Keeps-accepts : (index : ℕ) (item : Fields) → Keeps P (accepts env config envelope index item)
  unfolding accepts
  Keeps-accepts index item = search Keeps-accepted

  Keeps-log_duplicate :
      (item : Fields) (e : Exc) → Keeps P (log_duplicate env config envelope item e)
  unfolding log_duplicate
  Keeps-log_duplicate item e = search keeps_rules

  module _
      (each : (index : ℕ) (item : Fields)
        → Keeps P (handle_item env config envelope index item)) where
    Keeps-fan_out :
        (index : ℕ) (items : List Fields) → Keeps P (fan_out env config envelope index items)
    unfolding fan_out
    Keeps-fan_out index [] = search keeps_rules
    Keeps-fan_out index (item ∷ rest) =
        Keeps-bind (handle_item env config envelope index item) _ (each index item) λ o.
          Keeps-bind (fan_out env config envelope (suc index) rest) _
            (Keeps-fan_out (suc index) rest) λ os. Keeps-pure (o ∷ os)

    pub Keeps-handle_payload :
        (items : List Fields) → Keeps P (handle_payload env config envelope items)
    unfolding handle_payload
    Keeps-handle_payload [] = search keeps_rules
    Keeps-handle_payload (item ∷ rest) = Keeps-fan_out 0 (item ∷ rest)

  module _
      (reviews : (item : Fields) (reason : String)
        → Keeps P (insert_human_review env item reason)) where
    Keeps-escalation_failed :
        (index : ℕ) (item : Fields) (e : Exc)
        → Keeps P (escalation_failed env config envelope index item e)
    unfolding escalation_failed
    Keeps-escalation_failed index item e = search (keeps_rules, Keeps-write, Keeps-log_duplicate)

    Keeps-escalate_accepted :
        (index : ℕ) (item : Fields) (b : Bool)
        → Keeps P (escalate_accepted env config envelope index item b)
    unfolding escalate_accepted send_human_review
    Keeps-escalate_accepted index item true = search (keeps_rules, reviews, Keeps-escalation_failed)
    Keeps-escalate_accepted index item false = search keeps_rules

    pub Keeps-escalate_item :
        (index : ℕ) (item : Fields) → Keeps P (escalate_item env config envelope index item)
    unfolding escalate_item
    Keeps-escalate_item index item = search (keeps_rules, Keeps-accepts, Keeps-escalate_accepted)

  module _ (inserts : (item : Fields) → Keeps P (insert_pending env item))
      (deletes : (uuid : ℕ) → Keeps P (delete_pending uuid))
      (announces : (uuid now : ℕ)
        → Keeps P (
            publish env reimbursement (
              env.encode_reimbursement
                (pending_envelope uuid now envelope.correlation_id envelope.errors))))
      (requeues : (item : Fields) (stage : Stage) (e : Exc) (now : ℕ)
        → Keeps P (
            publish env request (env.encode_request (retried env envelope item stage e now)))) where
    Keeps-requeue :
        (index : ℕ) (item : Fields) (stage : Stage) (e : Exc)
        → Keeps P (requeue env config envelope index item stage e)
    unfolding requeue
    Keeps-requeue index item stage e = search (keeps_rules, Keeps-write, requeues)

    Keeps-insert_failed :
        (index : ℕ) (item : Fields) (e : Exc)
        → Keeps P (insert_failed env config envelope index item e)
    unfolding insert_failed
    Keeps-insert_failed index item (publish_failed m) = search Keeps-requeue
    Keeps-insert_failed index item _ = search (keeps_rules, Keeps-requeue, Keeps-log_duplicate)

    Keeps-compensate :
        (uuid : ℕ) (item : Fields) (retry : ℕ) (e : Exc) (limit : ℕ)
        → Keeps P (compensate env uuid item retry e limit)
    unfolding compensate
    Keeps-compensate uuid item retry e limit = search (keeps_rules, Keeps-write, deletes)

    Keeps-publish_pending :
        (item : Fields) (limit retry : ℕ)
        → Keeps P (publish_pending env item envelope.errors limit retry envelope.correlation_id)
    unfolding publish_pending
    Keeps-publish_pending item limit retry =
        search (keeps_rules, inserts, announces, Keeps-compensate)

    Keeps-process_accepted :
        (index : ℕ) (item : Fields) (b : Bool)
        → Keeps P (process_accepted env config envelope index item b)
    unfolding process_accepted
    Keeps-process_accepted index item true =
        search (keeps_rules, Keeps-publish_pending, Keeps-insert_failed)
    Keeps-process_accepted index item false = search keeps_rules

    pub Keeps-process_item :
        (index : ℕ) (item : Fields) → Keeps P (process_item env config envelope index item)
    unfolding process_item
    Keeps-process_item index item = search (keeps_rules, Keeps-accepts, Keeps-process_accepted)

-- What an invariant owes for any envelope.
module _ (env : Env) (config : Config) {P : World → Type 0} (framed : IsFramed P)
    (inserts : (item : Fields) → Keeps P (insert_pending env item))
    (reviews : (item : Fields) (reason : String) → Keeps P (insert_human_review env item reason))
    (deletes : (uuid : ℕ) → Keeps P (delete_pending uuid))
    (publishes : (topic : Topic) (payload : String) → Keeps P (publish env topic payload)) where
  Keeps-each :
      (envelope : RequestEnvelope) (index : ℕ) (item : Fields)
      → Keeps P (handle_item env config envelope index item)
  unfolding handle_item
  Keeps-each envelope index item =
      Keeps-if _ _ _ (Keeps-escalate_item env config envelope framed reviews index item) (
        Keeps-process_item env config envelope framed inserts deletes
          (λ uuid now. publishes reimbursement _) (λ item stage e now. publishes request _) index
          item)

  Keeps-handle_parsed :
      (raw : String) (o : Option RequestEnvelope) → Keeps P (handle_parsed env config raw o)
  unfolding handle_parsed
  Keeps-handle_parsed raw none = Keeps-write_malformed framed config _
  Keeps-handle_parsed raw (some envelope) =
      Keeps-with_correlation_id framed envelope.correlation_id _
        (Keeps-handle_payload env config envelope framed (Keeps-each envelope) envelope.payload)

  pub Keeps-handle_message : (raw : Option String) → Keeps P (handle_message env config raw)
  unfolding handle_message
  Keeps-handle_message none = search (keeps_rules, Keeps-write)
  Keeps-handle_message (some raw) = Keeps-handle_parsed raw (env.decode_request raw)
