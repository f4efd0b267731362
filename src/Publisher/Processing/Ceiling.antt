-- ===== src/Publisher/Processing/Ceiling.antt =====
-- The retry ceiling of publisher/processing.py: what reaches the topics, and how often.
use reimbursement_analyzer.Prelude.{
  ℕ, ◌+◌, ◌≤◌, ◌<◌, String, ◌≡◌, refl, true, Option, none, some, List, [], ◌∷◌, arith, ltb, All,
  All-append, Bool-cases, inl, inr,
}
use reimbursement_analyzer.Json.{Fields}
use reimbursement_analyzer.Config.{Config, max_retry}
use reimbursement_analyzer.Models.{RequestEnvelope}
use reimbursement_analyzer.Env.{Env}
use reimbursement_analyzer.World.{World, modify}
use reimbursement_analyzer.World.Keeps.{Keeps, IsFramed, Keeps-with_correlation_id, keeps_rules}
use reimbursement_analyzer.FailureLog.{Keeps-write}
use reimbursement_analyzer.Producer.{request, reimbursement, deliver, publish}
use reimbursement_analyzer.Repository.Frames.{
  Kept-insert_pending, Kept-insert_human_review, Kept-delete_pending,
}
use reimbursement_analyzer.Publisher.Processing.{
  retried, handle_item, handle_parsed, handle_message,
}
use reimbursement_analyzer.Publisher.Processing.Invariants.{
  Keeps-write_malformed, Keeps-handle_payload, Keeps-escalate_item, Keeps-process_item,
}

-- The two topics hold these messages.
abbrev Published : List String → List String → World → Type 0
Published requests reimbursements w = (w.requests ≡ requests) × (w.reimbursements ≡ reimbursements)

Published-IsFramed : (qs rs : List String) → IsFramed (Published qs rs)
Published-IsFramed qs rs = record {
  same = λ w w' e a b c h. (rw a h.0, rw b h.1);
  back = λ w w' h h'. h';
}

module _ (env : Env) (config : Config) (envelope : RequestEnvelope)
    (above : max_retry < envelope.retry) where
  Keeps-escalated :
      (qs rs : List String) (index : ℕ) (item : Fields)
      → Keeps (Published qs rs) (handle_item env config envelope index item)
  unfolding handle_item
  Keeps-escalated qs rs index item =
      let is_above : ltb max_retry envelope.retry ≡ true = ground arith in
      rw is_above (
        Keeps-escalate_item env config envelope (Published-IsFramed qs rs)
          (Kept-insert_human_review (Published-IsFramed qs rs) (λ w db h. h) env) index item)

  -- Past the ceiling nothing is published: a message that has been retried more than three times
  -- leaves both topics as they are, whatever its items hold and whatever fails.
  pub handle_message-ceiling :
      (raw : String)
      → env.decode_request raw ≡ some envelope
      → (w : World)
      → ((handle_message env config (some raw) w).1.requests ≡ w.requests)
        × ((handle_message env config (some raw) w).1.reimbursements ≡ w.reimbursements)
  unfolding handle_message handle_parsed
  handle_message-ceiling raw d w = rw d (
      (Keeps-with_correlation_id (Published-IsFramed w.requests w.reimbursements)
          envelope.correlation_id _
          (Keeps-handle_payload env config envelope (Published-IsFramed w.requests w.reimbursements)
            (Keeps-escalated w.requests w.reimbursements) envelope.payload)).at
        w (refl, refl))

-- A message that is an envelope has been retried at most four times.
abbrev EnvelopeBounded : Option RequestEnvelope → Type 0
EnvelopeBounded none = Unit
EnvelopeBounded (some envelope) = envelope.retry ≤ max_retry + 1

abbrev pub RetryBounded : Env → World → Type 0
RetryBounded env w = All (λ raw. EnvelopeBounded (env.decode_request raw)) w.requests

-- The retry count of a message that is an envelope.
abbrev pub retry_of : Option RequestEnvelope → Option ℕ
retry_of none = none
retry_of (some envelope) = some envelope.retry

bounded_by :
    (o : Option RequestEnvelope) (n : ℕ)
    → retry_of o ≡ some n
    → n ≤ max_retry + 1
    → EnvelopeBounded o
bounded_by none n e le = tt
bounded_by (some envelope) n e le = let d : envelope.retry ≡ n = cc in rw d le

module _ (env : Env)
    (survives : (e : RequestEnvelope)
      → retry_of (env.decode_request (env.encode_request e)) ≡ some e.retry) where
  RetryBounded-IsFramed : IsFramed (RetryBounded env)
  RetryBounded-IsFramed = record { same = λ w w' e a b c h. rw a h; back = λ w w' h h'. h' }

  Keeps-requeues :
      (e : RequestEnvelope)
      → e.retry ≤ max_retry + 1
      → Keeps (RetryBounded env) (modify (deliver request (env.encode_request e)))
  Keeps-requeues e le = record {
    at = λ w h.
        All-append (λ raw. EnvelopeBounded (env.decode_request raw)) w.requests
          (env.encode_request e ∷ []) h
          (bounded_by (env.decode_request (env.encode_request e)) e.retry (survives e) le, tt);
  }

  Keeps-announces :
      (payload : String) → Keeps (RetryBounded env) (modify (deliver reimbursement payload))
  Keeps-announces payload = record { at = λ w h. h }

  module _ (config : Config) where
    Keeps-publish_envelope :
        (e : RequestEnvelope)
        → e.retry ≤ max_retry + 1
        → Keeps (RetryBounded env) (publish env request (env.encode_request e))
    unfolding publish
    Keeps-publish_envelope e le = search (keeps_rules, RetryBounded-IsFramed, Keeps-requeues, le)

    Keeps-publish_pending_envelope :
        (payload : String) → Keeps (RetryBounded env) (publish env reimbursement payload)
    unfolding publish
    Keeps-publish_pending_envelope payload =
        search (keeps_rules, RetryBounded-IsFramed, Keeps-announces)

    Keeps-bounded_item :
        (envelope : RequestEnvelope) (index : ℕ) (item : Fields)
        → Keeps (RetryBounded env) (handle_item env config envelope index item)
    unfolding handle_item
    Keeps-bounded_item envelope index item = elim (Bool-cases (ltb max_retry envelope.retry)) [
      | inl above ↦ rw above (
          Keeps-escalate_item env config envelope RetryBounded-IsFramed
            (Kept-insert_human_review RetryBounded-IsFramed (λ w db h. h) env) index item)
      | inr below ↦
          let le : envelope.retry + 1 ≤ max_retry + 1 = ground arith in
          rw below (
            Keeps-process_item env config envelope RetryBounded-IsFramed
              (Kept-insert_pending RetryBounded-IsFramed (λ w db h. h) env)
              (Kept-delete_pending RetryBounded-IsFramed (λ w db h. h) env)
              (λ uuid now. Keeps-publish_pending_envelope _)
              (λ item stage e now.
                Keeps-publish_envelope (retried env envelope item stage e now) le)
              index item)
    ]

    Keeps-bounded_message :
        (raw : String) (o : Option RequestEnvelope)
        → Keeps (RetryBounded env) (handle_parsed env config raw o)
    unfolding handle_parsed
    Keeps-bounded_message raw none = Keeps-write_malformed RetryBounded-IsFramed config _
    Keeps-bounded_message raw (some envelope) =
        Keeps-with_correlation_id RetryBounded-IsFramed envelope.correlation_id _ (
          Keeps-handle_payload env config envelope RetryBounded-IsFramed
            (Keeps-bounded_item envelope) envelope.payload)

    Keeps-bounded_any :
        (raw : Option String) → Keeps (RetryBounded env) (handle_message env config raw)
    unfolding handle_message
    Keeps-bounded_any none = search (keeps_rules, RetryBounded-IsFramed, Keeps-write)
    Keeps-bounded_any (some raw) = Keeps-bounded_message raw (env.decode_request raw)

    -- If encoding and decoding an envelope keeps its retry count, then handling a message keeps
    -- this: no message of the `Request` topic has been retried more than four times.
    pub handle_message-RetryBounded :
        (raw : Option String) (w : World)
        → RetryBounded env w
        → RetryBounded env (handle_message env config raw w).1
    handle_message-RetryBounded raw = (Keeps-bounded_any raw).at
