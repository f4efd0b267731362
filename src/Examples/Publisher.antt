-- ===== src/Examples/Publisher.antt =====
-- The theorems on the publisher and on what it calls, at concrete messages and states.
use reimbursement_analyzer.Errors.{Exc, other}
use reimbursement_analyzer.Env.{Env, load_failed}
use reimbursement_analyzer.Prelude.{
  ℕ, zero, suc, ◌+◌, ◌<◌, ◌≤◌, String, ◌≡◌, ◌≢◌, refl, Bool, true, false, Option, none, some, List,
  [], ◌∷◌, length, arith,
}
use reimbursement_analyzer.Prelude
use reimbursement_analyzer.Json.{Json, str, obj, Fields, dict}
use reimbursement_analyzer.Models.{AttemptError, RequestEnvelope, ReimbursementEnvelope}
use reimbursement_analyzer.World.{World, Event, fine, before, Result, ok, Poll, message}
use reimbursement_analyzer.Repository.Tables.{Row, Db, approved, rejected}
use reimbursement_analyzer.Repository.{no_receipts}
use reimbursement_analyzer.World.Gives.{core}
use reimbursement_analyzer.FailureLog.{cut_record}
use reimbursement_analyzer.FailureLog.Bounds.{Fits, cut_record-Fits}
use reimbursement_analyzer.UseCases.PublishPending.{publish_pending}
use reimbursement_analyzer.UseCases.PublishPending.Outbox.{Outbox, publish_pending-Outbox}
use reimbursement_analyzer.World.Steady.{steady}
use reimbursement_analyzer.UseCases.PublishPending.Delivers.{publish_pending-delivers}
use reimbursement_analyzer.Publisher.Processing
use reimbursement_analyzer.Publisher.Processing.{ItemOutcome, process_item, escalate_item}
use reimbursement_analyzer.Publisher.Processing.NeverRaises.{IsReadable, handle_message-length}
use reimbursement_analyzer.Publisher.Processing.Ceiling.{
  RetryBounded, handle_message-ceiling, handle_message-RetryBounded,
}
use reimbursement_analyzer.Publisher.Processing.Escalations.{Escalated, escalate_item-Escalated}
use reimbursement_analyzer.Publisher.Processing.Outcomes.{process_item-Outbox}
use reimbursement_analyzer.Publisher.Consumer.{run}
use reimbursement_analyzer.Publisher.Consumer.Commits.{IsProgress, run-IsProgress}
use reimbursement_analyzer.Publisher.Processing.Identifiers.{too_long_item}
use reimbursement_analyzer.Examples.{
  item, envelope_at, unary, env, config, empty_world, failing_world, long_id, long_item,
}

unary-length : (n : ℕ) → Prelude.Text.length (unary n) ≡ n
unary-length zero = refl
unary-length (suc n) = rw (unary-length n)

-- An empty payload's `Request` message that has been retried seven times.
handle_message-length_example :
    (outcomes : List ItemOutcome) × ((Processing.handle_message env config
        (some "")
        failing_world).0
      ≡ ok outcomes)
    × (length outcomes ≡ 1)
handle_message-length_example =
    handle_message-length env config (some "") failing_world (IsReadable.envelope_of refl)

-- Bytes that are not UTF-8.
abbrev not_utf8 : Exc
not_utf8 = other "UnicodeDecodeError" "invalid start byte"

abbrev binary_env : Env
binary_env = record env { decode_request = λ s. none; loads_bytes = λ s. load_failed not_utf8 }

run-IsProgress_example :
    IsProgress []
      (7 ∷ 8 ∷ [])
      (run env config ((false, message 7 none) ∷ (false, message 8 (some "")) ∷ []) failing_world).0
      (run env config
        ((false, message 7 none) ∷ (false, message 8 (some "")) ∷ [])
        failing_world).1.commits
run-IsProgress_example =
    run-IsProgress env config ((false, message 7 none) ∷ (false, message 8 (some "")) ∷ [])
      failing_world

handle_message-ceiling_example :
    ((Processing.handle_message env config (some "xxxxxxx") failing_world).1.requests ≡ [])
    × ((Processing.handle_message env config (some "xxxxxxx") failing_world).1.reimbursements ≡ [])
handle_message-ceiling_example =
    handle_message-ceiling env config (envelope_at 7) (omega arith) "xxxxxxx" refl failing_world

handle_message-RetryBounded_example :
    RetryBounded env (Processing.handle_message env config (some "xxx") failing_world).1
handle_message-RetryBounded_example =
    handle_message-RetryBounded env (λ e. rw (unary-length e.retry) refl) config (some "xxx")
      failing_world tt

publish_pending-Outbox_example :
    Outbox env item
      (core empty_world)
      []
      none
      0
      (core (publish_pending env item [] 500 0 none empty_world).1)
unfolding publish_pending reimbursement_analyzer.World.transaction
    reimbursement_analyzer.Repository.insert_pending
    reimbursement_analyzer.Models.Request.model_validate reimbursement_analyzer.Json.get
    reimbursement_analyzer.Prelude.Text.strip reimbursement_analyzer.World.interact
    reimbursement_analyzer.Repository.Tables.violated
    reimbursement_analyzer.Repository.Tables.is_address reimbursement_analyzer.Producer.publish
publish_pending-Outbox_example = publish_pending-Outbox env item [] 500 0 none empty_world 0 refl

process_item-Outbox_example :
    (uuid : ℕ) × Outbox env item
      (core empty_world)
      []
      (some "c-1")
      uuid
      (core (process_item env config (envelope_at 0) 0 item empty_world).1)
unfolding process_item Processing.accepts reimbursement_analyzer.Models.Request.model_validate
    reimbursement_analyzer.Json.get reimbursement_analyzer.Prelude.Text.strip
    reimbursement_analyzer.World.acquire publish_pending reimbursement_analyzer.World.transaction
    reimbursement_analyzer.Repository.insert_pending
    reimbursement_analyzer.Repository.Tables.violated
    reimbursement_analyzer.Repository.Tables.is_address reimbursement_analyzer.Producer.publish
process_item-Outbox_example = process_item-Outbox env config (envelope_at 0) 0 item empty_world refl

publish_pending-delivers_example :
    ((publish_pending env item [] 500 0 none (steady empty_world)).0 ≡ ok 0)
    × Outbox env item
        (core (steady empty_world))
        []
        none
        0
        (core (publish_pending env item [] 500 0 none (steady empty_world)).1)
unfolding reimbursement_analyzer.Models.Request.model_validate reimbursement_analyzer.Json.get
    reimbursement_analyzer.Prelude.Text.strip reimbursement_analyzer.Repository.Tables.violated
    reimbursement_analyzer.Repository.Tables.is_address
publish_pending-delivers_example =
    publish_pending-delivers env item
      (record { request_id = "r-1"; submitted_by = "ana@example.com"; submitted_at = 0 }) (obj item)
      empty_world refl refl refl refl [] 500 0 none

cut_record-Fits_example : Fits 20 (cut_record 20 item) 11
cut_record-Fits_example = cut_record-Fits 20 (omega arith) item

escalate_item-Escalated_example :
    (uuid : ℕ) × Escalated env config
      (envelope_at 7)
      item
      (core empty_world)
      uuid
      (core (escalate_item env config (envelope_at 7) 0 item empty_world).1)
unfolding escalate_item Processing.accepts reimbursement_analyzer.Models.Request.model_validate
    reimbursement_analyzer.Json.get reimbursement_analyzer.Prelude.Text.strip
    reimbursement_analyzer.World.acquire reimbursement_analyzer.World.transaction
    reimbursement_analyzer.UseCases.SendHumanReview.send_human_review
    reimbursement_analyzer.Repository.insert_human_review
    reimbursement_analyzer.Repository.Tables.violated
    reimbursement_analyzer.Repository.Tables.is_address
escalate_item-Escalated_example =
    escalate_item-Escalated env config (envelope_at 7) 0 item empty_world refl

too_long_item_example :
    ((process_item env config (envelope_at 0) 0 long_item empty_world).0 ≢ ok Processing.published)
    × ((escalate_item env config (envelope_at 0) 0 long_item empty_world).0
        ≢ ok Processing.escalated)
unfolding reimbursement_analyzer.Models.Request.model_validate reimbursement_analyzer.Json.get
    reimbursement_analyzer.Prelude.Text.strip
too_long_item_example =
    too_long_item env long_item
      (record { request_id = long_id; submitted_by = "ana@example.com"; submitted_at = 0 }) refl
      (omega arith) config (envelope_at 0) 0 empty_world
