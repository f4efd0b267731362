-- ===== src/Producer.antt =====
-- `publish` of packages/shared/src/shared/producer.py. A topic is a parameter of the action that
-- appends to it; the event says whether the broker took the message, and what it reported.
use reimbursement_analyzer.Prelude
use reimbursement_analyzer.Prelude.{String, List, [], ◌∷◌, ◌++◌}
use reimbursement_analyzer.Errors.{Exc, publish_failed, type_name}
use reimbursement_analyzer.Env.{Env}
use reimbursement_analyzer.World.{World, Action, pure, raise, modify, interact, try}

pub data Topic : Type 0 where
  request reimbursement : Topic

abbrev pub deliver : Topic → String → World → World
deliver request payload w = record w { requests = w.requests ++ payload ∷ [] }
deliver reimbursement payload w = record w { reimbursements = w.reimbursements ++ payload ∷ [] }

-- The text of the PublishFailed.
abbrev pub failure_text : Env → Exc → String
failure_text env e = Prelude.Text.concat (type_name e ∷ ": " ∷ env.message e ∷ [])

-- Every exception becomes a PublishFailed, whatever the broker's client raised.
unfoldable pub publish : Env → Topic → String → Action (Unit {0})
publish env topic payload =
    try (interact (modify (deliver topic payload)))
      (λ e. raise (publish_failed (failure_text env e))) (λ _. pure tt)
