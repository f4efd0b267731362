-- ===== src/UseCases/SendHumanReview.antt =====
-- use_cases/send_human_review.py: the text that a reviewer reads, and the two ways to escalate.
use reimbursement_analyzer.Prelude
use reimbursement_analyzer.Prelude.{ℕ, String, Option, List, [], ◌∷◌, map, length}
use reimbursement_analyzer.Json.{Fields}
use reimbursement_analyzer.Status
use reimbursement_analyzer.Models.{AttemptError, stage_name}
use reimbursement_analyzer.Env.{Env}
use reimbursement_analyzer.World.{Action}
use reimbursement_analyzer.Repository.{no_receipts, insert_human_review}
use reimbursement_analyzer.UseCases.ApplyDecision.{apply_decision}

abbrev pub default_header : String
default_header = "Retry ceiling reached"

-- `_one_line`
unfoldable pub one_line : String → String
one_line value = Prelude.Text.join " " (Prelude.Text.split value)

unfoldable pub render_error : Env → ℕ → AttemptError → String
unfolding one_line
render_error env max_message_chars e = Prelude.Text.concat (
    "attempt "
    ∷ Prelude.Text.decimal e.attempt
    ∷ " at "
    ∷ env.isoformat e.occurred_at
    ∷ " ["
    ∷ one_line (stage_name e.stage)
    ∷ "] "
    ∷ one_line e.error_type
    ∷ ": "
    ∷ Prelude.Text.take max_message_chars (one_line e.message)
    ∷ [])

-- `render_history`: a header, and one line for each attempt.
unfoldable pub render_history : Env → List AttemptError → ℕ → String → String
unfolding render_error
render_history env [] max_message_chars header =
    Prelude.Text.concat (header ∷ ", but the message carried no error detail." ∷ [])
render_history env (e ∷ es) max_message_chars header = Prelude.Text.join "\n" (
    Prelude.Text.concat
      (header ∷ " after " ∷ Prelude.Text.decimal (length (e ∷ es)) ∷ " failed attempts:" ∷ [])
    ∷ map (render_error env max_message_chars) (e ∷ es))

unfoldable pub send_human_review : Env → Fields → List AttemptError → ℕ → Action ℕ
send_human_review env item errors max_message_chars =
    insert_human_review env item (render_history env errors max_message_chars default_header)

unfoldable pub escalate_existing : Env → ℕ → List AttemptError → ℕ → String → Action (Option ℕ)
escalate_existing env uuid errors max_message_chars header =
    apply_decision uuid Status.review (render_history env errors max_message_chars header)
      no_receipts
