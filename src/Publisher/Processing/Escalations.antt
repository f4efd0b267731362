-- ===== src/Publisher/Processing/Escalations.antt =====
-- What escalate_item of publisher/processing.py has done when its outcome is `escalated`.
use reimbursement_analyzer.Prelude.{ℕ, ◌≡◌, ◌≢◌, if◌then◌else◌, Bool, true, false, some, refl}
use reimbursement_analyzer.Json.{Fields}
use reimbursement_analyzer.Status
use reimbursement_analyzer.Errors.{Exc, is_duplicate}
use reimbursement_analyzer.Config.{Config}
use reimbursement_analyzer.Models.{RequestEnvelope}
use reimbursement_analyzer.Env.{Env}
use reimbursement_analyzer.World.{World, ok, pure, acquire, transaction}
use reimbursement_analyzer.World.Gives.{
  Core, core, Gives, Gives-try, Gives-bind, Gives-acquire, Gives-transaction,
}
use reimbursement_analyzer.World.Yields.{Yields, Yields-pure, Yields-any, Yields-bind}
use reimbursement_analyzer.Repository.Inserts.{Inserted, Gives-insert_human_review}
use reimbursement_analyzer.UseCases.SendHumanReview.{
  send_human_review, render_history, default_header,
}
use reimbursement_analyzer.Publisher.Processing.{
  ItemOutcome, escalated, logged, accepts, log_duplicate, not_escalated, escalation_failed,
  escalate_accepted, escalate_item,
}
use reimbursement_analyzer.Publisher.Processing.Outcomes.{Gives-accepts}

-- The row of an escalated item: its reason is the history of its attempts.
abbrev pub Escalated : Env → Config → RequestEnvelope → Fields → Core → ℕ → Core → Type 0
Escalated env config envelope item =
    Inserted env item Status.human_review
      (some (render_history env envelope.errors config.max_message_chars default_header))

module _ (env : Env) (config : Config) (envelope : RequestEnvelope) (index : ℕ) (item : Fields)
    (c0 : Core) where
  abbrev Settled : ItemOutcome → Core → Type 0
  Settled o c = o ≡ escalated → (uuid : ℕ) × Escalated env config envelope item c0 uuid c

  Yields-not_escalated :
      (e : Exc) → Yields (not_escalated env config envelope index item e) (λ o. o ≢ escalated)
  unfolding not_escalated
  Yields-not_escalated e =
      Yields-bind _ (λ _. Unit) (λ o. o ≢ escalated) _ (Yields-any _)
        λ _ _. Yields-pure logged (λ o. o ≢ escalated) λ d. cc

  Yields-log_duplicate :
      (e : Exc) → Yields (log_duplicate env config envelope item e) (λ o. o ≢ escalated)
  unfolding log_duplicate
  Yields-log_duplicate e = record { at = λ w o h d. cc }

  Yields-escalation_failed :
      (e : Exc) → Yields (escalation_failed env config envelope index item e) (λ o. o ≢ escalated)
  unfolding escalation_failed
  Yields-escalation_failed e = either (is_duplicate e)
    where
      either :
          (b : Bool)
          → Yields
              (if b
                then log_duplicate env config envelope item e
                else not_escalated env config envelope index item e)
              (λ o. o ≢ escalated)
      either true = Yields-log_duplicate e
      either false = Yields-not_escalated e

  Gives-escalate_accepted :
      (b : Bool) → Gives (λ c. c ≡ c0) (escalate_accepted env config envelope index item b) Settled
  unfolding escalate_accepted send_human_review
  Gives-escalate_accepted false = record { at = λ w p o e d. cc }
  Gives-escalate_accepted true =
      Gives-try
        (acquire
          (transaction (send_human_review env item envelope.errors config.max_message_chars)))
        (escalation_failed env config envelope index item) (λ _. pure escalated)
        (Escalated env config envelope item c0) Settled
        (Gives-acquire _ _ (Gives-transaction _ _ (Gives-insert_human_review env item c0 _)))
        (λ e. record { at = λ w p o h d. absurd ((Yields-escalation_failed e).at w o h d) })
        (λ uuid. record { at = λ w p o h d. (uuid, p) })

  Gives-escalate_item : Gives (λ c. c ≡ c0) (escalate_item env config envelope index item) Settled
  unfolding escalate_item
  Gives-escalate_item =
      Gives-bind (accepts env config envelope index item)
        (escalate_accepted env config envelope index item) (λ b c. c ≡ c0) Settled
        (Gives-accepts env config envelope index item c0) Gives-escalate_accepted

-- An item whose outcome is `escalated` has one new row that waits for a person: for the validated
-- item, whose submission no row had, with the history of its attempts as the reason; the other
-- rows, the reviews and the topics are as they were before the item.
pub escalate_item-Escalated :
    (env : Env) (config : Config) (envelope : RequestEnvelope) (index : ℕ) (item : Fields)
    (w : World)
    → (escalate_item env config envelope index item w).0 ≡ ok escalated
    → (uuid : ℕ) × Escalated env config envelope item
        (core w)
        uuid
        (core (escalate_item env config envelope index item w).1)
escalate_item-Escalated env config envelope index item w e =
    (Gives-escalate_item env config envelope index item (core w)).at w refl escalated e refl
