-- ===== src/UseCases/PublishPending/Outbox.antt =====
-- What publish_pending.py has done when it returns a uuid.
use reimbursement_analyzer.Prelude.{ℕ, String, ◌≡◌, refl, Option, none, List, [], ◌∷◌, ◌++◌}
use reimbursement_analyzer.Json.{Fields}
use reimbursement_analyzer.Status
use reimbursement_analyzer.Models.{AttemptError}
use reimbursement_analyzer.Env.{Env}
use reimbursement_analyzer.World.{World, ok}
use reimbursement_analyzer.World.Gives.{
  Core, core, Gives, Gives-pure, Gives-raise, Gives-gets, Gives-interact, Gives-modify, Gives-try,
  Gives-bind, Gives-transaction,
}
use reimbursement_analyzer.Producer.{publish, reimbursement}
use reimbursement_analyzer.Repository.Inserts.{IsInserted, Inserted, Gives-insert_pending}
use reimbursement_analyzer.UseCases.PublishPending.{
  announce, pending_envelope, publish_pending, compensate,
}

module _ (env : Env) (item : Fields) (c0 : Core) where
  module _ (errors : List AttemptError) (correlation_id : Option String) where
    -- The row, and one message for it on the `Reimbursement` topic.
    abbrev pub Outbox : ℕ → Core → Type 0
    Outbox uuid c =
        IsInserted env item Status.pending none c0.db uuid c.db
        × (c.requests ≡ c0.requests)
        × (now : ℕ) × (c.reimbursements
            ≡ c0.reimbursements
              ++ env.encode_reimbursement (pending_envelope uuid now correlation_id errors) ∷ [])

    Gives-publish :
        (uuid now : ℕ)
        → Gives
            (Inserted env item Status.pending none c0 uuid)
            (publish env reimbursement
              (env.encode_reimbursement (pending_envelope uuid now correlation_id errors)))
            (λ _. Outbox uuid)
    unfolding publish
    Gives-publish uuid now =
        Gives-try _ _ _ (λ _. Outbox uuid) _
          (Gives-interact _ _ (Gives-modify _ _ _ λ w (i, q, r). (i, q, now, rw r refl)))
          (λ e. Gives-raise _ _) (λ _. Gives-pure tt _ λ c h. h)

    Gives-announce :
        (uuid : ℕ)
        → Gives
            (Inserted env item Status.pending none c0 uuid)
            (announce env uuid correlation_id errors)
            (λ _. Outbox uuid)
    unfolding announce
    Gives-announce uuid = Gives-bind _ _ _ _ (Gives-gets _) λ now. Gives-publish uuid now

    pub Gives-publish_pending :
        (limit retry : ℕ)
        → Gives (λ c. c ≡ c0) (publish_pending env item errors limit retry correlation_id) Outbox
    unfolding publish_pending
    Gives-publish_pending limit retry =
        Gives-bind _ _ _ _ (Gives-transaction _ _ (Gives-insert_pending env item c0)) λ uuid.
          Gives-try _ _ _ _ _ (Gives-announce uuid)
            (λ e.
              Gives-bind (compensate env uuid item retry e limit) _ (λ _ _. Unit) _
                (record { at = λ w p a d. tt }) λ _. Gives-raise e _)
            (λ _. Gives-pure uuid _ λ c h. h)

-- A uuid that `publish_pending` returns has its outbox: one new pending row for the validated item,
-- whose submission no row had, and one message for it on the `Reimbursement` topic; the other rows,
-- the reviews and the `Request` topic are as they were, whatever happened before.
pub publish_pending-Outbox :
    (env : Env) (item : Fields) (errors : List AttemptError) (limit retry : ℕ)
    (correlation_id : Option String) (w : World) (uuid : ℕ)
    → (publish_pending env item errors limit retry correlation_id w).0 ≡ ok uuid
    → Outbox env item
        (core w)
        errors
        correlation_id
        uuid
        (core (publish_pending env item errors limit retry correlation_id w).1)
publish_pending-Outbox env item errors limit retry correlation_id w =
    (Gives-publish_pending env item (core w) errors correlation_id limit retry).at w refl
