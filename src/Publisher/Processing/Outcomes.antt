-- ===== src/Publisher/Processing/Outcomes.antt =====
-- What process_item of publisher/processing.py has done when its outcome is `published`.
use reimbursement_analyzer.Prelude.{ℕ, ◌≡◌, ◌≢◌, if◌then◌else◌, Bool, true, false, refl}
use reimbursement_analyzer.Json.{Fields}
use reimbursement_analyzer.Errors.{Exc, publish_failed}
use reimbursement_analyzer.Config.{Config}
use reimbursement_analyzer.Models.{Stage, RequestEnvelope}
use reimbursement_analyzer.Env.{Env}
use reimbursement_analyzer.World.{World, Result, ok, raised, Action, pure, raise, try, ◌>>=◌}
use reimbursement_analyzer.World.Gives.{Core, core, Gives, Gives-try, Gives-bind, Gives-acquire}
use reimbursement_analyzer.World.Keeps.{IsFramed}
use reimbursement_analyzer.Publisher.Processing.Invariants.{Keeps-accepts}
use reimbursement_analyzer.UseCases.PublishPending.Outbox.{Outbox, Gives-publish_pending}
use reimbursement_analyzer.Publisher.Processing.{
  ItemOutcome, published, duplicate, requeued, logged, accepts, requeue, log_duplicate,
  insert_failed, insert_and_publish, item_published, process_accepted, process_item,
}

-- An action whose outcome is not `published`.
record IsOther (m : Action ItemOutcome) : Type 0 where
  at : (w : World) → (o : ItemOutcome) → (m w).0 ≡ ok o → o ≢ published

IsOther-pure : (o : ItemOutcome) → o ≢ published → IsOther (pure o)
IsOther-pure o h = record { at = λ w p e d. h cc }

IsOther-if :
    (b : Bool) (m n : Action ItemOutcome) → IsOther m → IsOther n → IsOther (if b then m else n)
IsOther-if true m n hm hn = hm
IsOther-if false m n hm hn = hn

module _ {A : Type 0} where
  settled :
      (h : Exc → Action ItemOutcome) (f : A → Action ItemOutcome)
      → ((e : Exc) → IsOther (h e))
      → ((a : A) → IsOther (f a))
      → (r : Result A) (w : World) (o : ItemOutcome) → (try (λ _. (r, w)) h f w).0 ≡ ok o
      → o ≢ published
  settled h f hh hf (ok a) w o e = (hf a).at w o e
  settled h f hh hf (raised x) w o e = (hh x).at w o e

  IsOther-try :
      (m : Action A) (h : Exc → Action ItemOutcome) (f : A → Action ItemOutcome)
      → ((e : Exc) → IsOther (h e))
      → ((a : A) → IsOther (f a))
      → IsOther (try m h f)
  IsOther-try m h f hh hf = record { at = λ w. settled h f hh hf (m w).0 (m w).1 }

  IsOther-bind :
      (m : Action A) (f : A → Action ItemOutcome) → ((a : A) → IsOther (f a)) → IsOther (m >>= f)
  IsOther-bind m f hf = record {
    at = λ w. settled (λ e. raise e) f (λ e. record { at = λ w o d. cc }) hf (m w).0 (m w).1;
  }

IsOther-logged : IsOther (pure logged)
IsOther-logged = IsOther-pure logged λ d. cc

IsOther-requeued : IsOther (pure requeued)
IsOther-requeued = IsOther-pure requeued λ d. cc

IsOther-duplicate : IsOther (pure duplicate)
IsOther-duplicate = IsOther-pure duplicate λ d. cc

ruleset other_rules =
    (IsOther-if, IsOther-try, IsOther-bind, IsOther-logged, IsOther-requeued, IsOther-duplicate)

module _ (env : Env) (config : Config) (envelope : RequestEnvelope) (index : ℕ) (item : Fields)
    (c0 : Core) where
  -- If the outcome is `published`, then the item has its outbox.
  abbrev Settled : ItemOutcome → Core → Type 0
  Settled o c =
      o ≡ published → (uuid : ℕ) × Outbox env item c0 envelope.errors envelope.correlation_id uuid c

  IsOther-requeue :
      (stage : Stage) (e : Exc) → IsOther (requeue env config envelope index item stage e)
  unfolding requeue
  IsOther-requeue stage e = search other_rules

  IsOther-log_duplicate : (e : Exc) → IsOther (log_duplicate env config envelope item e)
  unfolding log_duplicate
  IsOther-log_duplicate e = search other_rules

  IsOther-insert_failed : (e : Exc) → IsOther (insert_failed env config envelope index item e)
  unfolding insert_failed
  IsOther-insert_failed (publish_failed m) = search IsOther-requeue
  IsOther-insert_failed _ = search (other_rules, IsOther-requeue, IsOther-log_duplicate)

  Delivered : ℕ → Core → Type 0
  Delivered = Outbox env item c0 envelope.errors envelope.correlation_id

  Gives-insert_and_publish :
      Gives (λ c. c ≡ c0) (insert_and_publish env config envelope item) Delivered
  unfolding insert_and_publish Delivered
  Gives-insert_and_publish = Gives-acquire _ _ (
      Gives-publish_pending env item c0 envelope.errors envelope.correlation_id
        config.max_message_chars envelope.retry)

  Gives-item_published :
      (uuid : ℕ) → Gives (Delivered uuid) (item_published env config envelope item uuid) Settled
  unfolding item_published Delivered
  Gives-item_published uuid = record { at = λ w p o e d. (uuid, p) }

  Gives-process_accepted :
      (b : Bool) → Gives (λ c. c ≡ c0) (process_accepted env config envelope index item b) Settled
  unfolding process_accepted
  Gives-process_accepted false = record { at = λ w p o e d. cc }
  Gives-process_accepted true =
      Gives-try (insert_and_publish env config envelope item)
        (insert_failed env config envelope index item) (item_published env config envelope item)
        Delivered Settled Gives-insert_and_publish
        (λ e. record {
          at = λ w p o d is_published. absurd ((IsOther-insert_failed e).at w o d is_published);
        })
        Gives-item_published

  Unchanged-IsFramed : IsFramed (λ w. core w ≡ c0)
  Unchanged-IsFramed = record {
    same = λ w w' e a b c h. rw (e, a, b) h;
    back = λ w w' h h'. let e : w.db ≡ w'.db = cc in rw e h';
  }

  pub Gives-accepts : Gives (λ c. c ≡ c0) (accepts env config envelope index item) (λ b c. c ≡ c0)
  Gives-accepts = record {
    at = λ w p b e. (Keeps-accepts env config envelope Unchanged-IsFramed index item).at w p;
  }

  Gives-process_item : Gives (λ c. c ≡ c0) (process_item env config envelope index item) Settled
  unfolding process_item
  Gives-process_item =
      Gives-bind (accepts env config envelope index item)
        (process_accepted env config envelope index item) (λ b c. c ≡ c0) Settled Gives-accepts
        Gives-process_accepted

-- An item whose outcome is `published` has its outbox: one new pending row for the validated item,
-- whose submission no row had, and one message for it with retry 0 and the history of the item on
-- the `Reimbursement` topic; all else in the tables and the topics is as it was before the item.
pub process_item-Outbox :
    (env : Env) (config : Config) (envelope : RequestEnvelope) (index : ℕ) (item : Fields)
    (w : World)
    → (process_item env config envelope index item w).0 ≡ ok published
    → (uuid : ℕ) × Outbox env item
        (core w)
        envelope.errors
        envelope.correlation_id
        uuid
        (core (process_item env config envelope index item w).1)
process_item-Outbox env config envelope index item w e =
    (Gives-process_item env config envelope index item (core w)).at w refl published e refl
