-- ===== src/Publisher/Consumer/Commits.antt =====
-- Which offsets publisher/consumer.py commits.
use reimbursement_analyzer.Prelude.{
  ℕ, String, ◌≡◌, refl, Bool, true, false, Option, List, [], ◌∷◌, ◌++◌, sym,
}
use reimbursement_analyzer.Errors.{Exc}
use reimbursement_analyzer.Config.{Config, request_topic}
use reimbursement_analyzer.Env.{Env}
use reimbursement_analyzer.World.{
  World, Fault, fine, before, after, Result, ok, raised, Action, modify, next_event, ◌>>◌, settle,
  commit, pure, try, count, Poll, nothing, broken, message,
}
use reimbursement_analyzer.World.Keeps.{Keeps, IsFramed, keeps_rules}
use reimbursement_analyzer.World.Returns.{Returns, returns_rules}
use reimbursement_analyzer.Producer.{Topic, request, reimbursement, deliver, publish}
use reimbursement_analyzer.Repository.Frames.{
  Kept-insert_pending, Kept-insert_human_review, Kept-delete_pending,
}
use reimbursement_analyzer.Publisher.Processing.{handle_message}
use reimbursement_analyzer.Publisher.Processing.Invariants.{Keeps-handle_message}
use reimbursement_analyzer.Publisher.Consumer.{message_handled, consume_one, run}

-- The offsets of the messages that are polled before the loop is told to stop.
abbrev pub offsets : List (Bool × Poll) → List ℕ
offsets [] = []
offsets ((true, poll) ∷ rounds) = []
offsets ((false, nothing) ∷ rounds) = offsets rounds
offsets ((false, broken) ∷ rounds) = offsets rounds
offsets ((false, message offset value) ∷ rounds) = offset ∷ offsets rounds

abbrev pub Committed : List ℕ → World → Type 0
Committed cs w = w.commits ≡ cs

pub Committed-IsFramed : (cs : List ℕ) → IsFramed (Committed cs)
Committed-IsFramed cs = record { same = λ w w' e a b c h. rw c h; back = λ w w' h h'. h' }

module _ (env : Env) (config : Config) (cs : List ℕ) where
  Keeps-deliver :
      (topic : Topic) (payload : String) → Keeps (Committed cs) (modify (deliver topic payload))
  Keeps-deliver request payload = record { at = λ w h. h }
  Keeps-deliver reimbursement payload = record { at = λ w h. h }

  pub Keeps-publish :
      (topic : Topic) (payload : String) → Keeps (Committed cs) (publish env topic payload)
  unfolding publish
  Keeps-publish topic payload = search (keeps_rules, Committed-IsFramed, Keeps-deliver)

  Keeps-handled : (raw : Option String) → Keeps (Committed cs) (handle_message env config raw)
  Keeps-handled raw =
      Keeps-handle_message env config (Committed-IsFramed cs)
        (Kept-insert_pending (Committed-IsFramed cs) (λ w db h. h) env)
        (Kept-insert_human_review (Committed-IsFramed cs) (λ w db h. h) env)
        (Kept-delete_pending (Committed-IsFramed cs) (λ w db h. h) env) Keeps-publish raw

-- An action that is to commit `todo` after `done` returns with all of it committed, or raises with
-- the first part of it committed.
pub data IsProgress (done todo : List ℕ) : Result (Unit {0}) → List ℕ → Type 0 where
  finished : (cs : List ℕ) → cs ≡ done ++ todo → IsProgress done todo (ok tt) cs
  stopped :
      (first rest : List ℕ) (e : Exc) (cs : List ℕ)
      → todo ≡ first ++ rest
      → cs ≡ done ++ first
      → IsProgress done todo (raised e) cs

pub append_nil : (xs : List ℕ) → xs ++ [] ≡ xs
append_nil [] = refl
append_nil (x ∷ xs) = rw (append_nil xs)

append_append : (xs ys zs : List ℕ) → (xs ++ ys) ++ zs ≡ xs ++ (ys ++ zs)
append_append [] ys zs = refl
append_append (x ∷ xs) ys zs = rw (append_append xs ys zs)

settle-IsProgress :
    (f : Fault) (offset : ℕ) (cs : List ℕ) (w : World)
    → w.commits ≡ cs
    → let r = settle f (modify (λ w. record w { commits = w.commits ++ offset ∷ [] })) w in
      IsProgress cs (offset ∷ []) r.0 r.1.commits
settle-IsProgress fine offset cs w d = finished _ (simp d)
settle-IsProgress (before e) offset cs w d =
    stopped [] (offset ∷ []) e w.commits refl (simp (d, append_nil cs))
settle-IsProgress (after e) offset cs w d = stopped (offset ∷ []) [] e _ refl (simp d)

pub commit-IsProgress :
    (offset : ℕ) (cs : List ℕ) (w : World)
    → w.commits ≡ cs
    → IsProgress cs (offset ∷ []) (commit offset w).0 (commit offset w).1.commits
unfolding commit next_event
commit-IsProgress offset cs w d = settle-IsProgress (next_event w).0 offset cs (next_event w).1 d

-- What follows an action that has returned.
after_returning :
    (done todo : List ℕ) (n : Action (Unit {0})) (r : Result (Unit {0})) (w : World)
    → (u : Unit {0}) × (r ≡ ok u)
    → IsProgress done todo (n w).0 (n w).1.commits
    → let s = ((λ _. (r, w)) >> n) w in IsProgress done todo s.0 s.1.commits
after_returning done todo n (ok u) w h d = d
after_returning done todo n (raised e) w h d = cc

-- Progress counted from an earlier point.
rebased :
    (done first rest : List ℕ) (r : Result (Unit {0})) (cs ds : List ℕ)
    → cs ≡ done ++ first
    → IsProgress cs rest r ds
    → IsProgress done (first ++ rest) r ds
rebased done first rest r cs ds e (finished _ d) =
    finished ds (rw (d, e, append_append done first rest))
rebased done first rest r cs ds e (stopped a b x _ t c) =
    stopped (first ++ a) b x ds (rw (t, append_append first a b))
      (rw (c, e, append_append done first a))

-- What follows an action that has its own offsets to commit.
pub after-IsProgress :
    (done first rest : List ℕ) (n : Action (Unit {0})) (r : Result (Unit {0})) (w : World)
    (cs : List ℕ)
    → w.commits ≡ cs
    → IsProgress done first r cs
    → IsProgress cs rest (n w).0 (n w).1.commits
    → let s = ((λ _. (r, w)) >> n) w in IsProgress done (first ++ rest) s.0 s.1.commits
after-IsProgress done first rest n r w cs d (finished _ e) h = rebased done first rest _ cs _ e h
after-IsProgress done first rest n r w cs d (stopped a b e _ t c) h =
    stopped a (b ++ rest) e w.commits (rw (t, append_append a b rest)) (rw (d, c))

module _ (env : Env) (config : Config) where
  attempt : Option String → Action (Unit {0})
  attempt value = try (handle_message env config value) (λ _. pure tt) message_handled

  Keeps-attempt : (cs : List ℕ) (value : Option String) → Keeps (Committed cs) (attempt value)
  unfolding attempt message_handled
  Keeps-attempt cs value = search (keeps_rules, Committed-IsFramed, Keeps-handled)

  Returns-attempt : (value : Option String) → Returns (attempt value)
  unfolding attempt message_handled
  Returns-attempt value = search returns_rules

  consume_one-IsProgress :
      (offset : ℕ) (value : Option String) (w : World)
      → let r = consume_one env config offset value w in
        IsProgress w.commits (offset ∷ []) r.0 r.1.commits
  unfolding consume_one attempt
  consume_one-IsProgress offset value w =
      let w1 = (count "publisher_messages_consumed" (request_topic ∷ []) w).1 in
      after_returning w.commits (offset ∷ []) (commit offset) (attempt value w1).0
        (attempt value w1).1 ((Returns-attempt value).at w1)
        (commit-IsProgress offset w.commits (attempt value w1).1
          ((Keeps-attempt w.commits value).at w1 refl))

  -- Whatever the messages hold and whatever fails, the consumer commits the offsets of the messages
  -- that it polls in their order and without a gap: all of them if `run` returns, and the first of
  -- them if a commit raises.
  pub run-IsProgress :
      (rounds : List (Bool × Poll)) (w : World)
      → let r = run env config rounds w in IsProgress w.commits (offsets rounds) r.0 r.1.commits
  unfolding run
  run-IsProgress [] w = finished w.commits (sym (append_nil w.commits))
  run-IsProgress ((true, poll) ∷ rounds) w = finished w.commits (sym (append_nil w.commits))
  run-IsProgress ((false, nothing) ∷ rounds) w = run-IsProgress rounds w
  run-IsProgress ((false, broken) ∷ rounds) w = run-IsProgress rounds w
  run-IsProgress ((false, message offset value) ∷ rounds) w =
      let (r, w1) = consume_one env config offset value w in
      after-IsProgress w.commits (offset ∷ []) (offsets rounds) (run env config rounds) r w1
        w1.commits refl (consume_one-IsProgress offset value w) (run-IsProgress rounds w1)
