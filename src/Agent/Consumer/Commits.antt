-- ===== src/Agent/Consumer/Commits.antt =====
-- Which offsets the agent's consumer.py commits.
use reimbursement_analyzer.Prelude.{
  ℕ, String, refl, sym, Bool, true, false, Option, none, some, List, [], ◌∷◌,
}
use reimbursement_analyzer.Config.{Config}
use reimbursement_analyzer.Env.{Env}
use reimbursement_analyzer.World.{World, count, Poll, nothing, broken, message, ◌>>=◌}
use reimbursement_analyzer.World.Keeps.{Keeps}
use reimbursement_analyzer.Config.{reimbursement_topic}
use reimbursement_analyzer.Repository.Frames.{Kept-update_decision}
use reimbursement_analyzer.Publisher.Consumer.Commits.{
  Committed, Committed-IsFramed, Keeps-publish, IsProgress, finished, stopped, append_nil, offsets,
  commit-IsProgress, after-IsProgress,
}
use reimbursement_analyzer.Agent.State.{Llm}
use reimbursement_analyzer.Agent.Validation.{handle_message}
use reimbursement_analyzer.Agent.NeverRaises.{handle_message-returns}
use reimbursement_analyzer.Agent.Handled.{Keeps-handle_message}
use reimbursement_analyzer.Agent.Consumer.{consume_one, run}

module _ (env : Env) (llm : Llm) (config : Config) where
  Keeps-handled :
      (cs : List ℕ) (raw : Option String) → Keeps (Committed cs) (handle_message env llm config raw)
  Keeps-handled cs =
      Keeps-handle_message env llm config (Committed-IsFramed cs)
        (Kept-update_decision (Committed-IsFramed cs) (λ w db h. h) env)
        (Keeps-publish env config cs)

  consume_one-IsProgress :
      (offset : ℕ) (value : Option String) (w : World)
      → let r = consume_one env llm config offset value w in
        IsProgress w.commits (offset ∷ []) r.0 r.1.commits
  unfolding consume_one handle_message
  consume_one-IsProgress offset none w =
      stopped [] (offset ∷ []) _ w.commits refl (sym (append_nil w.commits))
  consume_one-IsProgress offset (some raw) w =
      let w1 = (count "reimbursement_messages_consumed" (reimbursement_topic ∷ []) w).1 in
      let m = handle_message env llm config (some raw) in
      let (o, e) = handle_message-returns env llm config raw w1 in
      rw (e, ◌>>=◌)
        (commit-IsProgress offset w.commits (m w1).1
          ((Keeps-handled w.commits (some raw)).at w1 refl))

  -- Whatever the messages hold and whatever fails, the agent's consumer commits the offsets of the
  -- messages that it polls in their order and without a gap: all of them if `run` returns, and the
  -- first of them if it raises.
  pub agent_run-IsProgress :
      (rounds : List (Bool × Poll)) (w : World)
      → let r = run env llm config rounds w in IsProgress w.commits (offsets rounds) r.0 r.1.commits
  unfolding run
  agent_run-IsProgress [] w = finished w.commits (sym (append_nil w.commits))
  agent_run-IsProgress ((true, poll) ∷ rounds) w = finished w.commits (sym (append_nil w.commits))
  agent_run-IsProgress ((false, nothing) ∷ rounds) w = agent_run-IsProgress rounds w
  agent_run-IsProgress ((false, broken) ∷ rounds) w = agent_run-IsProgress rounds w
  agent_run-IsProgress ((false, message offset value) ∷ rounds) w =
      let (r, w1) = consume_one env llm config offset value w in
      after-IsProgress w.commits (offset ∷ []) (offsets rounds) (run env llm config rounds) r w1
        w1.commits refl (consume_one-IsProgress offset value w) (agent_run-IsProgress rounds w1)
