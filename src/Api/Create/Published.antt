-- ===== src/Api/Create/Published.antt =====
-- What creating a batch leaves behind, whatever happens.
use reimbursement_analyzer.Prelude.{
  String, ◌≡◌, Option-cases, refl, ◌⊎◌, inl, inr, List, [], ◌∷◌, ◌++◌, length,
}
use reimbursement_analyzer.Json.{Json, arr}
use reimbursement_analyzer.Errors.{Exc, batch_invalid, publish_failed}
use reimbursement_analyzer.Models.Request.{ReimbursementRequest}
use reimbursement_analyzer.Env.{Env, Loaded, loaded, not_json, load_failed}
use reimbursement_analyzer.World.{
  World, Fault, fine, before, after, Result, ok, raised, Result-cases, Action, pure, raise, modify,
  log, try, settle, interact, next_event, ◌>>=◌, ◌>>◌,
}
use reimbursement_analyzer.Producer
use reimbursement_analyzer.Producer.{request, deliver, failure_text}
use reimbursement_analyzer.Api.Errors.{MessageResponse}
use reimbursement_analyzer.Api.Payload.{Stream, read_capped}
use reimbursement_analyzer.Api.Create.{
  validate_batch, envelope_now, publish, loaded_ids, lenient_request_ids, reject_batch,
  batch_reason, created, accept_batch, create_body, create_reimbursement,
}

-- The tables and the topic of the reimbursements are as they were.
record IsAside (w w' : World) : Type 0 where
  pub db : w'.db ≡ w.db
  pub reimbursements : w'.reimbursements ≡ w.reimbursements

-- A run that raised and published nothing.
pub record IsRefused {A : Type 0} (w : World) (p : Result A × World) : Type 0 where
  pub exc : Exc
  pub result : p.0 ≡ raised exc
  pub requests : p.1.requests ≡ w.requests
  pub db : p.1.db ≡ w.db
  pub reimbursements : p.1.reimbursements ≡ w.reimbursements

-- A run that published one message, and then returned or raised PublishFailed.
pub record IsSent {A : Type 0} (w : World) (message : String) (a : A) (p : Result A × World)
    : Type 0 where
  pub requests : p.1.requests ≡ w.requests ++ message ∷ []
  pub db : p.1.db ≡ w.db
  pub reimbursements : p.1.reimbursements ≡ w.reimbursements
  pub result : (p.0 ≡ ok a) ⊎ ((m : String) × (p.0 ≡ raised (publish_failed m)))

abbrev Attempted : {A : Type 0} → World → String → A → Result A × World → Type 0
Attempted w message a p = IsRefused w p ⊎ IsSent w message a p

module _ (env : Env) where
  abbrev tried : String → Fault → Action (Unit {0})
  tried message f =
      try (settle f (modify (deliver request message)))
        (λ e. raise (publish_failed (failure_text env e))) (λ _. pure tt)

  tried-Attempted :
      (message : String) (f : Fault) (w : World) → Attempted w message tt (tried message f w)
  tried-Attempted message fine w =
      inr (record { requests = refl; db = refl; reimbursements = refl; result = inl refl })
  tried-Attempted message (before e) w =
      inl (record { exc = _; result = refl; requests = refl; db = refl; reimbursements = refl })
  tried-Attempted message (after e) w =
      inr (record { requests = refl; db = refl; reimbursements = refl; result = inr (_, refl) })

  publish-Attempted :
      (raw : String) (w : World) → Attempted w (envelope_now env raw w) tt (publish env raw w)
  unfolding publish Producer.publish interact next_event
  publish-Attempted raw w =
      elim (tried-Attempted (envelope_now env raw w) (next_event w).0 (next_event w).1) [
        | inl r ↦ inl (record {
          exc = r.exc;
          result = r.result;
          requests = r.requests;
          db = r.db;
          reimbursements = r.reimbursements;
        })
        | inr s ↦ inr (record {
          requests = s.requests;
          db = s.db;
          reimbursements = s.reimbursements;
          result = s.result;
        })
      ]

  -- A log line and a value after the publication.
  afterwards :
      {A : Type 0} (j : Json) (a : A) (w : World) (message : String) (p : Result (Unit {0}) × World)
      → Attempted w message tt p
      → Attempted w message a (((λ _. p) >>= λ _. (log j >> pure a)) w)
  afterwards j a w message (ok tt, v) (inl r) = let bad = r.result in cc
  afterwards j a w message (ok tt, v) (inr s) = inr (record {
    requests = s.requests;
    db = s.db;
    reimbursements = s.reimbursements;
    result = inl refl;
  })
  afterwards j a w message (raised e, v) (inl r) = inl (record {
    exc = e;
    result = refl;
    requests = r.requests;
    db = r.db;
    reimbursements = r.reimbursements;
  })
  afterwards j a w message (raised e, v) (inr s) = elim s.result [
    | inl bad ↦ cc
    | inr (m, d) ↦ inr (record {
      requests = s.requests;
      db = s.db;
      reimbursements = s.reimbursements;
      result = inr (m, let c : e ≡ publish_failed m = cc in rw c refl);
    })
  ]

  accept-Attempted :
      (raw : String) (batch : List ReimbursementRequest) (w : World)
      → Attempted w (envelope_now env raw w) (created (length batch)) (accept_batch env raw batch w)
  unfolding accept_batch
  accept-Attempted raw batch w =
      afterwards _ (created (length batch)) w (envelope_now env raw w) (publish env raw w)
        (publish-Attempted raw w)

  raised-IsRefused : {A : Type 0} (e : Exc) (w : World) → IsRefused {A = A} w (raised e, w)
  raised-IsRefused e w = record {
    exc = e;
    result = refl;
    requests = refl;
    db = refl;
    reimbursements = refl;
  }

  reject-IsRefused :
      {A : Type 0} (raw : String) (e : Exc) (w : World)
      → IsRefused {A = A} w (reject_batch env raw e w)
  unfolding reject_batch
  reject-IsRefused raw e w = elim (Option-cases (batch_reason e)) [
    | inl none_ ↦ rw (none_, reject_batch) (raised-IsRefused e w)
    | inr (m, b) ↦ elim (Result-cases (lenient_request_ids env raw)) [
      | inl (ids, l) ↦
          rw (b, reject_batch)
            (rw l (record {
              exc = e;
              result = refl;
              requests = refl;
              db = refl;
              reimbursements = refl;
            }))
      | inr (x, l) ↦ rw (b, reject_batch) (rw l (raised-IsRefused x w))
    ]
  ]

  -- The batch that a stream carries.
  pub record IsBatch (stream : Stream) (raw : String) (batch : List ReimbursementRequest)
      : Type 0 where
    pub read : read_capped stream ≡ ok raw
    pub validated : validate_batch env raw ≡ ok batch

  -- A request to create a batch either raises and publishes nothing, or its body is a batch that
  -- validates and exactly one message is published, the envelope around the body as it came: then
  -- the route answers with the number of requests, or raises PublishFailed if the broker's report
  -- was lost. It never touches the tables or the other topic.
  pub create_reimbursement-Outbox :
      (stream : Stream) (w : World)
      → IsRefused w (create_reimbursement env stream w)
        ⊎ ((raw : String) × (batch : List ReimbursementRequest) × IsBatch stream raw batch
            × IsSent w
                (envelope_now env raw w)
                (created (length batch))
                (create_reimbursement env stream w))
  unfolding create_reimbursement create_body
  create_reimbursement-Outbox stream w = elim (Result-cases (read_capped stream)) [
    | inr (e, r) ↦ inl (rw r (raised-IsRefused e w))
    | inl (raw, r) ↦ elim (Result-cases (validate_batch env raw)) [
      | inr (e, v) ↦ inl (rw r (rw v (reject-IsRefused raw e w)))
      | inl (batch, v) ↦ elim (accept-Attempted raw batch w) [
        | inl refused ↦ inl (rw r (rw v refused))
        | inr sent ↦ inr (raw, batch, record { read = r; validated = v }, rw r (rw v sent))
      ]
    ]
  ]

  -- What is raised for a body that does not validate: the exception of json.loads, if it raises
  -- another one than a JSONDecodeError, and then nothing else has happened; BatchInvalid otherwise.
  abbrev pub IsRejected : String → World → Loaded → Result MessageResponse × World → Type 0
  IsRejected m w (load_failed e) p = p ≡ (raised e, w)
  IsRejected m w _ p = p.0 ≡ raised (batch_invalid m)

  rejected :
      (raw m : String) (w : World) (l : Loaded)
      → env.loads_bytes raw ≡ l
      → IsRejected m w l (reject_batch env raw (batch_invalid m) w)
  unfolding reject_batch lenient_request_ids loaded_ids
  rejected raw m w not_json e = rw e refl
  rejected raw m w (load_failed x) e = rw e refl
  rejected raw m w (loaded (arr js)) e = rw e refl
  rejected raw m w (loaded _) e = rw e refl

  -- A body that is read but does not validate makes the route raise BatchInvalid, unless json.loads
  -- raises another exception than a JSONDecodeError on it, as it does for text that is not UTF-8:
  -- then the route raises that exception in its place, and the state, the log included, is as it
  -- was.
  pub create_reimbursement-invalid :
      (stream : Stream) (raw m : String) (w : World)
      → read_capped stream ≡ ok raw
      → validate_batch env raw ≡ raised (batch_invalid m)
      → IsRejected m w (env.loads_bytes raw) (create_reimbursement env stream w)
  unfolding create_reimbursement create_body
  create_reimbursement-invalid stream raw m w r v =
      rw r (rw v (rejected raw m w (env.loads_bytes raw) refl))
