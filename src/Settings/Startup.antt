-- ===== src/Settings/Startup.antt =====
-- What the settings are that the services start with.
use reimbursement_analyzer.Prelude.{
  ◌≤◌, pos, negsuc, ℤ, String, ◌≡◌, ◌≢◌, refl, ap, ◌∙◌, true, Option, none, some, Option-cases, inl,
  inr, Bool-cases, str_eq, eq_iff,
}
use mathlib.Core.Path.{subst}
use reimbursement_analyzer.Decimal.{Decimal}
use reimbursement_analyzer.Config.{Config}
use reimbursement_analyzer.World.{Result, ok, raised}
use reimbursement_analyzer.Settings.{
  Environ, getenv, AgentConfig, after, present, require_env, float_env, load_agent_config,
  start_agent, has_database,
}

-- Where a chain gives a value, its first step gave one, and the rest did with that.
after-ok {ℓ κ} :
    {A : Type ℓ} {B : Type κ} (r : Result A) (f : A → Result B) (b : B)
    → after r f ≡ ok b
    → (a : A) × (r ≡ ok a) × (f a ≡ ok b)
after-ok (ok a) f b e = (a, refl, e)
after-ok (raised x) f b e = cc

ok-inj {ℓ} : {A : Type ℓ} (a b : A) → ok a ≡ ok b → a ≡ b
ok-inj a b e = cc

-- A name that is required is set, and not to the empty text.
present-ok :
    (name : String) (o : Option String) (v : String)
    → present name o ≡ ok v
    → (o ≡ some v) × (v ≢ "")
unfolding present
present-ok name none v e = cc
present-ok name (some u) v e = elim (Bool-cases (str_eq u "")) [
  | inl empty ↦ let bad = rw empty at e in cc
  | inr full ↦
      let same : ok u ≡ ok v = rw full at e in
      let is : u ≡ v = cc in
      (ap (λ s. some s) is, λ h. let empty : str_eq u "" ≡ true = (eq_iff u "").1 (is ∙ h) in cc)
]

-- The order of the integers.
abbrev pub AtMost : ℤ → ℤ → Type 0
AtMost (pos m) (pos n) = m ≤ n
AtMost (pos m) (negsuc n) = ⊥
AtMost (negsuc m) (pos n) = Unit
AtMost (negsuc m) (negsuc n) = n ≤ m

module _ (int_of : String → Result ℤ) (float_of : String → Option Decimal)
    (repr : String → String) where
  -- An agent that has its settings has the key and the names of both models, none of them empty.
  pub load_agent_config-Required :
      (env : Environ) (a : AgentConfig)
      → load_agent_config int_of float_of repr env ≡ ok a
      → (env "GROQ_API_KEY" ≡ some a.ai.api_key)
        × (a.ai.api_key ≢ "")
        × (env "EXTRACT_FIELDS_MODEL_NAME" ≡ some a.models.extract_fields.model_name)
        × (a.models.extract_fields.model_name ≢ "")
        × (env "ANALYSIS_MODEL_NAME" ≡ some a.models.analysis.model_name)
        × (a.models.analysis.model_name ≢ "")
  unfolding load_agent_config require_env
  load_agent_config-Required env a e =
      let s1 = after-ok (require_env env "GROQ_API_KEY") _ a e in
      let s2 = after-ok (float_env int_of float_of repr env "AI_TIMEOUT_SECONDS" "30.0") _ a s1.2 in
      let s3 = after-ok (require_env env "EXTRACT_FIELDS_MODEL_NAME") _ a s2.2 in
      let s4 =
        after-ok (float_env int_of float_of repr env "EXTRACT_FIELDS_TEMPERATURE" "0.0") _ a s3.2 in
      let s5 = after-ok (require_env env "ANALYSIS_MODEL_NAME") _ a s4.2 in
      let s6 =
        after-ok (float_env int_of float_of repr env "ANALYSIS_TEMPERATURE" "0.0") _ a s5.2 in
      let s7 = after-ok (int_of (getenv env "METRICS_PORT" "9102")) _ a s6.2 in
      let same = ok-inj _ a s7.2 in
      let key = present-ok "GROQ_API_KEY" (env "GROQ_API_KEY") s1.0 s1.1 in
      let extract =
        present-ok "EXTRACT_FIELDS_MODEL_NAME" (env "EXTRACT_FIELDS_MODEL_NAME") s3.0 s3.1 in
      let analysis = present-ok "ANALYSIS_MODEL_NAME" (env "ANALYSIS_MODEL_NAME") s5.0 s5.1 in
      subst
        (λ b.
          (env "GROQ_API_KEY" ≡ some b.ai.api_key)
          × (b.ai.api_key ≢ "")
          × (env "EXTRACT_FIELDS_MODEL_NAME" ≡ some b.models.extract_fields.model_name)
          × (b.models.extract_fields.model_name ≢ "")
          × (env "ANALYSIS_MODEL_NAME" ≡ some b.models.analysis.model_name)
          × (b.models.analysis.model_name ≢ ""))
        same (key.0, key.1, extract.0, extract.1, analysis.0, analysis.1)

  -- What the agent runs with came out of the environment, which names its database.
  pub start_agent-safe :
      (env : Environ) (a : AgentConfig)
      → start_agent int_of float_of repr env ≡ ok a
      → (load_agent_config int_of float_of repr env ≡ ok a)
        × (dsn : String) × (env "DATABASE_URL" ≡ some dsn)
  unfolding start_agent has_database
  start_agent-safe env a e =
      let s = after-ok (load_agent_config int_of float_of repr env) _ a e in
      let t = after-ok (int_of (getenv env "DATABASE_POOL_MAX_SIZE" "20")) _ a s.2 in
      elim (Option-cases (env "DATABASE_URL")) [
        | inl missing ↦ let bad = rw missing at t.2 in cc
        | inr (dsn, is) ↦
            let same = ok-inj _ a (rw is at t.2) in (s.1 ∙ ap (λ b. ok b) same, dsn, is)
      ]
