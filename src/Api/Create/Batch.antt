-- ===== src/Api/Create/Batch.antt =====
-- Which batches the API accepts, and which item it names when it refuses one.
use reimbursement_analyzer.Prelude
use reimbursement_analyzer.Prelude.{
  ℕ, zero, suc, ◌+◌, ◌≤◌, String, ◌≡◌, ◌≢◌, refl, sym, ap, ◌↔◌, ◌⊎◌, Bool, true, false, Option,
  none, some, List, [], ◌∷◌, length, ltb, inl, inr, Bool-cases, Option-cases, arith, if◌then◌else◌,
}
use reimbursement_analyzer.Json.{
  Json, null, bool, number, int, str, arr, obj, Items, nil, cons, Fields,
}
use reimbursement_analyzer.Errors.{Exc, batch_invalid}
use reimbursement_analyzer.Models.Request.{
  ReimbursementRequest, Validated, valid, invalid, model_validate,
}
use reimbursement_analyzer.Env.{Env}
use reimbursement_analyzer.Config.{max_batch_items}
use reimbursement_analyzer.World.{ok, raised}
use reimbursement_analyzer.Api.Create.{
  Checked, accepted, refused, first_loc, check_fields, check_items, items_length, batch_adapter,
  format_error, nonempty_batch, validate_batch,
}

Validated-cases :
    (v : Validated) → ((r : ReimbursementRequest) × (v ≡ valid r)) ⊎ ((e : Exc) × (v ≡ invalid e))
Validated-cases (valid r) = inl (r, refl)
Validated-cases (invalid e) = inr (e, refl)

module _ (env : Env) where
  -- The models of the items, one for each.
  abbrev pub AreModels : Items → List ReimbursementRequest → Type 0
  AreModels nil rs = rs ≡ []
  AreModels (cons j js) rs =
      (fields : Fields) × (r : ReimbursementRequest) × (rest : List ReimbursementRequest) × (j
        ≡ obj fields)
      × (model_validate env fields ≡ valid r)
      × (rs ≡ r ∷ rest)
      × AreModels js rest

  abbrev is_valid : Validated → Bool
  is_valid (valid r) = true
  is_valid (invalid e) = false

  abbrev pub is_valid_item : Json → Bool
  is_valid_item (obj fields) = is_valid (model_validate env fields)
  is_valid_item _ = false

  -- The item `k` is the first that does not validate.
  abbrev pub IsFirstBad : ℕ → Items → Type 0
  IsFirstBad k nil = ⊥
  IsFirstBad zero (cons j js) = is_valid_item j ≡ false
  IsFirstBad (suc k) (cons j js) = (is_valid_item j ≡ true) × IsFirstBad k js

  -- How a check from the index `i` on ends.
  abbrev Ends : ℕ → Items → Checked → Type 0
  Ends i js (accepted rs) = AreModels js rs
  Ends i js (refused loc) =
      (k : ℕ) × (parts : List String) × IsFirstBad k js
      × (loc ≡ Prelude.Text.decimal (i + k) ∷ parts)

  refused_here :
      (i : ℕ) (j : Json) (js : Items) (parts : List String)
      → is_valid_item j ≡ false
      → Ends i (cons j js) (refused (Prelude.Text.decimal i ∷ parts))
  refused_here i j js parts h = (0, parts, h, let e : i + 0 ≡ i = omega arith in rw e refl)

  fields-Ends :
      (i : ℕ) (fields : Fields) (r : ReimbursementRequest) (js : Items) (rest : Checked)
      → model_validate env fields ≡ valid r
      → Ends (suc i) js rest
      → Ends i (cons (obj fields) js) (check_fields i (valid r) rest)
  fields-Ends i fields r js (accepted rs) v h = (fields, r, rs, refl, v, refl, h)
  fields-Ends i fields r js (refused loc) v (k, parts, bad, e) =
      let n : i + suc k ≡ suc i + k = omega arith in (suc k, parts, (rw v refl, bad), rw n e)

  check_items-Ends : (i : ℕ) (js : Items) → Ends i js (check_items env i js)
  unfolding check_items
  check_items-Ends i nil = refl
  check_items-Ends i (cons null js) = refused_here i null js [] refl
  check_items-Ends i (cons (bool b) js) = refused_here i (bool b) js [] refl
  check_items-Ends i (cons (number s) js) = refused_here i (number s) js [] refl
  check_items-Ends i (cons (int n) js) = refused_here i (int n) js [] refl
  check_items-Ends i (cons (str s) js) = refused_here i (str s) js [] refl
  check_items-Ends i (cons (arr ks) js) = refused_here i (arr ks) js [] refl
  check_items-Ends i (cons (obj fields) js) = elim (Validated-cases (model_validate env fields)) [
    | inl (r, v) ↦
        rw v
          (fields-Ends i fields r js (check_items env (suc i) js) v (check_items-Ends (suc i) js))
    | inr (e, v) ↦ rw v (refused_here i (obj fields) js (first_loc e) (rw v refl))
  ]

  models-accepted :
      (i : ℕ) (js : Items) (rs : List ReimbursementRequest)
      → AreModels js rs
      → check_items env i js ≡ accepted rs
  unfolding check_items
  models-accepted i nil rs h = rw h refl
  models-accepted i (cons j js) rs (fields, r, rest, e, v, c, h) =
      rw (e, c) (rw (v, models-accepted (suc i) js rest h) refl)

  models-length :
      (js : Items) (rs : List ReimbursementRequest) → AreModels js rs → items_length js ≡ length rs
  models-length nil rs h = rw h refl
  models-length (cons j js) rs (fields, r, rest, e, v, c, h) =
      rw c (ap suc (models-length js rest h))

  -- How the adapter ends on a list of items.
  Found : Items → Checked → Type 0
  Found js c = (c ≡ refused []) ⊎ (Ends 0 js c × (items_length js ≤ max_batch_items))

  adapter-Found : (js : Items) → Found js (batch_adapter env (some (arr js)))
  unfolding batch_adapter Found
  adapter-Found js = elim (Bool-cases (ltb max_batch_items (items_length js))) [
    | inl over ↦ rw (over, batch_adapter) (inl refl)
    | inr fits ↦ rw (fits, batch_adapter) (inr (check_items-Ends 0 js, ground arith))
  ]

  nonempty-ok :
      (msg : String) (js : Items) (c : Checked) (rs : List ReimbursementRequest)
      → Found js c
      → nonempty_batch msg c ≡ ok rs
      → AreModels js rs × (1 ≤ length rs) × (length rs ≤ max_batch_items)
  unfolding Found
  nonempty-ok msg js (refused loc) rs h e = cc
  nonempty-ok msg js (accepted []) rs h e = cc
  nonempty-ok msg js (accepted (r ∷ rest)) rs (inl d) e = cc
  nonempty-ok msg js (accepted (r ∷ rest)) rs (inr (models, le)) e =
      let d : rs ≡ r ∷ rest = cc in
      let n = models-length js (r ∷ rest) models in rw d (models, omega arith, omega arith)

  parsed-ok :
      (msg : String) (parsed : Option Json) (rs : List ReimbursementRequest)
      → nonempty_batch msg (batch_adapter env parsed) ≡ ok rs
      → (js : Items) × (parsed ≡ some (arr js))
        × AreModels js rs
        × (1 ≤ length rs)
        × (length rs ≤ max_batch_items)
  unfolding batch_adapter
  parsed-ok msg (some (arr js)) rs e =
      let (models, some_item, few) =
        nonempty-ok msg js (batch_adapter env (some (arr js))) rs (adapter-Found js) e in
      (js, refl, models, some_item, few)
  parsed-ok msg none rs e = cc
  parsed-ok msg (some null) rs e = cc
  parsed-ok msg (some (bool b)) rs e = cc
  parsed-ok msg (some (number s)) rs e = cc
  parsed-ok msg (some (int n)) rs e = cc
  parsed-ok msg (some (str s)) rs e = cc
  parsed-ok msg (some (obj fields)) rs e = cc

  adapter-accepted :
      (js : Items) (rs : List ReimbursementRequest)
      → AreModels js rs
      → length rs ≤ max_batch_items
      → batch_adapter env (some (arr js)) ≡ accepted rs
  unfolding batch_adapter
  adapter-accepted js rs h le =
      let n = models-length js rs h in
      let fits : ltb max_batch_items (items_length js) ≡ false = ground arith in
      rw fits (models-accepted 0 js rs h)

  nonempty-accepted :
      (msg : String) (rs : List ReimbursementRequest)
      → 1 ≤ length rs
      → nonempty_batch msg (accepted rs) ≡ ok rs
  nonempty-accepted msg [] le = absurd (omega arith)
  nonempty-accepted msg (r ∷ rs) le = refl

  -- A batch is accepted exactly when its body is a JSON array of 1 to 500 objects that each validate
  -- as a ReimbursementRequest, and what is returned are their models, in order.
  pub validate_batch_iff :
      (raw : String) (rs : List ReimbursementRequest)
      → (validate_batch env raw ≡ ok rs) ↔ (
          (js : Items) × (env.parse_json raw ≡ some (arr js))
          × AreModels js rs
          × (1 ≤ length rs)
          × (length rs ≤ max_batch_items))
  unfolding validate_batch
  validate_batch_iff raw rs = (
    parsed-ok (env.first_msg raw) (env.parse_json raw) rs,
    λ (js, e, models, some_item, few). rw e (
        rw (adapter-accepted js rs models few)
          (nonempty-accepted (env.first_msg raw) rs some_item)),
  )

  named :
      (msg : String) (js : Items) (c : Checked)
      → Ends 0 js c
      → 1 ≤ items_length js
      → ((rs : List ReimbursementRequest) × (nonempty_batch msg c ≡ ok rs))
        ⊎ ((k : ℕ) × (parts : List String) × IsFirstBad k js
            × (nonempty_batch msg c
                ≡ raised (batch_invalid (format_error (Prelude.Text.decimal k ∷ parts) msg))))
  named msg js (accepted (r ∷ rs)) h le = inl (r ∷ rs, refl)
  named msg js (accepted []) h le = let n = models-length js [] h in absurd (omega arith)
  named msg js (refused loc) (k, parts, bad, e) le =
      let n : 0 + k ≡ k = omega arith in
      let d : loc ≡ Prelude.Text.decimal k ∷ parts = rw n at e in inr (k, parts, bad, rw d refl)

  -- A refused array of 1 to 500 items is refused with BatchInvalid, whose message is made of the
  -- index of the first item that does not validate, a field's path and pydantic's message.
  pub validate_batch-IsFirstBad :
      (raw : String) (js : Items)
      → env.parse_json raw ≡ some (arr js)
      → 1 ≤ items_length js
      → items_length js ≤ max_batch_items
      → ((rs : List ReimbursementRequest) × (validate_batch env raw ≡ ok rs))
        ⊎ ((k : ℕ) × (parts : List String) × IsFirstBad k js
            × (validate_batch env raw
                ≡ raised (
                    batch_invalid
                      (format_error (Prelude.Text.decimal k ∷ parts) (env.first_msg raw)))))
  unfolding validate_batch batch_adapter
  validate_batch-IsFirstBad raw js e some_item few =
      let fits : ltb max_batch_items (items_length js) ≡ false = ground arith in
      rw e (
        rw (fits, batch_adapter)
          (named (env.first_msg raw) js (check_items env 0 js) (check_items-Ends 0 js) some_item))
