-- ===== src/FailureLog.antt =====
-- packages/shared/src/shared/failure_log.py: the last resort, which truncates what it writes.
pub mod Bounds
use reimbursement_analyzer.Prelude
use reimbursement_analyzer.Prelude.{
  ℕ, zero, suc, String, ◌≡◌, refl, Option, none, some, List, [], ◌∷◌, ◌++◌, map, ltb, if◌then◌else◌,
}
use reimbursement_analyzer.Json.{
  Json, null, bool, number, int, str, arr, obj, Items, nil, cons, Fields, end, field, get, set,
  dict, items,
}
use reimbursement_analyzer.Models.{AttemptError, stage_name}
use reimbursement_analyzer.Env.{Env}
use reimbursement_analyzer.World.Keeps.{Keeps, IsFramed, Keeps-interact, Keeps-try, Keeps-pure}
use reimbursement_analyzer.World.{World, Action, modify, interact, try, pure}

abbrev pub max_depth : ℕ
max_depth = 10

abbrev pub too_deep : String
too_deep = "<max depth exceeded>"

-- A value that holds no other value.
abbrev cut : ℕ → Json → Json
cut limit (str s) = str (Prelude.Text.take limit s)
cut limit j = j

abbrev cut_if_room : ℕ → Json → ℕ → Json
cut_if_room limit j zero = str too_deep
cut_if_room limit j (suc room) = cut limit j

-- `_truncated`. `room` counts the levels that are left: the source's depth is max_depth + 1 - room.
-- The dict comprehension assigns keys in order, so two keys that are cut to one text collide.
unfoldable mutual
  unfolding Prelude.Text.take set

  pub truncated : ℕ → Json → ℕ → Json
  truncated limit null room = cut_if_room limit null room
  truncated limit (bool b) room = cut_if_room limit (bool b) room
  truncated limit (number n) room = cut_if_room limit (number n) room
  truncated limit (int n) room = cut_if_room limit (int n) room
  truncated limit (str s) room = cut_if_room limit (str s) room
  truncated limit (arr xs) zero = str too_deep
  truncated limit (arr xs) (suc room) = arr (truncated_items limit xs room)
  truncated limit (obj fs) zero = str too_deep
  truncated limit (obj fs) (suc room) = obj (truncated_fields limit fs room end)

  pub truncated_items : ℕ → Items → ℕ → Items
  truncated_items limit nil room = nil
  truncated_items limit (cons x xs) room =
      cons (truncated limit x room) (truncated_items limit xs room)

  pub truncated_fields : ℕ → Fields → ℕ → Fields → Fields
  truncated_fields limit end room done = done
  truncated_fields limit (field k v fs) room done =
      truncated_fields limit fs room (set (Prelude.Text.take limit k) (truncated limit v room) done)

-- `json.dumps(_truncated(record, config.max_message_chars))`, from depth 0
unfoldable pub cut_record : ℕ → Fields → Json
unfolding truncated
cut_record limit record_ = truncated limit (obj record_) (suc max_depth)

emit : Json → Action (Unit {0})
emit j = interact (modify (λ w. record w { failures = w.failures ++ j ∷ [] }))

emit_fallback : Option Json → Action (Unit {0})
emit_fallback event =
    modify
      (λ w. record w { fallbacks = w.fallbacks ++ elim event [ none ↦ null | some j ↦ j ] ∷ [] })

-- `write`: never raises. The event is the handler's own failure, if it fails.
unfoldable pub write : ℕ → Fields → Action (Unit {0})
unfolding emit emit_fallback
write limit record_ =
    try (emit (cut_record limit record_)) (λ _. emit_fallback (get "event" record_)) (λ _. pure tt)

-- `AttemptError.model_dump(mode="json")`
abbrev pub dump_error : Env → AttemptError → Json
dump_error env e = obj (
    dict (
      ("attempt", int e.attempt)
      ∷ ("occurred_at", str (env.isoformat e.occurred_at))
      ∷ ("stage", str (stage_name e.stage))
      ∷ ("error_type", str e.error_type)
      ∷ ("message", str e.message)
      ∷ []))

-- `render_errors`
abbrev pub render_errors : Env → List AttemptError → Json
render_errors env errors = arr (items (map (dump_error env) errors))

-- An invariant of the database and the topics does not see the failure log.
module _ {P : World → Type 0} (framed : IsFramed P) where
  Keeps-emit : (j : Json) → Keeps P (emit j)
  unfolding emit
  Keeps-emit j =
      Keeps-interact framed _ (record { at = λ w h. framed.same w _ refl refl refl refl h })

  Keeps-emit_fallback : (event : Option Json) → Keeps P (emit_fallback event)
  unfolding emit_fallback
  Keeps-emit_fallback event = record { at = λ w h. framed.same w _ refl refl refl refl h }

  pub Keeps-write : (limit : ℕ) (record_ : Fields) → Keeps P (write limit record_)
  unfolding write
  Keeps-write limit record_ = search (Keeps-try, Keeps-emit, Keeps-emit_fallback, Keeps-pure)
