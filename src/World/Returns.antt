-- ===== src/World/Returns.antt =====
-- Actions that never raise, one rule for each way to build an action.
use reimbursement_analyzer.Prelude.{
  String, ◌≡◌, refl, Bool, true, false, Option, List, if◌then◌else◌,
}
use reimbursement_analyzer.Json.{Json}
use reimbursement_analyzer.Errors.{Exc}
use reimbursement_analyzer.World.{
  World, Result, ok, raised, Action, pure, gets, modify, try, count, log, with_correlation_id,
  ◌>>=◌,
}

pub record Returns {ℓ} {A : Type ℓ} (m : Action A) : Type ℓ where
  pub at : (w : World) → (a : A) × ((m w).0 ≡ ok a)

module _ {ℓ} {A : Type ℓ} where
  pub Returns-pure : (a : A) → Returns (pure a)
  Returns-pure a = record { at = λ w. (a, refl) }

  pub Returns-gets : (f : World → A) → Returns (gets f)
  Returns-gets f = record { at = λ w. (f w, refl) }

  pub Returns-if :
      (b : Bool) (m n : Action A) → Returns m → Returns n → Returns (if b then m else n)
  Returns-if true m n hm hn = hm
  Returns-if false m n hm hn = hn

  pub Returns-with_correlation_id :
      (id : Option String) (m : Action A) → Returns m → Returns (with_correlation_id id m)
  unfolding with_correlation_id
  Returns-with_correlation_id id m h = record { at = λ w. h.at (record w { correlation_id = id }) }

pub Returns-modify : (f : World → World) → Returns (modify f)
Returns-modify f = record { at = λ w. (tt, refl) }

pub Returns-count : (metric : String) (labels : List String) → Returns (count metric labels)
Returns-count metric labels = record { at = λ w. (tt, refl) }

pub Returns-log : (j : Json) → Returns (log j)
Returns-log j = record { at = λ w. (tt, refl) }

module _ {ℓ κ} {A : Type ℓ} {B : Type κ} where
  pub Returns-bind :
      (m : Action A) (f : A → Action B) → Returns m → ((a : A) → Returns (f a)) → Returns (m >>= f)
  Returns-bind m f hm hf = record {
    at = λ w. let (a, e) = hm.at w in let (b, d) = (hf a).at (m w).1 in (b, rw (e, ◌>>=◌) d);
  }

  settled :
      (h : Exc → Action B) (f : A → Action B)
      → ((e : Exc) → Returns (h e))
      → ((a : A) → Returns (f a))
      → (r : Result A) (w : World) → (b : B) × ((try (λ _. (r, w)) h f w).0 ≡ ok b)
  settled h f hh hf (ok a) w = (hf a).at w
  settled h f hh hf (raised e) w = (hh e).at w

  -- A handler that returns makes up for anything that the body raises.
  pub Returns-try :
      (m : Action A) (h : Exc → Action B) (f : A → Action B)
      → ((e : Exc) → Returns (h e))
      → ((a : A) → Returns (f a))
      → Returns (try m h f)
  Returns-try m h f hh hf = record { at = λ w. settled h f hh hf (m w).0 (m w).1 }

pub ruleset returns_rules = (
  Returns-pure, Returns-gets, Returns-if, Returns-with_correlation_id, Returns-modify,
  Returns-count, Returns-log, Returns-bind, Returns-try,
)
