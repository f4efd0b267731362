-- ===== src/Api/Middleware/Served.antt =====
-- What the two middleware classes make of a run of the application.
use reimbursement_analyzer.Prelude
use reimbursement_analyzer.Prelude.{
  ℕ, String, ◌≡◌, refl, Bool, true, false, not, ◌||◌, List, [], ◌∷◌, ◌++◌, map, any, none, some,
  inl, inr, Bool-cases, str_eq, if◌then◌else◌,
}
use reimbursement_analyzer.World.{World}
use reimbursement_analyzer.Api.Middleware.{
  extract_or_generate_correlation_id, Message, start, other, stamp, Run, Scope, App,
  unmatched_path_label, known_methods, method_label, held_status, path_label,
  correlation_id_middleware, metrics_middleware, served,
}

held-stamped :
    (id : String) (n : ℕ) (ms : List Message) → held_status n (map (stamp id) ms) ≡ held_status n ms
unfolding held_status stamp
held-stamped id n [] = refl
held-stamped id n (start s none ∷ ms) = held-stamped id s ms
held-stamped id n (start s (some headers) ∷ ms) = held-stamped id s ms
held-stamped id n (other m ∷ ms) = held-stamped id n ms

abbrev pub is_label : String → Bool
is_label m = any (str_eq m) (unmatched_path_label ∷ known_methods)

or_true : (a b : Bool) → b ≡ true → (a || b) ≡ true
or_true true b h = refl
or_true false b h = h

method_label-known : (m : String) → is_label (method_label m) ≡ true
method_label-known m = elim (Bool-cases (any (str_eq m) known_methods)) [
  | inr foreign ↦ rw foreign refl
  | inl known ↦
      rw known (or_true (str_eq m unmatched_path_label) (any (str_eq m) known_methods) known)
]

-- The run of the application that is served, with the request's id in the context.
abbrev pub inner : String → App → Scope → World → Run × World
inner fresh app scope w =
    app scope
      (record w { correlation_id = some (extract_or_generate_correlation_id fresh scope.headers) })

pub record IsServed (fresh : String) (app : App) (scope : Scope) (w : World) (p : Run × World)
    : Type 0 where
  pub sent :
      p.0.sent
      ≡ map
          (stamp (extract_or_generate_correlation_id fresh scope.headers))
          (inner fresh app scope w).0.sent
  pub result : p.0.result ≡ (inner fresh app scope w).0.result
  pub correlation_id : p.1.correlation_id ≡ w.correlation_id
  pub method : String
  pub is_label : is_label method ≡ true
  pub samples :
      p.1.samples
      ≡ (inner fresh app scope w).1.samples
        ++ record {
          metric = "api_http_requests";
          labels =
              method
              ∷ path_label (inner fresh app scope w).0.route
              ∷ Prelude.Text.decimal (held_status 500 (inner fresh app scope w).0.sent)
              ∷ [];
        }
          ∷ record {
            metric = "api_http_request_duration_seconds";
            labels = method ∷ path_label (inner fresh app scope w).0.route ∷ [];
          }
          ∷ []
  pub db : p.1.db ≡ (inner fresh app scope w).1.db

-- An HTTP request is served once, whatever the application does: it runs with the request's id in
-- the context, which is then restored; its messages go out in order, with the id stamped on each
-- response start; its result passes; and it is counted and timed once, under a method label that is
-- one of eight, the route's template or `unmatched`, and the status that was sent last or 500.
pub served-IsServed :
    (fresh : String) (app : App) (scope : Scope) (w : World)
    → str_eq scope.type "http" ≡ true
    → IsServed fresh app scope w (served fresh app scope w)
unfolding served correlation_id_middleware metrics_middleware
served-IsServed fresh app scope w http =
    let id = extract_or_generate_correlation_id fresh scope.headers in
    rw http (record {
      sent = refl;
      result = refl;
      correlation_id = refl;
      method = method_label scope.method;
      is_label = method_label-known scope.method;
      samples = rw (held-stamped id 500 (inner fresh app scope w).0.sent) refl;
      db = refl;
    })
