-- ===== src/Api/Middleware.antt =====
-- api/middleware.py: the correlation id of a request, and its metrics. A byte string is a `String`
-- with one character for each byte, so that latin-1 decoding changes nothing.
pub mod Headers
pub mod Served
use reimbursement_analyzer.Prelude
use reimbursement_analyzer.Prelude.{
  ℕ, ◌+◌, String, Bool, true, false, not, ◌&&◌, ◌||◌, Option, none, some, List, [], ◌∷◌, ◌++◌, map,
  leb, ◌==◌, any, str_eq, if◌then◌else◌,
}
use Prim.Native.Char.{code}
use reimbursement_analyzer.World.{World, Result}

abbrev pub HeaderList : Type 0
HeaderList = List (String × String)

-- `c.lower()` of a byte
abbrev lower_code : ℕ → ℕ
lower_code c = if leb b'A' c && leb c b'Z' then c + 32 else c

-- `name.lower() == target`
unfoldable pub lower_is : String → String → Bool
lower_is String.[] String.[] = true
lower_is (String.◌∷◌ c name) (String.◌∷◌ d target) =
    lower_code (code c) == code d && lower_is name target
lower_is _ _ = false

abbrev pub header_name : String
header_name = "x-request-id"

abbrev pub max_correlation_id_length : ℕ
max_correlation_id_length = 128

abbrev pub is_line_break : ℕ → Bool
is_line_break c = c == 13 || c == 10

-- What becomes of the value of the first such header; `fresh` is a new `str(uuid.uuid7())`.
unfoldable pub usable_or : String → String → String
usable_or fresh value =
    if str_eq value ""
    then fresh
    else if Prelude.Text.any_code is_line_break (Prelude.Text.take max_correlation_id_length value)
    then fresh
    else Prelude.Text.take max_correlation_id_length value

-- `_extract_or_generate_correlation_id`
unfoldable pub extract_or_generate_correlation_id : String → HeaderList → String
unfolding lower_is usable_or
extract_or_generate_correlation_id fresh [] = fresh
extract_or_generate_correlation_id fresh ((name, value) ∷ headers) =
    let rest = extract_or_generate_correlation_id fresh headers in
    if lower_is name header_name then usable_or fresh value else rest

unfoldable pub without_id : HeaderList → HeaderList
unfolding lower_is
without_id [] = []
without_id ((name, value) ∷ headers) =
    let rest = without_id headers in
    if lower_is name header_name then rest else (name, value) ∷ rest

-- The list comprehension, and the append.
unfoldable pub stamped : String → HeaderList → HeaderList
unfolding without_id
stamped id headers = without_id headers ++ (header_name, id) ∷ []

-- A message that the application sends: the start of the response, with its headers if the message
-- has any, or another one.
pub data Message : Type 0 where
  start : ℕ → Option HeaderList → Message
  other : String → Message

-- `send_wrapper` of the correlation id
unfoldable pub stamp : String → Message → Message
unfolding stamped
stamp id (start status none) = start status (some (stamped id []))
stamp id (start status (some headers)) = start status (some (stamped id headers))
stamp id (other m) = other m

-- A run of an application: the messages that it sends, the route that the router has put into the
-- scope, and how it ends.
pub record Run : Type 0 where
  pub sent : List Message
  pub route : Option String
  pub result : Result (Unit {0})

pub record Scope : Type 0 where
  pub type : String
  pub method : String
  pub headers : HeaderList

abbrev pub App : Type 0
App = Scope → World → Run × World

abbrev sent_through : (Message → Message) → Run × World → Run × World
sent_through f (r, w) = (record r { sent = map f r.sent }, w)

abbrev with_id : Option String → (World → Run × World) → World → Run × World
with_id id m w =
    let (r, w') = m (record w { correlation_id = id }) in
    (r, record w' { correlation_id = w.correlation_id })

-- `CorrelationIdMiddleware.__call__`
unfoldable pub correlation_id_middleware : String → App → App
unfolding extract_or_generate_correlation_id stamp
correlation_id_middleware fresh app scope w =
    if not (str_eq scope.type "http")
    then app scope w
    else (let id = extract_or_generate_correlation_id fresh scope.headers in
        sent_through (stamp id) (with_id (some id) (app scope) w))

abbrev pub unmatched_path_label : String
unmatched_path_label = "unmatched"

abbrev pub known_methods : List String
known_methods = "GET" ∷ "POST" ∷ "PUT" ∷ "DELETE" ∷ "PATCH" ∷ "HEAD" ∷ "OPTIONS" ∷ []

abbrev pub method_label : String → String
method_label m = if any (str_eq m) known_methods then m else unmatched_path_label

-- `status_holder` after the messages: the status of the last start, from `status` on.
unfoldable pub held_status : ℕ → List Message → ℕ
held_status status [] = status
held_status status (start s headers ∷ ms) = held_status s ms
held_status status (other m ∷ ms) = held_status status ms

abbrev pub path_label : Option String → String
path_label none = unmatched_path_label
path_label (some path) = path

-- The counter and the histogram of `finally`; the observed duration is not kept.
abbrev pub observed : String → Run × World → Run × World
observed method (r, w) = (
  r,
  record w {
    samples =
        w.samples
        ++ record {
          metric = "api_http_requests";
          labels =
              method_label method
              ∷ path_label r.route
              ∷ Prelude.Text.decimal (held_status 500 r.sent)
              ∷ [];
        }
          ∷ record {
            metric = "api_http_request_duration_seconds";
            labels = method_label method ∷ path_label r.route ∷ [];
          }
          ∷ [];
  },
)

-- `MetricsMiddleware.__call__`
unfoldable pub metrics_middleware : App → App
unfolding held_status
metrics_middleware app scope w =
    if not (str_eq scope.type "http") then app scope w else observed scope.method (app scope w)

-- The application of main.py: the middleware that is added last is the outermost.
unfoldable pub served : String → App → App
unfolding correlation_id_middleware metrics_middleware
served fresh app = metrics_middleware (correlation_id_middleware fresh app)
