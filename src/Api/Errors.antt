-- ===== src/Api/Errors.antt =====
-- api/errors.py: the response that each exception becomes.
pub mod Private
use reimbursement_analyzer.Prelude
use reimbursement_analyzer.Prelude.{ℕ, String, List, [], ◌∷◌}
use reimbursement_analyzer.Errors.{
  Exc, payload_too_large, batch_invalid, publish_failed, filter_invalid, review_invalid, not_found,
  not_eligible, uuid_mismatch,
}
use reimbursement_analyzer.Env.{Env}

-- What leaves a route: an exception of the code below it, FastAPI's RequestValidationError with
-- the `loc` and the `msg` of its first error, or Starlette's HTTPException.
pub data Failure : Type 0 where
  raised_by_route : Exc → Failure
  request_invalid : List String → String → Failure
  http_exception : ℕ → String → Failure

-- The body `{"msg": …}` with its status.
pub record MessageResponse : Type 0 where
  pub status_code : ℕ
  pub msg : String

-- `str(exc)`
abbrev pub text : Env → Exc → String
text env (payload_too_large m) = m
text env (batch_invalid m) = m
text env (publish_failed m) = m
text env (filter_invalid m) = m
text env (review_invalid m) = m
text env e = env.message e

abbrev msg_response : ℕ → String → MessageResponse
msg_response status_code msg = record { status_code = status_code; msg = msg }

-- The handler that `register_handlers` gives each exception of shared/errors.py; any other one is
-- unhandled.
handle_raised : Env → Exc → MessageResponse
handle_raised env (payload_too_large m) = msg_response 413 m
handle_raised env (batch_invalid m) = msg_response 400 m
handle_raised env (publish_failed m) = msg_response 500 "failed to publish request"
handle_raised env (filter_invalid m) = msg_response 400 m
handle_raised env (review_invalid m) = msg_response 422 m
handle_raised env not_found = msg_response 404 (text env not_found)
handle_raised env not_eligible = msg_response 400 (text env not_eligible)
handle_raised env uuid_mismatch = msg_response 400 (text env uuid_mismatch)
handle_raised env _ = msg_response 500 "internal error"

unfoldable pub handle : Env → Failure → MessageResponse
unfolding handle_raised
handle env (raised_by_route e) = handle_raised env e
handle env (request_invalid loc msg) =
    msg_response 400 (Prelude.Text.concat (Prelude.Text.join "." loc ∷ ": " ∷ msg ∷ []))
handle env (http_exception status_code detail) = msg_response status_code detail
