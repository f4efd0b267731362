-- ===== src/Api/Errors/Private.antt =====
-- What a client learns of an exception.
use reimbursement_analyzer.Prelude.{◌≡◌, ◌≤◌, ◌<◌, ◌⊎◌}
use reimbursement_analyzer.Errors.{Exc}
use reimbursement_analyzer.Env.{Env}
use reimbursement_analyzer.Api.Errors.{
  MessageResponse, Failure, raised_by_route, request_invalid, http_exception, text,
}

-- A fixed text with the status 500.
pub record IsOpaque (r : MessageResponse) : Type 0 where
  pub status : r.status_code ≡ 500
  pub msg : (r.msg ≡ "internal error") ⊎ (r.msg ≡ "failed to publish request")

-- The exception's own text, with a status from 400 to 499.
pub record IsExplained (env : Env) (e : Exc) (r : MessageResponse) : Type 0 where
  pub client : 400 ≤ r.status_code
  pub below : r.status_code < 500
  pub msg : r.msg ≡ text env e

-- What a response says where it is not opaque. FastAPI's own exceptions carry the text that is meant
-- for the client.
abbrev pub IsReported : Env → Failure → MessageResponse → Type 0
IsReported env (raised_by_route e) r = IsExplained env e r
IsReported env (request_invalid loc msg) r = r.status_code ≡ 400
IsReported env (http_exception status_code detail) r =
    (r.status_code ≡ status_code) × (r.msg ≡ detail)
