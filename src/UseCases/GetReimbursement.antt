-- ===== src/UseCases/GetReimbursement.antt =====
-- use_cases/get_reimbursement.py
pub mod Agreement
pub mod Reachable
use reimbursement_analyzer.Prelude.{ℕ, Bool, true, false, Option, none, some}
use reimbursement_analyzer.Errors.{Exc, not_found}
use reimbursement_analyzer.World.{Action, pure, raise, ◌>>=◌}
use reimbursement_analyzer.Repository.Page.{Enriched, fetch_reimbursement_by_uuid}

abbrev pub is_not_found : Exc → Bool
is_not_found not_found = true
is_not_found _ = false

unfoldable pub or_not_found : Option Enriched → Action Enriched
or_not_found none = raise not_found
or_not_found (some e) = pure e

unfoldable pub get_reimbursement : ℕ → Action Enriched
unfolding or_not_found
get_reimbursement uuid = do row ← fetch_reimbursement_by_uuid uuid; or_not_found row
