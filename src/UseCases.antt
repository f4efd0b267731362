-- ===== src/UseCases.antt =====
-- packages/shared/src/shared/reimbursement/use_cases
pub mod SendHumanReview
pub mod ApplyDecision
pub mod PublishPending
pub mod ReviewReimbursement
pub mod ListReimbursements
pub mod GetReimbursement
