-- ===== src/Agent.antt =====
-- packages/reimbursement/src/reimbursement: the agent that decides.
pub mod Handled
pub mod Consumer
pub mod Decisions
pub mod Invariants
pub mod NeverRaises
pub mod Privacy
pub mod Prompts
pub mod State
pub mod Nodes
pub mod Graph
pub mod Validation
