-- ===== src/Status.antt =====
-- The values of `reimbursement.status` (the CHECK of migrations/0001.create-reimbursement.sql, and
-- `ALL_STATUSES` of api/metrics.py) and `DecisionStatus` of shared/models.py.
use reimbursement_analyzer.Prelude.{String, Bool, List, [], ◌∷◌, str_eq, any}

pub data Status : Type 0 where
  pending human_review auto_approved auto_rejected human_approved human_rejected : Status

-- The text of the column.
abbrev pub value : Status → String
value pending = "pending"
value human_review = "human-review"
value auto_approved = "auto-approved"
value auto_rejected = "auto-rejected"
value human_approved = "human-approved"
value human_rejected = "human-rejected"

abbrev pub all_statuses : List Status
all_statuses =
    pending ∷ human_review ∷ auto_approved ∷ auto_rejected ∷ human_approved ∷ human_rejected ∷ []

-- `status = ANY(statuses)`
abbrev pub any_of : List String → Status → Bool
any_of statuses s = any (λ v. str_eq v (value s)) statuses

-- The outcomes that the agent may write.
pub data DecisionStatus : Type 0 where
  approve reject review : DecisionStatus

abbrev pub to_status : DecisionStatus → Status
to_status approve = auto_approved
to_status reject = auto_rejected
to_status review = human_review
