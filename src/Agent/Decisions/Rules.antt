-- ===== src/Agent/Decisions/Rules.antt =====
-- How a decision follows from a day and the fields that were extracted.
use reimbursement_analyzer.Prelude.{
  ℕ, ◌+◌, ◌-◌, ◌≤◌, ◌<◌, ltb, arith, Bool-cases, ◌++◌, String, ◌≡◌, refl, true, false, Option, none,
  some, List, ◌∷◌, ◌⊎◌, inl, inr,
}
use reimbursement_analyzer.Decimal.{Decimal, at_most, exceeds}
use reimbursement_analyzer.Status.{DecisionStatus, reject, approve, review}
use reimbursement_analyzer.Agent.State.{ExtractedFields, decision, Llm}
use reimbursement_analyzer.Agent.Nodes.{
  PolicyRule, stale_receipt_reject, low_value_auto_approve, high_value_human_review, missing_if,
  rule_for, rule_status,
}

-- How a decision is reached on a day from the fields that were extracted: a field is missing and a
-- person decides; or the receipt is more than 90 days old; or the value is at most 200; or it is
-- over 2000; or none of these holds and the second model judges.
pub data IsExplained (today : ℕ) (llm : Llm) (prompt : String) (x : ExtractedFields)
    (d : DecisionStatus) : Type 0 where
  missing_field :
      (x.value ≡ none) ⊎ (x.receipts_date ≡ none) → d ≡ review → IsExplained today llm prompt x d
  too_old :
      (date : ℕ)
      → x.receipts_date ≡ some date
      → date + 90 < today
      → d ≡ reject
      → IsExplained today llm prompt x d
  small :
      (date : ℕ) (value : Decimal)
      → x.receipts_date ≡ some date
      → x.value ≡ some value
      → today ≤ date + 90
      → at_most value 200 ≡ true
      → d ≡ approve
      → IsExplained today llm prompt x d
  large :
      (date : ℕ) (value : Decimal)
      → x.receipts_date ≡ some date
      → x.value ≡ some value
      → today ≤ date + 90
      → at_most value 200 ≡ false
      → exceeds value 2000 ≡ true
      → d ≡ review
      → IsExplained today llm prompt x d
  judged :
      (date : ℕ) (value : Decimal) (time : ℕ)
      → x.receipts_date ≡ some date
      → x.value ≡ some value
      → today ≤ date + 90
      → at_most value 200 ≡ false
      → exceeds value 2000 ≡ false
      → d ≡ decision (llm.judge prompt time).status
      → IsExplained today llm prompt x d

-- The tests that a rule, or none, has behind it.
abbrev pub Why : ℕ → ℕ → Decimal → Option PolicyRule → Type 0
Why today date value (some stale_receipt_reject) = date + 90 < today
Why today date value (some low_value_auto_approve) =
    (today ≤ date + 90) × (at_most value 200 ≡ true)
Why today date value (some high_value_human_review) =
    (today ≤ date + 90) × (at_most value 200 ≡ false) × (exceeds value 2000 ≡ true)
Why today date value none =
    (today ≤ date + 90) × (at_most value 200 ≡ false) × (exceeds value 2000 ≡ false)

pub why : (today date : ℕ) (value : Decimal) → Why today date value (rule_for today date value)
why today date value = elim (Bool-cases (ltb 90 (today - date))) [
  | inl old ↦ rw old (ground arith)
  | inr fresh ↦
      let le : today ≤ date + 90 = ground arith in
      elim (Bool-cases (at_most value 200)) [
        | inl low ↦ rw fresh (rw low (le, low))
        | inr over ↦ elim (Bool-cases (exceeds value 2000)) [
          | inl high ↦ rw fresh (rw over (rw high (le, over, high)))
          | inr within ↦ rw fresh (rw over (rw within (le, over, within)))
        ]
      ]
]

pub missing_why :
    (x : ExtractedFields) (v : Option Decimal) (d : Option ℕ) (m : String) (ms : List String)
    → x.value ≡ v
    → x.receipts_date ≡ d
    → missing_if "value" v ++ missing_if "receipts_date" d ≡ m ∷ ms
    → (x.value ≡ none) ⊎ (x.receipts_date ≡ none)
missing_why x none d m ms a b e = inl a
missing_why x (some v) none m ms a b e = inr b
missing_why x (some v) (some d) m ms a b e = cc

module _ (today : ℕ) (llm : Llm) (prompt : String) (x : ExtractedFields) where
  pub by_rule :
      (date : ℕ) (value : Decimal) (rule : PolicyRule)
      → x.receipts_date ≡ some date
      → x.value ≡ some value
      → Why today date value (some rule)
      → IsExplained today llm prompt x (rule_status rule)
  by_rule date value stale_receipt_reject d v h = too_old date d h refl
  by_rule date value low_value_auto_approve d v (le, low) = small date value d v le low refl
  by_rule date value high_value_human_review d v (le, over, high) =
      large date value d v le over high refl
