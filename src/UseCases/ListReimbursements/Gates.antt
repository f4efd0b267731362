-- ===== src/UseCases/ListReimbursements/Gates.antt =====
-- The gates of list_reimbursements.
use reimbursement_analyzer.Prelude.{
  ℕ, ℤ, pos, negsuc, ◌≤◌, String, ◌≡◌, refl, ◌⊎◌, inl, inr, true, false, Option, List, is_between,
  is_negative, magnitude, Bool-cases, arith,
}
use reimbursement_analyzer.Errors.{filter_invalid}
use reimbursement_analyzer.Config.{max_list_limit}
use reimbursement_analyzer.World.{World, raised}
use reimbursement_analyzer.Repository.Page.{fetch_reimbursement_page}
use reimbursement_analyzer.UseCases.ListReimbursements.{
  has_unknown, status_refused, limit_refused, offset_refused, list_reimbursements,
}

-- A filter of known statuses, a limit from 0 to 500, and an offset that is not negative.
pub record IsAccepted (statuses : Option (List String)) (limit offset : ℤ) : Type 0 where
  pub known : has_unknown statuses ≡ false
  pub limit_is : limit ≡ pos (magnitude limit)
  pub bounded : magnitude limit ≤ max_list_limit
  pub offset_is : offset ≡ pos (magnitude offset)

bounds_of : (n : ℕ) (z : ℤ) → is_between n z ≡ true → (z ≡ pos (magnitude z)) × (magnitude z ≤ n)
bounds_of n (pos k) h = (refl, ground arith)
bounds_of n (negsuc k) h = cc

between_of : (n : ℕ) (z : ℤ) → z ≡ pos (magnitude z) → magnitude z ≤ n → is_between n z ≡ true
between_of n (pos k) e h = ground arith
between_of n (negsuc k) e h = cc

sign_of : (z : ℤ) → is_negative z ≡ false → z ≡ pos (magnitude z)
sign_of (pos k) h = refl
sign_of (negsuc k) h = cc

sign_not : (z : ℤ) → is_negative z ≡ true → ¬ (z ≡ pos (magnitude z))
sign_not (pos k) h = cc
sign_not (negsuc k) h = λ e. cc

-- The gates decide: with known statuses (or no filter), a limit from 0 to 500 and an offset that
-- is not negative, list_reimbursements is the query of the page; with anything else it raises
-- ReimbursementFilterInvalid and leaves the state as it was, without a call of the database.
pub list_reimbursements-IsAccepted :
    (statuses : Option (List String)) (limit offset : ℤ) (w : World)
    → (IsAccepted statuses limit offset
        × (list_reimbursements statuses limit offset w
            ≡ fetch_reimbursement_page statuses (magnitude limit) (magnitude offset) w))
      ⊎ (¬ IsAccepted statuses limit offset
          × (m : String) × (list_reimbursements statuses limit offset w
              ≡ (raised (filter_invalid m), w)))
unfolding list_reimbursements
list_reimbursements-IsAccepted statuses limit offset w = elim (Bool-cases (has_unknown statuses)) [
  | inl unknown ↦
      inr (λ a. let k = a.known in cc, status_refused, rw (unknown, list_reimbursements) refl)
  | inr known ↦ elim (Bool-cases (is_between max_list_limit limit)) [
    | inr outside ↦ inr (
      λ a. let b = between_of max_list_limit limit a.limit_is a.bounded in cc,
      limit_refused,
      rw (known, list_reimbursements) (rw outside refl),
    )
    | inl inside ↦ elim (Bool-cases (is_negative offset)) [
      | inl below ↦ inr (
        λ a. sign_not offset below a.offset_is,
        offset_refused,
        rw (known, list_reimbursements) (rw inside (rw below refl)),
      )
      | inr above ↦
          let (e, le) = bounds_of max_list_limit limit inside in
          inl (
            record { known = known; limit_is = e; bounded = le; offset_is = sign_of offset above },
            rw (known, list_reimbursements) (rw inside (rw above refl)),
          )
    ]
  ]
]
