-- ===== src/Api/Middleware/Headers.antt =====
-- The correlation ids that are chosen, and a response's headers as the next request's.
use mathlib.Core.List.{append-nil}
use reimbursement_analyzer.Prelude
use reimbursement_analyzer.Prelude.{
  ℕ, zero, suc, ◌≤◌, String, ◌≡◌, refl, ap, Bool, true, false, List, [], ◌∷◌, ◌++◌, inl, inr,
  Bool-cases, arith, str_eq, eq_iff, if◌then◌else◌,
}
use reimbursement_analyzer.Prelude.Text.Laws.{take_all}
use reimbursement_analyzer.Api.Middleware.{
  HeaderList, lower_is, header_name, max_correlation_id_length, is_line_break, usable_or,
  extract_or_generate_correlation_id, without_id, stamped,
}

-- One to 128 characters, none of which breaks the line.
pub record IsId (id : String) : Type 0 where
  pub nonempty : str_eq id "" ≡ false
  pub short : Prelude.Text.length id ≤ max_correlation_id_length
  pub one_line : Prelude.Text.any_code is_line_break id ≡ false

take-nonempty :
    (n : ℕ) (s : String) → str_eq s "" ≡ false → str_eq (Prelude.Text.take (suc n) s) "" ≡ false
unfolding Prelude.Text.take
take-nonempty n String.[] h = h
take-nonempty n (String.◌∷◌ c s) h =
    let t = String.◌∷◌ c (Prelude.Text.take n s) in
    elim (Bool-cases (str_eq t "")) [
      | inr full ↦ full
      | inl empty ↦ let bad : t ≡ "" = (eq_iff t "").0 empty in cc
    ]

usable_or-IsId : (fresh value : String) → IsId fresh → IsId (usable_or fresh value)
unfolding usable_or
usable_or-IsId fresh value h = elim (Bool-cases (str_eq value "")) [
  | inl empty ↦ rw (empty, usable_or) h
  | inr full ↦
      let id = Prelude.Text.take max_correlation_id_length value in
      elim (Bool-cases (Prelude.Text.any_code is_line_break id)) [
        | inl broken ↦ rw (full, usable_or) (rw broken h)
        | inr whole ↦
            rw (full, usable_or)
              (rw whole (record {
                nonempty = take-nonempty 127 value full;
                short = Prelude.Text.length-take_le max_correlation_id_length value;
                one_line = whole;
              }))
      ]
]

extract-IsId :
    (fresh : String) (headers : HeaderList)
    → IsId fresh
    → IsId (extract_or_generate_correlation_id fresh headers)
unfolding extract_or_generate_correlation_id
extract-IsId fresh [] h = h
extract-IsId fresh ((name, value) ∷ headers) h = elim (Bool-cases (lower_is name header_name)) [
  | inl ours ↦ rw (ours, extract_or_generate_correlation_id) (usable_or-IsId fresh value h)
  | inr other ↦ rw (other, extract_or_generate_correlation_id) (extract-IsId fresh headers h)
]

-- The values of the header, in order.
unfoldable pub ids_of : HeaderList → List String
ids_of [] = []
ids_of ((name, value) ∷ headers) =
    let rest = ids_of headers in if lower_is name header_name then value ∷ rest else rest

ids-without : (headers rest : HeaderList) → ids_of (without_id headers ++ rest) ≡ ids_of rest
unfolding ids_of without_id
ids-without [] rest = refl
ids-without ((name, value) ∷ headers) rest = elim (Bool-cases (lower_is name header_name)) [
  | inl ours ↦ rw (ours, without_id) (ids-without headers rest)
  | inr other ↦ rw (other, without_id) (rw (other, ids_of) (ids-without headers rest))
]

without-without :
    (headers rest : HeaderList)
    → without_id (without_id headers ++ rest) ≡ without_id headers ++ without_id rest
unfolding without_id
without-without [] rest = refl
without-without ((name, value) ∷ headers) rest = elim (Bool-cases (lower_is name header_name)) [
  | inl ours ↦ rw (ours, without_id) (without-without headers rest)
  | inr other ↦
      rw (other, without_id)
        (rw (other, without_id) (ap (◌∷◌ (name, value)) (without-without headers rest)))
]

extract-without :
    (fresh : String) (headers rest : HeaderList)
    → extract_or_generate_correlation_id fresh (without_id headers ++ rest)
      ≡ extract_or_generate_correlation_id fresh rest
unfolding extract_or_generate_correlation_id without_id
extract-without fresh [] rest = refl
extract-without fresh ((name, value) ∷ headers) rest =
    elim (Bool-cases (lower_is name header_name)) [
      | inl ours ↦ rw (ours, without_id) (extract-without fresh headers rest)
      | inr other ↦
          rw (other, without_id)
            (rw (other, extract_or_generate_correlation_id) (extract-without fresh headers rest))
    ]

usable_or-id : (fresh id : String) → IsId id → usable_or fresh id ≡ id
unfolding usable_or
usable_or-id fresh id h =
    let whole = take_all max_correlation_id_length id h.short in
    rw (h.nonempty, whole, h.one_line) refl

-- The id of a request comes back: the id that is chosen has 1 to 128 characters and no line break,
-- given that a new one has; the response carries it in exactly one x-request-id header, beside its
-- other headers as they were; and a request with these headers is given the same id.
pub extract-stamped :
    (fresh other_fresh : String) (headers response : HeaderList)
    → IsId fresh
    → let id = extract_or_generate_correlation_id fresh headers in
      IsId id
      × (ids_of (stamped id response) ≡ id ∷ [])
      × (without_id (stamped id response) ≡ without_id response)
      × (extract_or_generate_correlation_id other_fresh (stamped id response) ≡ id)
unfolding stamped extract_or_generate_correlation_id
extract-stamped fresh other_fresh headers response h =
    let id = extract_or_generate_correlation_id fresh headers in
    let good = extract-IsId fresh headers h in
    (
      good,
      rw (ids-without response) (unfold ids_of lower_is in refl),
      rw (without-without response) (append-nil (without_id response)),
      rw (extract-without other_fresh response) (usable_or-id other_fresh id good),
    )
