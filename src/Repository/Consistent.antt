-- ===== src/Repository/Consistent.antt =====
-- The consistency of the two tables, which every statement of repository.py keeps: what the primary
-- key, the unique index, the CHECKs that do not read the clock, and the foreign key promise.
use reimbursement_analyzer.Prelude
use reimbursement_analyzer.Prelude.{
  ℕ, suc, ◌+◌, ◌≤◌, ◌<◌, String, ◌≡◌, refl, Bool, true, false, Option, none, some, List, [], ◌∷◌,
  ◌++◌, arith, str_eq, any, All, inl, inr, Bool-cases, All-append, eq_iff, ◌==◌, if◌then◌else◌,
}
use reimbursement_analyzer.Env.{Env}
use reimbursement_analyzer.Repository.Tables.{
  Row, Review, Db, is_currency, is_address, null_or, value_ok, violated, lowered, same_key,
  same_submission, find, replace, delete,
}

-- The CHECKs that hold for good.
pub record IsChecked (r : Row) : Type 0 where
  pub currency : null_or is_currency r.currency ≡ true
  pub receipts_value : null_or value_ok r.receipts_value ≡ true
  pub request_id : Prelude.Text.length r.request_id ≤ 64
  pub submitted_by : null_or is_address r.submitted_by ≡ true

-- Each row passes its CHECKs, has a uuid below the next one, and shares neither its uuid nor its
-- submission with a later row.
abbrev pub AreDistinct : Env → ℕ → List Row → Type 0
AreDistinct env next [] = Unit
AreDistinct env next (r ∷ rs) =
    IsChecked r
    × (r.uuid < next)
    × (find r.uuid rs ≡ none)
    × (any (same_submission env r) rs ≡ false)
    × AreDistinct env next rs

abbrev pub is_some {ℓ} : {A : Type ℓ} → Option A → Bool
is_some none = false
is_some (some a) = true

abbrev pub RefersTo : List Row → Review → Type 0
RefersTo rows v = is_some (find v.reimbursement_uuid rows) ≡ true

pub record IsConsistent (env : Env) (db : Db) : Type 0 where
  pub distinct : AreDistinct env db.next_uuid db.rows
  pub referring : All (RefersTo db.rows) db.reviews

pub violated-IsChecked : (now : ℕ) (r : Row) → violated now r ≡ none → IsChecked r
unfolding violated
violated-IsChecked now r h = ground arith

str_eq_symm : (a b : String) → str_eq a b ≡ str_eq b a
str_eq_symm a b = ground (arith, eq_iff a b, eq_iff b a)

same_key_symm : (a b : Option String) → same_key a b ≡ same_key b a
same_key_symm (some a) (some b) = str_eq_symm a b
same_key_symm (some a) none = refl
same_key_symm none (some b) = refl
same_key_symm none none = refl

pub find-uuid : (u : ℕ) (rs : List Row) (r : Row) → find u rs ≡ some r → r.uuid ≡ u
find-uuid u [] r h = cc
find-uuid u (s ∷ rs) r h = ground (arith, find-uuid u rs r)

module _ (env : Env) where
  same_submission_symm :
      (r s : Row) → same_submission env r s ≡ false → same_submission env s r ≡ false
  unfolding same_submission
  same_submission_symm r s h =
      rw
        (
          str_eq_symm s.request_id r.request_id,
          same_key_symm (lowered env s.submitted_by) (lowered env r.submitted_by),
        )
        h

  distinct-find :
      (next u : ℕ) (rs : List Row) → next ≤ u → AreDistinct env next rs → find u rs ≡ none
  distinct-find next u [] le h = refl
  distinct-find next u (r ∷ rs) le h = ground (arith, distinct-find next u rs)

  find-append :
      (u : ℕ) (rs : List Row) (n : Row)
      → find u rs ≡ none
      → (n.uuid == u) ≡ false
      → find u (rs ++ n ∷ []) ≡ none
  find-append u [] n h e = ground arith
  find-append u (r ∷ rs) n h e = ground (arith, find-append u rs n)

  find-append_some :
      (u : ℕ) (rs : List Row) (n : Row)
      → is_some (find u rs) ≡ true
      → is_some (find u (rs ++ n ∷ [])) ≡ true
  find-append_some u [] n h = cc
  find-append_some u (r ∷ rs) n h = ground (arith, find-append_some u rs n)

  any-append :
      (r : Row) (rs : List Row) (n : Row)
      → any (same_submission env r) rs ≡ false
      → same_submission env r n ≡ false
      → any (same_submission env r) (rs ++ n ∷ []) ≡ false
  any-append r [] n h e = ground arith
  any-append r (s ∷ rs) n h e = ground (arith, any-append r rs n)

  pub AreDistinct-later :
      (next : ℕ) (rs : List Row) → AreDistinct env next rs → AreDistinct env (next + 1) rs
  AreDistinct-later next [] h = tt
  AreDistinct-later next (r ∷ rs) (c, lt, f, a, h) =
      (c, omega arith, f, a, AreDistinct-later next rs h)

  pub AreDistinct-append :
      (next : ℕ) (rs : List Row) (n : Row)
      → AreDistinct env next rs
      → IsChecked n
      → n.uuid ≡ next
      → any (same_submission env n) rs ≡ false
      → AreDistinct env (next + 1) (rs ++ n ∷ [])
  AreDistinct-append next [] n h c e a = (c, omega arith, refl, refl, tt)
  AreDistinct-append next (r ∷ rs) n (cr, lt, fr, ar, h) c e a = (
    cr,
    omega arith,
    find-append r.uuid rs n fr (ground arith),
    any-append r rs n ar (same_submission_symm n r (ground arith)),
    AreDistinct-append next rs n h c e (ground arith),
  )

  -- An UPDATE writes a row that keeps the uuid and the submission of the row it finds.
  module _ (old new : Row) (uuid : new.uuid ≡ old.uuid)
      (request_id : new.request_id ≡ old.request_id)
      (submitted_by : new.submitted_by ≡ old.submitted_by) where
    same_left : (s : Row) → same_submission env s new ≡ same_submission env s old
    unfolding same_submission
    same_left s = rw (request_id, submitted_by)

    same_right : (s : Row) → same_submission env new s ≡ same_submission env old s
    unfolding same_submission
    same_right s = rw (request_id, submitted_by)

    find-replace : (u : ℕ) (rs : List Row) → find u rs ≡ none → find u (replace new rs) ≡ none
    find-replace u [] h = refl
    find-replace u (r ∷ rs) h = ground (arith, find-replace u rs)

    replace-absent : (rs : List Row) → find old.uuid rs ≡ none → replace new rs ≡ rs
    replace-absent [] h = refl
    replace-absent (r ∷ rs) h = ground (arith, replace-absent rs)

    any-replace :
        (next : ℕ) (s : Row) (rs : List Row)
        → AreDistinct env next rs
        → find old.uuid rs ≡ some old
        → any (same_submission env s) rs ≡ false
        → any (same_submission env s) (replace new rs) ≡ false
    any-replace next s [] h e a = refl
    any-replace next s (r ∷ rs) h e a =
        ground (arith, any-replace next s rs, replace-absent rs, same_left s)

    any-same : (rs : List Row) → any (same_submission env new) rs ≡ any (same_submission env old) rs
    any-same [] = refl
    any-same (r ∷ rs) = ground (arith, same_right r, any-same rs)

    pub AreDistinct-replace :
        (next : ℕ) (rs : List Row)
        → AreDistinct env next rs
        → find old.uuid rs ≡ some old
        → IsChecked new
        → AreDistinct env next (replace new rs)
    AreDistinct-replace next [] h e c = tt
    AreDistinct-replace next (r ∷ rs) (cr, lt, fr, ar, h) e c =
        elim (Bool-cases (r.uuid == new.uuid)) [
          | inl here ↦
              let gone : replace new rs ≡ rs = replace-absent rs (ground arith) in
              rw (here, gone) (c, ground arith, ground arith, ground (arith, any-same rs), h)
          | inr there ↦ rw there (
            cr,
            lt,
            find-replace r.uuid rs fr,
            any-replace next r rs h (ground arith) ar,
            AreDistinct-replace next rs h (ground arith) c,
          )
        ]

  find-replace_some :
      (new : Row) (u : ℕ) (rs : List Row)
      → is_some (find u rs) ≡ true
      → is_some (find u (replace new rs)) ≡ true
  find-replace_some new u [] h = h
  find-replace_some new u (r ∷ rs) h = ground (arith, find-replace_some new u rs)

  find-delete_some :
      (u v : ℕ) (rs : List Row)
      → (u == v) ≡ false
      → is_some (find u rs) ≡ true
      → is_some (find u (delete v rs)) ≡ true
  find-delete_some u v [] n h = h
  find-delete_some u v (r ∷ rs) n h = ground (arith, find-delete_some u v rs)

  find-delete : (u v : ℕ) (rs : List Row) → find u rs ≡ none → find u (delete v rs) ≡ none
  find-delete u v [] h = refl
  find-delete u v (r ∷ rs) h = ground (arith, find-delete u v rs)

  any-delete :
      (r : Row) (v : ℕ) (rs : List Row)
      → any (same_submission env r) rs ≡ false
      → any (same_submission env r) (delete v rs) ≡ false
  any-delete r v [] h = refl
  any-delete r v (s ∷ rs) h = ground (arith, any-delete r v rs)

  pub AreDistinct-delete :
      (next v : ℕ) (rs : List Row) → AreDistinct env next rs → AreDistinct env next (delete v rs)
  AreDistinct-delete next v [] h = tt
  AreDistinct-delete next v (r ∷ rs) (cr, lt, fr, ar, h) = elim (Bool-cases (r.uuid == v)) [
    | inl here ↦ rw here (AreDistinct-delete next v rs h)
    | inr there ↦
        rw there
          (cr, lt, find-delete r.uuid v rs fr, any-delete r v rs ar, AreDistinct-delete next v rs h)
  ]

  pub RefersTo-append :
      (rows : List Row) (n : Row) (vs : List Review)
      → All (RefersTo rows) vs
      → All (RefersTo (rows ++ n ∷ [])) vs
  RefersTo-append rows n [] h = tt
  RefersTo-append rows n (v ∷ vs) (h, hs) =
      (find-append_some v.reimbursement_uuid rows n h, RefersTo-append rows n vs hs)

  pub RefersTo-replace :
      (new : Row) (rows : List Row) (vs : List Review)
      → All (RefersTo rows) vs
      → All (RefersTo (replace new rows)) vs
  RefersTo-replace new rows [] h = tt
  RefersTo-replace new rows (v ∷ vs) (h, hs) =
      (find-replace_some new v.reimbursement_uuid rows h, RefersTo-replace new rows vs hs)

  pub RefersTo-delete :
      (u : ℕ) (rows : List Row) (vs : List Review)
      → any (λ v. v.reimbursement_uuid == u) vs ≡ false
      → All (RefersTo rows) vs
      → All (RefersTo (delete u rows)) vs
  RefersTo-delete u rows [] a h = tt
  RefersTo-delete u rows (v ∷ vs) a (h, hs) = (
    find-delete_some v.reimbursement_uuid u rows (ground arith) h,
    RefersTo-delete u rows vs (ground arith) hs,
  )
