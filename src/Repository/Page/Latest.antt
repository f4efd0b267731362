-- ===== src/Repository/Page/Latest.antt =====
-- The review that the LATERAL join finds.
use reimbursement_analyzer.Prelude.{
  ℕ, ◌≤◌, ◌≡◌, ◌≢◌, refl, ◌⊎◌, inl, inr, Option, none, some, List, [], ◌∷◌, All, All-imp, leb, ◌==◌,
  Bool-cases, arith,
}
use mathlib.Core.List.{Mem, mem-cons_self, mem-cons_of_mem}
use reimbursement_analyzer.Repository.Tables.{Review}
use reimbursement_analyzer.Repository.Page.{newer, last_review}

-- A review of another reimbursement, or one that is no newer than `v`.
abbrev pub IsBehind : ℕ → Review → Review → Type 0
IsBehind uuid v u = (u.reimbursement_uuid ≢ uuid) ⊎ (u.created_at ≤ v.created_at)

-- One of the reviews, of this reimbursement, that none of its others is newer than.
pub record IsLatest (uuid : ℕ) (vs : List Review) (v : Review) : Type 0 where
  pub mem : Mem v vs
  pub about : v.reimbursement_uuid ≡ uuid
  pub latest : All (IsBehind uuid v) vs

abbrev Found : ℕ → List Review → Option Review → Type 0
Found uuid vs none = All (λ u. u.reimbursement_uuid ≢ uuid) vs
Found uuid vs (some v) = IsLatest uuid vs v

behind :
    (uuid : ℕ) (u v x : Review)
    → u.created_at ≤ v.created_at
    → IsBehind uuid u x
    → IsBehind uuid v x
behind uuid u v x le (inl other) = inl other
behind uuid u v x le (inr older) = inr (omega arith)

newer-Found :
    (uuid : ℕ) (v : Review) (vs : List Review) (rest : Option Review)
    → v.reimbursement_uuid ≡ uuid
    → Found uuid vs rest
    → IsLatest uuid (v ∷ vs) (newer v rest)
unfolding newer
newer-Found uuid v vs none e h = record {
  mem = mem-cons_self;
  about = e;
  latest = (inr (omega arith), All-imp _ _ vs (λ u d. inl d) h);
}
newer-Found uuid v vs (some u) e h = elim (Bool-cases (leb u.created_at v.created_at)) [
  | inl le ↦
      rw (le, newer)
        (record {
          mem = mem-cons_self;
          about = e;
          latest = (
            inr (omega arith),
            All-imp _ _ vs (λ x d. behind uuid u v x (ground arith) d) h.latest,
          );
        })
  | inr gt ↦
      rw (gt, newer)
        (record {
          mem = mem-cons_of_mem _ h.mem;
          about = h.about;
          latest = (inr (ground arith), h.latest);
        })
]

elsewhere :
    (uuid : ℕ) (v : Review) (vs : List Review) (rest : Option Review)
    → v.reimbursement_uuid ≢ uuid
    → Found uuid vs rest
    → Found uuid (v ∷ vs) rest
elsewhere uuid v vs none d h = (d, h)
elsewhere uuid v vs (some u) d h = record {
  mem = mem-cons_of_mem _ h.mem;
  about = h.about;
  latest = (inl d, h.latest);
}

last-Found : (uuid : ℕ) (vs : List Review) → Found uuid vs (last_review uuid vs)
unfolding last_review
last-Found uuid [] = tt
last-Found uuid (v ∷ vs) = elim (Bool-cases (v.reimbursement_uuid == uuid)) [
  | inl ours ↦
      rw (ours, last_review)
        (newer-Found uuid v vs (last_review uuid vs) (ground arith) (last-Found uuid vs))
  | inr other ↦
      rw (other, last_review)
        (elsewhere uuid v vs (last_review uuid vs) (ground arith) (last-Found uuid vs))
]

-- The review that a row is shown with is one of its own that no other of them is newer than; a row
-- is shown without one only if it has none.
pub last_review-IsLatest :
    (uuid : ℕ) (vs : List Review)
    → ((last_review uuid vs ≡ none) × All (λ u. u.reimbursement_uuid ≢ uuid) vs)
      ⊎ ((v : Review) × (last_review uuid vs ≡ some v) × IsLatest uuid vs v)
last_review-IsLatest uuid vs = cases (last_review uuid vs) (last-Found uuid vs)
  where
    cases :
        (o : Option Review)
        → Found uuid vs o
        → ((o ≡ none) × All (λ u. u.reimbursement_uuid ≢ uuid) vs)
          ⊎ ((v : Review) × (o ≡ some v) × IsLatest uuid vs v)
    cases none h = inl (refl, h)
    cases (some v) h = inr (v, refl, h)
