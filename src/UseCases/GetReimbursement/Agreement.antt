-- ===== src/UseCases/GetReimbursement/Agreement.antt =====
-- What get_reimbursement returns beside what the list shows.
use reimbursement_analyzer.Prelude.{
  ℕ, ℤ, String, ◌≡◌, refl, Option, none, some, List, [], ◌∷◌, map, arith, All, All-take, All-drop,
  All-imp, ◌==◌, inl, inr, Bool-cases, magnitude,
}
use reimbursement_analyzer.Env.{Env}
use reimbursement_analyzer.World.{World, ok, gets}
use reimbursement_analyzer.World.Gives.{core}
use reimbursement_analyzer.World.Steady.{bind_ok, interact-ended}
use reimbursement_analyzer.Repository.Tables.{Row, Db, find}
use reimbursement_analyzer.Repository.Consistent.{AreDistinct}
use reimbursement_analyzer.Repository.Statements.{Consistent}
use reimbursement_analyzer.Repository.Page.{
  Enriched, enrich, enriched_if, wanted, matching, ordered, fetch_reimbursement_by_uuid,
}
use reimbursement_analyzer.Repository.Page.Order.{ordered-All}
use reimbursement_analyzer.UseCases.ListReimbursements.{list_reimbursements}
use reimbursement_analyzer.UseCases.ListReimbursements.Pages.{Gives-list}
use reimbursement_analyzer.UseCases.GetReimbursement.{or_not_found, get_reimbursement}

-- The primary key finds the row.
abbrev IsFound : List Row → Row → Type 0
IsFound rs r = find r.uuid rs ≡ some r

found_behind :
    (r s : Row) (rs : List Row)
    → find r.uuid rs ≡ none
    → find s.uuid rs ≡ some s
    → find s.uuid (r ∷ rs) ≡ some s
found_behind r s rs alone f = elim (Bool-cases (r.uuid == s.uuid)) [
  | inr other ↦ rw other f
  | inl same ↦
      let e : r.uuid ≡ s.uuid = ground arith in
      let missing : find s.uuid rs ≡ none = rw e at alone in cc
]

distinct-IsFound :
    (env : Env) (next : ℕ) (rs : List Row) → AreDistinct env next rs → All (IsFound rs) rs
distinct-IsFound env next [] h = tt
distinct-IsFound env next (r ∷ rs) (checked, below, alone, new, rest) = (
  ground arith,
  All-imp _ _ rs (λ s f. found_behind r s rs alone f) (distinct-IsFound env next rs rest),
)

matching-All :
    (P : Row → Type 0) (statuses : Option (List String)) (rs : List Row)
    → All P rs
    → All P (matching statuses rs)
unfolding matching
matching-All P statuses [] h = tt
matching-All P statuses (r ∷ rs) (p, h) = elim (Bool-cases (wanted statuses r)) [
  | inl in_it ↦ rw (in_it, matching) (p, matching-All P statuses rs h)
  | inr out ↦ rw (out, matching) (matching-All P statuses rs h)
]

ordered-IsFound :
    (db : Db) (statuses : Option (List String)) (scan : List ℕ)
    → All (IsFound db.rows) db.rows
    → All (IsFound db.rows) (ordered statuses scan db)
ordered-IsFound db statuses scan h =
    ordered-All statuses scan db _ (matching-All _ statuses db.rows h)

-- What the query of one uuid answers in a state with the tables `db`.
abbrev IsGotten : Db → Enriched → Type 0
IsGotten db e = enriched_if db (find e.row.uuid db.rows) ≡ some e

gotten :
    (db : Db) (rs : List Row) → All (IsFound db.rows) rs → All (IsGotten db) (map (enrich db) rs)
gotten db [] h = tt
gotten db (r ∷ rs) (f, h) = (rw f refl, gotten db rs h)

get-gotten :
    (w : World) (e : Enriched)
    → IsGotten w.db e
    → (get_reimbursement e.row.uuid (record w { events = [] })).0 ≡ ok e
unfolding get_reimbursement fetch_reimbursement_by_uuid
get-gotten w e h =
    let w0 = record w { events = [] } in
    let fetched : fetch_reimbursement_by_uuid e.row.uuid w0 ≡ (ok (some e), w0) =
      rw (interact-ended (gets _) w, h) refl in
    rw (bind_ok (fetch_reimbursement_by_uuid e.row.uuid) or_not_found w0 w0 (some e) fetched) refl

-- The list and the single row agree: a row that a page shows is what get_reimbursement returns for
-- its uuid, with the same review, in a later state with the same tables, if they are consistent and
-- the database answers.
pub list_reimbursements-get :
    (env : Env) (statuses : Option (List String)) (limit offset : ℤ) (w w' : World)
    (page : List Enriched)
    → Consistent env w
    → w'.db ≡ w.db
    → (list_reimbursements statuses limit offset w).0 ≡ ok page
    → All (λ e. (get_reimbursement e.row.uuid (record w' { events = [] })).0 ≡ ok e) page
list_reimbursements-get env statuses limit offset w w' page h same e =
    let (accepted, slice) = (Gives-list (core w) statuses limit offset).at w refl page e in
    let found = distinct-IsFound env w.db.next_uuid w.db.rows h.distinct in
    rw slice.slice (
      All-imp (IsGotten w.db) _ _ (λ x g. get-gotten w' x (rw same g))
        (gotten w.db _ (
          All-take _ (magnitude limit) _
            (All-drop _ (magnitude offset) _ (ordered-IsFound w.db statuses slice.scan found)))))
