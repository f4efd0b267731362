-- ===== src/UseCases/ListReimbursements/Pages.antt =====
-- What a page holds, and when it holds everything.
use reimbursement_analyzer.Prelude.{
  ℕ, ℤ, pos, ◌≤◌, String, Bool, ◌≡◌, ◌≢◌, refl, sym, ap, true, false, Option, none, some, List, [],
  ◌∷◌, map, take, drop, length, arith, All, str_eq, inl, inr, Bool-cases, magnitude, length-map,
  length-take_le, ◌&&◌, ltb, eq_iff, not, All-take, All-drop, All-imp, take_all,
}
use mathlib.Core.List.{Perm}
use reimbursement_analyzer.Status
use reimbursement_analyzer.Config.{max_list_limit}
use reimbursement_analyzer.World.{World, ok, gets, interact}
use reimbursement_analyzer.World.Gives.{Core, core, Gives, Gives-interact}
use reimbursement_analyzer.Repository.Tables.{Row, Db}
use reimbursement_analyzer.Repository.Page.{
  Enriched, enrich, last_review, wanted_status, wanted, matching, ordered, bigint_end,
  fetch_reimbursement_page,
}
use reimbursement_analyzer.Repository.Page.Order.{
  IsNewestFirst, ordered-wanted, ordered-perm, ordered-slice, length-ordered, map-row_enrich,
}
use reimbursement_analyzer.UseCases.ListReimbursements.{
  has_unknown, is_valid_status, list_reimbursements,
}
use reimbursement_analyzer.UseCases.ListReimbursements.Gates.{
  IsAccepted, list_reimbursements-IsAccepted,
}

abbrev pub rows_of : List Enriched → List Row
rows_of = map (λ e. e.row)

module _ (c0 : Core) (statuses : Option (List String)) where
  -- The slice of the ordered rows that a page is, each row with its last review, in an order that
  -- the query chose.
  pub record IsSlice (limit offset : ℕ) (page : List Enriched) (c : Core) : Type 0 where
    pub same : c ≡ c0
    pub scan : List ℕ
    pub slice : page ≡ map (enrich c0.db) (take limit (drop offset (ordered statuses scan c0.db)))

  Gives-IsSlice :
      (limit offset : ℕ)
      → Gives
          (λ c. c ≡ c0)
          (interact (
            gets
              (λ v. map (enrich v.db) (take limit (drop offset (ordered statuses v.scan v.db))))))
          (IsSlice limit offset)
  Gives-IsSlice limit offset = Gives-interact _ (IsSlice limit offset) (record {
    at = λ v k b d.
        let page = map (enrich v.db) (take limit (drop offset (ordered statuses v.scan v.db))) in
        let e : page ≡ b = cc in
        rw (sym e) (record { same = k; scan = v.scan; slice = rw (ap (λ c. c.db) k) refl });
  })

  Gives-fetch :
      (limit offset : ℕ)
      → Gives (λ c. c ≡ c0) (fetch_reimbursement_page statuses limit offset) (IsSlice limit offset)
  unfolding fetch_reimbursement_page
  Gives-fetch limit offset = record {
    at = λ w k page. elim (Bool-cases (ltb limit bigint_end && ltb offset bigint_end)) [
      | inr big ↦ rw (big, fetch_reimbursement_page) λ e. cc
      | inl small ↦ rw (small, fetch_reimbursement_page) ((Gives-IsSlice limit offset).at w k page)
    ];
  }

  pub Gives-list :
      (limit offset : ℤ)
      → Gives
          (λ c. c ≡ c0)
          (list_reimbursements statuses limit offset)
          (λ page c.
            IsAccepted statuses limit offset × IsSlice (magnitude limit) (magnitude offset) page c)
  Gives-list limit offset = record {
    at = λ w k page. elim (list_reimbursements-IsAccepted statuses limit offset w) [
      | inl (accepted, e) ↦
          rw e λ d. (accepted, (Gives-fetch (magnitude limit) (magnitude offset)).at w k page d)
      | inr (refused, m, e) ↦ rw e λ d. cc
    ];
  }

pending_unlisted :
    (ss : List String) → has_unknown (some ss) ≡ false → Status.any_of ss Status.pending ≢ true
pending_unlisted [] h = λ e. cc
pending_unlisted (s ∷ ss) h = elim (Bool-cases (str_eq s "pending")) [
  | inl same ↦
      let e : s ≡ "pending" = (eq_iff s "pending").0 same in
      let bad : true ≡ false = rw e at h in cc
  | inr other ↦ elim (Bool-cases (not (is_valid_status s))) [
    | inl unknown ↦ let bad : true ≡ false = rw unknown at h in cc
    | inr known ↦
        let rest : has_unknown (some ss) ≡ false = rw known at h in
        λ e. pending_unlisted ss rest (rw other at e)
  ]
]

abbrev pub is_pending : Status.Status → Bool
is_pending Status.pending = true
is_pending _ = false

-- With a filter, a row is not pending.
abbrev pub hides_pending : Option (List String) → Status.Status → Bool
hides_pending none s = true
hides_pending (some ss) s = not (is_pending s)

-- Whether a list may show the row.
pub record IsShown (statuses : Option (List String)) (r : Row) : Type 0 where
  pub wanted : wanted statuses r ≡ true
  pub hidden : hides_pending statuses r.status ≡ true

hidden_of :
    (statuses : Option (List String)) (s : Status.Status)
    → has_unknown statuses ≡ false
    → wanted_status statuses s ≡ true
    → hides_pending statuses s ≡ true
hidden_of none s known h = refl
hidden_of (some ss) Status.pending known h = absurd (pending_unlisted ss known h)
hidden_of (some ss) _ known h = refl

shown :
    (statuses : Option (List String)) (r : Row)
    → has_unknown statuses ≡ false
    → wanted statuses r ≡ true
    → IsShown statuses r
shown statuses r known h = record { wanted = h; hidden = hidden_of statuses r.status known h }

pub record IsPage (statuses : Option (List String)) (limit : ℕ) (db : Db) (page : List Enriched)
    : Type 0 where
  pub newest_first : IsNewestFirst (rows_of page)
  pub short : length page ≤ limit
  pub small : length page ≤ max_list_limit
  pub rows_shown : All (IsShown statuses) (rows_of page)
  pub reviews : All (λ e. e.last ≡ last_review e.row.uuid db.reviews) page

module _ (db : Db) where
  enriched-All :
      (rs : List Row) → All (λ e. e.last ≡ last_review e.row.uuid db.reviews) (map (enrich db) rs)
  enriched-All [] = tt
  enriched-All (r ∷ rs) = (refl, enriched-All rs)

  slice-IsPage :
      (statuses : Option (List String)) (limit offset : ℕ) (scan : List ℕ)
      → has_unknown statuses ≡ false
      → limit ≤ max_list_limit
      → IsPage statuses limit db
          (map (enrich db) (take limit (drop offset (ordered statuses scan db))))
  slice-IsPage statuses limit offset scan known le =
      let rs = take limit (drop offset (ordered statuses scan db)) in
      let n : length (map (enrich db) rs) ≤ limit =
        rw length-map (length-take_le limit (drop offset (ordered statuses scan db))) in
      record {
        newest_first = rw (map-row_enrich db rs) (ordered-slice statuses scan db limit offset);
        short = n;
        small = omega arith;
        rows_shown = rw (map-row_enrich db rs) (
            All-take _ limit (drop offset (ordered statuses scan db)) (
              All-drop _ offset (ordered statuses scan db) (
                All-imp _ (IsShown statuses) (ordered statuses scan db)
                  (λ r h. shown statuses r known h) (ordered-wanted statuses scan db))));
        reviews = enriched-All rs;
      }

-- A page that list_reimbursements returns has at most `limit` rows, and at most 500, the newest
-- first; each row has a status of the filter, never `pending` when there is a filter, and comes
-- with the most recent review of its uuid.
pub list_reimbursements-IsPage :
    (statuses : Option (List String)) (limit offset : ℤ) (w : World) (page : List Enriched)
    → (list_reimbursements statuses limit offset w).0 ≡ ok page
    → IsPage statuses (magnitude limit) w.db page
list_reimbursements-IsPage statuses limit offset w page e =
    let (accepted, slice) = (Gives-list (core w) statuses limit offset).at w refl page e in
    rw slice.slice (
      slice-IsPage w.db statuses (magnitude limit) (magnitude offset) slice.scan accepted.known
        accepted.bounded)

-- A page from the start that has room for all rows of the filter's statuses shows each of them
-- exactly once, whatever order the query finds them in, and nothing else.
pub list_reimbursements-complete :
    (statuses : Option (List String)) (limit : ℕ) (w : World) (page : List Enriched)
    → length (matching statuses w.db.rows) ≤ limit
    → (list_reimbursements statuses (pos limit) (pos 0) w).0 ≡ ok page
    → Perm (rows_of page) (matching statuses w.db.rows)
list_reimbursements-complete statuses limit w page le e =
    let (accepted, slice) = (Gives-list (core w) statuses (pos limit) (pos 0)).at w refl page e in
    let xs = ordered statuses slice.scan w.db in
    let n : length xs ≤ limit = rw (length-ordered statuses slice.scan w.db) le in
    let all_of : rows_of page ≡ xs =
      rw (slice.slice, map-row_enrich w.db (take limit xs)) (take_all limit xs n) in
    rw all_of (ordered-perm statuses slice.scan w.db)
