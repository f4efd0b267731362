-- ===== src/Repository/Page.antt =====
-- The queries of shared/reimbursement/repository.py that only read: the page of the newest rows,
-- one row, and the count by status. Each row comes with its most recent review (the LATERAL join).
-- PostgreSQL leaves the order of equal times open, in each query anew: a query finds the rows in an
-- order of its own, which the script of events gives, and equal times keep that order.
pub mod Order
pub mod Latest
use reimbursement_analyzer.Prelude.{
  ℕ, zero, suc, ◌+◌, String, Bool, true, ◌&&◌, Option, none, some, List, [], ◌∷◌, map, take, drop,
  leb, ltb, ◌==◌, str_eq, if◌then◌else◌,
}
use reimbursement_analyzer.Status
use reimbursement_analyzer.Status.{Status}
use reimbursement_analyzer.Errors.{other}
use reimbursement_analyzer.World.{Action, raise, gets, interact}
use reimbursement_analyzer.Repository.Tables.{Row, Review, Db, find}

-- A row of the result: `r.*`, and the `hr_*` columns, which are NULL together.
pub record Enriched : Type 0 where
  pub row : Row
  pub last : Option Review

-- `ORDER BY created_at DESC LIMIT 1` over the reviews of one reimbursement
newer : Review → Option Review → Review
newer v none = v
newer v (some u) = if leb u.created_at v.created_at then v else u

unfoldable pub last_review : ℕ → List Review → Option Review
unfolding newer
last_review uuid [] = none
last_review uuid (v ∷ vs) =
    let rest = last_review uuid vs in
    if v.reimbursement_uuid == uuid then some (newer v rest) else rest

abbrev pub enrich : Db → Row → Enriched
enrich db r = record { row = r; last = last_review r.uuid db.reviews }

-- `$1::text[] IS NULL OR r.status = ANY($1)`
abbrev pub wanted_status : Option (List String) → Status → Bool
wanted_status none s = true
wanted_status (some statuses) s = Status.any_of statuses s

abbrev pub wanted : Option (List String) → Row → Bool
wanted statuses r = wanted_status statuses r.status

unfoldable pub matching : Option (List String) → List Row → List Row
matching statuses [] = []
matching statuses (r ∷ rs) =
    let rest = matching statuses rs in if wanted statuses r then r ∷ rest else rest

insert_by_time : Row → List Row → List Row
insert_by_time r [] = r ∷ []
insert_by_time r (s ∷ ss) =
    let rest = insert_by_time r ss in if leb s.created_at r.created_at then r ∷ s ∷ ss else s ∷ rest

-- `ORDER BY r.created_at DESC`
unfoldable pub newest_first : List Row → List Row
unfolding insert_by_time
newest_first [] = []
newest_first (r ∷ rs) = insert_by_time r (newest_first rs)

insert_at : ℕ → Row → List Row → List Row
insert_at zero r rs = r ∷ rs
insert_at (suc n) r [] = r ∷ []
insert_at (suc n) r (s ∷ ss) = s ∷ insert_at n r ss

-- The rows in another order: each is put at the given place among those behind it. Every
-- permutation is one of these.
unfoldable pub arranged : List ℕ → List Row → List Row
unfolding insert_at
arranged places [] = []
arranged [] (r ∷ rs) = r ∷ rs
arranged (n ∷ places) (r ∷ rs) = insert_at n r (arranged places rs)

-- The rows that `WHERE` and `ORDER BY` leave, before `LIMIT` and `OFFSET`.
unfoldable pub ordered : Option (List String) → List ℕ → Db → List Row
unfolding matching newest_first arranged
ordered statuses scan db = newest_first (arranged scan (matching statuses db.rows))

-- The first value that does not fit a parameter of type bigint.
abbrev pub bigint_end : ℕ
bigint_end = 9223372036854775808

abbrev page_of : Option (List String) → ℕ → ℕ → List ℕ → Db → List Enriched
page_of statuses limit offset scan db =
    map (enrich db) (take limit (drop offset (ordered statuses scan db)))

-- The driver refuses a number that does not fit before it sends the statement.
unfoldable pub fetch_reimbursement_page : Option (List String) → ℕ → ℕ → Action (List Enriched)
unfolding ordered
fetch_reimbursement_page statuses limit offset =
    if ltb limit bigint_end && ltb offset bigint_end
    then interact (gets (λ v. page_of statuses limit offset v.scan v.db))
    else raise (other "DataError" "value out of int64 range")

abbrev pub enriched_if : Db → Option Row → Option Enriched
enriched_if db none = none
enriched_if db (some r) = some (enrich db r)

unfoldable pub fetch_reimbursement_by_uuid : ℕ → Action (Option Enriched)
fetch_reimbursement_by_uuid uuid = interact (gets (λ w. enriched_if w.db (find uuid w.db.rows)))

-- `count(*)` of one status
abbrev pub count_of : Status → List Row → ℕ
count_of s [] = 0
count_of s (r ∷ rs) =
    (if str_eq (Status.value s) (Status.value r.status) then 1 else 0) + count_of s rs

-- A status without a row has no line.
unfoldable pub lines : List Status → List Row → List (String × ℕ)
lines [] rs = []
lines (s ∷ ss) rs =
    let rest = lines ss rs in
    if count_of s rs == 0 then rest else (Status.value s, count_of s rs) ∷ rest

-- `GROUP BY status`: one line for each status that has a row.
unfoldable pub count_by_status : Action (List (String × ℕ))
count_by_status = interact (gets (λ w. lines Status.all_statuses w.db.rows))
