-- ===== src/Api/Listing/Answered.antt =====
-- What the route of the list answers with.
use reimbursement_analyzer.Prelude.{
  suc, ℤ, String, ◌≡◌, refl, sym, ap, Bool, true, false, ◌&&◌, Option, none, some, List, [], ◌∷◌,
  length, all, magnitude, inl, inr,
}
use reimbursement_analyzer.Json.{Json, obj}
use reimbursement_analyzer.Decimal.{Decimal, nan, pos_inf, neg_inf, above, below}
use reimbursement_analyzer.Errors.{Exc}
use reimbursement_analyzer.World.{World, Result, ok, raised, Result-cases, acquire, ◌>>=◌}
use reimbursement_analyzer.World.Gives.{core, Gives-acquire}
use reimbursement_analyzer.Repository.Tables.{Row, Review}
use reimbursement_analyzer.Repository.Page.{Enriched}
use reimbursement_analyzer.UseCases.ListReimbursements.{list_reimbursements}
use reimbursement_analyzer.UseCases.ListReimbursements.Pages.{IsPage, list_reimbursements-IsPage}
use reimbursement_analyzer.Api.Response.{
  ReimbursementItem, item_of, record_item, from_record, from_records,
}
use reimbursement_analyzer.Api.Listing.{
  ListResponse, parse_status_filter, respond, get_reimbursements,
}

-- What the API can show: an object as the payload, and a value that is a number or absent.
abbrev is_object : Json → Bool
is_object (obj fields) = true
is_object _ = false

abbrev is_finite : Option Decimal → Bool
is_finite (some nan) = false
is_finite _ = true

abbrev pub is_presentable : Enriched → Bool
is_presentable e = is_object e.row.original_payload && is_finite e.row.receipts_value

-- An item is made of a row exactly where the row is presentable.
abbrev Presents : Bool → Result ReimbursementItem → Type 0
Presents true r = (item : ReimbursementItem) × (r ≡ ok item)
Presents false r = (e : Exc) × (r ≡ raised e)

record_item-Presents :
    (r : Row) (last : Option Review) (j : Json) (v : Option Decimal)
    → Presents (is_object j && is_finite v) (record_item r last j v)
unfolding record_item
record_item-Presents r last (obj fields) none = (item_of r fields last, refl)
record_item-Presents r last (obj fields) (some nan) = (_, refl)
record_item-Presents r last (obj fields) (some pos_inf) = (item_of r fields last, refl)
record_item-Presents r last (obj fields) (some neg_inf) = (item_of r fields last, refl)
record_item-Presents r last (obj fields) (some (above m k)) = (item_of r fields last, refl)
record_item-Presents r last (obj fields) (some (below m k)) = (item_of r fields last, refl)
record_item-Presents r last _ none = (_, refl)
record_item-Presents r last _ (some nan) = (_, refl)
record_item-Presents r last _ (some _) = (_, refl)

from_record-Presents : (e : Enriched) → Presents (is_presentable e) (from_record e)
unfolding from_record
from_record-Presents e =
    record_item-Presents e.row e.last e.row.original_payload e.row.receipts_value

presented :
    (b : Bool) (r : Result ReimbursementItem) (item : ReimbursementItem)
    → Presents b r
    → r ≡ ok item
    → b ≡ true
presented true r item h e = refl
presented false r item (x, d) e = cc

-- The items of a page, where there are any.
record ArePresented (es : List Enriched) (items : List ReimbursementItem) : Type 0 where
  presentable : all is_presentable es ≡ true
  count : length items ≡ length es

from_records-ArePresented :
    (es : List Enriched) (items : List ReimbursementItem)
    → from_records es ≡ ok items
    → ArePresented es items
unfolding from_records
from_records-ArePresented [] items =
    λ e. let d : items ≡ [] = cc in record { presentable = refl; count = rw d refl }
from_records-ArePresented (x ∷ es) items = elim (Result-cases (from_record x)) [
  | inr (bad, f) ↦ rw (f, from_records) λ e. cc
  | inl (item, f) ↦ elim (Result-cases (from_records es)) [
    | inr (bad, g) ↦ rw (f, from_records) (rw g λ e. cc)
    | inl (rest, g) ↦
        let tail = from_records-ArePresented es rest g in
        let here : is_presentable x ≡ true =
          presented (is_presentable x) (from_record x) item (from_record-Presents x) f in
        rw (f, from_records)
          (rw g λ e.
            let d : items ≡ item ∷ rest = cc in
            record {
              presentable = rw (here, tail.presentable) refl;
              count = rw d (ap suc tail.count);
            })
  ]
]

pub record IsListed (values : List String) (limit offset : ℤ) (w : World) (response : ListResponse)
    : Type 0 where
  pub statuses : Option (List String)
  pub page : List Enriched
  pub parsed : parse_status_filter values ≡ ok statuses
  pub fetched : (acquire (list_reimbursements statuses limit offset) w).0 ≡ ok page
  pub is_page : IsPage statuses (magnitude limit) w.db page
  pub presentable : all is_presentable page ≡ true
  pub items : from_records page ≡ ok response.data_
  pub count : length response.data_ ≡ length page

acquired :
    (statuses : Option (List String)) (limit offset : ℤ) (w : World) (page : List Enriched)
    → (acquire (list_reimbursements statuses limit offset) w).0 ≡ ok page
    → IsPage statuses (magnitude limit) w.db page
acquired statuses limit offset w page =
    (Gives-acquire {P = λ c. c ≡ core w} (list_reimbursements statuses limit offset)
        (λ page c. IsPage statuses (magnitude limit) w.db page)
        (record {
          at = λ v k page e.
              rw (sym (ap (λ c. c.db) k))
                (list_reimbursements-IsPage statuses limit offset v page e);
        })).at
      w refl page

module _ (values : List String) (limit offset : ℤ) (w : World) where
  responded :
      (statuses : Option (List String)) (page : List Enriched) (v : World) (response : ListResponse)
      → parse_status_filter values ≡ ok statuses
      → (acquire (list_reimbursements statuses limit offset) w).0 ≡ ok page
      → (respond values page v).0 ≡ ok response
      → IsListed values limit offset w response
  unfolding respond
  responded statuses page v response parsed fetched = elim (Result-cases (from_records page)) [
    | inr (x, f) ↦ rw (f, respond) λ e. cc
    | inl (items, f) ↦
        rw (f, respond)
          λ e.
            let d : items ≡ response.data_ = cc in
            let h = from_records-ArePresented page items f in
            record {
              statuses = statuses;
              page = page;
              parsed = parsed;
              fetched = fetched;
              is_page = acquired statuses limit offset w page fetched;
              presentable = h.presentable;
              items = rw (sym d) f;
              count = rw (sym d) h.count;
            }
  ]

-- The list route answers with the page that list_reimbursements returns for the parsed filter: at
-- most `limit` rows of the filter's statuses, the newest first, one item for each, in this order.
-- It answers only if all of them can be shown, so that one row whose value is NaN, or whose payload
-- is no object, makes every page that holds it fail.
pub get_reimbursements-IsListed :
    (values : List String) (limit offset : ℤ) (w : World) (response : ListResponse)
    → (get_reimbursements values limit offset w).0 ≡ ok response
    → IsListed values limit offset w response
unfolding get_reimbursements
get_reimbursements-IsListed values limit offset w response =
    elim (Result-cases (parse_status_filter values)) [
      | inr (x, p) ↦ rw (p, get_reimbursements) λ e. cc
      | inl (statuses, p) ↦
          elim (Result-cases (acquire (list_reimbursements statuses limit offset) w).0) [
            | inr (x, q) ↦ rw (p, get_reimbursements) (rw (q, ◌>>=◌) λ e. cc)
            | inl (page, q) ↦
                rw (p, get_reimbursements)
                  (rw (q, ◌>>=◌) (responded values limit offset w statuses page _ response p q))
          ]
    ]
