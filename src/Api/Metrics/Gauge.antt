-- ===== src/Api/Metrics/Gauge.antt =====
-- What the gauge shows after a scrape.
use reimbursement_analyzer.Prelude.{
  ℕ, ◌+◌, ◌-◌, ◌≤◌, ◌<◌, String, ◌≡◌, refl, sym, ap, ◌∙◌, ◌⊎◌, inl, inr, Bool, true, false, List,
  [], ◌∷◌, map, any, length, ltb, str_eq, eq_iff, Bool-cases, arith, ◌==◌, if◌then◌else◌,
}
use reimbursement_analyzer.Status
use reimbursement_analyzer.Status.{Status}
use reimbursement_analyzer.World.{World, Result, ok, raised, Result-cases, acquire, interact, gets}
use reimbursement_analyzer.World.Gives.{Core, core, Gives-interact, Gives-acquire}
use reimbursement_analyzer.Repository.Tables.{Row}
use reimbursement_analyzer.Repository.Page.{count_of, lines, count_by_status}
use reimbursement_analyzer.Api.Metrics.{
  Gauges, gauge_refresh_min_interval, get_or_zero, filled, refresh_status_gauge,
}

-- The sum of the values.
abbrev pub total : List (String × ℕ) → ℕ
total [] = 0
total ((name, n) ∷ rest) = n + total rest

abbrev occurs : Status → List Status → Bool
occurs t ss = any (λ s. str_eq (Status.value s) (Status.value t)) ss

count-value :
    (s t : Status) (rs : List Row)
    → str_eq (Status.value s) (Status.value t) ≡ true
    → count_of s rs ≡ count_of t rs
count-value s t rs e =
    let v : Status.value s ≡ Status.value t = (eq_iff (Status.value s) (Status.value t)).0 e in
    go rs v
  where
    go : (qs : List Row) → Status.value s ≡ Status.value t → count_of s qs ≡ count_of t qs
    go [] v = refl
    go (q ∷ qs) v = rw (v, go qs v) refl

if_zero : (b : Bool) (n : ℕ) → n ≡ 0 → (if b then n else 0) ≡ n
if_zero true n h = refl
if_zero false n h = sym h

-- The lines of the query hold the count of each status that they are about.
get-lines :
    (t : Status) (ss : List Status) (rs : List Row)
    → get_or_zero (Status.value t) (lines ss rs) ≡ (if occurs t ss then count_of t rs else 0)
unfolding get_or_zero lines
get-lines t [] rs = refl
get-lines t (s ∷ ss) rs =
    let ih = get-lines t ss rs in
    elim (Bool-cases (str_eq (Status.value s) (Status.value t))) [
      | inl same ↦
          let n = count-value s t rs same in
          elim (Bool-cases (count_of s rs == 0)) [
            | inl zero_ ↦
                let z : count_of t rs ≡ 0 = ground arith in
                rw (zero_, same, ih) (if_zero (occurs t ss) (count_of t rs) z)
            | inr some_ ↦ rw (some_, same) n
          ]
      | inr differs ↦ elim (Bool-cases (count_of s rs == 0)) [
        | inl zero_ ↦ rw (zero_, differs, ih) refl
        | inr some_ ↦ rw (some_, differs, ih) refl
      ]
    ]

-- The count of each status.
abbrev pub counted : List Row → List Status → List (String × ℕ)
counted rs ss = map (λ s. (Status.value s, count_of s rs)) ss

filled-counted :
    (rs : List Row)
    → filled (lines Status.all_statuses rs) Status.all_statuses ≡ counted rs Status.all_statuses
filled-counted rs =
    let ls = lines Status.all_statuses rs in
    let at_ : (t : Status)
        → get_or_zero (Status.value t) ls
          ≡ (if occurs t Status.all_statuses then count_of t rs else 0) =
      λ t. get-lines t Status.all_statuses rs in
    rw
      (
        at_ Status.pending,
        at_ Status.human_review,
        at_ Status.auto_approved,
        at_ Status.auto_rejected,
        at_ Status.human_approved,
        at_ Status.human_rejected,
      )
      refl

-- Every row is counted once.
one_more :
    (t : Status) (r : Row) (rs : List Row)
    → r.status ≡ t
    → total (counted (r ∷ rs) Status.all_statuses) ≡ 1 + total (counted rs Status.all_statuses)
one_more Status.pending r rs e = rw e (omega arith)
one_more Status.human_review r rs e = rw e (omega arith)
one_more Status.auto_approved r rs e = rw e (omega arith)
one_more Status.auto_rejected r rs e = rw e (omega arith)
one_more Status.human_approved r rs e = rw e (omega arith)
one_more Status.human_rejected r rs e = rw e (omega arith)

total-counted : (rs : List Row) → total (counted rs Status.all_statuses) ≡ length rs
total-counted [] = omega arith
total-counted (r ∷ rs) =
    let e = one_more r.status r rs refl in let d = total-counted rs in omega arith

-- What a scrape at the time `now` makes of the gauge `g`, given how the query ended.
abbrev pub IsShown : Gauges → World → Result (List (String × ℕ)) → Gauges → Type 0
IsShown g w (raised e) h = h.status_count ≡ g.status_count
IsShown g w (ok counts) h =
    (h.status_count ≡ counted w.db.rows Status.all_statuses)
    × (total h.status_count ≡ length w.db.rows)

pub record IsRefreshed (now : ℕ) (g : Gauges) (w : World) (p : Gauges × World) : Type 0 where
  pub due : gauge_refresh_min_interval ≤ now - g.last_refreshed_at
  pub time : p.0.last_refreshed_at ≡ now
  pub asked : p.1 ≡ (acquire count_by_status w).1
  pub values : IsShown g w (acquire count_by_status w).0 p.0

answered :
    (v w : World) (ls : List (String × ℕ))
    → core v ≡ core w
    → ok (lines Status.all_statuses v.db.rows) ≡ ok ls
    → ls ≡ lines Status.all_statuses w.db.rows
answered v w ls k d =
    let e : lines Status.all_statuses v.db.rows ≡ ls = cc in
    sym e ∙ ap (λ c. lines Status.all_statuses c.db.rows) k

shown :
    (rs : List Row)
    → (filled (lines Status.all_statuses rs) Status.all_statuses ≡ counted rs Status.all_statuses)
      × (total (filled (lines Status.all_statuses rs) Status.all_statuses) ≡ length rs)
shown rs = (filled-counted rs, ap total (filled-counted rs) ∙ total-counted rs)

queried :
    (w : World) (counts : List (String × ℕ))
    → (acquire count_by_status w).0 ≡ ok counts
    → counts ≡ lines Status.all_statuses w.db.rows
unfolding count_by_status
queried w counts e =
    let ask = interact (gets (λ v. lines Status.all_statuses v.db.rows)) in
    let Q : List (String × ℕ) → Core → Type 0 = λ ls c. ls ≡ lines Status.all_statuses w.db.rows in
    (Gives-acquire {P = λ c. c ≡ core w} ask Q
        (Gives-interact _ Q (record { at = λ v k ls d. answered v w ls k d }))).at
      w refl counts e

-- A scrape does nothing within five seconds of the last refresh. After that it makes the one query
-- of the counts: if that raises, the gauge keeps its values and the next try waits five seconds
-- too; if it answers, the gauge shows for each of the six statuses the number of its rows, 0 included, and
-- these numbers add up to the rows of the table.
pub refresh_status_gauge-IsRefreshed :
    (now : ℕ) (g : Gauges) (w : World)
    → ((now - g.last_refreshed_at < gauge_refresh_min_interval)
        × (refresh_status_gauge now g w ≡ (g, w)))
      ⊎ (IsRefreshed now g w (refresh_status_gauge now g w))
unfolding refresh_status_gauge
refresh_status_gauge-IsRefreshed now g w =
    elim (Bool-cases (ltb (now - g.last_refreshed_at) gauge_refresh_min_interval)) [
      | inl early ↦ rw (early, refresh_status_gauge) (inl (ground arith, refl))
      | inr due ↦ elim (Result-cases (acquire count_by_status w).0) [
        | inr (x, e) ↦
            rw (due, refresh_status_gauge)
              (rw e (
                inr (record { due = ground arith; time = refl; asked = refl; values = rw e refl })))
        | inl (counts, e) ↦
            rw (due, refresh_status_gauge)
              (rw e (
                inr (record {
                  due = ground arith;
                  time = refl;
                  asked = refl;
                  values = rw e (rw (queried w counts e) (shown w.db.rows));
                })))
      ]
    ]
