-- ===== src/Repository/Page/Order.antt =====
-- The rows of a page: their order, their statuses, and that none is lost or added.
use reimbursement_analyzer.Prelude.{
  ℕ, zero, suc, ◌≤◌, String, ◌≡◌, refl, ap, ◌∙◌, true, Option, List, [], ◌∷◌, map, take, drop,
  All-take, All-imp, length, leb, arith, All, inl, inr, Bool-cases,
}
use mathlib.Core.List.{Perm}
use mathlib.Core.List.Perm
use reimbursement_analyzer.Repository.Tables.{Row, Db}
use reimbursement_analyzer.Repository.Page.{
  enrich, wanted, matching, insert_by_time, newest_first, insert_at, arranged, ordered,
}

-- Every row is at least as new as those behind it.
abbrev pub IsNewestFirst : List Row → Type 0
IsNewestFirst [] = Unit
IsNewestFirst (r ∷ rs) = All (λ s. s.created_at ≤ r.created_at) rs × IsNewestFirst rs

IsNewestFirst-take : (n : ℕ) (rs : List Row) → IsNewestFirst rs → IsNewestFirst (take n rs)
IsNewestFirst-take zero rs h = tt
IsNewestFirst-take (suc n) [] h = tt
IsNewestFirst-take (suc n) (r ∷ rs) (b, h) = (All-take _ n rs b, IsNewestFirst-take n rs h)

IsNewestFirst-drop : (n : ℕ) (rs : List Row) → IsNewestFirst rs → IsNewestFirst (drop n rs)
IsNewestFirst-drop zero rs h = h
IsNewestFirst-drop (suc n) [] h = tt
IsNewestFirst-drop (suc n) (r ∷ rs) (b, h) = IsNewestFirst-drop n rs h

insert-All :
    (P : Row → Type 0) (r : Row) (rs : List Row) → P r → All P rs → All P (insert_by_time r rs)
unfolding insert_by_time
insert-All P r [] p h = (p, tt)
insert-All P r (s ∷ ss) p (q, h) = elim (Bool-cases (leb s.created_at r.created_at)) [
  | inl le ↦ rw (le, insert_by_time) (p, (q, h))
  | inr gt ↦ rw (gt, insert_by_time) (q, insert-All P r ss p h)
]

newest_first-All : (P : Row → Type 0) (rs : List Row) → All P rs → All P (newest_first rs)
unfolding newest_first
newest_first-All P [] h = tt
newest_first-All P (r ∷ rs) (p, h) = insert-All P r (newest_first rs) p (newest_first-All P rs h)

insert-IsNewestFirst :
    (r : Row) (rs : List Row) → IsNewestFirst rs → IsNewestFirst (insert_by_time r rs)
unfolding insert_by_time
insert-IsNewestFirst r [] h = (tt, tt)
insert-IsNewestFirst r (s ∷ ss) (b, h) = elim (Bool-cases (leb s.created_at r.created_at)) [
  | inl le ↦
      let here : s.created_at ≤ r.created_at = ground arith in
      rw (le, insert_by_time) ((here, All-imp _ _ ss (λ x p. omega arith) b), (b, h))
  | inr gt ↦
      rw (gt, insert_by_time) (insert-All _ r ss (ground arith) b, insert-IsNewestFirst r ss h)
]

newest_first-IsNewestFirst : (rs : List Row) → IsNewestFirst (newest_first rs)
unfolding newest_first
newest_first-IsNewestFirst [] = tt
newest_first-IsNewestFirst (r ∷ rs) =
    insert-IsNewestFirst r (newest_first rs) (newest_first-IsNewestFirst rs)

insert-perm : (r : Row) (rs : List Row) → Perm (insert_by_time r rs) (r ∷ rs)
unfolding insert_by_time
insert-perm r [] = Perm.rfl
insert-perm r (s ∷ ss) = elim (Bool-cases (leb s.created_at r.created_at)) [
  | inl le ↦ rw (le, insert_by_time) Perm.rfl
  | inr gt ↦
      rw (gt, insert_by_time) (Perm.trans (Perm.cons s (insert-perm r ss)) (Perm.swap r s ss))
]

newest_first-perm : (rs : List Row) → Perm (newest_first rs) rs
unfolding newest_first
newest_first-perm [] = Perm.rfl
newest_first-perm (r ∷ rs) =
    Perm.trans (insert-perm r (newest_first rs)) (Perm.cons r (newest_first-perm rs))

matching-wanted :
    (statuses : Option (List String)) (rs : List Row)
    → All (λ r. wanted statuses r ≡ true) (matching statuses rs)
unfolding matching
matching-wanted statuses [] = tt
matching-wanted statuses (r ∷ rs) = elim (Bool-cases (wanted statuses r)) [
  | inl in_it ↦ rw (in_it, matching) (in_it, matching-wanted statuses rs)
  | inr out ↦ rw (out, matching) (matching-wanted statuses rs)
]

insert_at-perm : (n : ℕ) (r : Row) (rs : List Row) → Perm (insert_at n r rs) (r ∷ rs)
unfolding insert_at
insert_at-perm zero r rs = Perm.rfl
insert_at-perm (suc n) r [] = Perm.rfl
insert_at-perm (suc n) r (s ∷ ss) =
    Perm.trans (Perm.cons s (insert_at-perm n r ss)) (Perm.swap r s ss)

arranged-perm : (places : List ℕ) (rs : List Row) → Perm (arranged places rs) rs
unfolding arranged
arranged-perm places [] = Perm.rfl
arranged-perm [] (r ∷ rs) = Perm.rfl
arranged-perm (n ∷ places) (r ∷ rs) =
    Perm.trans (insert_at-perm n r (arranged places rs)) (Perm.cons r (arranged-perm places rs))

insert_at-All :
    (P : Row → Type 0) (n : ℕ) (r : Row) (rs : List Row) → P r → All P rs → All P (insert_at n r rs)
unfolding insert_at
insert_at-All P zero r rs p h = (p, h)
insert_at-All P (suc n) r [] p h = (p, tt)
insert_at-All P (suc n) r (s ∷ ss) p (q, h) = (q, insert_at-All P n r ss p h)

arranged-All :
    (P : Row → Type 0) (places : List ℕ) (rs : List Row) → All P rs → All P (arranged places rs)
unfolding arranged
arranged-All P places [] h = tt
arranged-All P [] (r ∷ rs) h = h
arranged-All P (n ∷ places) (r ∷ rs) (p, h) =
    insert_at-All P n r (arranged places rs) p (arranged-All P places rs h)

module _ (statuses : Option (List String)) (scan : List ℕ) (db : Db) where
  pub ordered-All :
      (P : Row → Type 0) → All P (matching statuses db.rows) → All P (ordered statuses scan db)
  unfolding ordered
  ordered-All P h =
      newest_first-All P (arranged scan (matching statuses db.rows))
        (arranged-All P scan (matching statuses db.rows) h)

  pub ordered-wanted : All (λ r. wanted statuses r ≡ true) (ordered statuses scan db)
  ordered-wanted = ordered-All _ (matching-wanted statuses db.rows)

  pub ordered-perm : Perm (ordered statuses scan db) (matching statuses db.rows)
  unfolding ordered
  ordered-perm =
      Perm.trans (newest_first-perm (arranged scan (matching statuses db.rows)))
        (arranged-perm scan (matching statuses db.rows))

  pub ordered-slice : (m n : ℕ) → IsNewestFirst (take m (drop n (ordered statuses scan db)))
  unfolding ordered
  ordered-slice m n =
      let rs = arranged scan (matching statuses db.rows) in
      IsNewestFirst-take m (drop n (newest_first rs))
        (IsNewestFirst-drop n (newest_first rs) (newest_first-IsNewestFirst rs))

pub map-row_enrich : (db : Db) (rs : List Row) → map (λ e. e.row) (map (enrich db) rs) ≡ rs
map-row_enrich db [] = refl
map-row_enrich db (r ∷ rs) = ap (◌∷◌ r) (map-row_enrich db rs)

length-insert : (r : Row) (rs : List Row) → length (insert_by_time r rs) ≡ suc (length rs)
unfolding insert_by_time
length-insert r [] = refl
length-insert r (s ∷ ss) = elim (Bool-cases (leb s.created_at r.created_at)) [
  | inl le ↦ rw (le, insert_by_time) refl
  | inr gt ↦ rw (gt, insert_by_time) (ap suc (length-insert r ss))
]

length-newest_first : (rs : List Row) → length (newest_first rs) ≡ length rs
unfolding newest_first
length-newest_first [] = refl
length-newest_first (r ∷ rs) = rw length-insert (ap suc (length-newest_first rs))

length-insert_at : (n : ℕ) (r : Row) (rs : List Row) → length (insert_at n r rs) ≡ suc (length rs)
unfolding insert_at
length-insert_at zero r rs = refl
length-insert_at (suc n) r [] = refl
length-insert_at (suc n) r (s ∷ ss) = ap suc (length-insert_at n r ss)

length-arranged : (places : List ℕ) (rs : List Row) → length (arranged places rs) ≡ length rs
unfolding arranged
length-arranged places [] = refl
length-arranged [] (r ∷ rs) = refl
length-arranged (n ∷ places) (r ∷ rs) = rw length-insert_at (ap suc (length-arranged places rs))

pub length-ordered :
    (statuses : Option (List String)) (scan : List ℕ) (db : Db)
    → length (ordered statuses scan db) ≡ length (matching statuses db.rows)
unfolding ordered
length-ordered statuses scan db =
    length-newest_first (arranged scan (matching statuses db.rows))
    ∙ length-arranged scan (matching statuses db.rows)
