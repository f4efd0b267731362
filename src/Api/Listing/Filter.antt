-- ===== src/Api/Listing/Filter.antt =====
-- The status filter, and the text that it is written as.
use reimbursement_analyzer.Prelude
use reimbursement_analyzer.Prelude.{
  ℕ, String, ◌≡◌, ◌≢◌, refl, sym, ap, ◌∙◌, true, false, Option, none, some, List, [], ◌∷◌, All, inl,
  inr, Bool-cases, arith, eq_iff, str_eq, ◌==◌, if◌then◌else◌,
}
use Prim.Native.Char.{Char, code}
use text.Mathlib.TextEquality.{Char-path}
use reimbursement_analyzer.World.{ok}
use reimbursement_analyzer.Api.Listing.{parse_status_filter}

-- No character of the text is a comma.
abbrev pub HasNoComma : String → Type 0
HasNoComma s = Prelude.Text.any_code (λ c. c == b',') s ≡ false

abbrev parts_of : String → List String
parts_of s = Prelude.Text.split_on b',' s

abbrev joined : List String → String
joined ss = Prelude.Text.join "," ss

parts-cons : (s : String) → (p : String) × (ps : List String) × (parts_of s ≡ p ∷ ps)
unfolding Prelude.Text.split_on
parts-cons String.[] = ("", [], refl)
parts-cons (String.◌∷◌ c s) = elim (Bool-cases (code c == b',')) [
  | inl comma ↦ ("", parts_of s, rw comma refl)
  | inr other ↦ let (p, ps, e) = parts-cons s in (String.◌∷◌ c p, ps, rw (other, e) refl)
]

joined-empty : (ss : List String) → ss ≢ [] → joined ("" ∷ ss) ≡ String.◌∷◌ "," (joined ss)
unfolding Prelude.Text.join Prelude.Text.append
joined-empty [] h = absurd (h refl)
joined-empty (s ∷ ss) h = refl

joined-push :
    (c : Char) (p : String) (ps : List String)
    → joined (String.◌∷◌ c p ∷ ps) ≡ String.◌∷◌ c (joined (p ∷ ps))
unfolding Prelude.Text.join Prelude.Text.append
joined-push c p [] = refl
joined-push c p (q ∷ ps) = refl

joined-parts : (s : String) → joined (parts_of s) ≡ s
unfolding Prelude.Text.split_on
joined-parts String.[] = unfold Prelude.Text.join in refl
joined-parts (String.◌∷◌ c s) =
    let (p, ps, e) = parts-cons s in
    let whole : joined (p ∷ ps) ≡ s = rw e at (joined-parts s) in
    elim (Bool-cases (code c == b',')) [
      | inl comma ↦
          let is_comma : c ≡ "," = Char-path c "," (ground arith) in
          rw (comma, e)
            (joined-empty (p ∷ ps) (λ d. cc)
              ∙ (ap (String.◌∷◌ ",") whole)
              ∙ ap (λ d. String.◌∷◌ d s) (sym is_comma))
      | inr other ↦ rw (other, e) (joined-push c p ps ∙ ap (String.◌∷◌ c) whole)
    ]

parts-plain : (p : String) → HasNoComma p → parts_of p ≡ p ∷ []
unfolding Prelude.Text.split_on
parts-plain String.[] h = refl
parts-plain (String.◌∷◌ c p) h = elim (Bool-cases (code c == b',')) [
  | inl comma ↦ let bad : true ≡ false = rw comma at h in cc
  | inr other ↦ let rest : HasNoComma p = rw other at h in rw (other, parts-plain p rest) refl
]

parts-append :
    (p t : String)
    → HasNoComma p
    → parts_of (Prelude.Text.append p (String.◌∷◌ "," t)) ≡ p ∷ parts_of t
unfolding Prelude.Text.split_on Prelude.Text.append
parts-append String.[] t h = refl
parts-append (String.◌∷◌ c p) t h = elim (Bool-cases (code c == b',')) [
  | inl comma ↦ let bad : true ≡ false = rw comma at h in cc
  | inr other ↦ let rest : HasNoComma p = rw other at h in rw (other, parts-append p t rest) refl
]

parts-joined :
    (p : String) (ps : List String) → All HasNoComma (p ∷ ps) → parts_of (joined (p ∷ ps)) ≡ p ∷ ps
unfolding Prelude.Text.join
parts-joined p [] (h, _) = parts-plain p h
parts-joined p (q ∷ ps) (h, hs) =
    (unfold Prelude.Text.append in parts-append p (joined (q ∷ ps)) h)
    ∙ ap (◌∷◌ p) (parts-joined q ps hs)

-- Each part is free of commas.
parts-All : (s : String) → All HasNoComma (parts_of s)
unfolding Prelude.Text.split_on
parts-All String.[] = (refl, tt)
parts-All (String.◌∷◌ c s) = elim (Bool-cases (code c == b',')) [
  | inl comma ↦ rw comma (refl, parts-All s)
  | inr other ↦
      let (p, ps, e) = parts-cons s in
      let (h, hs) : All HasNoComma (p ∷ ps) = rw e at (parts-All s) in
      rw (other, e) (rw other h, hs)
]

-- The statuses that parse_status_filter makes of a text have no comma in them, and joined by commas
-- they are that text: it splits the text at every comma.
pub parse_status_filter-join :
    (value : String) (statuses : List String)
    → parse_status_filter (value ∷ []) ≡ ok (some statuses)
    → All HasNoComma statuses × (Prelude.Text.join "," statuses ≡ value)
unfolding parse_status_filter
parse_status_filter-join value statuses = elim (Bool-cases (str_eq value "")) [
  | inl empty ↦ rw (empty, parse_status_filter) λ e. cc
  | inr full ↦
      rw (full, parse_status_filter)
        λ e.
          let d : parts_of value ≡ statuses = cc in rw (sym d) (parts-All value, joined-parts value)
]

-- Statuses without a comma, one at least, joined by commas to a text that is not empty, are what
-- parse_status_filter makes of that text.
pub join-parse_status_filter :
    (p : String) (ps : List String)
    → All HasNoComma (p ∷ ps)
    → Prelude.Text.join "," (p ∷ ps) ≢ ""
    → parse_status_filter (Prelude.Text.join "," (p ∷ ps) ∷ []) ≡ ok (some (p ∷ ps))
unfolding parse_status_filter
join-parse_status_filter p ps h full = elim (Bool-cases (str_eq (joined (p ∷ ps)) "")) [
  | inl empty ↦ absurd (full ((eq_iff (joined (p ∷ ps)) "").0 empty))
  | inr other ↦ rw (other, parse_status_filter) (ap (λ ss. ok (some ss)) (parts-joined p ps h))
]
