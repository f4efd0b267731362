-- ===== src/Agent/Prompts.antt =====
-- agent/prompts: the substitution of the placeholders of a template, from left to right, once.
use reimbursement_analyzer.Prelude.{
  ℕ, zero, suc, ◌-◌, String, Bool, true, false, ◌&&◌, Option, none, some, List, [], ◌∷◌, ◌==◌, ◌≡◌,
  refl, if◌then◌else◌,
}
use Prim.Native.Char.{code}
use reimbursement_analyzer.Prelude

-- Whether `s` begins with `p`.
abbrev pub starts : String → String → Bool
starts String.[] s = true
starts (String.◌∷◌ d p) String.[] = false
starts (String.◌∷◌ d p) (String.◌∷◌ c s) = code d == code c && starts p s

-- The first placeholder that stands at the front, and its value.
abbrev pub at_front : List (String × String) → String → Option (String × String)
at_front [] s = none
at_front ((p, v) ∷ values) s = if starts p s then some (p, v) else at_front values s

abbrev step : Option (String × String) → (ℕ → String) → String → String
step none rest c = Prelude.Text.append c (rest 0)
step (some (p, v)) rest c = Prelude.Text.append v (rest (Prelude.Text.length p - 1))

-- `skip` characters of a placeholder that was replaced are still to be passed over.
substitute_from : List (String × String) → String → ℕ → String
substitute_from values String.[] skip = ""
substitute_from values (String.◌∷◌ c s) (suc skip) = substitute_from values s skip
substitute_from values (String.◌∷◌ c s) zero =
    step (at_front values (String.◌∷◌ c s)) (λ k. substitute_from values s k)
      (String.◌∷◌ c String.[])

-- `_PLACEHOLDER_PATTERN.sub(lambda match: values[match.group()], template)`; with one placeholder
-- it is `str.replace`.
unfoldable pub substitute : List (String × String) → String → String
unfolding substitute_from Prelude.Text.append
substitute values template = substitute_from values template 0

-- A value that holds a placeholder is not scanned again.
substitute_once : substitute (("{a}", "x{b}") ∷ ("{b}", "y") ∷ []) "1 {a} 2 {b}" ≡ "1 x{b} 2 y"
unfolding substitute
substitute_once = refl
