-- ===== src/Prelude/Text/Laws.antt =====
-- Lemmas on the concatenation of texts.
use Prim.Native.Nat.{ℕ, zero, suc, ◌+◌, ◌≤◌}
use Prim.Native.String.{String}
use mathlib.Core.Path.{◌≡◌, refl, sym, ap}
use mathlib.Core.List.{List, [], ◌∷◌, ◌++◌}
use native.Mathlib.Omega.{arith}
use reimbursement_analyzer.Prelude.Text.{length, take, append, concat}

pub append-empty : (s : String) → append s "" ≡ s
unfolding append
append-empty String.[] = refl
append-empty (String.◌∷◌ c s) = ap (String.◌∷◌ c) (append-empty s)

pub append_assoc : (s t u : String) → append (append s t) u ≡ append s (append t u)
unfolding append
append_assoc String.[] t u = refl
append_assoc (String.◌∷◌ c s) t u = ap (String.◌∷◌ c) (append_assoc s t u)

pub length-append : (s t : String) → length (append s t) ≡ length s + length t
unfolding append
length-append String.[] t = omega arith
length-append (String.◌∷◌ c s) t = let e = length-append s t in omega arith

pub concat-append : (ss ts : List String) → concat (ss ++ ts) ≡ append (concat ss) (concat ts)
unfolding concat append
concat-append [] ts = refl
concat-append (s ∷ ss) ts = rw (concat-append ss ts) (sym (append_assoc s (concat ss) (concat ts)))

pub take_all : (n : ℕ) (s : String) → length s ≤ n → take n s ≡ s
unfolding take
take_all zero String.[] h = refl
take_all zero (String.◌∷◌ c s) h = absurd (omega arith)
take_all (suc n) String.[] h = refl
take_all (suc n) (String.◌∷◌ c s) h = ap (String.◌∷◌ c) (take_all n s (omega arith))
