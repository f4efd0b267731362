-- ===== src/Prelude/Text.antt =====
-- Python's `str` as the native `String`, walked character by character.
pub mod Laws
use Prim.Native.Nat.{ℕ, zero, suc, ◌+◌, ◌/◌, ◌%◌, ◌≤◌}
use Prim.Native.Char.{Char, code}
use Prim.Native.String.{String}
use mathlib.Core.Path.{◌≡◌, refl}
use mathlib.Core.Bool.{Bool, true, false, ◌&&◌, ◌||◌}
use mathlib.Core.List.{List, [], ◌∷◌}
use reimbursement_analyzer.Prelude.Tests.{ltb, leb, ◌==◌, if◌then◌else◌}
use native.Mathlib.Omega.{arith}

-- `len(s)`
abbrev pub length : String → ℕ
length String.[] = 0
length (String.◌∷◌ c s) = suc (length s)

-- `s[:n]`
unfoldable pub take : ℕ → String → String
take zero s = ""
take (suc n) String.[] = ""
take (suc n) (String.◌∷◌ c s) = String.◌∷◌ c (take n s)

-- `s + t`
unfoldable pub append : String → String → String
append String.[] t = t
append (String.◌∷◌ c s) t = String.◌∷◌ c (append s t)

-- An f-string, as the concatenation of its parts.
unfoldable pub concat : List String → String
unfolding append
concat [] = ""
concat (s ∷ ss) = append s (concat ss)

-- `sep.join(ss)`
unfoldable pub join : String → List String → String
unfolding append
join sep [] = ""
join sep (s ∷ []) = s
join sep (s ∷ t ∷ ss) = append s (append sep (join sep (t ∷ ss)))

-- Python's whitespace, as `str.split()` uses it, and Unicode's, as pydantic's strip uses it.
unfoldable pub is_unicode_space : ℕ → Bool
is_unicode_space c =
    (leb 9 c && leb c 13)
    || c == 32
    || c == 0x85
    || c == 0xa0
    || c == 0x1680
    || (leb 0x2000 c && leb c 0x200a)
    || c == 0x2028
    || c == 0x2029
    || c == 0x202f
    || c == 0x205f
    || c == 0x3000

unfoldable pub is_space : ℕ → Bool
unfolding is_unicode_space
is_space c = is_unicode_space c || (leb 28 c && leb c 31)

push : String → Char → String
unfolding append
push s c = append s (String.◌∷◌ c String.[])

abbrev nonempty : String → List String → List String
nonempty String.[] ss = ss
nonempty s ss = s ∷ ss

-- The loop of `str.split()`: `cur` is the word in progress.
split_from : String → String → List String
unfolding push is_space
split_from cur String.[] = nonempty cur []
split_from cur (String.◌∷◌ c s) =
    let closed = nonempty cur (split_from "" s) in
    let longer = split_from (push cur c) s in if is_space (code c) then closed else longer

-- `s.split()`
unfoldable pub split : String → List String
unfolding split_from
split s = split_from "" s

abbrev push_first : Char → List String → List String
push_first c [] = String.◌∷◌ c String.[] ∷ []
push_first c (s ∷ ss) = String.◌∷◌ c s ∷ ss

-- `s.split(sep)` for a separator of one character
unfoldable pub split_on : ℕ → String → List String
split_on sep String.[] = "" ∷ []
split_on sep (String.◌∷◌ c s) =
    let rest = split_on sep s in if code c == sep then "" ∷ rest else push_first c rest

-- `strip_whitespace=True`
strip_left : String → String
unfolding is_unicode_space
strip_left String.[] = ""
strip_left (String.◌∷◌ c s) =
    let rest = strip_left s in if is_unicode_space (code c) then rest else String.◌∷◌ c s

abbrev cons_unless_blank : Bool → Char → String → String
cons_unless_blank true c String.[] = ""
cons_unless_blank b c s = String.◌∷◌ c s

strip_right : String → String
unfolding is_unicode_space
strip_right String.[] = ""
strip_right (String.◌∷◌ c s) = cons_unless_blank (is_unicode_space (code c)) c (strip_right s)

unfoldable pub strip : String → String
unfolding strip_left strip_right
strip s = strip_right (strip_left s)

-- Whether every character, or some character, passes a test of its code point.
abbrev pub all_codes : (ℕ → Bool) → String → Bool
all_codes p String.[] = true
all_codes p (String.◌∷◌ c s) = p (code c) && all_codes p s

abbrev pub any_code : (ℕ → Bool) → String → Bool
any_code p String.[] = false
any_code p (String.◌∷◌ c s) = p (code c) || any_code p s

-- How many characters pass the test.
abbrev pub count : (ℕ → Bool) → String → ℕ
count p String.[] = 0
count p (String.◌∷◌ c s) = (if p (code c) then 1 else 0) + count p s

digit : ℕ → String
digit n =
    if n == 0
    then "0"
    else if n == 1
    then "1"
    else if n == 2
    then "2"
    else if n == 3
    then "3"
    else if n == 4
    then "4"
    else if n == 5
    then "5"
    else if n == 6
    then "6"
    else if n == 7
    then "7"
    else if n == 8
    then "8"
    else "9"

decimal_from : ℕ → ℕ → String → String
unfolding append digit
decimal_from zero n acc = acc
decimal_from (suc fuel) n acc =
    let more = decimal_from fuel (n / 10) (append (digit (n % 10)) acc) in
    if ltb n 10 then append (digit n) acc else more

-- `str(n)`; a number has at most as many digits as its value, so the fuel is enough.
unfoldable pub decimal : ℕ → String
unfolding decimal_from
decimal n = decimal_from (suc n) n ""

decimal-205 : decimal 205 ≡ "205"
unfolding decimal
decimal-205 = refl

split_words : join " " (split "  a b\n\nattempt 2 ") ≡ "a b attempt 2"
unfolding split join
split_words = refl

strip_ends : strip " REQ-1\t " ≡ "REQ-1"
unfolding strip
strip_ends = refl

pub length-take_le : (n : ℕ) (s : String) → length (take n s) ≤ n
unfolding take
length-take_le zero s = omega arith
length-take_le (suc n) String.[] = omega arith
length-take_le (suc n) (String.◌∷◌ c s) = omega (arith, length-take_le n s)

concat-take : concat ("ab" ∷ take 2 "cde" ∷ []) ≡ "abcd"
unfolding concat take
concat-take = refl
