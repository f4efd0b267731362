-- ===== src/Api/Migrate.antt =====
-- api/migrate.py: the database URLs, and the wait for the advisory lock.
pub mod Urls
pub mod Lock
use reimbursement_analyzer.Prelude
use reimbursement_analyzer.Prelude.{
  ℕ, zero, suc, ◌+◌, ◌/◌, String, Bool, Option, none, some, List, [], ◌∷◌, leb, ◌==◌, any, str_eq,
  if◌then◌else◌,
}
use Prim.Native.Char.{code}
use reimbursement_analyzer.Errors.{other}
use reimbursement_analyzer.World.{Result, ok, raised}

strip_prefix : String → String → Option String
strip_prefix String.[] s = some s
strip_prefix (String.◌∷◌ c p) String.[] = none
strip_prefix (String.◌∷◌ c p) (String.◌∷◌ d s) =
    let rest = strip_prefix p s in if code c == code d then rest else none

abbrev before_cons : Prim.Native.Char.Char → Option (String × String) → Option (String × String)
before_cons c none = none
before_cons c (some (a, b)) = some (String.◌∷◌ c a, b)

-- `s.partition(sep)`: what stands before the first separator and what stands behind it, or `none`
-- where there is none.
unfoldable pub partition : String → String → Option (String × String)
unfolding strip_prefix
partition sep String.[] = none
partition sep (String.◌∷◌ c s) =
    let rest = partition sep s in
    elim (strip_prefix sep (String.◌∷◌ c s)) [
      | some behind ↦ some ("", behind)
      | none ↦ before_cons c rest
    ]

abbrev pub supported_schemes : List String
supported_schemes = "postgres" ∷ "postgresql" ∷ []

-- `scheme.partition("+")[0]`
unfoldable pub base_of : String → String
unfolding partition
base_of scheme = elim (partition "+" scheme) [ none ↦ scheme | some (base, driver) ↦ base ]

-- `_dsn_body`; `repr` is Python's, of a text.
unfoldable pub dsn_body : (String → String) → String → Result String
unfolding base_of
dsn_body repr url = elim (partition "://" url) [
  | none ↦ raised (other "ValueError" "DATABASE_URL is not a valid DSN: expected '<scheme>://...'")
  | some (scheme, rest) ↦
      if any (str_eq (base_of scheme)) supported_schemes
      then ok rest
      else raised (
          other "ValueError"
            (Prelude.Text.concat ("unsupported database scheme: " ∷ repr (base_of scheme) ∷ [])))
]

abbrev pub with_scheme : String → Result String → Result String
with_scheme scheme (ok rest) = ok (Prelude.Text.append scheme rest)
with_scheme scheme (raised e) = raised e

unfoldable pub backend_url : (String → String) → String → Result String
unfolding dsn_body
backend_url repr url = with_scheme "postgresql+psycopg://" (dsn_body repr url)

unfoldable pub connection_url : (String → String) → String → Result String
unfolding dsn_body
connection_url repr url = with_scheme "postgresql://" (dsn_body repr url)

-- Half a second, and five minutes, in microseconds.
abbrev pub lock_poll : ℕ
lock_poll = 500000

abbrev pub lock_timeout : ℕ
lock_timeout = 300000000

-- How the wait ends, at what time: with the lock, or with a MigrationLockTimeout.
pub data Wait : Type 0 where
  acquired timed_out : ℕ → Wait

-- The loop, at the time `t`: `free` says whether an attempt that starts then gets the lock, and
-- `cost` how long it takes. `none` is the end of the fuel.
unfoldable pub await_lock : (ℕ → Bool) → (ℕ → ℕ) → ℕ → ℕ → ℕ → Option Wait
await_lock free cost zero deadline t = none
await_lock free cost (suc fuel) deadline t =
    let rest = await_lock free cost fuel deadline (t + cost t + lock_poll) in
    if free t
    then some (acquired (t + cost t))
    else if leb deadline (t + cost t)
    then some (timed_out (t + cost t))
    else rest

-- `advisory_lock`, up to its yield. Each round of the loop takes half a second at least.
unfoldable pub advisory_lock : (ℕ → Bool) → (ℕ → ℕ) → ℕ → ℕ → Option Wait
unfolding await_lock
advisory_lock free cost timeout start =
    await_lock free cost (suc (suc (timeout / lock_poll))) (start + timeout) start
