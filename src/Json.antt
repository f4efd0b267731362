-- ===== src/Json.antt =====
-- JSON values: what `json.loads` returns and what a `dict[str, Any]` holds. A client's number is
-- kept as the text that prints it, since no code computes with one; `int` is for the counts that
-- the services write themselves.
use reimbursement_analyzer.Prelude.{
  ℕ, String, Bool, Option, none, some, List, [], ◌∷◌, str_eq, if◌then◌else◌,
}

mutual
  pub data Json : Type 0 where
    null : Json
    bool : Bool → Json
    number : String → Json
    int : ℕ → Json
    str : String → Json
    arr : Items → Json
    obj : Fields → Json

  pub data Items : Type 0 where
    nil : Items
    cons : Json → Items → Items

  -- The entries of a dict in insertion order.
  pub data Fields : Type 0 where
    end : Fields
    field : String → Json → Fields → Fields

-- `d.get(k)`
unfoldable pub get : String → Fields → Option Json
get k end = none
get k (field j v fs) = if str_eq j k then some v else get k fs

-- `d[k] = v`: a key that is there keeps its place.
unfoldable pub set : String → Json → Fields → Fields
set k v end = field k v end
set k v (field j w fs) = if str_eq j k then field j v fs else field j w (set k v fs)

-- `{key: value for key, value in d.items() if key != k}`
unfoldable pub without : String → Fields → Fields
without k end = end
without k (field j v fs) = let rest = without k fs in if str_eq j k then rest else field j v rest

-- `{**d, **e}`
unfoldable pub merge : Fields → Fields → Fields
unfolding set
merge d end = d
merge d (field k v e) = merge (set k v d) e

-- A dict display.
abbrev pub dict : List (String × Json) → Fields
dict [] = end
dict ((k, v) ∷ kvs) = field k v (dict kvs)

abbrev pub items : List Json → Items
items [] = nil
items (j ∷ js) = cons j (items js)

abbrev pub optional : Option String → Json
optional none = null
optional (some s) = str s
