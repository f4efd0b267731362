-- ===== src/World.antt =====
-- The state that a service reads and writes, and its actions: a state that comes back beside an
-- exception too, since what was written stays written.
-- Everything outside the process answers through a script of events: each call of the database or
-- the broker takes the next event, which says how much time passed, whether the call failed, and in
-- which order a query finds its rows.
-- A theorem that holds for every script holds whatever fails, and whenever it does.
pub mod Returns
pub mod Keeps
pub mod Gives
pub mod Yields
pub mod Steady
use reimbursement_analyzer.Prelude.{
  ℕ, ◌+◌, String, ◌≡◌, refl, ◌⊎◌, inl, inr, Option, none, some, List, [], ◌∷◌, ◌++◌,
}
use reimbursement_analyzer.Json.{Json}
use reimbursement_analyzer.Errors.{Exc}
use reimbursement_analyzer.Repository.Tables.{Db}

-- How one call ends: as it should, with an exception before it had any effect, or with an
-- exception after it had its effect (a reply that was lost).
pub data Fault : Type 0 where
  fine : Fault
  before after : Exc → Fault

pub record Event : Type 0 where
  pub elapsed : ℕ
  pub fault : Fault
  -- where a query finds the rows: see Repository/Page
  pub scan : List ℕ

-- One increment of a counter, or one observation, with its labels.
pub record Sample : Type 0 where
  pub metric : String
  pub labels : List String

pub record World : Type 0 where
  pub db : Db
  -- when the open transaction began, which is what now() shows inside it
  pub began : Option ℕ
  pub clock : ℕ
  pub events : List Event
  -- the order in which the current query finds its rows
  pub scan : List ℕ
  -- the messages on the two topics, oldest first
  pub requests : List String
  pub reimbursements : List String
  -- the failure log, the logger it falls back on, and the structured events that were logged
  pub failures : List Json
  pub fallbacks : List Json
  pub logs : List Json
  pub samples : List Sample
  -- the offsets that the consumer has committed
  pub commits : List ℕ
  pub correlation_id : Option String

pub data Result {ℓ} (A : Type ℓ) : Type ℓ where
  ok : A → Result A
  raised : Exc → Result A

pub Result-cases {ℓ} :
    {A : Type ℓ} (r : Result A) → ((a : A) × (r ≡ ok a)) ⊎ ((e : Exc) × (r ≡ raised e))
Result-cases (ok a) = inl (a, refl)
Result-cases (raised e) = inr (e, refl)

abbrev pub Action {ℓ} : Type ℓ → Type ℓ
Action A = World → Result A × World

module _ {ℓ} {A : Type ℓ} where
  abbrev pub pure : A → Action A
  pure a w = (ok a, w)

  abbrev pub raise : Exc → Action A
  raise e w = (raised e, w)

  abbrev pub gets : (World → A) → Action A
  gets f w = (ok (f w), w)

abbrev pub modify : (World → World) → Action (Unit {0})
modify f w = (ok tt, f w)

infixl 5 ◌>>=◌ ◌>>◌
abbrev pub ◌>>=◌ {ℓ κ} : {A : Type ℓ} {B : Type κ} → Action A → (A → Action B) → Action B
◌>>=◌ m f w = let (r, w') = m w in elim r [ ok a ↦ f a w' | raised e ↦ (raised e, w') ]

abbrev pub ◌>>◌ {ℓ κ} : {A : Type ℓ} {B : Type κ} → Action A → Action B → Action B
m >> k = m >>= λ _. k

-- `try: m` and its `except` and `else` branches.
abbrev pub try {ℓ κ} :
    {A : Type ℓ} {B : Type κ} → Action A → (Exc → Action B) → (A → Action B) → Action B
try m handler rest w = let (r, w') = m w in elim r [ ok a ↦ rest a w' | raised e ↦ handler e w' ]

abbrev peek : List Event → Event
peek [] = record { elapsed = 0; fault = fine; scan = [] }
peek (e ∷ es) = e

abbrev rest_of : List Event → List Event
rest_of [] = []
rest_of (e ∷ es) = es

abbrev next_scan : List Event → List ℕ → List ℕ
next_scan [] scan = scan
next_scan (e ∷ es) scan = e.scan

-- Takes the next event; a script that has ended answers that all is fine.
unfoldable pub next_event : World → Fault × World
next_event w = (
  (peek w.events).fault,
  record w {
    clock = w.clock + (peek w.events).elapsed;
    events = rest_of w.events;
    scan = next_scan w.events w.scan;
  },
)

abbrev pub settle {ℓ} : {A : Type ℓ} → Fault → Action A → Action A
settle fine m w = m w
settle (before e) m w = (raised e, w)
settle (after e) m w = (raised e, (m w).1)

-- One call of the database or the broker.
unfoldable pub interact {ℓ} : {A : Type ℓ} → Action A → Action A
unfolding next_event
interact m w = let (f, w') = next_event w in settle f m w'

abbrev pub opened : World → World
opened w = record w { began = some w.clock }

abbrev pub closed : World → World
closed w = record w { began = none }

abbrev pub rolled_back : Db → World → World
rolled_back db w = record w { db = db; began = none }

abbrev pub committed {ℓ} : {A : Type ℓ} → Db → A → Fault → World → Result A × World
committed db a fine w = (ok a, closed w)
committed db a (before e) w = (raised e, rolled_back db w)
committed db a (after e) w = (raised e, closed w)

abbrev pub finish {ℓ} : {A : Type ℓ} → Db → Result A → World → Result A × World
finish db (ok a) w = let (f, w') = next_event w in committed db a f w'
finish db (raised e) w = (raised e, rolled_back db w)

abbrev pub started {ℓ} : {A : Type ℓ} → Action A → Fault → World → Result A × World
started m fine w = let (r, w') = m (opened w) in finish w.db r w'
started m (before e) w = (raised e, w)
started m (after e) w = (raised e, w)

-- `async with conn.transaction(): m`: BEGIN, the body, and COMMIT, or ROLLBACK on an exception.
unfoldable pub transaction {ℓ} : {A : Type ℓ} → Action A → Action A
unfolding next_event
transaction m w = let (f, w') = next_event w in started m f w'

-- `async with pool.acquire(timeout=…) as conn: m`
unfoldable pub acquire {ℓ} : {A : Type ℓ} → Action A → Action A
unfolding interact
acquire m = interact (pure {A = Unit {0}} tt) >> m

-- now(), as the database answers it
abbrev pub sql_now : World → ℕ
sql_now w = elim w.began [ none ↦ w.clock | some t ↦ t ]

abbrev pub count : String → List String → Action (Unit {0})
count metric labels =
    modify
      (λ w. record w { samples = w.samples ++ record { metric = metric; labels = labels } ∷ [] })

abbrev pub log : Json → Action (Unit {0})
log j = modify (λ w. record w { logs = w.logs ++ j ∷ [] })

-- `set_correlation_id` … `finally: reset_correlation_id`
unfoldable pub with_correlation_id {ℓ} : {A : Type ℓ} → Option String → Action A → Action A
with_correlation_id id m w =
    let (r, w') = m (record w { correlation_id = id }) in
    (r, record w' { correlation_id = w.correlation_id })

-- What `consume(num_messages=1)` returns: no message, a consumer error, or a message with its
-- offset and its value (`none` for a record with a null value).
pub data Poll : Type 0 where
  nothing broken : Poll
  message : ℕ → Option String → Poll

-- `consumer.commit(message=message, asynchronous=False)`
unfoldable pub commit : ℕ → Action (Unit {0})
unfolding interact
commit offset = interact (modify (λ w. record w { commits = w.commits ++ offset ∷ [] }))
