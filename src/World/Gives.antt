-- ===== src/World/Gives.antt =====
-- What an action has done when it returns, one rule for each way to build an action: from `P`
-- before it, a returned value `a` leaves `Q a`. The conditions read the tables and the topics.
use reimbursement_analyzer.Prelude.{String, ◌≡◌, refl, sym, Bool, true, false, List, if◌then◌else◌}
use reimbursement_analyzer.Errors.{Exc}
use reimbursement_analyzer.Repository.Tables.{Db}
use reimbursement_analyzer.World.{
  World, Fault, fine, before, after, Result, ok, raised, Action, pure, raise, gets, modify, try,
  next_event, settle, interact, opened, committed, finish, started, transaction, acquire, ◌>>=◌,
}

pub record Core : Type 0 where
  pub db : Db
  pub requests : List String
  pub reimbursements : List String

abbrev pub core : World → Core
core w = record { db = w.db; requests = w.requests; reimbursements = w.reimbursements }

pub record Gives {A : Type 0} (P : Core → Type 0) (m : Action A) (Q : A → Core → Type 0)
    : Type 0 where
  pub at : (w : World) → P (core w) → (a : A) → (m w).0 ≡ ok a → Q a (core (m w).1)

module _ {A : Type 0} where
  committed-Gives :
      (db : Db) (b : A) (f : Fault) (w : World) (Q : A → Core → Type 0)
      → Q b (core w)
      → (a : A) → (committed db b f w).0 ≡ ok a
      → Q a (core (committed db b f w).1)
  committed-Gives db b fine w Q q a e = let d : b ≡ a = cc in rw (sym d) q
  committed-Gives db b (before x) w Q q a e = cc
  committed-Gives db b (after x) w Q q a e = cc

  finish-Gives :
      (db : Db) (r : Result A) (w : World) (Q : A → Core → Type 0)
      → ((a : A) → r ≡ ok a → Q a (core w))
      → (a : A) → (finish db r w).0 ≡ ok a
      → Q a (core (finish db r w).1)
  unfolding next_event
  finish-Gives db (ok b) w Q q a e =
      committed-Gives db b (next_event w).0 (next_event w).1 Q (q b refl) a e
  finish-Gives db (raised x) w Q q a e = cc

module _ {A : Type 0} {P : Core → Type 0} where
  pub Gives-pure : (a : A) (Q : A → Core → Type 0) → ((c : Core) → P c → Q a c) → Gives P (pure a) Q
  Gives-pure a Q h = record { at = λ w p b e. let d : a ≡ b = cc in rw (sym d) (h (core w) p) }

  pub Gives-gets : (f : World → A) → Gives P (gets f) (λ a c. P c)
  Gives-gets f = record { at = λ w p b e. p }

  pub Gives-raise : (e : Exc) (Q : A → Core → Type 0) → Gives P (raise {A = A} e) Q
  Gives-raise e Q = record { at = λ w p b d. cc }

  pub Gives-if :
      (b : Bool) (m n : Action A) (Q : A → Core → Type 0)
      → Gives P m Q
      → Gives P n Q
      → Gives P (if b then m else n) Q
  Gives-if true m n Q hm hn = hm
  Gives-if false m n Q hm hn = hn

  settle-Gives :
      (f : Fault) (m : Action A) (Q : A → Core → Type 0) (w : World)
      → Gives P m Q
      → P (core w)
      → (a : A) → (settle f m w).0 ≡ ok a
      → Q a (core (settle f m w).1)
  settle-Gives fine m Q w h p a e = h.at w p a e
  settle-Gives (before x) m Q w h p a e = cc
  settle-Gives (after x) m Q w h p a e = cc

  pub Gives-interact : (m : Action A) (Q : A → Core → Type 0) → Gives P m Q → Gives P (interact m) Q
  unfolding interact next_event
  Gives-interact m Q h = record {
    at = λ w p a e. settle-Gives (next_event w).0 m Q (next_event w).1 h p a e;
  }

  started-Gives :
      (f : Fault) (m : Action A) (Q : A → Core → Type 0) (w : World)
      → Gives P m Q
      → P (core w)
      → (a : A) → (started m f w).0 ≡ ok a
      → Q a (core (started m f w).1)
  started-Gives fine m Q w h p a e =
      finish-Gives w.db (m (opened w)).0 (m (opened w)).1 Q (h.at (opened w) p) a e
  started-Gives (before x) m Q w h p a e = cc
  started-Gives (after x) m Q w h p a e = cc

  pub Gives-transaction :
      (m : Action A) (Q : A → Core → Type 0) → Gives P m Q → Gives P (transaction m) Q
  unfolding transaction next_event
  Gives-transaction m Q h = record {
    at = λ w p a e. started-Gives (next_event w).0 m Q (next_event w).1 h p a e;
  }

pub Gives-modify :
    (f : World → World) (P Q : Core → Type 0)
    → ((w : World) → P (core w) → Q (core (f w)))
    → Gives P (modify f) (λ a c. Q c)
Gives-modify f P Q h = record { at = λ w p a e. h w p }

module _ {A B : Type 0} where
  settled :
      (h : Exc → Action B) (f : A → Action B) (Q : A → Core → Type 0) (R : B → Core → Type 0)
      → ((e : Exc) → Gives (λ c. Unit) (h e) R)
      → ((a : A) → Gives (Q a) (f a) R)
      → (r : Result A) (w : World) → ((a : A) → r ≡ ok a → Q a (core w))
      → (b : B) → (try (λ _. (r, w)) h f w).0 ≡ ok b
      → R b (core (try (λ _. (r, w)) h f w).1)
  settled h f Q R hh hf (ok a) w q b e = (hf a).at w (q a refl) b e
  settled h f Q R hh hf (raised x) w q b e = (hh x).at w tt b e

  pub Gives-try :
      {P : Core → Type 0} (m : Action A) (h : Exc → Action B) (f : A → Action B)
      (Q : A → Core → Type 0) (R : B → Core → Type 0)
      → Gives P m Q
      → ((e : Exc) → Gives (λ c. Unit) (h e) R)
      → ((a : A) → Gives (Q a) (f a) R)
      → Gives P (try m h f) R
  Gives-try m h f Q R hm hh hf = record {
    at = λ w p. settled h f Q R hh hf (m w).0 (m w).1 (hm.at w p);
  }

  pub Gives-bind :
      {P : Core → Type 0} (m : Action A) (f : A → Action B) (Q : A → Core → Type 0)
      (R : B → Core → Type 0)
      → Gives P m Q
      → ((a : A) → Gives (Q a) (f a) R)
      → Gives P (m >>= f) R
  Gives-bind m f Q R hm hf = record {
    at = λ w p. settled (λ e. raise e) f Q R (λ e. Gives-raise e R) hf (m w).0 (m w).1 (hm.at w p);
  }

pub Gives-acquire :
    {P : Core → Type 0} {A : Type 0} (m : Action A) (Q : A → Core → Type 0)
    → Gives P m Q
    → Gives P (acquire m) Q
unfolding acquire
Gives-acquire {P = P} m Q h =
    Gives-bind (interact (pure tt)) (λ _. m) (λ _ c. P c) Q
      (Gives-interact (pure tt) (λ _ c. P c) (Gives-pure tt (λ _ c. P c) (λ c p. p))) (λ _. h)
