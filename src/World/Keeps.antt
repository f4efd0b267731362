-- ===== src/World/Keeps.antt =====
-- Invariants of actions, one rule for each way to build an action. An invariant is framed if it is
-- about the database, the topics and the committed offsets alone, and holds after a rollback.
use reimbursement_analyzer.Prelude.{
  String, ◌≡◌, refl, Bool, true, false, Option, List, if◌then◌else◌,
}
use reimbursement_analyzer.Json.{Json}
use reimbursement_analyzer.Errors.{Exc}
use reimbursement_analyzer.World.{
  World, Fault, fine, before, after, Result, ok, raised, Action, pure, raise, gets, try, count, log,
  next_event, settle, interact, opened, rolled_back, committed, finish, started, transaction,
  acquire, with_correlation_id, ◌>>=◌, ◌>>◌,
}

-- `m` keeps `P`, whether it returns or raises
pub record Keeps {ℓ} {A : Type ℓ} (P : World → Type 0) (m : Action A) : Type ℓ where
  pub at : (w : World) → P w → P (m w).1

pub record IsFramed (P : World → Type 0) : Type 0 where
  pub same :
      (w w' : World)
      → w'.db ≡ w.db
      → w'.requests ≡ w.requests
      → w'.reimbursements ≡ w.reimbursements
      → w'.commits ≡ w.commits
      → P w
      → P w'
  pub back : (w w' : World) → P w → P w' → P (rolled_back w.db w')

module _ {ℓ} {A : Type ℓ} {P : World → Type 0} where
  pub Keeps-pure : (a : A) → Keeps P (pure a)
  Keeps-pure a = record { at = λ w h. h }

  pub Keeps-raise : (e : Exc) → Keeps P (raise {A = A} e)
  Keeps-raise e = record { at = λ w h. h }

  pub Keeps-gets : (f : World → A) → Keeps P (gets f)
  Keeps-gets f = record { at = λ w h. h }

  pub Keeps-if : (b : Bool) (m n : Action A) → Keeps P m → Keeps P n → Keeps P (if b then m else n)
  Keeps-if true m n hm hn = hm
  Keeps-if false m n hm hn = hn

module _ {ℓ κ} {A : Type ℓ} {B : Type κ} {P : World → Type 0} where
  settled :
      (h : Exc → Action B) (f : A → Action B)
      → ((e : Exc) → Keeps P (h e))
      → ((a : A) → Keeps P (f a))
      → (r : Result A) (w : World) → P w
      → P (try (λ _. (r, w)) h f w).1
  settled h f hh hf (ok a) w p = (hf a).at w p
  settled h f hh hf (raised e) w p = (hh e).at w p

  pub Keeps-try :
      (m : Action A) (h : Exc → Action B) (f : A → Action B)
      → Keeps P m
      → ((e : Exc) → Keeps P (h e))
      → ((a : A) → Keeps P (f a))
      → Keeps P (try m h f)
  Keeps-try m h f hm hh hf = record { at = λ w p. settled h f hh hf (m w).0 (m w).1 (hm.at w p) }

  pub Keeps-bind :
      (m : Action A) (f : A → Action B) → Keeps P m → ((a : A) → Keeps P (f a)) → Keeps P (m >>= f)
  Keeps-bind m f hm hf = record {
    at = λ w p. settled (λ e. raise e) f Keeps-raise hf (m w).0 (m w).1 (hm.at w p);
  }

module _ {ℓ} {A : Type ℓ} (P : World → Type 0) where
  -- Where the rest of a block returns, the block leaves the state that its first action left.
  pub pure_after :
      {B : Type 0} (m : Action B) (a : A) (w : World) → P (m w).1 → P ((m >> pure a) w).1
  pure_after m a w h =
      settled {P = P} (λ e. raise e) (λ b. pure a) Keeps-raise (λ b. Keeps-pure a) (m w).0 (m w).1 h

module _ {P : World → Type 0} (framed : IsFramed P) where
  pub Keeps-count : (metric : String) (labels : List String) → Keeps P (count metric labels)
  Keeps-count metric labels = record { at = λ w h. framed.same w _ refl refl refl refl h }

  pub Keeps-log : (j : Json) → Keeps P (log j)
  Keeps-log j = record { at = λ w h. framed.same w _ refl refl refl refl h }

  next_event-P : (w : World) → P w → P (next_event w).1
  unfolding next_event
  next_event-P w h = framed.same w _ refl refl refl refl h

  module _ {ℓ} {A : Type ℓ} where
    settle-P : (f : Fault) (m : Action A) (w : World) → Keeps P m → P w → P (settle f m w).1
    settle-P fine m w hm h = hm.at w h
    settle-P (before e) m w hm h = h
    settle-P (after e) m w hm h = hm.at w h

    pub Keeps-interact : (m : Action A) → Keeps P m → Keeps P (interact m)
    unfolding interact
    Keeps-interact m hm = record {
      at = λ w h. settle-P (next_event w).0 m (next_event w).1 hm (next_event-P w h);
    }

    committed-P :
        (w0 : World) (a : A) (f : Fault) (w : World) → P w0 → P w → P (committed w0.db a f w).1
    committed-P w0 a fine w h0 h = framed.same w _ refl refl refl refl h
    committed-P w0 a (before e) w h0 h = framed.back w0 w h0 h
    committed-P w0 a (after e) w h0 h = framed.same w _ refl refl refl refl h

    finish-P : (w0 : World) (r : Result A) (w : World) → P w0 → P w → P (finish w0.db r w).1
    finish-P w0 (ok a) w h0 h =
        committed-P w0 a (next_event w).0 (next_event w).1 h0 (next_event-P w h)
    finish-P w0 (raised e) w h0 h = framed.back w0 w h0 h

    started-P : (m : Action A) (f : Fault) (w : World) → Keeps P m → P w → P (started m f w).1
    started-P m fine w hm h =
        finish-P w (m (opened w)).0 (m (opened w)).1 h
          (hm.at (opened w) (framed.same w _ refl refl refl refl h))
    started-P m (before e) w hm h = h
    started-P m (after e) w hm h = h

    pub Keeps-transaction : (m : Action A) → Keeps P m → Keeps P (transaction m)
    unfolding transaction
    Keeps-transaction m hm = record {
      at = λ w h. started-P m (next_event w).0 (next_event w).1 hm (next_event-P w h);
    }

    pub Keeps-with_correlation_id :
        (id : Option String) (m : Action A) → Keeps P m → Keeps P (with_correlation_id id m)
    unfolding with_correlation_id
    Keeps-with_correlation_id id m hm = record {
      at = λ w h.
          let w1 = record w { correlation_id = id } in
          framed.same (m w1).1 _ refl refl refl refl
            (hm.at w1 (framed.same w w1 refl refl refl refl h));
    }

  pub Keeps-acquire {ℓ} : {A : Type ℓ} (m : Action A) → Keeps P m → Keeps P (acquire m)
  unfolding acquire
  Keeps-acquire m hm = search (Keeps-bind, Keeps-interact, Keeps-pure)

pub ruleset keeps_rules = (
  Keeps-pure, Keeps-raise, Keeps-gets, Keeps-if, Keeps-try, Keeps-bind, Keeps-count, Keeps-log,
  Keeps-interact, Keeps-acquire, Keeps-transaction, Keeps-with_correlation_id,
)
