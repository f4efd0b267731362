-- ===== src/World/Steady.antt =====
-- Actions in a state where no call fails.
use reimbursement_analyzer.Prelude.{ℕ, ◌+◌, ◌≡◌, refl, none, [], ap, arith}
use reimbursement_analyzer.World.{
  World, Result, ok, raised, Action, fine, next_event, settle, interact, ◌>>=◌,
}

-- A state in which no call fails.
abbrev pub steady : World → World
steady w = record w { events = []; began = none }

no_time : (n : ℕ) → n + 0 ≡ n
no_time n = omega arith

-- A script that has ended leaves the state as it is.
pub next_event-ended :
    (w : World) → next_event (record w { events = [] }) ≡ (fine, record w { events = [] })
unfolding next_event
next_event-ended w = rw (no_time w.clock) refl

module _ {ℓ κ} {A : Type ℓ} {B : Type κ} where
  after_ok :
      (f : A → Action B) (w w1 : World) (a : A) (p : Result A × World)
      → p ≡ (ok a, w1)
      → ((λ _. p) >>= f) w ≡ f a w1
  after_ok f w w1 a (ok b, w2) e =
      let d : b ≡ a = cc in let c : w2 ≡ w1 = ap (λ p. p.1) e in rw (d, c) refl
  after_ok f w w1 a (raised x, w2) e = cc

  pub bind_ok :
      (m : Action A) (f : A → Action B) (w w1 : World) (a : A)
      → m w ≡ (ok a, w1)
      → (m >>= f) w ≡ f a w1
  bind_ok m f w w1 a e = after_ok f w w1 a (m w) e

module _ {ℓ} {A : Type ℓ} (m : Action A) (w : World) where
  pub interact-ended : interact m (record w { events = [] }) ≡ m (record w { events = [] })
  unfolding interact
  interact-ended = ap (λ p. settle p.0 m p.1) (next_event-ended w)
