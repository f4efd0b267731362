-- ===== src/World/Yields.antt =====
-- What holds of the value that an action returns, whatever state it leaves.
use reimbursement_analyzer.Prelude.{◌≡◌, refl, sym, Bool, true, false, if◌then◌else◌}
use reimbursement_analyzer.Errors.{Exc}
use reimbursement_analyzer.World.{World, Result, ok, raised, Action, pure, try, ◌>>=◌}

-- A property of the value that an action returns.
pub record Yields {A : Type 0} (m : Action A) (Q : A → Type 0) : Type 0 where
  pub at : (w : World) → (a : A) → (m w).0 ≡ ok a → Q a

module _ {A : Type 0} where
  pub Yields-pure : (a : A) (Q : A → Type 0) → Q a → Yields (pure a) Q
  Yields-pure a Q q = record { at = λ w b e. let d : a ≡ b = cc in rw (sym d) q }

  pub Yields-any : (m : Action A) → Yields m (λ a. Unit)
  Yields-any m = record { at = λ w a e. tt }

module _ {A B : Type 0} (f : A → Action B) (Q : A → Type 0) (R : B → Type 0) where
  settled :
      (r : Result A) (w : World)
      → ((a : A) → r ≡ ok a → Q a)
      → ((a : A) → Q a → Yields (f a) R)
      → (b : B) → (((λ _. (r, w)) >>= f) w).0 ≡ ok b
      → R b
  settled (ok a) w h hf b e = (hf a (h a refl)).at w b e
  settled (raised x) w h hf b e = cc

  pub Yields-bind :
      (m : Action A) → Yields m Q → ((a : A) → Q a → Yields (f a) R) → Yields (m >>= f) R
  Yields-bind m hm hf = record { at = λ w. settled (m w).0 (m w).1 (hm.at w) hf }

module _ {A : Type 0} (Q : A → Type 0) where
  pub Yields-if :
      (b : Bool) (m n : Action A) → Yields m Q → Yields n Q → Yields (if b then m else n) Q
  Yields-if true m n hm hn = hm
  Yields-if false m n hm hn = hn

module _ {A B : Type 0} (R : B → Type 0) where
  either :
      (h : Exc → Action B) (f : A → Action B)
      → ((e : Exc) → Yields (h e) R)
      → ((a : A) → Yields (f a) R)
      → (r : Result A) (w : World) (b : B) → (try (λ _. (r, w)) h f w).0 ≡ ok b
      → R b
  either h f hh hf (ok a) w b e = (hf a).at w b e
  either h f hh hf (raised x) w b e = (hh x).at w b e

  pub Yields-try :
      (m : Action A) (h : Exc → Action B) (f : A → Action B)
      → ((e : Exc) → Yields (h e) R)
      → ((a : A) → Yields (f a) R)
      → Yields (try m h f) R
  Yields-try m h f hh hf = record { at = λ w. either h f hh hf (m w).0 (m w).1 }

  pub Yields-then :
      (m : Action A) (f : A → Action B) → ((a : A) → Yields (f a) R) → Yields (m >>= f) R
  Yields-then m f hf = Yields-bind f (λ a. Unit) R m (Yields-any m) λ a _. hf a
