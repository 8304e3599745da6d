-- ===== src/Common/Exec.antt =====
-- Methods that change an object and may raise. What was written before an exception stays written,
-- so the object comes back beside the exception too.
use mathlib.Core.Path.{◌≡◌, refl}
use mathlib.Core.Logic.{◌⊎◌, inl, inr}
use mathlib.Core.Bool.{Bool, true, false}

-- A function that changes nothing.
pub data Result {ℓ} (E A : Type ℓ) : Type ℓ where
  ok : A → Result E A
  err : E → Result E A

-- A method's value, or its exception, with the object after the call.
pub data Outcome {ℓ} (S E A : Type ℓ) : Type ℓ where
  returned : A → S → Outcome S E A
  raised : E → S → Outcome S E A

abbrev pub Exec {ℓ} : Type ℓ → Type ℓ → Type ℓ → Type ℓ
Exec S E A = S → Outcome S E A

module _ {ℓ} {E A : Type ℓ} where
  abbrev pub is_ok : Result E A → Bool
  is_ok (ok a) = true
  is_ok (err e) = false

pub Result-cases :
    {E A : Type 0} (o : Result E A) → ((a : A) × (o ≡ ok a)) ⊎ ((e : E) × (o ≡ err e))
Result-cases (ok a) = inl (a, refl)
Result-cases (err e) = inr (e, refl)

module _ {ℓ} {S E A : Type ℓ} where
  -- The object after the call.
  abbrev pub after : Outcome S E A → S
  after (returned a s) = s
  after (raised e s) = s

  abbrev pub has_returned : Outcome S E A → Bool
  has_returned (returned a s) = true
  has_returned (raised e s) = false

  abbrev pub pure : A → Exec S E A
  pure a s = returned a s

  abbrev pub raise : E → Exec S E A
  raise e s = raised e s

  abbrev pub lift : Result E A → Exec S E A
  lift (ok a) s = returned a s
  lift (err e) s = raised e s

  abbrev pub gets : (S → A) → Exec S E A
  gets f s = returned (f s) s

abbrev pub modify : {S E : Type 0} → (S → S) → Exec S E Unit
modify f s = returned tt (f s)

-- `if not test: raise error`
abbrev pub require : {S E : Type 0} → Bool → E → Exec S E Unit
require true e s = returned tt s
require false e s = raised e s

module _ {ℓ} {S E A B : Type ℓ} where
  abbrev pub continue : Outcome S E A → (A → Exec S E B) → Outcome S E B
  continue (returned a s) f = f a s
  continue (raised e s) f = raised e s

  infixl 10 ◌>>=◌ ◌>>◌
  abbrev pub ◌>>=◌ : Exec S E A → (A → Exec S E B) → Exec S E B
  ◌>>=◌ m f s = continue (m s) f

  abbrev pub ◌>>◌ : Exec S E A → Exec S E B → Exec S E B
  m >> n = m >>= λ _. n

-- The call returns, with a value and an object of which `Q` holds.
module _ {S E A : Type 0} where
  abbrev pub Ensures : (A → S → Type 0) → Outcome S E A → Type 0
  Ensures Q (returned a s) = Q a s
  Ensures Q (raised e s) = ⊥

  pub Ensures-weaken :
      (Q R : A → S → Type 0) (o : Outcome S E A)
      → ((a : A) (s : S) → Q a s → R a s)
      → Ensures Q o
      → Ensures R o
  Ensures-weaken Q R (returned a s) f h = f a s h
  Ensures-weaken Q R (raised e s) f h = h

  pub Ensures-after :
      (Q : S → Type 0) (o : Outcome S E A)
      → has_returned o ≡ true
      → Q (after o)
      → Ensures (λ _ s. Q s) o
  Ensures-after Q (returned a s) h q = q
  Ensures-after Q (raised e s) h q = cc

  -- What a call ensures, holds of the object after it.
  pub after-Ensures : (Q : S → Type 0) (o : Outcome S E A) → Ensures (λ _ s. Q s) o → Q (after o)
  after-Ensures Q (returned a s) h = h
  after-Ensures Q (raised e s) h = absurd h

-- The rule for a row of calls: the rest may use what the first call ensures.
pub Ensures-bind :
    {S E A B : Type 0} (Q : A → S → Type 0) (R : B → S → Type 0) (o : Outcome S E A)
    (f : A → Exec S E B)
    → Ensures Q o
    → ((a : A) (s : S) → Q a s → Ensures R (f a s))
    → Ensures R (continue o f)
Ensures-bind Q R (returned a s) f h k = k a s h
Ensures-bind Q R (raised e s) f h k = absurd h

-- How a call ends: `Q` holds of a value and its object, or `R` of the object beside an exception.
module _ {S E A : Type 0} where
  abbrev pub Ends : (A → S → Type 0) → (S → Type 0) → Outcome S E A → Type 0
  Ends Q R (returned a s) = Q a s
  Ends Q R (raised e s) = R s

  pub Ends-weaken :
      (Q P : A → S → Type 0) (R T : S → Type 0) (o : Outcome S E A)
      → ((a : A) (s : S) → Q a s → P a s)
      → ((s : S) → R s → T s)
      → Ends Q R o
      → Ends P T o
  Ends-weaken Q P R T (returned a s) f g h = f a s h
  Ends-weaken Q P R T (raised e s) f g h = g s h

pub Ends-bind :
    {S E A B : Type 0} (Q : A → S → Type 0) (P : B → S → Type 0) (R : S → Type 0)
    (o : Outcome S E A) (f : A → Exec S E B)
    → Ends Q R o
    → ((a : A) (s : S) → Q a s → Ends P R (f a s))
    → Ends P R (continue o f)
Ends-bind Q P R (returned a s) f h k = k a s h
Ends-bind Q P R (raised e s) f h k = h

pub after-Ends :
    {S E A : Type 0} (Q : A → S → Type 0) (R P : S → Type 0) (o : Outcome S E A)
    → ((a : A) (s : S) → Q a s → P s)
    → ((s : S) → R s → P s)
    → Ends Q R o
    → P (after o)
after-Ends Q R P (returned a s) f g h = f a s h
after-Ends Q R P (raised e s) f g h = g s h

pub Ends-both :
    {S E A : Type 0} (Q P : A → S → Type 0) (R T : S → Type 0) (o : Outcome S E A)
    → Ends Q R o
    → Ends P T o
    → Ends (λ a s. Q a s × P a s) (λ s. R s × T s) o
Ends-both Q P R T (returned a s) f g = (f, g)
Ends-both Q P R T (raised e s) f g = (f, g)
