-- ===== src/Action.antt =====
-- Code that changes shared objects and can throw: the objects come back also after an exception,
-- since what was written stays written. `none` is the exception; its message is left out.
use stamppad.Prelude.{ap, ◌≡◌, refl, Bool, true, false, Option, none, some}

abbrev pub Action : Type 0 → Type 0 → Type 0
Action S A = S → Option A × S

module _ {S A : Type 0} where
  abbrev pub pure : A → Action S A
  pure a s = (some a, s)

  abbrev pub throw : Action S A
  throw s = (none, s)

  abbrev pub or_throw : Option A → Action S A
  or_throw o s = (o, s)

  abbrev pub gets : (S → A) → Action S A
  gets f s = (some (f s), s)

abbrev pub modify : {S : Type 0} → (S → S) → Action S Unit
modify f s = (some tt, f s)

-- if (test) throw …
abbrev pub throw_if : {S : Type 0} → Bool → Action S Unit
throw_if true s = (none, s)
throw_if false s = (some tt, s)

abbrev pub then_run : {S A B : Type 0} → (A → Action S B) → Option A × S → Option B × S
then_run f (none, s) = (none, s)
then_run f (some a, s) = f a s

infixl 5 ◌>>=◌ ◌>>◌
abbrev pub ◌>>=◌ : {S A B : Type 0} → Action S A → (A → Action S B) → Action S B
◌>>=◌ m f s = then_run f (m s)

abbrev pub ◌>>◌ : {S A B : Type 0} → Action S A → Action S B → Action S B
m >> k = m >>= λ _. k

-- How a guard that does not throw and a value that is there go on.
pub throw_if-false :
    {S B : Type 0} (b : Bool) (f : Action S B) (s : S) → b ≡ false → (throw_if b >> f) s ≡ f s
throw_if-false b f s e = ap (λ t. then_run (λ _. f) (throw_if t s)) e

pub or_throw-some :
    {S A B : Type 0} (o : Option A) (a : A) (f : A → Action S B) (s : S)
    → o ≡ some a
    → (or_throw o >>= f) s ≡ f a s
or_throw-some o a f s e = ap (λ t. then_run f (t, s)) e

-- What an action keeps true of the objects, thrown or not, and what it answers.
module _ {S : Type 0} (I : S → Type 0) where
  abbrev pub Ends : {A : Type 0} → (A → S → Type 0) → Option A × S → Type 0
  Ends Q (none, s) = I s
  Ends Q (some a, s) = I s × Q a s

  abbrev pub Keeps : {A : Type 0} → (S → Type 0) → Action S A → (A → S → Type 0) → Type 0
  Keeps P m Q = (s : S) → I s → P s → Ends Q (m s)

  -- A guard that throws, and a value that may be missing.
  pub Ends-throw_if :
      {B : Type 0} (Q : B → S → Type 0) (b : Bool) (f : Action S B) (s : S)
      → I s
      → (b ≡ false → Ends Q (f s))
      → Ends Q ((throw_if b >> f) s)
  Ends-throw_if Q true f s i k = i
  Ends-throw_if Q false f s i k = k refl

  pub Ends-or_throw :
      {A B : Type 0} (Q : B → S → Type 0) (o : Option A) (f : A → Action S B) (s : S)
      → I s
      → ((a : A) → o ≡ some a → Ends Q (f a s))
      → Ends Q ((or_throw o >>= f) s)
  Ends-or_throw Q none f s i k = i
  Ends-or_throw Q (some a) f s i k = k a refl

  pub Ends-then_run :
      {A B : Type 0} (Q : A → S → Type 0) (R : B → S → Type 0) (f : A → Action S B)
      (r : Option A × S)
      → Ends Q r
      → ((a : A) → Keeps (Q a) (f a) R)
      → Ends R (then_run f r)
  Ends-then_run Q R f (none, s) h k = h
  Ends-then_run Q R f (some a, s) (i, q) k = k a s i q
