-- ===== src/Prelude/Handler.antt =====
-- Handlers on a state: what one wrote before it threw stays written. `do` chains them.
use mathlib.Core.Bool.{Bool}
use mathlib.Core.Option.{Option, none, some}
use qisma_be.Prelude.Tests.{if◌then◌else◌}
use qisma_be.Prelude.Result.{Result, ok, err}

abbrev pub Handler : Type 0 → Type 0 → Type 0 → Type 0
Handler S E A = S → Result E A × S

infixl 5 ◌>>=◌ ◌>>◌
abbrev pub ◌>>=◌ : {S E A B : Type 0} → Handler S E A → (A → Handler S E B) → Handler S E B
◌>>=◌ m f s = let (r, s') = m s in elim r [ ok a ↦ f a s' | err e ↦ (err e, s') ]

abbrev pub ◌>>◌ : {S E A B : Type 0} → Handler S E A → Handler S E B → Handler S E B
m >> k = m >>= λ _. k

abbrev pub pure : {S E A : Type 0} → A → Handler S E A
pure a s = (ok a, s)

abbrev pub throw : {S E A : Type 0} → E → Handler S E A
throw e s = (err e, s)

abbrev pub gets : {S E A : Type 0} → (S → A) → Handler S E A
gets f s = (ok (f s), s)

abbrev pub modify : {S E : Type 0} → (S → S) → Handler S E (Unit {0})
modify f s = (ok tt, f s)

abbrev pub throw_if : {S E : Type 0} → Bool → E → Handler S E (Unit {0})
throw_if c e s = (if c then err e else ok tt, s)

abbrev pub or_throw : {S E A : Type 0} → Option A → E → Handler S E A
or_throw none e = throw e
or_throw (some a) e = pure a

-- The outcome of code that does not touch the state, with its exceptions among those of the handler.
abbrev pub or_err : {S E F A : Type 0} → (F → E) → Result F A → Handler S E A
or_err f (ok a) = pure a
or_err f (err e) = throw (f e)
