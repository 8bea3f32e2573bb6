-- ===== src/Prelude/Fallible.antt =====
-- Pure calls that may throw, in sequence.
use chattea_be.Prelude.Action.{Result, ok, err}
use mathlib.Core.Option.{Option, none, some}
use mathlib.Core.Bool.{Bool, true, false}

infixl 5 ◌>>=◌ ◌>>◌
abbrev pub ◌>>=◌ {ℓ} : {E A B : Type ℓ} → Result E A → (A → Result E B) → Result E B
ok a >>= f = f a
err e >>= f = err e

abbrev pub ◌>>◌ {ℓ} : {E A B : Type ℓ} → Result E A → Result E B → Result E B
m >> k = m >>= λ _. k

abbrev pub or_err {ℓ} : {E A : Type ℓ} → Option A → E → Result E A
or_err none e = err e
or_err (some a) e = ok a

abbrev pub err_if : {E : Type 0} → Bool → E → Result E Unit
err_if true e = err e
err_if false e = ok tt
