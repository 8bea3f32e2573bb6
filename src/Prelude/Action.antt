-- ===== src/Prelude/Action.antt =====
-- Service and repository calls: an exception or a value, and the database as it is left. What was
-- written before a throw stays written, except inside a transaction.
use chattea_be.Prelude.Tests.{if◌then◌else◌}
use mathlib.Core.Path.{◌≡◌, refl, ap}
use mathlib.Core.Logic.{◌⊎◌, inl, inr}
use mathlib.Core.Bool.{Bool, true, false}
use mathlib.Core.Option.{Option, none, some}
use native.Mathlib.Omega.{arith}

pub data Result {ℓ} (E A : Type ℓ) : Type ℓ where
  ok : A → Result E A
  err : E → Result E A

abbrev pub Action {ℓ} : Type ℓ → Type ℓ → Type ℓ → Type ℓ
Action E S A = S → Result E A × S

module _ {ℓ} {E S A : Type ℓ} where
  abbrev pub pure : A → Action E S A
  pure a s = (ok a, s)

  abbrev pub throw : E → Action E S A
  throw e s = (err e, s)

  abbrev pub gets : (S → A) → Action E S A
  gets f s = (ok (f s), s)

  -- `db.transaction(…)`: a throw rolls back what the body has written.
  abbrev pub transaction : Action E S A → Action E S A
  transaction m s = let (r, s') = m s in elim r [ ok a ↦ (ok a, s') | err e ↦ (err e, s) ]

  abbrev pub lift : Result E A → Action E S A
  lift r s = (r, s)

infixl 5 ◌>>=◌ ◌>>◌
abbrev pub ◌>>=◌ {ℓ} : {E S A B : Type ℓ} → Action E S A → (A → Action E S B) → Action E S B
◌>>=◌ m f s = let (r, s') = m s in elim r [ ok a ↦ f a s' | err e ↦ (err e, s') ]

abbrev pub ◌>>◌ {ℓ} : {E S A B : Type ℓ} → Action E S A → Action E S B → Action E S B
m >> k = m >>= λ _. k

-- What follows a call that returned.
pub bind-ok {ℓ} :
    {E S A B : Type ℓ} (m : Action E S A) (k : A → Action E S B) (s t : S) (a : A)
    → m s ≡ (ok a, t)
    → (m >>= k) s ≡ k a t
bind-ok m k s t a h = ap (λ r. ((λ _. r) >>= k) s) h

pub transaction-ok {ℓ} :
    {E S A : Type ℓ} (m : Action E S A) (s : S) (a : A)
    → (m s).0 ≡ ok a
    → transaction m s ≡ (ok a, (m s).1)
transaction-ok m s a h = ap (λ r. transaction (λ _. (r, (m s).1)) s) h

abbrev pub modify : {E S : Type 0} → (S → S) → Action E S Unit
modify f s = (ok tt, f s)

abbrev pub throw_if : {E S : Type 0} → Bool → E → Action E S Unit
throw_if b e s = (if b then err e else ok tt, s)

-- The value of a row that must be there.
abbrev pub or_throw {ℓ} : {E S A : Type ℓ} → Option A → E → Action E S A
or_throw none e = throw e
or_throw (some a) e = pure a

abbrev pub is_ok {ℓ} : {E A : Type ℓ} → Result E A → Bool
is_ok (ok _) = true
is_ok (err _) = false

pub Result-cases {ℓ} :
    {E A : Type ℓ} (r : Result E A) → ((a : A) × (r ≡ ok a)) ⊎ ((e : E) × (r ≡ err e))
Result-cases (ok a) = inl (a, refl)
Result-cases (err e) = inr (e, refl)

-- A call that throws leaves the state as it was.
pub record RollsBack {ℓ} {E S A : Type ℓ} (m : Action E S A) : Type ℓ where
  pub on_throw : (s : S) (e : E) → (m s).0 ≡ err e → (m s).1 ≡ s

module _ {ℓ} {E S A B : Type ℓ} where
  pub RollsBack-lift :
      (r : Result E A) (k : A → Action E S B)
      → ((a : A) → r ≡ ok a → RollsBack (k a))
      → RollsBack (lift r >>= k)
  RollsBack-lift (ok a) k h = h a refl
  RollsBack-lift (err x) k h = record { on_throw = λ s e p. refl }

  -- What follows a call that rolls back may not throw.
  pub RollsBack-last :
      (m : Action E S A) (k : A → Action E S B)
      → RollsBack m
      → ((a : A) (s : S) → is_ok (k a s).0 ≡ true)
      → RollsBack (m >>= k)
  RollsBack-last m k h total = record {
    on_throw = λ s e p. elim (Result-cases (m s).0) [
      | inl (a, q) ↦ ground (arith, total a (m s).1)
      | inr (x, q) ↦ ground (arith, h.on_throw s x q)
    ];
  }

module _ {ℓ} {E S A : Type ℓ} where
  pub RollsBack-if :
      (b : Bool) (m n : Action E S A)
      → (b ≡ true → RollsBack m)
      → (b ≡ false → RollsBack n)
      → RollsBack (if b then m else n)
  RollsBack-if true m n hm hn = hm refl
  RollsBack-if false m n hm hn = hn refl
