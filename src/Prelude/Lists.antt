-- ===== src/Prelude/Lists.antt =====
-- Database tables as lists of rows, with the statements that the repositories make: a first row
-- that fits, a count, an update and a delete of the rows that fit.
use Prim.Native.Nat.{ℕ, zero, suc, ◌+◌}
use mathlib.Core.Path.{◌≡◌, refl}
use mathlib.Core.Bool.{Bool, true, false, ◌&&◌, ◌||◌}
use mathlib.Core.List.{List, [], ◌∷◌, ◌++◌, map}
use mathlib.Core.Option.{Option, none, some}
use native.Mathlib.Omega.{arith}
use chattea_be.Prelude.Tests.{if◌then◌else◌}

module _ {ℓ} {A : Type ℓ} where
  abbrev pub length : List A → ℕ
  length [] = 0
  length (x ∷ xs) = suc (length xs)

  abbrev pub take : ℕ → List A → List A
  take zero xs = []
  take (suc n) [] = []
  take (suc n) (x ∷ xs) = x ∷ take n xs

  abbrev pub drop : ℕ → List A → List A
  drop zero xs = xs
  drop (suc n) [] = []
  drop (suc n) (x ∷ xs) = drop n xs

module _ {ℓ} {A : Type ℓ} (p : A → Bool) where
  -- SELECT … WHERE p LIMIT 1
  unfoldable pub find? : List A → Option A
  find? [] = none
  find? (x ∷ xs) = if p x then some x else find? xs

  -- SELECT … WHERE p
  unfoldable pub select : List A → List A
  select [] = []
  select (x ∷ xs) = let rest = select xs in if p x then x ∷ rest else rest

  -- SELECT count(*) … WHERE p
  unfoldable pub count : List A → ℕ
  count [] = 0
  count (x ∷ xs) = (if p x then 1 else 0) + count xs

  -- EXISTS (SELECT … WHERE p)
  unfoldable pub any : List A → Bool
  any [] = false
  any (x ∷ xs) = p x || any xs

  -- UPDATE … SET f WHERE p
  unfoldable pub update_where : (A → A) → List A → List A
  update_where f [] = []
  update_where f (x ∷ xs) = (if p x then f x else x) ∷ update_where f xs

  -- DELETE … WHERE p
  unfoldable pub delete_where : List A → List A
  delete_where [] = []
  delete_where (x ∷ xs) = let rest = delete_where xs in if p x then rest else x ∷ rest

  abbrev pub all : List A → Bool
  all [] = true
  all (x ∷ xs) = p x && all xs

  pub find?-holds : (xs : List A) (x : A) → find? xs ≡ some x → p x ≡ true
  unfolding find?
  find?-holds [] x h = ground arith
  find?-holds (y ∷ xs) x h = ground (arith, find?-holds xs x)

  -- A row is found exactly when one fits.
  pub find?-none : (xs : List A) → any xs ≡ false → find? xs ≡ none
  unfolding find? any
  find?-none [] h = refl
  find?-none (x ∷ xs) h = ground (arith, find?-none xs)

  pub any-of_find? : (xs : List A) (x : A) → find? xs ≡ some x → any xs ≡ true
  unfolding find? any
  any-of_find? [] x h = ground arith
  any-of_find? (y ∷ xs) x h = ground (arith, any-of_find? xs x)

  pub any-of_none : (xs : List A) → find? xs ≡ none → any xs ≡ false
  unfolding find? any
  any-of_none [] h = refl
  any-of_none (x ∷ xs) h = ground (arith, any-of_none xs)

  pub find?-snoc :
      (xs : List A) (x : A)
      → find? (xs ++ x ∷ []) ≡ (if any xs then find? xs else if p x then some x else none)
  unfolding find? any
  find?-snoc [] x = refl
  find?-snoc (y ∷ xs) x = ground (arith, find?-snoc xs x)

  pub any-snoc : (xs : List A) (x : A) → any (xs ++ x ∷ []) ≡ (any xs || p x)
  unfolding any
  any-snoc [] x = ground arith
  any-snoc (y ∷ xs) x = ground (arith, any-snoc xs x)

  pub count-snoc : (xs : List A) (x : A) → count (xs ++ x ∷ []) ≡ count xs + (if p x then 1 else 0)
  unfolding count
  count-snoc [] x = omega arith
  count-snoc (y ∷ xs) x = omega (arith, count-snoc xs x)

module _ {ℓ} {A : Type ℓ} (p : A → Bool) where
  -- A lookup in an updated table, where the update leaves the searched column alone.
  pub find?-update_where :
      (q : A → Bool) (f : A → A)
      → ((x : A) → p (f x) ≡ p x)
      → (xs : List A)
      → find? p (update_where q f xs)
        ≡ elim (find? p xs) [ none ↦ none | some x ↦ some (if q x then f x else x) ]
  unfolding find? update_where
  find?-update_where q f keep [] = refl
  find?-update_where q f keep (x ∷ xs) = ground (arith, keep x, find?-update_where q f keep xs)

module _ {ℓ} {A : Type ℓ} (p : A → Bool) where
  -- A delete of other rows leaves what fits.
  pub any-delete_where :
      (q : A → Bool)
      → ((x : A) → p x ≡ true → q x ≡ false)
      → (xs : List A) → any p (delete_where q xs) ≡ any p xs
  unfolding any delete_where
  any-delete_where q apart [] = refl
  any-delete_where q apart (x ∷ xs) = ground (arith, apart x, any-delete_where q apart xs)

  pub all-snoc : (xs : List A) (x : A) → all p (xs ++ x ∷ []) ≡ (all p xs && p x)
  all-snoc [] x = ground arith
  all-snoc (y ∷ xs) x = ground (arith, all-snoc xs x)

  pub any-take : (n : ℕ) (xs : List A) → any p (take n xs) ≡ true → any p xs ≡ true
  unfolding any
  any-take zero xs h = ground arith
  any-take (suc n) [] h = h
  any-take (suc n) (x ∷ xs) h = ground (arith, any-take n xs)

  pub any-select : (q : A → Bool) (xs : List A) → any p (select q xs) ≡ any (λ x. q x && p x) xs
  unfolding any select
  any-select q [] = refl
  any-select q (x ∷ xs) = ground (arith, any-select q xs)

-- A property of every row.
abbrev pub Each : {A : Type 0} → (A → Type 0) → List A → Type 0
Each P [] = Unit
Each P (x ∷ xs) = P x × Each P xs

module _ {A : Type 0} where
  pub Each-zip :
      {P Q R : A → Type 0}
      → ((x : A) → P x → Q x → R x)
      → (xs : List A) → Each P xs
      → Each Q xs
      → Each R xs
  Each-zip f [] ps qs = tt
  Each-zip f (x ∷ xs) (p, ps) (q, qs) = (f x p q, Each-zip f xs ps qs)

  pub Each-all : {P : A → Type 0} → ((x : A) → P x) → (xs : List A) → Each P xs
  Each-all f [] = tt
  Each-all f (x ∷ xs) = (f x, Each-all f xs)

  pub Each-of_any : (p : A → Bool) (xs : List A) → any p xs ≡ false → Each (λ x. p x ≡ false) xs
  unfolding any
  Each-of_any p [] h = tt
  Each-of_any p (x ∷ xs) h = (ground arith, Each-of_any p xs (ground arith))

  Each-row :
      (P Q : A → Type 0) (p : Bool) (x y : A)
      → (p ≡ true → P x → Q y)
      → (p ≡ false → P x → Q x)
      → P x
      → Q (if p then y else x)
  Each-row P Q true x y f g h = f refl h
  Each-row P Q false x y f g h = g refl h

  -- What holds of each row after an update.
  pub Each-update_where :
      (P Q : A → Type 0) (p : A → Bool) (f : A → A)
      → ((x : A) → p x ≡ true → P x → Q (f x))
      → ((x : A) → p x ≡ false → P x → Q x)
      → (xs : List A) → Each P xs
      → Each Q (update_where p f xs)
  unfolding update_where
  Each-update_where P Q p f hit miss [] ps = tt
  Each-update_where P Q p f hit miss (x ∷ xs) (h, ps) =
      (Each-row P Q (p x) x (f x) (hit x) (miss x) h, Each-update_where P Q p f hit miss xs ps)

  pub any-of_Each : (p : A → Bool) (xs : List A) → Each (λ x. p x ≡ false) xs → any p xs ≡ false
  unfolding any
  any-of_Each p [] h = refl
  any-of_Each p (x ∷ xs) (h, hs) = ground (arith, any-of_Each p xs hs)

  pub Each-map : {P Q : A → Type 0} → ((x : A) → P x → Q x) → (xs : List A) → Each P xs → Each Q xs
  Each-map f [] ps = tt
  Each-map f (x ∷ xs) (p, ps) = (f x p, Each-map f xs ps)

-- A row that is selected is found among the selected rows, as it was written.
pub Each-selected :
    {A : Type 0} (p : A → Bool) (f : A → A) (q : A → A → Bool)
    → ((x : A) → q x (f x) ≡ true)
    → (xs : List A) → Each (λ x. p x ≡ true → any (q x) (map f (select p xs)) ≡ true) xs
unfolding any select
Each-selected p f q same [] = tt
Each-selected p f q same (x ∷ xs) = (
  (λ h. ground (arith, same x)),
  Each-map (λ y later h. ground (arith, later h)) xs (Each-selected p f q same xs),
)
