-- ===== src/Billing/Repository/Sums.antt =====
-- Sums over the granted transactions of a user, in one of the two kinds of credit.
use chattea_be.Prelude.{
  ℕ, ◌≡◌, refl, sym, ◌∙◌, ◌≢◌, Bool, false, some, List, [], ◌∷◌, ◌++◌, arith, ◌==◌, if◌then◌else◌,
  find?, any, update_where,
}
use chattea_be.Prelude.Int.{ℤ, pos, ◌+ℤ◌, +ℤ_assoc, +ℤ_swap_ends, +ℤ-zero, zero-+ℤ}
use chattea_be.Billing.Types.{TransactionState, granted, refunded, Transaction}

abbrev pub state_worth : TransactionState → ℤ → ℤ
state_worth granted x = x
state_worth refunded x = pos 0

-- No two transactions share an id.
abbrev pub HasUniqueIds : List Transaction → Type 0
HasUniqueIds [] = Unit
HasUniqueIds (t ∷ ts) = (any (λ r. r.id == t.id) ts ≡ false) × HasUniqueIds ts

abbrev pub set_state : TransactionState → ℕ → Transaction → Transaction
set_state state ts r = record r { state = state; state_event_timestamp_ms = ts }

module _ (units : Transaction → ℤ) (user : ℕ) where
  unfoldable pub worth : Transaction → ℤ
  worth t = if t.user_id == user then state_worth t.state (units t) else pos 0

  unfoldable pub granted_units : List Transaction → ℤ
  granted_units [] = pos 0
  granted_units (t ∷ ts) = worth t +ℤ granted_units ts

  pub granted_units-snoc :
      (ts : List Transaction) (t : Transaction)
      → granted_units (ts ++ t ∷ []) ≡ granted_units ts +ℤ worth t
  unfolding granted_units
  granted_units-snoc [] t = +ℤ-zero (worth t) ∙ sym (zero-+ℤ (worth t))
  granted_units-snoc (r ∷ ts) t =
      rw (granted_units-snoc ts t) (sym (+ℤ_assoc (worth r) (granted_units ts) (worth t)))

-- The row that a query finds is none that the rest of the table lacks.
find?-id :
    (p : Transaction → Bool) (ts : List Transaction) (c : Transaction) (id : ℕ)
    → find? p ts ≡ some c
    → any (λ r. r.id == id) ts ≡ false
    → c.id ≢ id
unfolding find? any
find?-id p [] c id e h = ground arith
find?-id p (t ∷ ts) c id e h = ground (arith, find?-id p ts c id)

module _ (f : Transaction → Transaction) where
  update_where-absent :
      (ts : List Transaction) (id : ℕ)
      → any (λ r. r.id == id) ts ≡ false
      → update_where (λ r. r.id == id) f ts ≡ ts
  unfolding update_where any
  update_where-absent [] id h = refl
  update_where-absent (t ∷ ts) id h = ground (arith, update_where-absent ts id)

  module _ (units : Transaction → ℤ) (user : ℕ) where
    -- An update by id replaces the worth of the one row that it changes.
    pub granted_units-update :
        (p : Transaction → Bool) (ts : List Transaction) (c : Transaction)
        → HasUniqueIds ts
        → find? p ts ≡ some c
        → granted_units units user (update_where (λ r. r.id == c.id) f ts) +ℤ worth units user c
          ≡ granted_units units user ts +ℤ worth units user (f c)
    unfolding update_where find? granted_units
    granted_units-update p [] c h e = ground arith
    granted_units-update p (t ∷ ts) c h e = ground (
      arith,
      update_where-absent ts t.id,
      find?-id p ts c t.id,
      granted_units-update p ts c h.1,
      +ℤ_swap_ends (worth units user (f t)) (granted_units units user ts) (worth units user t),
      +ℤ_assoc (worth units user t)
          (granted_units units user (update_where (λ r. r.id == c.id) f ts)) (worth units user c),
      +ℤ_assoc (worth units user t) (granted_units units user ts) (worth units user (f c)),
    )
