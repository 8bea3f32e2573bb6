-- ===== src/Billing/Repository/Balances.antt =====
-- The balances and the granted transactions of a user in `applyConsumableTransition` of
-- src/modules/billing/billing.repository.ts.
use chattea_be.Prelude.{
  ℕ, ◌≡◌, refl, sym, ap, inl, inr, Bool-cases, Bool, true, false, Option, none, some, List, [], ◌∷◌,
  ◌++◌, arith, ◌==◌, if◌then◌else◌, find?, any, update_where, any-snoc,
}
use chattea_be.Prelude.Int.{ℤ, pos, ◌+ℤ◌, ◌-ℤ◌, is_zero, +ℤ-zero, zero-+ℤ, +ℤ_cancel_swap}
use chattea_be.Prelude.Text.{text_eq_iff}
use chattea_be.Prelude.Action.{ok, is_ok}
use chattea_be.Postgres.{UuidText}
use chattea_be.Billing.Types.{
  TransactionState, granted, refunded, Transaction, ConsumableUnits, ConsumableTransition,
  BillingDb,
}
use chattea_be.Billing.Repository.{
  negate, transition_delta, balance_delta_of, check_current, is_stale, write_transaction,
  write_balance, is_transaction, new_row, add_units,
}
use chattea_be.Billing.Repository.Sums.{
  HasUniqueIds, worth, granted_units, granted_units-snoc, granted_units-update, set_state,
  state_worth,
}

pub data CreditKind : Type 0 where
  super_like boost : CreditKind

abbrev pub units_of : CreditKind → Transaction → ℤ
units_of super_like t = t.super_like_units
units_of boost t = t.boost_units

abbrev pub part_of : CreditKind → ConsumableUnits → ℤ
part_of super_like d = d.super_like_credits
part_of boost d = d.boost_credits

-- The credits of a user; without a row there are none.
abbrev pub credit : CreditKind → Option ConsumableUnits → ℤ
credit kind none = pos 0
credit kind (some b) = part_of kind b

pub record IsReconciled (db : BillingDb) : Type 0 where
  pub unique : HasUniqueIds db.transactions
  pub balanced :
      (kind : CreditKind) (user : ℕ)
      → credit kind (db.balances user) ≡ granted_units (units_of kind) user db.transactions

is_zero-eq : (a : ℤ) → is_zero a ≡ true → a ≡ pos 0
is_zero-eq a h = ground arith

credit-add_units :
    (kind : CreditKind) (o : Option ConsumableUnits) (d : ConsumableUnits)
    → part_of kind (add_units o d) ≡ credit kind o +ℤ part_of kind d
credit-add_units super_like none d = sym (zero-+ℤ d.super_like_credits)
credit-add_units boost none d = sym (zero-+ℤ d.boost_credits)
credit-add_units super_like (some b) d = refl
credit-add_units boost (some b) d = refl

-- The balance of one user moves by the delta, and no other moves.
pub credit-write_balance :
    (kind : CreditKind) (user u : ℕ) (d : ConsumableUnits) (db : BillingDb)
    → credit kind ((write_balance user d db).1.balances u)
      ≡ credit kind (db.balances u) +ℤ (if u == user then part_of kind d else pos 0)
unfolding write_balance
credit-write_balance super_like user u d db = ground (
  arith,
  credit-add_units super_like (db.balances u) d,
  is_zero-eq d.super_like_credits,
  +ℤ-zero (credit super_like (db.balances u)),
)
credit-write_balance boost user u d db = ground (
  arith,
  credit-add_units boost (db.balances u) d,
  is_zero-eq d.boost_credits,
  +ℤ-zero (credit boost (db.balances u)),
)

pub HasUniqueIds-snoc :
    (ts : List Transaction) (t : Transaction)
    → HasUniqueIds ts
    → any (λ r. r.id == t.id) ts ≡ false
    → HasUniqueIds (ts ++ t ∷ [])
unfolding any
HasUniqueIds-snoc [] t h fresh = (refl, tt)
HasUniqueIds-snoc (r ∷ ts) t h fresh =
    (ground (arith, any-snoc (λ q. q.id == r.id) ts t), HasUniqueIds-snoc ts t h.1 (ground arith))

module _ (p : Transaction → Bool) (state : TransactionState) (ts : ℕ) where
  any-id-update :
      (id : ℕ) (rows : List Transaction)
      → any (λ r. r.id == id) (update_where p (set_state state ts) rows)
        ≡ any (λ r. r.id == id) rows
  unfolding any update_where
  any-id-update id [] = refl
  any-id-update id (r ∷ rows) = ground (arith, any-id-update id rows)

  pub HasUniqueIds-update :
      (rows : List Transaction)
      → HasUniqueIds rows
      → HasUniqueIds (update_where p (set_state state ts) rows)
  unfolding update_where
  HasUniqueIds-update [] h = tt
  HasUniqueIds-update (r ∷ rows) h =
      (ground (arith, any-id-update r.id rows), HasUniqueIds-update rows h.1)

+ℤ-negate : (a : ℤ) → a +ℤ negate a ≡ pos 0
unfolding ◌+ℤ◌ ◌-ℤ◌
+ℤ-negate a = ground arith

eq_of_sub : (a b : ℤ) → is_zero (a -ℤ b) ≡ true → a ≡ b
unfolding ◌-ℤ◌
eq_of_sub a b h = ground arith

-- The delta of a transition is the difference of what its row is worth.
transition_delta-worth :
    (kind : CreditKind) (state target : TransactionState) (units : ConsumableUnits)
    → state_worth state (part_of kind units)
        +ℤ part_of kind (transition_delta (some state) target units)
      ≡ state_worth target (part_of kind units)
unfolding transition_delta
transition_delta-worth super_like granted granted units = +ℤ-zero units.super_like_credits
transition_delta-worth boost granted granted units = +ℤ-zero units.boost_credits
transition_delta-worth super_like granted refunded units = +ℤ-negate units.super_like_credits
transition_delta-worth boost granted refunded units = +ℤ-negate units.boost_credits
transition_delta-worth super_like refunded granted units = zero-+ℤ units.super_like_credits
transition_delta-worth boost refunded granted units = zero-+ℤ units.boost_credits
transition_delta-worth super_like refunded refunded units = +ℤ-zero (pos 0)
transition_delta-worth boost refunded refunded units = +ℤ-zero (pos 0)

transition_delta-new :
    (kind : CreditKind) (target : TransactionState) (units : ConsumableUnits)
    → part_of kind (transition_delta none target units) ≡ state_worth target (part_of kind units)
unfolding transition_delta
transition_delta-new super_like granted units = refl
transition_delta-new super_like refunded units = refl
transition_delta-new boost granted units = refl
transition_delta-new boost refunded units = refl

module _ (pg : UuidText) (t : ConsumableTransition) where
  open pg use {uuid_in, uuid_out, uuid_in-uuid_out}

  -- A row that passes the checks is the same user's, with the same units.
  identity-user :
      (c : Transaction) → check_current pg (some c) t ≡ ok tt → c.user_id ≡ uuid_in t.user_id
  unfolding check_current
  identity-user c h = ground (
    arith,
    text_eq_iff (uuid_out c.user_id) t.user_id,
    ap uuid_in {x = uuid_out c.user_id} {y = t.user_id},
    uuid_in-uuid_out c.user_id,
  )

  identity-units :
      (kind : CreditKind) (c : Transaction)
      → check_current pg (some c) t ≡ ok tt
      → units_of kind c ≡ part_of kind t.units
  unfolding check_current
  identity-units super_like c h =
      ground (arith, eq_of_sub c.super_like_units t.units.super_like_credits)
  identity-units boost c h = ground (arith, eq_of_sub c.boost_units t.units.boost_credits)

  abbrev pub p : Transaction → Bool
  p = is_transaction t.provider_transaction_id

  -- The change of one user's credits that a call makes.
  abbrev pub moved : CreditKind → ℕ → Option Transaction → ℤ
  moved kind u current =
      if u == uuid_in t.user_id then part_of kind (balance_delta_of current t) else pos 0

  worth-new :
      (kind : CreditKind) (u id : ℕ) → worth (units_of kind) u (new_row pg id t) ≡ moved kind u none
  unfolding worth balance_delta_of
  worth-new super_like u id = ground (arith, transition_delta-new super_like t.target_state t.units)
  worth-new boost u id = ground (arith, transition_delta-new boost t.target_state t.units)

  worth-set :
      (kind : CreditKind) (u : ℕ) (c : Transaction)
      → check_current pg (some c) t ≡ ok tt
      → is_stale (some c) t ≡ false
      → worth (units_of kind) u (set_state t.target_state t.event_timestamp_ms c)
        ≡ worth (units_of kind) u c +ℤ moved kind u (some c)
  unfolding worth balance_delta_of
  worth-set super_like u c h fresh = ground (
    arith,
    identity-user c h,
    identity-units super_like c h,
    transition_delta-worth super_like c.state t.target_state t.units,
    +ℤ-zero (pos 0),
  )
  worth-set boost u c h fresh = ground (
    arith,
    identity-user c h,
    identity-units boost c h,
    transition_delta-worth boost c.state t.target_state t.units,
    +ℤ-zero (pos 0),
  )

  pub granted_units-write :
      (kind : CreditKind) (u id : ℕ) (current : Option Transaction) (db : BillingDb)
      → HasUniqueIds db.transactions
      → find? p db.transactions ≡ current
      → check_current pg current t ≡ ok tt
      → is_ok (write_transaction pg id current t db).0 ≡ true
      → granted_units (units_of kind) u (write_transaction pg id current t db).1.transactions
        ≡ granted_units (units_of kind) u db.transactions +ℤ moved kind u current
  unfolding write_transaction balance_delta_of
  granted_units-write kind u id none db h e c r = ground (
    arith,
    granted_units-snoc (units_of kind) u db.transactions (new_row pg id t),
    worth-new kind u id,
  )
  granted_units-write kind u id (some row) db h e c r = elim (Bool-cases (is_stale (some row) t)) [
    | inl old ↦ ground (arith, +ℤ-zero (granted_units (units_of kind) u db.transactions))
    | inr young ↦ ground (
      arith,
      +ℤ_cancel_swap (granted_units (units_of kind) u db.transactions)
          (granted_units (units_of kind) u (
            update_where (λ r'. r'.id == row.id) (set_state t.target_state t.event_timestamp_ms)
              db.transactions))
          (worth (units_of kind) u row) (moved kind u (some row)),
      granted_units-update (set_state t.target_state t.event_timestamp_ms) (units_of kind) u p
          db.transactions row h e,
      worth-set kind u row c young,
    )
  ]
