-- ===== src/Billing/Repository.antt =====
-- src/modules/billing/billing.repository.ts. A transaction is one step: the advisory locks and
-- row locks that it takes make the steps on one key exclusive. `id` is the random key that the
-- database gives to a new row.
pub mod Replay
pub mod Sums
pub mod Balances
pub mod Reconciled
pub mod Ordering
mod Tests
use chattea_be.Prelude.{
  ℕ, Bool, false, not, ◌&&◌, ◌||◌, Option, none, some, List, [], ◌∷◌, ◌++◌, ltb, leb, ◌==◌,
  if◌then◌else◌, find?, any, update_where, is_some,
}
use chattea_be.Prelude.Int.{ℤ, pos, ◌+ℤ◌, ◌-ℤ◌, is_zero}
use chattea_be.Prelude.Text.{Text, codes, text_eq}
use chattea_be.Prelude.Action.{
  Result, ok, err, Action, pure, gets, transaction, lift, ◌>>=◌, ◌>>◌, modify, throw_if, or_throw,
}
use chattea_be.Postgres.{UuidText}
use chattea_be.Billing.Types.{
  ConsumableUnits, TransactionState, granted, refunded, same_state, Subscription,
  ConsumableTransition, RecordedEvent, EventInput, recorded, subscribing, consuming, applied,
  duplicate, stale, ApplyResult, BillingEvent, UserSubscription, Transaction, UserBoost, BillingDb,
  BillingError, event_payload_conflict, event_timestamp_conflict, transaction_state_invalid,
  transaction_owner_conflict, transaction_product_conflict, transaction_units_conflict,
  foreign_key_violation, zero_delta,
}

abbrev pub Billing : Type 0 → Type 0
Billing A = Action BillingError BillingDb A

abbrev pub revenuecat : Text
revenuecat = codes "revenuecat"

abbrev pub is_event : Text → BillingEvent → Bool
is_event id e = text_eq e.provider_event_id id

abbrev pub is_transaction : Text → Transaction → Bool
is_transaction id t = text_eq t.provider_transaction_id id

abbrev pub is_subscription_of : ℕ → UserSubscription → Bool
is_subscription_of user s = s.user_id == user && text_eq s.provider revenuecat

-- A foreign key to "users".
unfoldable pub require_user : ℕ → Billing Unit
require_user user = do
  users ← gets (λ db. db.users)
  throw_if (not (any (λ u. u == user) users)) foreign_key_violation

-- `x === 0 ? 0 : -x`
abbrev pub negate : ℤ → ℤ
negate x = if is_zero x then pos 0 else pos 0 -ℤ x

unfoldable pub transition_delta :
    Option TransactionState → TransactionState → ConsumableUnits → ConsumableUnits
transition_delta (some granted) granted units = zero_delta
transition_delta (some refunded) refunded units = zero_delta
transition_delta _ granted units = units
transition_delta (some granted) refunded units = record {
  boost_credits = negate units.boost_credits;
  super_like_credits = negate units.super_like_credits;
}
transition_delta none refunded units = zero_delta

unfoldable pub is_stale : Option Transaction → ConsumableTransition → Bool
is_stale none t = false
is_stale (some current) t = leb t.event_timestamp_ms current.state_event_timestamp_ms

unfoldable pub effective_state_of :
    Option Transaction → ConsumableTransition → Option TransactionState
unfolding is_stale
effective_state_of current t =
    if is_stale current t
    then elim current [ none ↦ none | some c ↦ some c.state ]
    else some t.target_state

unfoldable pub balance_delta_of : Option Transaction → ConsumableTransition → ConsumableUnits
unfolding is_stale transition_delta
balance_delta_of current t =
    if is_stale current t
    then zero_delta
    else transition_delta (elim current [ none ↦ none | some c ↦ some c.state ]) t.target_state
        t.units

-- INSERT … ON CONFLICT ("userId") DO UPDATE: the delta is the first balance, or is added.
abbrev pub add_units : Option ConsumableUnits → ConsumableUnits → ConsumableUnits
add_units none d = d
add_units (some b) d = record {
  super_like_credits = b.super_like_credits +ℤ d.super_like_credits;
  boost_credits = b.boost_credits +ℤ d.boost_credits;
}

unfoldable pub write_balance : ℕ → ConsumableUnits → Billing Unit
write_balance user delta =
    if not (is_zero delta.super_like_credits) || not (is_zero delta.boost_credits)
    then modify (λ db. record db {
      balances = λ u. if u == user then some (add_units (db.balances u) delta) else db.balances u;
    })
    else pure tt

-- `(current?.providerEventTimestampMs ?? -1) >= eventTimestampMs`, of timestamps that are not
-- negative.
pub is_stale_subscription : Option UserSubscription → ℕ → Bool
is_stale_subscription none ts = false
is_stale_subscription (some s) ts = elim s.provider_event_timestamp_ms [
  | none ↦ false
  | some last ↦ leb ts last
]

-- The branch of an event id that is in the table already.
pub replay_event : RecordedEvent → Billing ApplyResult
replay_event e = do
  existing ← gets (λ db. find? (is_event e.provider_event_id) db.events)
  event ← or_throw existing event_payload_conflict
  throw_if
      (not (text_eq event.provider revenuecat) || not (text_eq event.payload_hash e.payload_hash))
      event_payload_conflict
  pure (record { outcome = duplicate; effective_state = none; balance_delta = zero_delta })

abbrev pub event_of : EventInput → RecordedEvent
event_of (recorded e) = e
event_of (subscribing e _ _) = e
event_of (consuming e _) = e

abbrev pub event_row : RecordedEvent → BillingEvent
event_row e = record {
  provider_event_id = e.provider_event_id;
  provider = revenuecat;
  payload_hash = e.payload_hash;
}

unfoldable pub record_event : RecordedEvent → Billing Unit
record_event e = modify λ db. record db { events = db.events ++ event_row e ∷ [] }

-- The latest of the boosts that run past `now`.
pub latest_boost : ℕ → ℕ → List UserBoost → Option ℕ
latest_boost user now [] = none
latest_boost user now (b ∷ rest) =
    let later = latest_boost user now rest in
    if b.user_id == user && ltb now b.ends_at
    then some (elim later [ none ↦ b.ends_at | some e ↦ if ltb b.ends_at e then e else b.ends_at ])
    else later

module _ (pg : UuidText) where
  open pg use {uuid_in, uuid_out}

  pub assert_transaction_identity : Transaction → ConsumableTransition → Result BillingError Unit
  assert_transaction_identity current t =
      if not (text_eq (uuid_out current.user_id) t.user_id)
      then err transaction_owner_conflict
      else if not (text_eq current.original_transaction_id t.original_transaction_id)
          || not (text_eq current.canonical_product_id t.canonical_product_id)
          || not (text_eq current.provider_product_id t.provider_product_id)
      then err transaction_product_conflict
      else if not (is_zero (current.super_like_units -ℤ t.units.super_like_credits))
          || not (is_zero (current.boost_units -ℤ t.units.boost_credits))
      then err transaction_units_conflict
      else ok tt

  -- The checks on a row that is there already.
  unfoldable pub check_current :
      Option Transaction → ConsumableTransition → Result BillingError Unit
  unfolding assert_transaction_identity
  check_current none t = ok tt
  check_current (some current) t = elim (assert_transaction_identity current t) [
    | err e ↦ err e
    | ok _ ↦
        if current.state_event_timestamp_ms == t.event_timestamp_ms
          && not (same_state current.state t.target_state)
        then err event_timestamp_conflict
        else ok tt
  ]

  abbrev pub new_row : ℕ → ConsumableTransition → Transaction
  new_row id t = record {
    id = id;
    provider_transaction_id = t.provider_transaction_id;
    original_transaction_id = t.original_transaction_id;
    user_id = uuid_in t.user_id;
    canonical_product_id = t.canonical_product_id;
    provider_product_id = t.provider_product_id;
    super_like_units = t.units.super_like_credits;
    boost_units = t.units.boost_credits;
    state = t.target_state;
    state_event_timestamp_ms = t.event_timestamp_ms;
  }

  -- The insert or the update of the transaction's row; the result is the row's id.
  unfoldable pub write_transaction : ℕ → Option Transaction → ConsumableTransition → Billing ℕ
  unfolding require_user
  write_transaction id none t = do
    require_user (uuid_in t.user_id)
    modify (λ db. record db { transactions = db.transactions ++ new_row id t ∷ [] })
    pure id
  write_transaction id (some current) t =
      if leb t.event_timestamp_ms current.state_event_timestamp_ms then pure current.id else do
        modify λ db. record db {
          transactions =
              update_where (λ r. r.id == current.id)
                (λ r. record r {
                  state = t.target_state;
                  state_event_timestamp_ms = t.event_timestamp_ms;
                })
                db.transactions;
        }
        pure current.id

  unfoldable pub apply_consumable_transition : ℕ → Text → ConsumableTransition → Billing ApplyResult
  apply_consumable_transition id provider_event_id t = do
    current ← gets (λ db. find? (is_transaction t.provider_transaction_id) db.transactions)
    lift (check_current current t)
    effective ← or_throw (effective_state_of current t) transaction_state_invalid
    transaction_id ← write_transaction id current t
    write_balance (uuid_in t.user_id) (balance_delta_of current t)
    modify λ db. record db {
      ledger =
          db.ledger
          ++ record {
            provider_event_id = provider_event_id;
            transaction_id = transaction_id;
            event_timestamp_ms = t.event_timestamp_ms;
            requested_state = t.target_state;
            effective_state = effective;
            super_like_delta = (balance_delta_of current t).super_like_credits;
            boost_delta = (balance_delta_of current t).boost_credits;
            applied = not (is_stale current t);
          }
            ∷ [];
    }
    pure (record {
      outcome = if is_stale current t then stale else applied;
      effective_state = some effective;
      balance_delta = balance_delta_of current t;
    })

  -- The upsert of the user's subscription: the row that was read, or a new one.
  pub write_subscription : Text → Subscription → Option UserSubscription → Billing Unit
  unfolding require_user
  write_subscription user_id subscription current = do
    let values : UserSubscription = record {
      user_id = uuid_in user_id;
      provider = revenuecat;
      plan_id = subscription.plan_id;
      status = subscription.status;
      provider_customer_id = subscription.provider_customer_id;
      provider_product_id = subscription.provider_product_id;
      provider_event_timestamp_ms = some subscription.event_timestamp_ms;
      current_period_starts_at = subscription.starts_at;
      current_period_ends_at = subscription.ends_at;
    }
    if is_some current
        then modify (λ db. record db {
          subscriptions =
              update_where (is_subscription_of (uuid_in user_id)) (λ _. values) db.subscriptions;
        })
        else do
          require_user (uuid_in user_id)
          modify (λ db. record db { subscriptions = db.subscriptions ++ values ∷ [] })

  pub apply_subscription : Text → Subscription → Billing ApplyResult
  unfolding write_subscription is_stale_subscription
  apply_subscription user_id subscription = do
    current ← gets (λ db. find? (is_subscription_of (uuid_in user_id)) db.subscriptions)
    if is_stale_subscription current subscription.event_timestamp_ms
        then pure (record { outcome = stale; effective_state = none; balance_delta = zero_delta })
        else do
          write_subscription user_id subscription current
          pure (record { outcome = applied; effective_state = none; balance_delta = zero_delta })

  -- What happens once the event has been recorded, by the shape of the input.
  unfoldable pub apply_input : ℕ → EventInput → Billing ApplyResult
  apply_input id (recorded e) =
      pure (record { outcome = applied; effective_state = none; balance_delta = zero_delta })
  apply_input id (subscribing e user_id subscription) = apply_subscription user_id subscription
  apply_input id (consuming e t) = apply_consumable_transition id e.provider_event_id t

  -- INSERT … ON CONFLICT DO NOTHING tells a new event from one that was seen.
  unfoldable pub apply_revenue_cat_event : ℕ → EventInput → Billing ApplyResult
  apply_revenue_cat_event id input = transaction do
    seen ← gets (λ db. any (is_event (event_of input).provider_event_id) db.events)
    if seen
        then replay_event (event_of input)
        else do record_event (event_of input); apply_input id input

  pub balance : Text → ℕ → Billing (Option ConsumableUnits × Option ℕ)
  unfolding latest_boost
  balance user_id now db =
      (ok (db.balances (uuid_in user_id), latest_boost (uuid_in user_id) now db.boosts), db)
