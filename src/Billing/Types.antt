-- ===== src/Billing/Types.antt =====
-- The data of src/modules/billing/revenuecat.types.ts and the billing tables of
-- src/modules/database/schema.ts. Columns that no query reads (createdAt, updatedAt) are left out.
-- The column `provider` is always "revenuecat" in the transactions, and is left out there.
use chattea_be.Prelude.{ℕ, Bool, true, false, Option, List}
use chattea_be.Prelude.Int.{ℤ, pos}
use chattea_be.Prelude.Text.{Text}

pub record ConsumableUnits : Type 0 where
  pub super_like_credits : ℤ
  pub boost_credits : ℤ

pub data TransactionState : Type 0 where
  granted refunded : TransactionState

abbrev pub same_state : TransactionState → TransactionState → Bool
same_state granted granted = true
same_state refunded refunded = true
same_state granted refunded = false
same_state refunded granted = false

pub data SubscriptionStatus : Type 0 where
  active expired : SubscriptionStatus

pub record Subscription : Type 0 where
  pub plan_id : Text
  pub provider_customer_id : Text
  pub provider_product_id : Text
  pub event_timestamp_ms : ℕ
  pub starts_at : ℕ
  pub ends_at : Option ℕ
  pub status : SubscriptionStatus

pub record ConsumableTransition : Type 0 where
  pub provider_transaction_id : Text
  pub original_transaction_id : Text
  pub user_id : Text
  pub canonical_product_id : Text
  pub provider_product_id : Text
  pub event_timestamp_ms : ℕ
  pub target_state : TransactionState
  pub units : ConsumableUnits

pub record RecordedEvent : Type 0 where
  pub provider_event_id : Text
  pub payload_hash : Text

-- The three shapes of `RevenueCatEventInput`.
pub data EventInput : Type 0 where
  recorded : RecordedEvent → EventInput
  subscribing : RecordedEvent → Text → Subscription → EventInput
  consuming : RecordedEvent → ConsumableTransition → EventInput

pub data Outcome : Type 0 where
  applied duplicate stale : Outcome

pub record ApplyResult : Type 0 where
  pub outcome : Outcome
  pub effective_state : Option TransactionState
  pub balance_delta : ConsumableUnits

pub record BillingEvent : Type 0 where
  pub provider_event_id : Text
  pub provider : Text
  pub payload_hash : Text

pub record UserSubscription : Type 0 where
  pub user_id : ℕ
  pub provider : Text
  pub plan_id : Text
  pub status : SubscriptionStatus
  pub provider_customer_id : Text
  pub provider_product_id : Text
  pub provider_event_timestamp_ms : Option ℕ
  pub current_period_starts_at : ℕ
  pub current_period_ends_at : Option ℕ

pub record Transaction : Type 0 where
  pub id : ℕ
  pub provider_transaction_id : Text
  pub original_transaction_id : Text
  pub user_id : ℕ
  pub canonical_product_id : Text
  pub provider_product_id : Text
  pub super_like_units : ℤ
  pub boost_units : ℤ
  pub state : TransactionState
  pub state_event_timestamp_ms : ℕ

pub record LedgerEntry : Type 0 where
  pub provider_event_id : Text
  pub transaction_id : ℕ
  pub event_timestamp_ms : ℕ
  pub requested_state : TransactionState
  pub effective_state : TransactionState
  pub super_like_delta : ℤ
  pub boost_delta : ℤ
  pub applied : Bool

pub record UserBoost : Type 0 where
  pub user_id : ℕ
  pub starts_at : ℕ
  pub ends_at : ℕ

-- The tables that billing writes, and the boosts that it reads; `users` are the ids that the
-- foreign keys refer to. The table of balances has the user's id for its key, so it is a function.
pub record BillingDb : Type 0 where
  pub users : List ℕ
  pub events : List BillingEvent
  pub subscriptions : List UserSubscription
  pub transactions : List Transaction
  pub ledger : List LedgerEntry
  pub balances : ℕ → Option ConsumableUnits
  pub boosts : List UserBoost

pub data BillingError : Type 0 where
  event_payload_conflict : BillingError
  event_timestamp_conflict : BillingError
  transaction_state_invalid : BillingError
  transaction_owner_conflict : BillingError
  transaction_product_conflict : BillingError
  transaction_units_conflict : BillingError
  -- what PostgreSQL throws for an id that is not in "users"
  foreign_key_violation : BillingError

abbrev pub zero_delta : ConsumableUnits
zero_delta = record { super_like_credits = pos 0; boost_credits = pos 0 }
