-- ===== src/Billing/Webhook.antt =====
-- The middle of `handleRevenueCatWebhook` of src/modules/billing/billing.service.ts: what an event
-- asks of the repository, once it is signed and read.
pub mod Clock
use chattea_be.Prelude.{
  ℕ, zero, suc, Bool, true, false, not, ◌&&◌, ◌||◌, Option, none, some, List, [], ◌∷◌, ◌++◌, ◌==◌,
  if◌then◌else◌, find?, is_some, get_or,
}
use chattea_be.Prelude.Int.{ℤ, pos}
use chattea_be.Prelude.Text.{Text, codes, text_eq, member, trim, to_upper_case}
use chattea_be.Prelude.Action.{Result, ok, err}
use chattea_be.Prelude.Fallible.{◌>>=◌, ◌>>◌, or_err, err_if}
use chattea_be.Postgres.{UuidText}
use chattea_be.Billing.Types.{
  ConsumableUnits, TransactionState, granted, refunded, SubscriptionStatus, active, expired,
  Subscription, ConsumableTransition, RecordedEvent, EventInput, recorded, subscribing, consuming,
  Outcome, applied, duplicate, stale, ApplyResult, BillingDb, BillingError,
}
use chattea_be.Billing.Repository.{Billing, apply_revenue_cat_event, balance}
use chattea_be.Billing.Signature.{Crypto, SignatureError, assert_signature}
use chattea_be.Billing.Products.{
  is_mutation, is_unimplemented, ProductKind, subscription, boost, superlike, Product,
  billing_products, canonical_product_id_of, consumable_target_state, subscription_status,
}
use chattea_be.Billing.Payload.{
  Json, WebhookError, signature_error, repository_error, event_id_required, event_type_required,
  event_type_not_implemented, event_type_unsupported, ios_app_id_required, android_app_id_required,
  app_ids_must_differ, environment_invalid, app_id_invalid, app_user_id_invalid,
  product_id_required, product_unsupported, original_transaction_id_required,
  event_timestamp_required, transaction_id_required, RevenueCatEvent, get_revenue_cat_event,
  required_string, required_uuid, required_timestamp,
}

-- What `configService` holds.
pub record Config : Type 0 where
  pub webhook_secret : Option Text
  pub node_env : Option Text
  pub ios_app_id : Option Text
  pub android_app_id : Option Text

abbrev pub trimmed : Option Text → Text
trimmed none = []
trimmed (some s) = trim s

abbrev pub is_production : Config → Bool
is_production config = elim config.node_env [
  | none ↦ false
  | some e ↦ text_eq e (codes "production")
]

-- The checks of a production server on the store apps.
unfoldable pub check_production : Config → RevenueCatEvent → Result WebhookError Unit
check_production config event =
    let ios = trimmed config.ios_app_id in
    let android = trimmed config.android_app_id in
    if is_production config
    then (do
      err_if (text_eq ios []) ios_app_id_required
      err_if (text_eq android []) android_app_id_required
      err_if (text_eq ios android) app_ids_must_differ
      environment ← required_string event.environment environment_invalid
      err_if (not (text_eq (to_upper_case environment) (codes "PRODUCTION"))) environment_invalid
      app_id ← required_string event.app_id app_id_invalid
      err_if (not (member app_id (ios ∷ android ∷ []))) app_id_invalid)
    else ok tt

-- `x ? new Date(x) : undefined`: zero and undefined are both false.
abbrev pub date_of : Option ℕ → Option ℕ
date_of none = none
date_of (some zero) = none
date_of (some (suc n)) = some (suc n)

unfoldable pub units_of_kind : ProductKind → ConsumableUnits
units_of_kind superlike = record { super_like_credits = pos 5; boost_credits = pos 0 }
units_of_kind boost = record { super_like_credits = pos 0; boost_credits = pos 1 }
units_of_kind (subscription _) = record { super_like_credits = pos 0; boost_credits = pos 0 }

-- The subscription that an event sets, if any.
unfoldable pub subscription_of :
    RevenueCatEvent → Text → ProductKind → Text → ℕ → Result WebhookError (Option Subscription)
subscription_of event event_type (subscription plan_id) product_id now =
    elim (subscription_status event_type) [
      | none ↦ ok none
      | some status ↦ do
        customer ← required_string event.original_transaction_id original_transaction_id_required
        timestamp ← required_timestamp event.event_timestamp_ms event_timestamp_required
        ok (
            some (record {
              plan_id = plan_id;
              provider_customer_id = customer;
              provider_product_id = product_id;
              event_timestamp_ms = timestamp;
              starts_at = get_or (date_of event.purchased_at_ms) now;
              ends_at = date_of event.expiration_at_ms;
              status = status;
            }))
    ]
subscription_of event event_type _ product_id now = ok none

-- The transition of a consumable that an event asks for, if any.
unfoldable pub consumable_transition_of :
    RevenueCatEvent
    → Text
    → ProductKind
    → Text
    → Text
    → Text
    → Result WebhookError (Option ConsumableTransition)
consumable_transition_of event event_type (subscription _) user_id canonical product_id = ok none
consumable_transition_of event event_type kind user_id canonical product_id =
    elim (consumable_target_state event_type event.cancel_reason) [
      | none ↦ ok none
      | some target ↦ do
        transaction_id ← required_string event.transaction_id transaction_id_required
        original ← required_string event.original_transaction_id original_transaction_id_required
        timestamp ← required_timestamp event.event_timestamp_ms event_timestamp_required
        ok (
            some (record {
              provider_transaction_id = transaction_id;
              original_transaction_id = original;
              user_id = user_id;
              canonical_product_id = canonical;
              provider_product_id = product_id;
              event_timestamp_ms = timestamp;
              target_state = target;
              units = units_of_kind kind;
            }))
    ]

abbrev pub input_of :
    RecordedEvent → Text → Option Subscription → Option ConsumableTransition → EventInput
input_of e user_id (some s) _ = subscribing e user_id s
input_of e user_id none (some t) = consuming e t
input_of e user_id none none = recorded e

-- What a mutation event asks of the repository, with its user and product.
pub record Plan : Type 0 where
  pub user_id : Text
  pub product : Product
  pub change : Option Subscription
  pub transition : Option ConsumableTransition

-- What the event is about, once it has passed the checks.
pub record Target : Type 0 where
  pub user_id : Text
  pub product_id : Text
  pub canonical : Text
  pub product : Product

unfoldable pub target_of : Config → RevenueCatEvent → Text → Result WebhookError Target
target_of config event event_type = do
  err_if (is_unimplemented event_type) event_type_not_implemented
  err_if (not (is_mutation event_type)) event_type_unsupported
  check_production config event
  user_id ← required_uuid event.app_user_id app_user_id_invalid
  product_id ← required_string event.product_id product_id_required
  let canonical = canonical_product_id_of product_id
  product ← or_err (find? (λ p. text_eq p.id canonical) billing_products) product_unsupported
  ok (record {
    user_id = user_id;
    product_id = product_id;
    canonical = canonical;
    product = product;
  })

unfoldable pub plan_of : Config → RevenueCatEvent → Text → ℕ → Result WebhookError Plan
plan_of config event event_type now = do
  t ← target_of config event event_type
  change ← subscription_of event event_type t.product.kind t.product_id now
  transition ←
      consumable_transition_of event event_type t.product.kind t.user_id t.canonical t.product_id
  ok (record { user_id = t.user_id; product = t.product; change = change; transition = transition })
