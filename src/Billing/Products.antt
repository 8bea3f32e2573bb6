-- ===== src/Billing/Products.antt =====
-- The catalogue and the classification of events in src/modules/billing/billing.service.ts.
use chattea_be.Prelude.{
  Bool, false, ◌&&◌, ◌||◌, Option, none, some, List, [], ◌∷◌, ◌==◌, if◌then◌else◌,
}
use chattea_be.Prelude.Text.{Text, codes, text_eq, member, trim, to_upper_case}
use chattea_be.Billing.Types.{
  TransactionState, granted, refunded, SubscriptionStatus, active, expired,
}

abbrev pub mutation_event_types : List Text
mutation_event_types =
    codes "INITIAL_PURCHASE"
    ∷ codes "RENEWAL"
    ∷ codes "UNCANCELLATION"
    ∷ codes "NON_RENEWING_PURCHASE"
    ∷ codes "SUBSCRIPTION_EXTENDED"
    ∷ codes "REFUND_REVERSED"
    ∷ codes "EXPIRATION"
    ∷ codes "CANCELLATION"
    ∷ []

abbrev pub noop_event_types : List Text
noop_event_types =
    codes "BILLING_ISSUE"
    ∷ codes "SUBSCRIPTION_PAUSED"
    ∷ codes "PRODUCT_CHANGE"
    ∷ codes "INVOICE_ISSUANCE"
    ∷ codes "EXPERIMENT_ENROLLMENT"
    ∷ codes "TEST"
    ∷ []

abbrev pub unimplemented_event_types : List Text
unimplemented_event_types =
    codes "TRANSFER"
    ∷ codes "TEMPORARY_ENTITLEMENT_GRANT"
    ∷ codes "VIRTUAL_CURRENCY_TRANSACTION"
    ∷ []

unfoldable pub is_mutation : Text → Bool
is_mutation event_type = member event_type mutation_event_types

unfoldable pub is_noop : Text → Bool
is_noop event_type = member event_type noop_event_types

unfoldable pub is_unimplemented : Text → Bool
is_unimplemented event_type = member event_type unimplemented_event_types

pub data ProductKind : Type 0 where
  subscription : Text → ProductKind
  boost superlike : ProductKind

pub record Product : Type 0 where
  pub id : Text
  pub kind : ProductKind
  pub name : Text

abbrev pub billing_products : List Product
billing_products =
    record {
      id = codes "chattea_basic_monthly";
      kind = subscription (codes "basic");
      name = codes "Basic";
    }
    ∷ record {
      id = codes "chattea_gold_monthly";
      kind = subscription (codes "gold");
      name = codes "Gold";
    }
    ∷ record {
      id = codes "chattea_black_monthly";
      kind = subscription (codes "black");
      name = codes "Black";
    }
    ∷ record { id = codes "chattea_boost_30m"; kind = boost; name = codes "30분 부스트" }
    ∷ record { id = codes "chattea_superlikes_5"; kind = superlike; name = codes "슈퍼라이크 5개" }
    ∷ []

-- The part of a product id before the first colon.
unfoldable pub canonical_product_id_of : Text → Text
canonical_product_id_of [] = []
canonical_product_id_of (c ∷ s) =
    let rest = canonical_product_id_of s in if c == b':' then [] else c ∷ rest

unfoldable pub consumable_target_state : Text → Option Text → Option TransactionState
consumable_target_state event_type cancel_reason =
    if text_eq event_type (codes "INITIAL_PURCHASE")
      || text_eq event_type (codes "NON_RENEWING_PURCHASE")
      || text_eq event_type (codes "REFUND_REVERSED")
    then some granted
    else if text_eq event_type (codes "CANCELLATION") && elim cancel_reason [
      | none ↦ false
      | some reason ↦ text_eq (to_upper_case (trim reason)) (codes "CUSTOMER_SUPPORT")
    ]
    then some refunded
    else none

unfoldable pub subscription_status : Text → Option SubscriptionStatus
subscription_status event_type =
    if text_eq event_type (codes "EXPIRATION")
    then some expired
    else if text_eq event_type (codes "INITIAL_PURCHASE")
        || text_eq event_type (codes "RENEWAL")
        || text_eq event_type (codes "UNCANCELLATION")
        || text_eq event_type (codes "NON_RENEWING_PURCHASE")
        || text_eq event_type (codes "SUBSCRIPTION_EXTENDED")
        || text_eq event_type (codes "REFUND_REVERSED")
    then some active
    else none

-- What `configService` holds.
pub record Config : Type 0 where
  pub webhook_secret : Option Text
  pub node_env : Option Text
  pub ios_app_id : Option Text
  pub android_app_id : Option Text
