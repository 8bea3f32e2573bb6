-- ===== src/Billing/Webhook/Clock.antt =====
-- The clock in the checks of src/modules/billing/billing.service.ts on an event.
use chattea_be.Prelude.{ℕ, ◌≡◌, refl, inl, inr, arith}
use chattea_be.Prelude.Text.{Text}
use chattea_be.Prelude.Action.{is_ok, Result-cases}
use chattea_be.Billing.Payload.{RevenueCatEvent}
use chattea_be.Billing.Products.{ProductKind, subscription, boost, superlike}
use chattea_be.Billing.Webhook.{Config, target_of, plan_of, subscription_of}

is_ok-subscription_of :
    (event : RevenueCatEvent) (event_type : Text) (kind : ProductKind) (product_id : Text)
    (now now' : ℕ)
    → is_ok (subscription_of event event_type kind product_id now)
      ≡ is_ok (subscription_of event event_type kind product_id now')
unfolding subscription_of
is_ok-subscription_of event event_type (subscription p) product_id now now' = ground arith
is_ok-subscription_of event event_type boost product_id now now' = refl
is_ok-subscription_of event event_type superlike product_id now now' = refl

pub is_ok-plan_of :
    (config : Config) (event : RevenueCatEvent) (event_type : Text) (now now' : ℕ)
    → is_ok (plan_of config event event_type now) ≡ is_ok (plan_of config event event_type now')
unfolding plan_of
is_ok-plan_of config event event_type now now' =
    elim (Result-cases (target_of config event event_type)) [
      | inl (t, e) ↦
          ground
            (arith, is_ok-subscription_of event event_type t.product.kind t.product_id now now')
      | inr (x, e) ↦ ground arith
    ]
