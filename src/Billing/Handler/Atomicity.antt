-- ===== src/Billing/Handler/Atomicity.antt =====
-- `handleRevenueCatWebhook` of src/modules/billing/billing.service.ts where it answers an error.
use chattea_be.Prelude.{ℕ, ◌≡◌, refl, Bool, true, arith, inl, inr}
use chattea_be.Prelude.Text.{Text}
use chattea_be.Prelude.Action.{
  err, is_ok, pure, Result-cases, RollsBack, RollsBack-lift, RollsBack-last, RollsBack-if,
}
use chattea_be.Postgres.{UuidText}
use chattea_be.Notification.{NotifyRequest}
use chattea_be.Billing.Types.{
  BillingDb, RecordedEvent, EventInput, recorded, Outcome, applied, duplicate, stale,
}
use chattea_be.Billing.Repository.{apply_revenue_cat_event}
use chattea_be.Billing.Repository.Replay.{apply_revenue_cat_event_rolls_back}
use chattea_be.Billing.Signature.{Crypto}
use chattea_be.Billing.Payload.{WebhookError, RevenueCatEvent}
use chattea_be.Billing.Products.{is_noop}
use chattea_be.Billing.Webhook.{Config, Plan, plan_of, input_of}
use chattea_be.Billing.Handler.{
  on_db, is_duplicate, Delivery, handle_revenue_cat_webhook, handle_event, finish,
}

module _ {N : Type 0} (pg : UuidText) (crypto : Crypto) (config : Config)
    (notify : NotifyRequest → N → Bool × N) where
  is_ok-finish :
      (event_id : Text) (plan : Plan) (o : Outcome) (s : BillingDb × N)
      → is_ok (finish pg crypto config notify event_id plan o s).0 ≡ true
  unfolding finish
  is_ok-finish event_id plan applied s = ground arith
  is_ok-finish event_id plan duplicate s = refl
  is_ok-finish event_id plan stale s = refl

  RollsBack-on_db :
      (id : ℕ) (input : EventInput)
      → RollsBack (on_db pg crypto config notify (apply_revenue_cat_event pg id input))
  RollsBack-on_db id input = record {
    on_throw = λ s x h. elim (Result-cases (apply_revenue_cat_event pg id input s.0).0) [
      | inl (r, e) ↦ ground arith
      | inr (y, e) ↦ ground (arith, apply_revenue_cat_event_rolls_back pg id input s.0 e)
    ];
  }

  RollsBack-handle_event :
      (id now : ℕ) (event : RevenueCatEvent) (event_type : Text) (e : RecordedEvent)
      → RollsBack (handle_event pg crypto config notify id now event event_type e)
  unfolding handle_event
  RollsBack-handle_event id now event event_type e =
      RollsBack-if (is_noop event_type) _ _
        (λ _.
          RollsBack-last _
            (λ result. pure (record { accepted = true; duplicate = is_duplicate result.outcome }))
            (RollsBack-on_db id (recorded e)) (λ r s. refl))
        (λ _. RollsBack-lift (plan_of config event event_type now) _ (λ plan _.
          RollsBack-last _
            (λ result. finish pg crypto config notify e.provider_event_id plan result.outcome)
            (RollsBack-on_db id (input_of e plan.user_id plan.change plan.transition))
            (λ r s. is_ok-finish e.provider_event_id plan r.outcome s)))

  -- A webhook call that answers with an error, whichever check or statement threw, leaves the
  -- billing tables and the notifications as they were.
  pub refused_webhook_changes_nothing :
      (id : ℕ) (d : Delivery) (s : BillingDb × N) (x : WebhookError)
      → (handle_revenue_cat_webhook pg crypto config notify id d s).0 ≡ err x
      → (handle_revenue_cat_webhook pg crypto config notify id d s).1 ≡ s
  unfolding handle_revenue_cat_webhook
  refused_webhook_changes_nothing id d s x h = grind (
    arith,
    λ (event : RevenueCatEvent) (event_type event_id : Text).
        (RollsBack-handle_event id d.now_ms event event_type (record {
          provider_event_id = event_id;
          payload_hash = crypto.sha256_hex d.raw_body;
        })).on_throw
          s x,
  )
