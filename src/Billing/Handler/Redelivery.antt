-- ===== src/Billing/Handler/Redelivery.antt =====
-- `handleRevenueCatWebhook` of src/modules/billing/billing.service.ts on a body that comes twice.
use chattea_be.Prelude.{
  ℕ, ◌≡◌, refl, sym, ◌∙◌, Bool, true, Option, none, some, arith, Bool-cases, inl, inr, ◌⊎◌,
}
use chattea_be.Prelude.Text.{Text}
use chattea_be.Prelude.Action.{ok, is_ok, Result-cases}
use chattea_be.Postgres.{UuidText}
use chattea_be.Notification.{NotifyRequest}
use chattea_be.Billing.Types.{
  BillingDb, RecordedEvent, recorded, Outcome, applied, duplicate, stale, Subscription,
  ConsumableTransition,
}
use chattea_be.Billing.Repository.{apply_revenue_cat_event, event_of}
use chattea_be.Billing.Repository.Replay.{
  is_recorded, recorded_is_duplicate, apply_revenue_cat_event_records,
}
use chattea_be.Billing.Signature.{Crypto, assert_signature}
use chattea_be.Billing.Payload.{RevenueCatEvent}
use chattea_be.Billing.Products.{is_noop}
use chattea_be.Billing.Webhook.{Config, Plan, plan_of, input_of}
use chattea_be.Billing.Webhook.Clock.{is_ok-plan_of}
use chattea_be.Billing.Handler.{Delivery, handle_revenue_cat_webhook, handle_event, finish}

event_of-input_of :
    (e : RecordedEvent) (u : Text) (s : Option Subscription) (t : Option ConsumableTransition)
    → event_of (input_of e u s t) ≡ e
event_of-input_of e u none none = refl
event_of-input_of e u none (some t) = refl
event_of-input_of e u (some s) t = refl

module _ {N : Type 0} (pg : UuidText) (crypto : Crypto) (config : Config)
    (notify : NotifyRequest → N → Bool × N) where
  billing-finish :
      (event_id : Text) (plan : Plan) (o : Outcome) (s : BillingDb × N)
      → (finish pg crypto config notify event_id plan o s).1.0 ≡ s.0
  unfolding finish
  billing-finish event_id plan applied s = ground arith
  billing-finish event_id plan duplicate s = refl
  billing-finish event_id plan stale s = refl

  -- A call that answered has left its event recorded.
  handle_event_records :
      (id now : ℕ) (event : RevenueCatEvent) (event_type : Text) (e : RecordedEvent)
      (s : BillingDb × N)
      → is_ok (handle_event pg crypto config notify id now event event_type e s).0 ≡ true
      → is_recorded e (handle_event pg crypto config notify id now event event_type e s).1.0 ≡ true
  unfolding handle_event
  handle_event_records id now event event_type e s h = elim (Bool-cases (is_noop event_type)) [
    | inl noop ↦ elim (Result-cases (apply_revenue_cat_event pg id (recorded e) s.0).0) [
      | inl (r, a) ↦ ground (arith, apply_revenue_cat_event_records pg id (recorded e) s.0 r a)
      | inr (x, a) ↦ ground arith
    ]
    | inr other ↦ elim (Result-cases (plan_of config event event_type now)) [
      | inl (plan, p) ↦
          let input = input_of e plan.user_id plan.change plan.transition in
          elim (Result-cases (apply_revenue_cat_event pg id input s.0).0) [
            | inl (r, a) ↦ ground (
              arith,
              apply_revenue_cat_event_records pg id input s.0 r a,
              event_of-input_of e plan.user_id plan.change plan.transition,
              billing-finish e.provider_event_id plan r.outcome
                  ((apply_revenue_cat_event pg id input s.0).1, s.1),
            )
            | inr (x, a) ↦ ground arith
          ]
      | inr (x, p) ↦ ground arith
    ]
  ]

  handle_event_planned :
      (id now : ℕ) (event : RevenueCatEvent) (event_type : Text) (e : RecordedEvent)
      (s : BillingDb × N)
      → is_ok (handle_event pg crypto config notify id now event event_type e s).0 ≡ true
      → (is_ok (plan_of config event event_type now) ≡ true) ⊎ (is_noop event_type ≡ true)
  unfolding handle_event
  handle_event_planned id now event event_type e s h = elim (Bool-cases (is_noop event_type)) [
    | inl noop ↦ inr noop
    | inr other ↦ inl (elim (Result-cases (plan_of config event event_type now)) [
      | inl (plan, p) ↦ ground arith
      | inr (x, p) ↦ ground arith
    ])
  ]

  handle_recorded_event :
      (id now : ℕ) (event : RevenueCatEvent) (event_type : Text) (e : RecordedEvent)
      (s : BillingDb × N)
      → is_recorded e s.0 ≡ true
      → (is_ok (plan_of config event event_type now) ≡ true) ⊎ (is_noop event_type ≡ true)
      → handle_event pg crypto config notify id now event event_type e s
        ≡ (ok (record { accepted = true; duplicate = true }), s)
  unfolding handle_event finish
  handle_recorded_event id now event event_type e s seen (inl h) =
      elim (Bool-cases (is_noop event_type)) [
        | inl noop ↦ ground (arith, recorded_is_duplicate pg id (recorded e) s.0 seen)
        | inr other ↦ elim (Result-cases (plan_of config event event_type now)) [
          | inl (plan, p) ↦ ground (
            arith,
            recorded_is_duplicate pg id (input_of e plan.user_id plan.change plan.transition) s.0,
            event_of-input_of e plan.user_id plan.change plan.transition,
          )
          | inr (x, p) ↦ ground arith
        ]
      ]
  handle_recorded_event id now event event_type e s seen (inr noop) =
      ground (arith, recorded_is_duplicate pg id (recorded e) s.0 seen)

  handle_event_again :
      (id id' now now' : ℕ) (event : RevenueCatEvent) (event_type : Text) (e : RecordedEvent)
      (s : BillingDb × N)
      → let s' = (handle_event pg crypto config notify id now event event_type e s).1 in
        is_ok (handle_event pg crypto config notify id now event event_type e s).0 ≡ true
        → handle_event pg crypto config notify id' now' event event_type e s'
          ≡ (ok (record { accepted = true; duplicate = true }), s')
  handle_event_again id id' now now' event event_type e s h =
      let s' = (handle_event pg crypto config notify id now event event_type e s).1 in
      let seen = handle_event_records id now event event_type e s h in
      elim (handle_event_planned id now event event_type e s h) [
        | inl p ↦
            handle_recorded_event id' now' event event_type e s' seen
              (inl (sym (is_ok-plan_of config event event_type now now') ∙ p))
        | inr p ↦ handle_recorded_event id' now' event event_type e s' seen (inr p)
      ]

  -- When a delivery was answered and the same body comes again, with any signature that is
  -- accepted at that time, the answer is `accepted` and `duplicate`, and neither the billing
  -- tables nor the notifications change.
  pub redelivered_webhook :
      (id id' : ℕ) (d d' : Delivery) (s : BillingDb × N)
      → is_ok (handle_revenue_cat_webhook pg crypto config notify id d s).0 ≡ true
      → d'.raw_body ≡ d.raw_body
      → d'.payload ≡ d.payload
      → assert_signature crypto config.webhook_secret d'.raw_body d'.signature d'.now_ms ≡ ok tt
      → handle_revenue_cat_webhook pg crypto config notify id' d'
          (handle_revenue_cat_webhook pg crypto config notify id d s).1
        ≡ (
          ok (record { accepted = true; duplicate = true }),
          (handle_revenue_cat_webhook pg crypto config notify id d s).1,
        )
  unfolding handle_revenue_cat_webhook
  redelivered_webhook id id' d d' s h body payload signed = grind (
    arith,
    λ (event : RevenueCatEvent) (event_type event_id : Text).
        handle_event_again id id' d.now_ms d'.now_ms event event_type
          (record { provider_event_id = event_id; payload_hash = crypto.sha256_hex d.raw_body }) s,
  )
