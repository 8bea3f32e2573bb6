-- ===== src/Billing/Handler.antt =====
-- `handleRevenueCatWebhook` and `balance` of src/modules/billing/billing.service.ts. The
-- notification service is a parameter: a state of its own, and a call on it that may fail.
pub mod Atomicity
pub mod Redelivery
mod Tests
use chattea_be.Prelude.{ℕ, Bool, true, false, Option, none, some, List, ◌++◌, if◌then◌else◌, get_or}
use chattea_be.Prelude.Int.{ℤ, pos}
use chattea_be.Prelude.Text.{Text, codes, to_upper_case}
use chattea_be.Prelude.Action.{Result, ok, err, Action, pure, lift, ◌>>=◌, ◌>>◌, modify}
use chattea_be.Postgres.{UuidText}
use chattea_be.Notification.{NotifyRequest, purchase}
use chattea_be.Billing.Types.{
  granted, refunded, active, expired, Subscription, ConsumableTransition, RecordedEvent, recorded,
  Outcome, applied, duplicate, stale, BillingDb, ConsumableUnits, zero_delta,
}
use chattea_be.Billing.Repository.{Billing, apply_revenue_cat_event, balance}
use chattea_be.Billing.Signature.{Crypto, assert_signature, SignatureError}
use chattea_be.Billing.Payload.{
  Json, WebhookError, signature_error, repository_error, event_id_required, event_type_required,
  RevenueCatEvent, get_revenue_cat_event, required_string,
}
use chattea_be.Billing.Products.{is_noop, Product}
use chattea_be.Billing.Webhook.{Config, Plan, plan_of, input_of}

pub record Reply : Type 0 where
  pub accepted : Bool
  pub duplicate : Bool

-- One HTTP call: the body as bytes and as JSON, the header, and the clock.
pub record Delivery : Type 0 where
  pub raw_body : List ℕ
  pub signature : Option Text
  pub payload : Json
  pub now_ms : ℕ

abbrev pub signature_result : Result SignatureError Unit → Result WebhookError Unit
signature_result (ok u) = ok u
signature_result (err e) = err (signature_error e)

abbrev pub is_active : Option Subscription → Bool
is_active none = false
is_active (some s) = elim s.status [ active ↦ true | expired ↦ false ]

abbrev pub is_grant : Option ConsumableTransition → Bool
is_grant none = false
is_grant (some t) = elim t.target_state [ granted ↦ true | refunded ↦ false ]

-- The notification of a change that was applied.
pub notification_of : Text → Plan → Option NotifyRequest
notification_of event_id p = elim (is_active p.change) [
  | true ↦ some (record {
    user_id = p.user_id;
    type = purchase;
    title = p.product.name ++ codes "을 시작했어요";
    body = codes "새 혜택을 바로 이용할 수 있어요.";
    route = some (codes "/premium");
    source_id = some event_id;
  })
  | false ↦
      if is_grant p.transition
      then some (record {
        user_id = p.user_id;
        type = purchase;
        title = p.product.name ++ codes "을 준비했어요";
        body = codes "필요한 순간에 사용해 보세요.";
        route = some (codes "/profile");
        source_id = some event_id;
      })
      else none
]

abbrev pub is_duplicate : Outcome → Bool
is_duplicate duplicate = true
is_duplicate applied = false
is_duplicate stale = false

module _ {N : Type 0} (pg : UuidText) (crypto : Crypto) (config : Config)
    (notify : NotifyRequest → N → Bool × N) where
  -- A statement on the billing tables.
  abbrev pub on_db : {A : Type 0} → Billing A → Action WebhookError (BillingDb × N) A
  on_db m (db, n) =
      let (r, db') = m db in
      elim r [ ok a ↦ (ok a, (db', n)) | err e ↦ (err (repository_error e), (db', n)) ]

  -- `try { await notify(…) } catch { warn }`: a failure is logged and forgotten.
  abbrev pub try_notify : Option NotifyRequest → Action WebhookError (BillingDb × N) Unit
  try_notify none s = (ok tt, s)
  try_notify (some request) (db, n) = (ok tt, (db, (notify request n).1))

  -- What follows the repository's answer on a mutation event.
  pub finish : Text → Plan → Outcome → Action WebhookError (BillingDb × N) Reply
  finish event_id plan duplicate = pure (record { accepted = true; duplicate = true })
  finish event_id plan stale = pure (record { accepted = true; duplicate = false })
  finish event_id plan applied = do
    try_notify (notification_of event_id plan)
    pure (record { accepted = true; duplicate = false })

  pub handle_event :
      ℕ → ℕ → RevenueCatEvent → Text → RecordedEvent → Action WebhookError (BillingDb × N) Reply
  handle_event id now event event_type e =
      if is_noop event_type
      then (do
        result ← on_db (apply_revenue_cat_event pg id (recorded e))
        pure (record { accepted = true; duplicate = is_duplicate result.outcome }))
      else (do
        plan ← lift (plan_of config event event_type now)
        result ←
            on_db
              (apply_revenue_cat_event pg id (input_of e plan.user_id plan.change plan.transition))
        finish e.provider_event_id plan result.outcome)

  -- `id` is the key of the row that the call may insert.
  pub handle_revenue_cat_webhook : ℕ → Delivery → Action WebhookError (BillingDb × N) Reply
  handle_revenue_cat_webhook id d = do
    lift (
        signature_result
          (assert_signature crypto config.webhook_secret d.raw_body d.signature d.now_ms))
    event ← lift (get_revenue_cat_event d.payload)
    event_id ← lift (required_string event.id event_id_required)
    event_type ← lift (required_string event.type event_type_required)
    handle_event id d.now_ms event (to_upper_case event_type)
        (record { provider_event_id = event_id; payload_hash = crypto.sha256_hex d.raw_body })

-- The balance that the client sees: no row means no credits.
pub balance_of : UuidText → Text → ℕ → Billing (ℤ × ℤ × Option ℕ)
balance_of pg user_id now = do
  row ← balance pg user_id now
  let units = get_or row.0 zero_delta
  pure (units.super_like_credits, units.boost_credits, row.1)
