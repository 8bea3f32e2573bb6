-- ===== src/Billing/Handler/Tests.antt =====
-- The theorems about the webhook's handler and its signature at a concrete delivery.
use chattea_be.Prelude.{
  ℕ, zero, suc, ◌≡◌, refl, Bool, true, none, some, List, [], ◌∷◌, ◌++◌, length, any, find?, ◌↔◌,
}
use chattea_be.Prelude.Int.{pos}
use chattea_be.Prelude.Text.{
  Text, codes, text_eq, member, trim, trim_start, is_space, to_upper_case, upper,
}
use chattea_be.Prelude.Action.{ok, is_ok}
use chattea_be.Postgres.{UuidText}
use chattea_be.Notification.{NotifyRequest}
use chattea_be.Uuid.{is_uuid, hex_run}
use chattea_be.Billing.Types.{BillingDb}
use chattea_be.Billing.Repository.{
  apply_revenue_cat_event, apply_input, apply_consumable_transition, record_event, check_current,
  effective_state_of, is_stale, balance_delta_of, transition_delta, write_transaction,
  write_balance, require_user,
}
use chattea_be.Billing.Signature.{
  Crypto, assert_signature, signature_invalid, match_signature, check_match, hex_part, split_digits,
  hex_bytes, decimal, signed_bytes,
}
use chattea_be.Billing.Signature.Authentic.{IsAuthentic, accepts_iff_IsAuthentic}
use chattea_be.Billing.Payload.{
  Json, object, string, integer, end, field, signature_error, get_field, get_revenue_cat_event,
  read_event, optional_string, optional_timestamp, required_string, required_uuid,
  required_timestamp,
}
use chattea_be.Billing.Products.{
  is_noop, is_mutation, is_unimplemented, canonical_product_id_of, consumable_target_state,
  subscription_status,
}
use chattea_be.Billing.Webhook.{
  Config, check_production, units_of_kind, subscription_of, consumable_transition_of, target_of,
  plan_of,
}
use chattea_be.Billing.Handler.{
  Delivery, notification_of, handle_revenue_cat_webhook, handle_event, finish,
}
use chattea_be.Billing.Handler.Atomicity.{refused_webhook_changes_nothing}
use chattea_be.Billing.Handler.Redelivery.{redelivered_webhook}

abbrev pub first_code : Text → ℕ
first_code [] = 0
first_code (c ∷ s) = c

abbrev pub one_code : UuidText
one_code = record { uuid_in = first_code; uuid_out = λ n. n ∷ []; uuid_in-uuid_out = λ n. refl }

abbrev pub repeat : ℕ → ℕ → List ℕ
repeat zero x = []
repeat (suc n) x = x ∷ repeat n x

-- A digest that tells texts of different lengths apart.
abbrev pub by_length : Crypto
by_length = record {
  hmac_sha256 = λ secret bytes. length bytes ∷ repeat 31 0;
  sha256_hex = λ bytes. bytes;
}

abbrev pub config : Config
config = record {
  webhook_secret = some (codes "secret");
  node_env = none;
  ios_app_id = none;
  android_app_id = none;
}

-- The notifications that were sent.
abbrev pub sends : NotifyRequest → List NotifyRequest → Bool × List NotifyRequest
sends r sent = (true, sent ++ r ∷ [])

abbrev pub user : Text
user = codes "11111111-1111-1111-8111-111111111111"

abbrev pub body : Json
body = object (
    field (codes "event")
      (object (
        field (codes "id") (string (codes "e1")) (
          field (codes "type") (string (codes "non_renewing_purchase")) (
            field (codes "app_user_id") (string user) (
              field (codes "product_id") (string (codes "chattea_boost_30m")) (
                field (codes "transaction_id") (string (codes "t1")) (
                  field (codes "original_transaction_id") (string (codes "t1"))
                    (field (codes "event_timestamp_ms") (integer (pos 100)) end))))))))
      end)

-- t=1,v1=05 and 62 zeros: the digest of three bytes of body.
abbrev pub header : Text
header = codes "t=1,v1=0" ++ 53 ∷ repeat 62 48

abbrev pub delivery : Delivery
delivery = record {
  raw_body = 1 ∷ 2 ∷ 3 ∷ [];
  signature = some header;
  payload = body;
  now_ms = 2000;
}

abbrev pub unsigned : Delivery
unsigned = record delivery { signature = none }

abbrev pub tables : BillingDb × List NotifyRequest
tables = (
  record {
    users = 49 ∷ [];
    events = [];
    subscriptions = [];
    transactions = [];
    ledger = [];
    balances = λ u. none;
    boosts = [];
  },
  [],
)

refused_webhook_changes_nothing_example :
    (handle_revenue_cat_webhook one_code by_length config sends 1 unsigned tables).1 ≡ tables
unfolding handle_revenue_cat_webhook assert_signature text_eq
refused_webhook_changes_nothing_example =
    refused_webhook_changes_nothing one_code by_length config sends 1 unsigned tables
      (signature_error signature_invalid) refl

accepts_iff_IsAuthentic_example :
    (is_ok (assert_signature by_length (some (codes "secret")) (1 ∷ 2 ∷ 3 ∷ []) (some header) 2000)
      ≡ true)
    ↔ IsAuthentic by_length (codes "secret") (1 ∷ 2 ∷ 3 ∷ []) header 2000
accepts_iff_IsAuthentic_example =
    accepts_iff_IsAuthentic by_length (codes "secret") (1 ∷ 2 ∷ 3 ∷ []) header 2000 (λ e. cc)

signature_is_accepted :
    assert_signature by_length (some (codes "secret")) (1 ∷ 2 ∷ 3 ∷ []) (some header) 2000 ≡ ok tt
unfolding assert_signature match_signature check_match hex_part split_digits hex_bytes decimal
    signed_bytes text_eq
signature_is_accepted = refl

delivery_is_accepted :
    is_ok (handle_revenue_cat_webhook one_code by_length config sends 1 delivery tables).0 ≡ true
unfolding handle_revenue_cat_webhook handle_event finish notification_of assert_signature
    match_signature check_match hex_part split_digits hex_bytes decimal signed_bytes text_eq
    get_revenue_cat_event read_event optional_string optional_timestamp get_field required_string
    required_uuid required_timestamp trim trim_start is_space to_upper_case upper member is_uuid
    hex_run is_noop is_mutation is_unimplemented canonical_product_id_of consumable_target_state
    subscription_status check_production units_of_kind subscription_of consumable_transition_of
    target_of plan_of apply_revenue_cat_event apply_input apply_consumable_transition record_event
    write_transaction write_balance check_current effective_state_of is_stale balance_delta_of
    transition_delta require_user any find?
delivery_is_accepted = refl

redelivered_webhook_example :
    handle_revenue_cat_webhook one_code by_length config sends 2 delivery
      (handle_revenue_cat_webhook one_code by_length config sends 1 delivery tables).1
    ≡ (
      ok (record { accepted = true; duplicate = true }),
      (handle_revenue_cat_webhook one_code by_length config sends 1 delivery tables).1,
    )
redelivered_webhook_example =
    redelivered_webhook one_code by_length config sends 1 2 delivery delivery tables
      delivery_is_accepted refl refl signature_is_accepted
