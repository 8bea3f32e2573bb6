-- ===== src/Billing/Payload.antt =====
-- The reading of a webhook's body in src/modules/billing/billing.service.ts. The body is a JSON
-- value; JSON numbers are integers or `fraction`, any other number.
use chattea_be.Prelude.{ℕ, Bool, ◌||◌, Option, none, some, [], ltb, if◌then◌else◌}
use chattea_be.Prelude.Int.{ℤ, pos}
use chattea_be.Prelude.Text.{Text, codes, text_eq, trim}
use chattea_be.Prelude.Action.{Result, ok, err}
use chattea_be.Prelude.Fallible.{◌>>=◌, or_err}
use chattea_be.Uuid.{is_uuid}
use chattea_be.Billing.Types.{BillingError}
use chattea_be.Billing.Signature.{SignatureError, max_safe_integer}

mutual
  pub data Json : Type 0 where
    null : Json
    boolean : Bool → Json
    integer : ℤ → Json
    fraction : Json
    string : Text → Json
    array : Items → Json
    object : Fields → Json

  pub data Items : Type 0 where
    nil : Items
    item : Json → Items → Items

  pub data Fields : Type 0 where
    end : Fields
    field : Text → Json → Fields → Fields

-- What the endpoint throws, by the message.
pub data WebhookError : Type 0 where
  signature_error : SignatureError → WebhookError
  repository_error : BillingError → WebhookError
  payload_invalid event_invalid event_id_required event_type_required : WebhookError
  event_type_not_implemented event_type_unsupported : WebhookError
  ios_app_id_required android_app_id_required app_ids_must_differ : WebhookError
  environment_invalid app_id_invalid app_user_id_invalid product_id_required : WebhookError
  product_unsupported original_transaction_id_required event_timestamp_required : WebhookError
  transaction_id_required : WebhookError

pub record RevenueCatEvent : Type 0 where
  pub id : Option Text
  pub type : Option Text
  pub event_timestamp_ms : Option ℕ
  pub environment : Option Text
  pub app_id : Option Text
  pub app_user_id : Option Text
  pub product_id : Option Text
  pub original_transaction_id : Option Text
  pub transaction_id : Option Text
  pub cancel_reason : Option Text
  pub expiration_at_ms : Option ℕ
  pub purchased_at_ms : Option ℕ

-- `o.key`, `none` for undefined
unfoldable pub get_field : Text → Fields → Option Json
get_field key end = none
get_field key (field k v rest) = if text_eq k key then some v else get_field key rest

abbrev pub as_record : Json → Option Fields
as_record (object fields) = some fields
as_record null = none
as_record (boolean _) = none
as_record (integer _) = none
as_record fraction = none
as_record (string _) = none
as_record (array _) = none

unfoldable pub optional_string : Option Json → Result WebhookError (Option Text)
optional_string none = ok none
optional_string (some null) = ok none
optional_string (some (string s)) = ok (some s)
optional_string (some _) = err event_invalid

-- The largest time of a JavaScript date; it is below the largest safe integer.
abbrev pub max_timestamp : ℕ
max_timestamp = 8640000000000000

unfoldable pub optional_timestamp : Option Json → Result WebhookError (Option ℕ)
optional_timestamp none = ok none
optional_timestamp (some null) = ok none
optional_timestamp (some (integer (pos n))) =
    if ltb max_safe_integer n || ltb max_timestamp n then err event_invalid else ok (some n)
optional_timestamp (some _) = err event_invalid

unfoldable pub read_event : Fields → Result WebhookError RevenueCatEvent
unfolding optional_string optional_timestamp get_field
read_event o = do
  id ← optional_string (get_field (codes "id") o)
  type ← optional_string (get_field (codes "type") o)
  event_timestamp_ms ← optional_timestamp (get_field (codes "event_timestamp_ms") o)
  environment ← optional_string (get_field (codes "environment") o)
  app_id ← optional_string (get_field (codes "app_id") o)
  app_user_id ← optional_string (get_field (codes "app_user_id") o)
  product_id ← optional_string (get_field (codes "product_id") o)
  original_transaction_id ← optional_string (get_field (codes "original_transaction_id") o)
  transaction_id ← optional_string (get_field (codes "transaction_id") o)
  cancel_reason ← optional_string (get_field (codes "cancel_reason") o)
  expiration_at_ms ← optional_timestamp (get_field (codes "expiration_at_ms") o)
  purchased_at_ms ← optional_timestamp (get_field (codes "purchased_at_ms") o)
  ok (record {
    id = id;
    type = type;
    event_timestamp_ms = event_timestamp_ms;
    environment = environment;
    app_id = app_id;
    app_user_id = app_user_id;
    product_id = product_id;
    original_transaction_id = original_transaction_id;
    transaction_id = transaction_id;
    cancel_reason = cancel_reason;
    expiration_at_ms = expiration_at_ms;
    purchased_at_ms = purchased_at_ms;
  })

unfoldable pub get_revenue_cat_event : Json → Result WebhookError RevenueCatEvent
unfolding read_event
get_revenue_cat_event payload = do
  outer ← or_err (as_record payload) payload_invalid
  event ←
      or_err
        (elim (get_field (codes "event") outer) [
          | none ↦ some outer
          | some inner ↦ as_record inner
        ])
        event_invalid
  read_event event

-- `value?.trim()`, which must not be empty
unfoldable pub required_string : Option Text → WebhookError → Result WebhookError Text
required_string none e = err e
required_string (some s) e = if text_eq (trim s) [] then err e else ok (trim s)

unfoldable pub required_uuid : Option Text → WebhookError → Result WebhookError Text
unfolding required_string
required_uuid value e = do
  normalized ← required_string value e
  if is_uuid normalized then ok normalized else err e

unfoldable pub required_timestamp : Option ℕ → WebhookError → Result WebhookError ℕ
required_timestamp value e = or_err value e
