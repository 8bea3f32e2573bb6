-- ===== src/Notification/Delivery.antt =====
-- The batches of src/modules/notification/notification.service.ts: what is sent to the push
-- service, how its answers become results, and what a batch reports. The push service is a
-- parameter.
pub mod Answers
pub mod Finish
pub mod Batches
use chattea_be.Prelude.{
  ℕ, Bool, true, false, not, ◌&&◌, ◌||◌, Option, none, some, List, [], ◌∷◌, ◌++◌, ◌+◌, ◌-◌, ◌*◌,
  ◌^◌, min, ltb, leb, ◌==◌, if◌then◌else◌, count, map, length, get_or,
}
use chattea_be.Prelude.Text.{Text, codes, text_eq, trim}
use chattea_be.Prelude.Action.{Result, ok, err, pure, throw, ◌>>=◌, ◌>>◌, throw_if}
use chattea_be.Postgres.{UuidText}
use chattea_be.Notification.Types.{
  PushJob, push_token_invalid, push_platform_invalid, push_batch_limit_invalid, SendKind, accepted,
  retry, permanent, gave_up, SendResult, ReceiptKind, arrived, retry_receipt, receipt_permanent,
  receipt_gave_up, ReceiptResult, BatchResult, max_messages_per_request, receipt_delay_ms,
  push_lease_ms, max_send_attempts, max_receipt_attempts, is_accepted,
}
use chattea_be.Notification.Outbox.{
  Notifications, ClaimBatch, claim_send_batch, claim_receipt_batch,
}
use chattea_be.Notification.Results.{apply_send_results, apply_receipt_results, is_blank}
use chattea_be.Notification.Tokens.{RegisterInput, register_push_token}

pub record PushMessage : Type 0 where
  pub to : Text
  pub title : Text
  pub body : Text
  pub route : Option Text

pub data Ticket : Type 0 where
  ticket_ok : Text → Ticket
  ticket_error : Text → Option Text → Ticket

pub data Receipt : Type 0 where
  receipt_ok : Receipt
  receipt_error : Text → Option Text → Receipt

-- The push service. What it throws is an Error with a message, or something else.
pub record PushGateway : Type 0 where
  pub is_valid_token : Text → Bool
  pub send : List PushMessage → Result (Option Text) (List Ticket)
  pub get_receipts : List Text → Result (Option Text) (Text → Option Receipt)

abbrev pub empty_batch : Bool → BatchResult
empty_batch more = record {
  claimed = 0;
  succeeded = 0;
  retry_scheduled = 0;
  permanently_failed = 0;
  has_more = more;
}

-- Of the characters that are not ASCII, none lowers to a letter of the two names.
abbrev to_lower_case : Text → Text
to_lower_case = map (λ c. if leb 65 c && leb c 90 then c + 32 else c)

abbrev is_platform : Text → Bool
is_platform t = text_eq t (codes "ios") || text_eq t (codes "android")

unfoldable pub check_limit : ℕ → Bool
check_limit limit = ltb limit 1 || ltb max_messages_per_request limit

unfoldable pub retry_at : ℕ → ℕ → ℕ
retry_at now attempt = now + min (30000 * 2 ^ (attempt - 1)) (60 * 60 * 1000)

unfoldable pub retry_send_result : PushJob → ℕ → Option Text → Option Text → SendResult
retry_send_result job now code message =
    let gives_up = leb max_send_attempts job.send_attempts in
    record {
      id = job.id;
      attempt = job.send_attempts;
      kind = if gives_up then gave_up else retry;
      ticket_id = none;
      receipt_available_at = none;
      next_attempt_at = if gives_up then none else some (retry_at now job.send_attempts);
      error_code = code;
      error_message = message;
      invalidate_push_token_id = none;
    }

abbrev pub code_is : Option Text → Text → Bool
code_is none t = false
code_is (some c) t = text_eq c t

-- The token of a device that is gone.
abbrev pub gone_token : Option Text → PushJob → Option ℕ
gone_token code job = if code_is code (codes "DeviceNotRegistered") then job.push_token_id else none

unfoldable pub ticket_result : PushJob → Option Ticket → ℕ → SendResult
ticket_result job none now = retry_send_result job now (some (codes "ExpoTicketMissing")) none
ticket_result job (some (ticket_ok id)) now = record {
  id = job.id;
  attempt = job.send_attempts;
  kind = accepted;
  ticket_id = some id;
  receipt_available_at = some (now + receipt_delay_ms);
  next_attempt_at = none;
  error_code = none;
  error_message = none;
  invalidate_push_token_id = none;
}
ticket_result job (some (ticket_error message code)) now =
    if code_is code (codes "MessageRateExceeded") || code_is code (codes "ProviderError")
    then retry_send_result job now code (some message)
    else record {
      id = job.id;
      attempt = job.send_attempts;
      kind = permanent;
      ticket_id = none;
      receipt_available_at = none;
      next_attempt_at = none;
      error_code = some (get_or code (codes "ExpoTicketRejected"));
      error_message = some message;
      invalidate_push_token_id = gone_token code job;
    }

unfoldable pub retry_receipt_result : PushJob → ℕ → Option Text → Option Text → ReceiptResult
retry_receipt_result job now code message =
    let gives_up = leb max_receipt_attempts job.receipt_attempts in
    record {
      id = job.id;
      attempt = job.receipt_attempts;
      kind = if gives_up then receipt_gave_up else retry_receipt;
      next_attempt_at = if gives_up then none else some (retry_at now job.receipt_attempts);
      error_code = code;
      error_message = message;
      invalidate_push_token_id = none;
    }

abbrev pub failed_receipt : PushJob → Text → Option Text → Option ℕ → ReceiptResult
failed_receipt job code message token = record {
  id = job.id;
  attempt = job.receipt_attempts;
  kind = receipt_permanent;
  next_attempt_at = none;
  error_code = some code;
  error_message = message;
  invalidate_push_token_id = token;
}

unfoldable pub receipt_result : PushJob → Option Receipt → ℕ → ReceiptResult
receipt_result job none now = retry_receipt_result job now (some (codes "ExpoReceiptMissing")) none
receipt_result job (some receipt_ok) now = record {
  id = job.id;
  attempt = job.receipt_attempts;
  kind = arrived;
  next_attempt_at = none;
  error_code = none;
  error_message = none;
  invalidate_push_token_id = none;
}
receipt_result job (some (receipt_error message code)) now =
    failed_receipt job (get_or code (codes "ExpoReceiptRejected")) (some message)
      (gone_token code job)

abbrev pub is_retry : SendResult → Bool
is_retry r = elim r.kind [ accepted ↦ false | retry ↦ true | permanent ↦ false | gave_up ↦ false ]

abbrev pub is_failed : SendResult → Bool
is_failed r = elim r.kind [ accepted ↦ false | retry ↦ false | permanent ↦ true | gave_up ↦ true ]

unfoldable pub summarize_send_results : List SendResult → Bool → BatchResult
summarize_send_results results more = record {
  claimed = length results;
  succeeded = count is_accepted results;
  retry_scheduled = count is_retry results;
  permanently_failed = count is_failed results;
  has_more = more;
}

abbrev pub has_arrived : ReceiptResult → Bool
has_arrived r = elim r.kind [
  | arrived ↦ true
  | retry_receipt ↦ false
  | receipt_permanent ↦ false
  | receipt_gave_up ↦ false
]

abbrev pub is_receipt_retry : ReceiptResult → Bool
is_receipt_retry r = elim r.kind [
  | arrived ↦ false
  | retry_receipt ↦ true
  | receipt_permanent ↦ false
  | receipt_gave_up ↦ false
]

abbrev pub is_receipt_failed : ReceiptResult → Bool
is_receipt_failed r = elim r.kind [
  | arrived ↦ false
  | retry_receipt ↦ false
  | receipt_permanent ↦ true
  | receipt_gave_up ↦ true
]

unfoldable pub summarize_receipt_results : List ReceiptResult → Bool → BatchResult
summarize_receipt_results results more = record {
  claimed = length results;
  succeeded = count has_arrived results;
  retry_scheduled = count is_receipt_retry results;
  permanently_failed = count is_receipt_failed results;
  has_more = more;
}
