-- ===== src/Notification/Types.antt =====
-- The tables of src/modules/database/schema.ts that src/modules/notification reads and writes, and
-- push-delivery.types.ts. Columns that no query reads (updatedAt) are left out.
use chattea_be.Prelude.{ℕ, Bool, true, false, ◌||◌, Option, List, ◌*◌}
use chattea_be.Prelude.Text.{Text}
use chattea_be.Notification.{NotifyRequest}

pub data PushStatus : Type 0 where
  queued sending receipt_pending receipt_checking : PushStatus
  delivered failed_permanent exhausted cancelled : PushStatus

pub record PushJob : Type 0 where
  pub id : ℕ
  pub notification_id : ℕ
  pub push_token_id : Option ℕ
  pub token_snapshot : Text
  pub title : Text
  pub body : Text
  pub route : Option Text
  pub status : PushStatus
  pub ticket_id : Option Text
  pub send_attempts : ℕ
  pub receipt_attempts : ℕ
  pub next_attempt_at : ℕ
  pub receipt_available_at : Option ℕ
  pub lease_expires_at : Option ℕ
  pub last_error_code : Option Text
  pub last_error_message : Option Text
  pub sent_at : Option ℕ
  pub completed_at : Option ℕ
  pub created_at : ℕ

pub record PushToken : Type 0 where
  pub id : ℕ
  pub user_id : ℕ
  pub device_id : ℕ
  pub token : Text
  pub platform : Text

pub record Notice : Type 0 where
  pub id : ℕ
  pub user_id : ℕ
  pub request : NotifyRequest
  pub read_at : Option ℕ
  pub created_at : ℕ

pub record NotificationDb : Type 0 where
  pub notifications : List Notice
  pub tokens : List PushToken
  pub outbox : List PushJob

pub data NotificationError : Type 0 where
  push_ticket_invalid push_retry_time_required push_token_device_conflict : NotificationError
  push_batch_limit_invalid push_token_invalid push_platform_invalid : NotificationError
  -- what PostgreSQL throws for a ticket or a token that another row has
  unique_violation : NotificationError

pub data SendKind : Type 0 where
  accepted retry permanent gave_up : SendKind

pub record SendResult : Type 0 where
  pub id : ℕ
  pub attempt : ℕ
  pub kind : SendKind
  pub ticket_id : Option Text
  pub receipt_available_at : Option ℕ
  pub next_attempt_at : Option ℕ
  pub error_code : Option Text
  pub error_message : Option Text
  pub invalidate_push_token_id : Option ℕ

pub data ReceiptKind : Type 0 where
  arrived retry_receipt receipt_permanent receipt_gave_up : ReceiptKind

pub record ReceiptResult : Type 0 where
  pub id : ℕ
  pub attempt : ℕ
  pub kind : ReceiptKind
  pub next_attempt_at : Option ℕ
  pub error_code : Option Text
  pub error_message : Option Text
  pub invalidate_push_token_id : Option ℕ

pub record BatchResult : Type 0 where
  pub claimed : ℕ
  pub succeeded : ℕ
  pub retry_scheduled : ℕ
  pub permanently_failed : ℕ
  pub has_more : Bool

abbrev pub max_messages_per_request : ℕ
max_messages_per_request = 100

abbrev pub receipt_delay_ms : ℕ
receipt_delay_ms = 15 * 60 * 1000

abbrev pub push_lease_ms : ℕ
push_lease_ms = 60 * 1000

abbrev pub max_send_attempts : ℕ
max_send_attempts = 5

abbrev pub max_receipt_attempts : ℕ
max_receipt_attempts = 8

abbrev pub is_sending : PushStatus → Bool
is_sending sending = true
is_sending _ = false

abbrev pub is_queued : PushStatus → Bool
is_queued queued = true
is_queued _ = false

abbrev pub is_receipt_pending : PushStatus → Bool
is_receipt_pending receipt_pending = true
is_receipt_pending _ = false

abbrev pub is_receipt_checking : PushStatus → Bool
is_receipt_checking receipt_checking = true
is_receipt_checking _ = false

-- IN_FLIGHT_PUSH_STATUSES
abbrev pub is_in_flight : PushStatus → Bool
is_in_flight s = is_sending s || is_receipt_pending s || is_receipt_checking s

-- OPEN_PUSH_STATUSES
abbrev pub is_open : PushStatus → Bool
is_open s = is_queued s || is_in_flight s

abbrev pub is_accepted : SendResult → Bool
is_accepted r = elim r.kind [
  | accepted ↦ true
  | retry ↦ false
  | permanent ↦ false
  | gave_up ↦ false
]
