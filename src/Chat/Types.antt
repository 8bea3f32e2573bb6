-- ===== src/Chat/Types.antt =====
-- The tables of src/modules/database/schema.ts that src/modules/chat/chat.repository.ts reads and
-- writes, without the list of rooms. An id is the number that its 128 bits write.
use chattea_be.Prelude.{ℕ, Option, List}
use chattea_be.Prelude.Text.{Text}
use chattea_be.Notification.{NotifyRequest}

pub record Room : Type 0 where
  pub id : ℕ
  pub updated_at : ℕ

pub record RoomMember : Type 0 where
  pub room_id : ℕ
  pub user_id : ℕ

pub record Message : Type 0 where
  pub id : ℕ
  pub room_id : ℕ
  pub sender_user_id : Option ℕ
  pub text : Text
  pub idempotency_key : Option Text
  pub deleted_at : Option ℕ
  pub created_at : ℕ

pub record ReadReceipt : Type 0 where
  pub room_id : ℕ
  pub user_id : ℕ
  pub last_read_message_id : Option ℕ
  pub read_at : ℕ

pub record UserBlock : Type 0 where
  pub blocker_user_id : ℕ
  pub blocked_user_id : ℕ

pub record MessageReport : Type 0 where
  pub message_id : ℕ
  pub reporter_user_id : ℕ
  pub reason : Text

pub data EventType : Type 0 where
  added edited deleted : EventType

-- The tables, what was published to subscribers, and what was asked of the notification service.
pub record ChatDb : Type 0 where
  pub rooms : List Room
  pub room_members : List RoomMember
  pub messages : List Message
  pub receipts : List ReadReceipt
  pub blocks : List UserBlock
  pub reports : List MessageReport
  pub events : List (EventType × Message)
  pub notices : List NotifyRequest

pub data ChatError : Type 0 where
  room_id_invalid user_id_invalid message_id_invalid not_a_member : ChatError
  message_page_size_invalid message_cursor_invalid : ChatError
  message_text_required message_text_too_long first_message_text_too_long : ChatError
  idempotency_key_invalid idempotency_key_too_long idempotency_key_already_used : ChatError
  message_create_failed message_not_found message_not_found_or_forbidden : ChatError
  block_self_not_allowed report_reason_required report_reason_too_long : ChatError
  check_violation : ChatError
