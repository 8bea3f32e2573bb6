-- ===== src/Chat/Service.antt =====
-- src/modules/chat/chat.service.ts, without the list of rooms. Subscribers and the notification
-- service are lists of what they were told: the code does not wait for a notification to succeed.
-- `id` is the random id of a new message.
pub mod Replay
pub mod Author
use chattea_be.Prelude.{
  ℕ, Bool, true, false, not, ◌&&◌, ◌||◌, Option, none, some, List, [], ◌∷◌, ◌++◌, min, ltb, ◌==◌,
  if◌then◌else◌, take, map, length, is_some, get_or,
}
use chattea_be.Prelude.Text.{Text, codes, text_eq, trim}
use chattea_be.Prelude.Action.{
  Result, ok, err, pure, throw, modify, ◌>>=◌, ◌>>◌, throw_if, or_throw,
}
use chattea_be.Postgres.{UuidText}
use chattea_be.Uuid.{is_uuid}
use chattea_be.Notification.{NotifyRequest, message}
use chattea_be.Chat.Types.{
  Message, EventType, added, edited, deleted, ChatDb, ChatError, room_id_invalid, user_id_invalid,
  message_id_invalid, not_a_member, message_page_size_invalid, message_cursor_invalid,
  message_text_required, message_text_too_long, first_message_text_too_long,
  idempotency_key_invalid, idempotency_key_too_long, idempotency_key_already_used,
  message_create_failed, message_not_found, message_not_found_or_forbidden, block_self_not_allowed,
  report_reason_required, report_reason_too_long,
}
use chattea_be.Chat.Repository.{
  Chat, find_message_cursor, is_room_member, other_room_member_ids, Cursor, after_message,
  before_message, latest, messages, mark_room_read, find_message_by_idempotency_key,
  active_message_count, MessageInput, Created, create_message, edit_message, delete_message,
  block_user, report_message,
}

-- A trimmed text that is not empty and not too long.
abbrev pub validate_length : ℕ → ChatError → ChatError → Text → Result ChatError Text
validate_length limit required too_long input =
    if text_eq (trim input) []
    then err required
    else if ltb limit (length (trim input))
    then err too_long
    else ok (trim input)

abbrev pub validate_text : Text → Chat Text
validate_text input db = (validate_length 90 message_text_required message_text_too_long input, db)

abbrev pub validate_report_reason : Text → Chat Text
validate_report_reason input db =
    (validate_length 120 report_reason_required report_reason_too_long input, db)

unfoldable pub validate_idempotency_key : Option Text → Chat (Option Text)
validate_idempotency_key none db = (ok none, db)
validate_idempotency_key (some input) db =
    elim (validate_length 128 idempotency_key_invalid idempotency_key_too_long input) [
      | ok key ↦ (ok (some key), db)
      | err e ↦ (err e, db)
    ]

abbrev pub validate_uuid : Text → ChatError → Chat Unit
validate_uuid input error = throw_if (not (is_uuid input)) error

abbrev pub publish : EventType → Message → Chat Unit
publish type m = modify (λ db. record db { events = db.events ++ (type, m) ∷ [] })

pub record SendInput : Type 0 where
  pub room_id : Text
  pub text : Text
  pub idempotency_key : Option Text

pub record PageInput : Type 0 where
  pub room_id : Text
  pub first : Option ℕ
  pub after : Option Text
  pub before : Option Text

-- An empty text counts as none.
abbrev pub given : Option Text → Option Text
given none = none
given (some t) = if text_eq t [] then none else some t

module _ (pg : UuidText) where
  open pg use {uuid_in, uuid_out}

  unfoldable pub require_room_member : Text → Text → Chat Unit
  require_room_member room_id user_id = do
    member ← is_room_member (uuid_in room_id) (uuid_in user_id)
    throw_if (not member) not_a_member

  unfoldable pub assert_room_member : Text → Text → Chat Unit
  assert_room_member room_id user_id = do
    validate_uuid room_id room_id_invalid
    require_room_member room_id user_id

  unfoldable pub find_cursor : Text → Option Text → Chat (Option ℕ)
  find_cursor room_id none = pure none
  find_cursor room_id (some id) = do
    validate_uuid id message_cursor_invalid
    found ← find_message_cursor (uuid_in id) (uuid_in room_id)
    cursor ← or_throw found message_cursor_invalid
    pure (some cursor.id)

  abbrev pub cursor_of : Option Text → Option ℕ → Cursor
  cursor_of after none = latest
  cursor_of after (some id) = if is_some after then after_message id else before_message id

  abbrev pub first_of : Option Text → Option Text → Option Text
  first_of none b = b
  first_of (some a) b = some a

  unfoldable pub service_messages : Text → PageInput → Chat (List Message)
  service_messages user_id input = do
    assert_room_member input.room_id user_id
    throw_if (min (get_or input.first 50) 100 == 0) message_page_size_invalid
    throw_if (is_some (given input.after) && is_some (given input.before)) message_cursor_invalid
    cursor ← find_cursor input.room_id (first_of (given input.after) (given input.before))
    messages (uuid_in input.room_id) (min (get_or input.first 50) 100)
        (cursor_of (given input.after) cursor)

  abbrev pub message_notice : Text → Text → Message → ℕ → NotifyRequest
  message_notice room_id text m recipient = record {
    user_id = uuid_out recipient;
    type = message;
    title = codes "새 메시지가 도착했어요";
    body = take 60 text;
    route = some (codes "/rooms/" ++ room_id);
    source_id = some (uuid_out m.id);
  }

  unfoldable pub notify_members : Text → Text → Text → Message → Chat Unit
  notify_members room_id user_id text m = do
    recipients ← other_room_member_ids (uuid_in room_id) (uuid_in user_id)
    modify
        (λ db. record db { notices = db.notices ++ map (message_notice room_id text m) recipients })

  unfoldable pub announce : Text → Text → Text → Created → Message → Chat Message
  announce room_id user_id text result m =
      if result.created
      then (do publish added m; notify_members room_id user_id text m; pure m)
      else pure m

  -- A message that the key has already made.
  abbrev pub existing_for : Option Text → ℕ → ℕ → Chat (Option Message)
  existing_for none room user = pure none
  existing_for (some key) room user = find_message_by_idempotency_key key room user

  unfoldable pub send_new : ℕ → ℕ → Text → Text → Text → Option Text → Chat Message
  send_new id now user_id room_id text key = do
    active ← active_message_count (uuid_in room_id)
    throw_if (active == 0 && ltb 30 (length text)) first_message_text_too_long
    result ← create_message id now (record {
      room_id = uuid_in room_id;
      sender_user_id = uuid_in user_id;
      text = text;
      idempotency_key = key;
    })
    m ← or_throw result.message message_create_failed
    throw_if (is_some m.deleted_at) idempotency_key_already_used
    announce room_id user_id text result m

  unfoldable pub send_message : ℕ → ℕ → Text → SendInput → Chat Message
  send_message id now user_id input = do
    text ← validate_text input.text
    validate_uuid input.room_id room_id_invalid
    require_room_member input.room_id user_id
    key ← validate_idempotency_key input.idempotency_key
    existing ← existing_for key (uuid_in input.room_id) (uuid_in user_id)
    elim existing [
      | some m ↦ (do throw_if (is_some m.deleted_at) idempotency_key_already_used; pure m)
      | none ↦ send_new id now user_id input.room_id text key
    ]

  unfoldable pub service_edit : ℕ → Text → Text → Text → Chat Message
  service_edit now user_id message_id input = do
    validate_uuid message_id message_id_invalid
    text ← validate_text input
    found ← edit_message now (uuid_in message_id) (uuid_in user_id) text
    m ← or_throw found message_not_found
    publish edited m
    pure m

  unfoldable pub publish_deleted : Option Message → Chat Bool
  publish_deleted none = pure false
  publish_deleted (some m) = do publish deleted m; pure true

  unfoldable pub service_delete : ℕ → Text → Text → Chat Bool
  service_delete now user_id message_id = do
    validate_uuid message_id message_id_invalid
    found ← delete_message now (uuid_in message_id) (uuid_in user_id)
    publish_deleted found

  unfoldable pub service_mark_read : Text → Text → Chat Bool
  service_mark_read user_id room_id = do
    assert_room_member room_id user_id
    mark_room_read (uuid_in room_id) (uuid_in user_id)
    pure true

  -- The two ids are compared as texts.
  unfoldable pub service_block : Text → Text → Chat Bool
  service_block blocker blocked = do
    validate_uuid blocker user_id_invalid
    validate_uuid blocked user_id_invalid
    throw_if (text_eq blocker blocked) block_self_not_allowed
    block_user (uuid_in blocker) (uuid_in blocked)
    pure true

  unfoldable pub service_report : Text → Text → Text → Chat Bool
  service_report reporter message_id reason = do
    validate_uuid reporter user_id_invalid
    validate_uuid message_id message_id_invalid
    text ← validate_report_reason reason
    reported ← report_message (uuid_in reporter) (uuid_in message_id) text
    throw_if (not reported) message_not_found_or_forbidden
    pure true
