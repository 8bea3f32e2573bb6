-- ===== src/Chat/Repository.antt =====
-- src/modules/chat/chat.repository.ts, without the query of rooms. `now` is the clock of the
-- database.
pub mod Marker
use chattea_be.Prelude.{
  ℕ, Bool, true, false, not, ◌&&◌, ◌||◌, Option, none, some, List, [], ◌∷◌, ◌++◌, ltb, ◌==◌,
  if◌then◌else◌, find?, any, count, select, update_where, take, map, is_some, get_or,
}
use chattea_be.Prelude.Text.{Text, text_eq}
use chattea_be.Prelude.Action.{Action, pure, gets, transaction, modify, ◌>>=◌, throw_if, ◌>>◌}
use chattea_be.Chat.Types.{
  Room, RoomMember, Message, ReadReceipt, UserBlock, MessageReport, ChatDb, ChatError,
  check_violation,
}

abbrev pub Chat : Type 0 → Type 0
Chat A = Action ChatError ChatDb A

abbrev pub is_live : Message → Bool
is_live m = not (is_some m.deleted_at)

abbrev pub is_of_room : ℕ → Message → Bool
is_of_room room m = m.room_id == room && is_live m

abbrev pub is_by : ℕ → Message → Bool
is_by user m = elim m.sender_user_id [ none ↦ false | some u ↦ u == user ]

unfoldable pub find_message_cursor : ℕ → ℕ → Chat (Option Message)
find_message_cursor id room = gets (λ db. find? (λ m. m.id == id && is_of_room room m) db.messages)

abbrev pub is_member : ℕ → ℕ → RoomMember → Bool
is_member room user m = m.room_id == room && m.user_id == user

abbrev pub is_room_member : ℕ → ℕ → Chat Bool
is_room_member room user = gets (λ db. any (is_member room user) db.room_members)

abbrev pub other_room_member_ids : ℕ → ℕ → Chat (List ℕ)
other_room_member_ids room user = gets (λ db.
    map (λ m. m.user_id)
      (select (λ m. m.room_id == room && not (m.user_id == user)) db.room_members))

-- (createdAt, id) of one message before that of another
abbrev pub is_before : Message → Message → Bool
is_before a b = ltb a.created_at b.created_at || (a.created_at == b.created_at && ltb a.id b.id)

pub insert_message : (Message → Message → Bool) → Message → List Message → List Message
insert_message before m [] = m ∷ []
insert_message before m (n ∷ ns) = if before n m then n ∷ insert_message before m ns else m ∷ n ∷ ns

pub sort_messages : (Message → Message → Bool) → List Message → List Message
sort_messages before [] = []
sort_messages before (m ∷ ms) = insert_message before m (sort_messages before ms)

pub reverse_messages : List Message → List Message
reverse_messages [] = []
reverse_messages (m ∷ ms) = reverse_messages ms ++ m ∷ []

-- A page after a message, before one, or the latest.
pub data Cursor : Type 0 where
  after_message before_message : ℕ → Cursor
  latest : Cursor

-- The message of a cursor; against none, every comparison is null.
abbrev pub compares : (Message → Message → Bool) → Option Message → Message → Bool
compares order none m = false
compares order (some c) m = order c m

unfoldable pub messages : ℕ → ℕ → Cursor → Chat (List Message)
messages room limit (after_message id) = do
  cursor ← find_message_cursor id room
  gets λ db. take limit (
      sort_messages is_before
        (select (λ m. is_of_room room m && compares is_before cursor m) db.messages))
messages room limit (before_message id) = do
  cursor ← find_message_cursor id room
  gets λ db. reverse_messages (
      take limit (
        sort_messages (λ a b. is_before b a)
          (select (λ m. is_of_room room m && compares (λ c m. is_before m c) cursor m)
            db.messages)))
messages room limit latest = gets λ db.
    reverse_messages
      (take limit (sort_messages (λ a b. is_before b a) (select (is_of_room room) db.messages)))

-- ORDER BY "createdAt" DESC, id DESC LIMIT 1
unfoldable pub last_message : ℕ → List Message → Option Message
last_message room [] = none
last_message room (m ∷ ms) =
    let later = last_message room ms in
    if is_of_room room m
    then some (elim later [ none ↦ m | some n ↦ if is_before n m then m else n ])
    else later

abbrev pub is_receipt_of : ℕ → ℕ → ReadReceipt → Bool
is_receipt_of room user r = r.room_id == room && r.user_id == user

-- The WHERE of the update: the message is after what was read.
abbrev pub is_later : Message → ReadReceipt → Bool
is_later m r =
    ltb r.read_at m.created_at
    || (m.created_at == r.read_at
        && elim r.last_read_message_id [ none ↦ false | some id ↦ ltb id m.id ])

abbrev pub read_up_to : Message → ReadReceipt → ReadReceipt
read_up_to m r = record r { last_read_message_id = some m.id; read_at = m.created_at }

unfoldable pub mark_receipts : ℕ → ℕ → Option Message → List ReadReceipt → List ReadReceipt
mark_receipts room user none rs = rs
mark_receipts room user (some m) rs =
    if any (is_receipt_of room user) rs
    then update_where (λ r. is_receipt_of room user r && is_later m r) (read_up_to m) rs
    else rs
      ++ record {
        room_id = room;
        user_id = user;
        last_read_message_id = some m.id;
        read_at = m.created_at;
      }
        ∷ []

unfoldable pub mark_room_read : ℕ → ℕ → Chat Unit
mark_room_read room user = modify (λ db. record db {
  receipts = mark_receipts room user (last_message room db.messages) db.receipts;
})

abbrev pub has_key : Text → ℕ → ℕ → Message → Bool
has_key key room user m =
    elim m.idempotency_key [ none ↦ false | some k ↦ text_eq k key ]
    && m.room_id == room
    && is_by user m

abbrev pub find_message_by_idempotency_key : Text → ℕ → ℕ → Chat (Option Message)
find_message_by_idempotency_key key room user =
    gets (λ db. find? (has_key key room user) db.messages)

abbrev pub active_message_count : ℕ → Chat ℕ
active_message_count room = gets (λ db. count (is_of_room room) db.messages)

unfoldable pub touch_room : ℕ → ℕ → Chat Unit
touch_room room now = modify (λ db. record db {
  rooms = update_where (λ r. r.id == room) (λ r. record r { updated_at = now }) db.rooms;
})

pub record MessageInput : Type 0 where
  pub room_id : ℕ
  pub sender_user_id : ℕ
  pub text : Text
  pub idempotency_key : Option Text

pub record Created : Type 0 where
  pub message : Option Message
  pub created : Bool

abbrev pub new_message : ℕ → ℕ → MessageInput → Message
new_message id now input = record {
  id = id;
  room_id = input.room_id;
  sender_user_id = some input.sender_user_id;
  text = input.text;
  idempotency_key = input.idempotency_key;
  deleted_at = none;
  created_at = now;
}

-- What has the key of a message, if it has one.
abbrev pub with_key : MessageInput → List Message → Option Message
with_key input ms = elim input.idempotency_key [
  | none ↦ none
  | some key ↦ find? (has_key key input.room_id input.sender_user_id) ms
]

unfoldable pub create_message : ℕ → ℕ → MessageInput → Chat Created
create_message id now input = transaction do
  replayed ← gets (λ db. with_key input db.messages)
  if is_some replayed then pure (record { message = replayed; created = false }) else do
    modify (λ db. record db { messages = db.messages ++ new_message id now input ∷ [] })
    touch_room input.room_id now
    pure (record { message = some (new_message id now input); created = true })

abbrev pub is_own : ℕ → ℕ → Message → Bool
is_own id user m = m.id == id && is_by user m && is_live m

-- The row as it was written.
abbrev pub changed : (Message → Message) → Option Message → Option Message
changed f none = none
changed f (some m) = some (f m)

unfoldable pub edit_message : ℕ → ℕ → ℕ → Text → Chat (Option Message)
edit_message now id user text = do
  found ← gets (λ db. find? (is_own id user) db.messages)
  modify (λ db. record db {
    messages = update_where (is_own id user) (λ m. record m { text = text }) db.messages;
  })
  elim found [
    | none ↦ pure none
    | some m ↦ (do touch_room m.room_id now; pure (some (record m { text = text })))
  ]

unfoldable pub delete_message : ℕ → ℕ → ℕ → Chat (Option Message)
delete_message now id user = do
  found ← gets (λ db. find? (is_own id user) db.messages)
  modify (λ db. record db {
    messages = update_where (is_own id user) (λ m. record m { deleted_at = some now }) db.messages;
  })
  pure (changed (λ m. record m { deleted_at = some now }) found)

-- The table's check is made before the conflict is looked for.
unfoldable pub block_user : ℕ → ℕ → Chat Unit
block_user blocker blocked = do
  throw_if (blocker == blocked) check_violation
  modify λ db. record db {
    blocks =
        if any (λ b. b.blocker_user_id == blocker && b.blocked_user_id == blocked) db.blocks
        then db.blocks
        else db.blocks ++ record { blocker_user_id = blocker; blocked_user_id = blocked } ∷ [];
  }

abbrev pub is_report : ℕ → ℕ → MessageReport → Bool
is_report reporter message r = r.message_id == message && r.reporter_user_id == reporter

-- The message is in a room of the reporter.
abbrev pub can_report : ℕ → ℕ → ChatDb → Bool
can_report reporter message db =
    any (λ m. m.id == message && is_live m && any (is_member m.room_id reporter) db.room_members)
      db.messages

unfoldable pub report_message : ℕ → ℕ → Text → Chat Bool
report_message reporter message reason = do
  allowed ← gets (can_report reporter message)
  if not allowed then pure false else do
    modify λ db. record db {
      reports =
          if any (is_report reporter message) db.reports
          then update_where (is_report reporter message) (λ r. record r { reason = reason })
              db.reports
          else db.reports
            ++ record { message_id = message; reporter_user_id = reporter; reason = reason } ∷ [];
    }
    pure true
