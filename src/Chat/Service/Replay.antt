-- ===== src/Chat/Service/Replay.antt =====
-- A message that is sent again with its key in src/modules/chat/chat.service.ts.
use chattea_be.Prelude.{
  ℕ, ◌≡◌, true, false, ◌||◌, none, some, [], ◌∷◌, ◌++◌, arith, ltb, find?, any, length,
  Option-cases, inl, inr, find?-snoc, any-of_none,
}
use chattea_be.Prelude.Text.{Text, trim, text_eq, text_eq_refl}
use chattea_be.Prelude.Action.{ok}
use chattea_be.Postgres.{UuidText}
use chattea_be.Uuid.{is_uuid}
use chattea_be.Chat.Types.{Message, ChatDb}
use chattea_be.Chat.Repository.{
  has_key, is_member, create_message, touch_room, new_message, MessageInput, Created,
}
use chattea_be.Chat.Service.{
  SendInput, send_message, send_new, announce, notify_members, require_room_member,
  validate_idempotency_key,
}

module _ (pg : UuidText) where
  open pg use {uuid_in}

  announce-lem :
      (room_id user_id text : Text) (result : Created) (m : Message) (db : ChatDb)
      → ((announce pg room_id user_id text result m db).0 ≡ ok m)
        × ((announce pg room_id user_id text result m db).1.messages ≡ db.messages)
        × ((announce pg room_id user_id text result m db).1.room_members ≡ db.room_members)
  unfolding announce notify_members
  announce-lem room_id user_id text result m db = (ground arith, ground arith, ground arith)

  abbrev input_of : Text → Text → Text → Text → MessageInput
  input_of user room text key = record {
    room_id = uuid_in room;
    sender_user_id = uuid_in user;
    text = text;
    idempotency_key = some key;
  }

  creates :
      (id now : ℕ) (user room text key : Text) (db : ChatDb)
      → find? (has_key key (uuid_in room) (uuid_in user)) db.messages ≡ none
      → let n = new_message id now (input_of user room text key) in
        let made = create_message id now (input_of user room text key) db in
        (made.0 ≡ ok (record { message = some n; created = true }))
        × (made.1.messages ≡ db.messages ++ n ∷ [])
        × (made.1.room_members ≡ db.room_members)
        × (find? (has_key key (uuid_in room) (uuid_in user)) (db.messages ++ n ∷ []) ≡ some n)
  unfolding create_message touch_room
  creates id now user room text key db new =
      let n : Message = new_message id now (input_of user room text key) in
      (
        ground arith,
        ground arith,
        ground arith,
        ground (
          arith,
          find?-snoc (has_key key (uuid_in room) (uuid_in user)) db.messages n,
          any-of_none (has_key key (uuid_in room) (uuid_in user)) db.messages new,
          text_eq_refl key,
        ),
      )

  -- After a send, the message is the one with its key, and it is not deleted.
  sent :
      (id now : ℕ) (user room text key : Text) (db : ChatDb) (m : Message)
      → find? (has_key key (uuid_in room) (uuid_in user)) db.messages ≡ none
      → (send_new pg id now user room text (some key) db).0 ≡ ok m
      → let after = (send_new pg id now user room text (some key) db).1 in
        (find? (has_key key (uuid_in room) (uuid_in user)) after.messages ≡ some m)
        × (m.deleted_at ≡ none)
        × (after.room_members ≡ db.room_members)
  unfolding send_new
  sent id now user room text key db m new h =
      let n : Message = new_message id now (input_of user room text key) in
      let made : ChatDb = (create_message id now (input_of user room text key) db).1 in
      let told = announce-lem room user text (record { message = some n; created = true }) n made in
      let created = creates id now user room text key db new in
      (ground (arith, told, created), ground (arith, told, created), ground (arith, told, created))

  -- The checks that a send passes.
  passed :
      (id now : ℕ) (user : Text) (input : SendInput) (key : Text) (db : ChatDb) (m : Message)
      → input.idempotency_key ≡ some key
      → (send_message pg id now user input db).0 ≡ ok m
      → ((text_eq (trim input.text) [] || ltb 90 (length (trim input.text))) ≡ false)
        × ((text_eq (trim key) [] || ltb 128 (length (trim key))) ≡ false)
        × (is_uuid input.room_id ≡ true)
        × (any (is_member (uuid_in input.room_id) (uuid_in user)) db.room_members ≡ true)
  unfolding send_message require_room_member validate_idempotency_key
  passed id now user input key db m e h = (ground arith, ground arith, ground arith, ground arith)

  -- A table that has the message of a key answers the key with it.
  answers :
      (id now : ℕ) (user : Text) (input : SendInput) (key : Text) (db : ChatDb) (m : Message)
      → input.idempotency_key ≡ some key
      → (text_eq (trim input.text) [] || ltb 90 (length (trim input.text))) ≡ false
      → (text_eq (trim key) [] || ltb 128 (length (trim key))) ≡ false
      → is_uuid input.room_id ≡ true
      → any (is_member (uuid_in input.room_id) (uuid_in user)) db.room_members ≡ true
      → find? (has_key (trim key) (uuid_in input.room_id) (uuid_in user)) db.messages ≡ some m
      → m.deleted_at ≡ none
      → send_message pg id now user input db ≡ (ok m, db)
  unfolding send_message require_room_member validate_idempotency_key
  answers id now user input key db m e text key_ok room member found live = ground arith

  -- What a send leaves: the message that it answers with, under its key, not deleted.
  left_by :
      (id now : ℕ) (user : Text) (input : SendInput) (key : Text) (db : ChatDb) (m : Message)
      → input.idempotency_key ≡ some key
      → (send_message pg id now user input db).0 ≡ ok m
      → let after = (send_message pg id now user input db).1 in
        (find? (has_key (trim key) (uuid_in input.room_id) (uuid_in user)) after.messages ≡ some m)
        × (m.deleted_at ≡ none)
        × (after.room_members ≡ db.room_members)
  unfolding send_message require_room_member validate_idempotency_key
  left_by id now user input key db m e h =
      elim (Option-cases
        (find? (has_key (trim key) (uuid_in input.room_id) (uuid_in user)) db.messages)) [
          | inr (x, f) ↦ (ground arith, ground arith, ground arith)
          | inl f ↦
              let s = sent id now user input.room_id (trim input.text) (trim key) db m f in
              (ground (arith, s), ground (arith, s), ground (arith, s))
        ]

  -- When a message was sent with a key, sending it again, with the same key, to the same room, by
  -- the same user, directly after, at whatever time, answers with the same message, and changes
  -- nothing: no message is added, no subscriber is told and no notification is asked for.
  pub resend_changes_nothing :
      (id now later_id later : ℕ) (user : Text) (input : SendInput) (key : Text) (db : ChatDb)
      (m : Message)
      → input.idempotency_key ≡ some key
      → (send_message pg id now user input db).0 ≡ ok m
      → send_message pg later_id later user input (send_message pg id now user input db).1
        ≡ (ok m, (send_message pg id now user input db).1)
  resend_changes_nothing id now later_id later user input key db m e h =
      let (text, key_ok, room, member) = passed id now user input key db m e h in
      let (found, live, members) = left_by id now user input key db m e h in
      answers later_id later user input key (send_message pg id now user input db).1 m e text key_ok
        room (ground (arith, member, members)) found live
