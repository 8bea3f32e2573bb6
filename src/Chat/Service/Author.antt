-- ===== src/Chat/Service/Author.antt =====
-- Whose messages the calls of src/modules/chat/chat.service.ts change.
use chattea_be.Prelude.{
  ℕ, ◌≡◌, refl, ◌∙◌, Bool, true, false, not, Option, none, some, List, [], ◌∷◌, ◌++◌, arith, ◌==◌,
  all, select, update_where, Option-cases, inl, inr,
}
use chattea_be.Prelude.Text.{Text, trim}
use chattea_be.Prelude.Action.{Result-cases}
use chattea_be.Postgres.{UuidText}
use chattea_be.Chat.Types.{Message, ChatDb}
use chattea_be.Chat.Repository.{
  is_by, is_own, edit_message, delete_message, create_message, touch_room, mark_room_read,
  block_user, report_message, new_message, MessageInput, Created,
}
use chattea_be.Chat.Service.{
  SendInput, send_message, send_new, announce, notify_members, service_edit, service_delete,
  publish_deleted, service_mark_read, service_block, service_report, require_room_member,
  assert_room_member, validate_idempotency_key,
}

pub data Call : Type 0 where
  send : ℕ → ℕ → Text → SendInput → Call
  edit : ℕ → Text → Text → Text → Call
  delete : ℕ → Text → Text → Call
  mark_read : Text → Text → Call
  block : Text → Text → Call
  report : Text → Text → Text → Call

abbrev pub caller : Call → Text
caller (send id now user input) = user
caller (edit now user id text) = user
caller (delete now user id) = user
caller (mark_read user room) = user
caller (block user other) = user
caller (report user id reason) = user

-- What a user has written.
abbrev pub written_by : ℕ → List Message → List Message
written_by user ms = select (is_by user) ms

written_by-update :
    (user other id : ℕ) (f : Message → Message) (ms : List Message)
    → ((m : Message) → is_by user (f m) ≡ is_by user m)
    → (other == user) ≡ false
    → written_by user (update_where (is_own id other) f ms) ≡ written_by user ms
unfolding select update_where
written_by-update user other id f [] same apart = refl
written_by-update user other id f (m ∷ ms) same apart =
    ground (arith, same m, written_by-update user other id f ms same apart)

written_by-snoc :
    (user : ℕ) (m : Message) (ms : List Message)
    → is_by user m ≡ false
    → written_by user (ms ++ m ∷ []) ≡ written_by user ms
unfolding select
written_by-snoc user m [] h = ground arith
written_by-snoc user m (n ∷ ns) h = ground (arith, written_by-snoc user m ns h)

module _ (pg : UuidText) where
  open pg use {uuid_in}

  abbrev pub run : Call → ChatDb → ChatDb
  run (send id now user input) db = (send_message pg id now user input db).1
  run (edit now user id text) db = (service_edit pg now user id text db).1
  run (delete now user id) db = (service_delete pg now user id db).1
  run (mark_read user room) db = (service_mark_read pg user room db).1
  run (block user other) db = (service_block pg user other db).1
  run (report user id reason) db = (service_report pg user id reason db).1

  abbrev pub run_all : List Call → ChatDb → ChatDb
  run_all [] db = db
  run_all (c ∷ cs) db = run_all cs (run c db)

  abbrev pub is_other : ℕ → Call → Bool
  is_other user c = not (uuid_in (caller c) == user)

  create_keeps :
      (user id now : ℕ) (input : MessageInput) (db : ChatDb)
      → (input.sender_user_id == user) ≡ false
      → written_by user (create_message id now input db).1.messages ≡ written_by user db.messages
  unfolding create_message touch_room
  create_keeps user id now input db apart =
      ground (arith, written_by-snoc user (new_message id now input) db.messages apart)

  announce_keeps :
      (room_id user_id text : Text) (result : Created) (m : Message) (db : ChatDb)
      → (announce pg room_id user_id text result m db).1.messages ≡ db.messages
  unfolding announce notify_members
  announce_keeps room_id user_id text result m db = ground arith

  send_keeps :
      (user id now : ℕ) (u room text : Text) (key : Option Text) (db : ChatDb)
      → (uuid_in u == user) ≡ false
      → written_by user (send_new pg id now u room text key db).1.messages
        ≡ written_by user db.messages
  unfolding send_new
  send_keeps user id now u room text key db apart =
      let input : MessageInput = record {
        room_id = uuid_in room;
        sender_user_id = uuid_in u;
        text = text;
        idempotency_key = key;
      } in
      let kept = create_keeps user id now input db apart in
      elim (Result-cases (create_message id now input db).0) [
        | inr (x, e) ↦ ground (arith, kept)
        | inl (result, e) ↦ elim (Option-cases result.message) [
          | inl n ↦ ground (arith, kept)
          | inr (m, n) ↦
              ground (
                arith,
                kept,
                announce_keeps room u text result m (create_message id now input db).1,
              )
        ]
      ]

  step :
      (user : ℕ) (c : Call) (db : ChatDb)
      → is_other user c ≡ true
      → written_by user (run c db).messages ≡ written_by user db.messages
  unfolding send_message require_room_member validate_idempotency_key service_edit edit_message
      touch_room service_delete delete_message publish_deleted service_mark_read assert_room_member
      mark_room_read service_block block_user service_report report_message
  step user (send id now u input) db other = elim (Option-cases input.idempotency_key) [
    | inl e ↦
        ground
          (arith, send_keeps user id now u input.room_id (trim input.text) none db (ground arith))
    | inr (k, e) ↦ ground (
      arith,
      send_keeps user id now u input.room_id (trim input.text) (some (trim k)) db (ground arith),
    )
  ]
  step user (edit now u id text) db other = ground (
    arith,
    written_by-update user (uuid_in u) (uuid_in id) (λ m. record m { text = trim text }) db.messages
        (λ m. refl) (ground arith),
  )
  step user (delete now u id) db other = ground (
    arith,
    written_by-update user (uuid_in u) (uuid_in id) (λ m. record m { deleted_at = some now })
        db.messages (λ m. refl) (ground arith),
  )
  step user (mark_read u room) db other = ground arith
  step user (block u o) db other = ground arith
  step user (report u id reason) db other = ground arith

  -- Whatever the other users send, edit, delete, read, block or report, in any order, the messages
  -- of a user stay as the user left them.
  pub others_change_nothing :
      (user : ℕ) (cs : List Call) (db : ChatDb)
      → all (is_other user) cs ≡ true
      → written_by user (run_all cs db).messages ≡ written_by user db.messages
  others_change_nothing user [] db other = refl
  others_change_nothing user (c ∷ cs) db other =
      others_change_nothing user cs (run c db) (ground arith) ∙ step user c db (ground arith)
