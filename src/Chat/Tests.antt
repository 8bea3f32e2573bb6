-- ===== src/Chat/Tests.antt =====
-- The theorems about chat at concrete rooms.
use chattea_be.Prelude.{
  ℕ, ◌≡◌, refl, none, some, List, [], ◌∷◌, find?, any, select, count, update_where,
}
use chattea_be.Prelude.Text.{Text, codes, text_eq, trim, trim_start, is_space}
use chattea_be.Prelude.Action.{ok}
use chattea_be.Postgres.{UuidText}
use chattea_be.Uuid.{is_uuid, hex_run}
use chattea_be.Chat.Types.{Message, ChatDb}
use chattea_be.Chat.Repository.{create_message, touch_room}
use chattea_be.Chat.Repository.Marker.{mark_all, Kept, marker_never_goes_back}
use chattea_be.Chat.Service.{
  SendInput, send_message, send_new, announce, notify_members, require_room_member,
  validate_idempotency_key,
}
use chattea_be.Chat.Service.Author.{send, delete, written_by, run_all, others_change_nothing}
use chattea_be.Chat.Service.Replay.{resend_changes_nothing}

-- A database that tells ids apart by their first code unit.
abbrev first_code : Text → ℕ
first_code [] = 0
first_code (c ∷ s) = c

abbrev one_code : UuidText
one_code = record { uuid_in = first_code; uuid_out = λ n. n ∷ []; uuid_in-uuid_out = λ n. refl }

abbrev room : Text
room = codes "a0000000-0000-4000-8000-000000000000"

abbrev ann : Text
ann = codes "b0000000-0000-4000-8000-000000000000"

abbrev two_members : ChatDb
two_members = record {
  rooms = [];
  room_members = record { room_id = 97; user_id = 98 } ∷ record { room_id = 97; user_id = 99 } ∷ [];
  messages = [];
  receipts =
      record { room_id = 97; user_id = 98; last_read_message_id = some 1; read_at = 10 } ∷ [];
  blocks = [];
  reports = [];
  events = [];
  notices = [];
}

abbrev hello : SendInput
hello = record { room_id = room; text = codes " hi "; idempotency_key = some (codes "k") }

abbrev hello_message : Message
hello_message = record {
  id = 1;
  room_id = 97;
  sender_user_id = some 98;
  text = codes "hi";
  idempotency_key = some (codes "k");
  deleted_at = none;
  created_at = 5;
}

resend_changes_nothing_example :
    send_message one_code 2 9 ann hello (send_message one_code 1 5 ann hello two_members).1
    ≡ (ok hello_message, (send_message one_code 1 5 ann hello two_members).1)
unfolding send_message send_new announce notify_members require_room_member validate_idempotency_key
    create_message touch_room is_uuid hex_run text_eq trim trim_start is_space any find? count
    select update_where
resend_changes_nothing_example =
    resend_changes_nothing one_code 1 5 2 9 ann hello (codes "k") two_members hello_message refl
      refl

others_change_nothing_example :
    written_by 99
      (run_all one_code (send 1 5 ann hello ∷ delete 6 ann (codes "1") ∷ []) two_members).messages
    ≡ written_by 99 []
others_change_nothing_example =
    others_change_nothing one_code 99 (send 1 5 ann hello ∷ delete 6 ann (codes "1") ∷ [])
      two_members refl

abbrev at : ℕ → List Message
at t = record hello_message { created_at = t } ∷ []

marker_never_goes_back_example :
    Kept 97 98
      (record { room_id = 97; user_id = 98; last_read_message_id = some 1; read_at = 10 })
      (mark_all
        (record { room_id = 97; user_id = 98; messages = at 20 }
          ∷ record { room_id = 97; user_id = 98; messages = at 15 }
          ∷ record { room_id = 97; user_id = 98; messages = [] }
          ∷ [])
        two_members).receipts
unfolding find?
marker_never_goes_back_example =
    marker_never_goes_back 97 98
      (record { room_id = 97; user_id = 98; messages = at 20 }
        ∷ record { room_id = 97; user_id = 98; messages = at 15 }
        ∷ record { room_id = 97; user_id = 98; messages = [] }
        ∷ [])
      two_members
      (record { room_id = 97; user_id = 98; last_read_message_id = some 1; read_at = 10 }) refl
