-- ===== src/Chat/Repository/Marker.antt =====
-- The read markers of src/modules/chat/chat.repository.ts.
use chattea_be.Prelude.{
  ℕ, ◌≡◌, refl, Bool, true, false, not, ◌&&◌, ◌||◌, Option, none, some, List, [], ◌∷◌, arith, ltb,
  ◌==◌, if◌then◌else◌, find?, any, map, update_where, Bool-cases, inl, inr, any-of_find?,
  find?-snoc,
}
use chattea_be.Chat.Types.{Message, ReadReceipt, ChatDb}
use chattea_be.Chat.Repository.{
  is_receipt_of, is_later, read_up_to, mark_receipts, mark_room_read, last_message,
}

-- The second marker is at the first or beyond it: by the time of the message, then by its id. A
-- marker whose message is gone stands behind every message of its time.
abbrev pub is_at_least : ReadReceipt → ReadReceipt → Bool
is_at_least r s =
    ltb r.read_at s.read_at
    || (r.read_at == s.read_at && elim s.last_read_message_id [
      | none ↦ true
      | some b ↦ elim r.last_read_message_id [ none ↦ false | some a ↦ not (ltb b a) ]
    ])

pub is_at_least_refl : (r : ReadReceipt) → is_at_least r r ≡ true
is_at_least_refl r = ground arith

pub is_at_least_trans :
    (r s t : ReadReceipt) → is_at_least r s ≡ true → is_at_least s t ≡ true → is_at_least r t ≡ true
is_at_least_trans r s t h k = ground arith

module _ (room user : ℕ) where
  abbrev pub marker : List ReadReceipt → Option ReadReceipt
  marker rs = find? (is_receipt_of room user) rs

  -- The marker is still there, and not before where it was.
  pub record Kept (r : ReadReceipt) (rs : List ReadReceipt) : Type 0 where
    pub receipt : ReadReceipt
    pub is_there : marker rs ≡ some receipt
    pub is_kept : is_at_least r receipt ≡ true

  marker-update :
      (room' user' : ℕ) (m : Message) (rs : List ReadReceipt) (r : ReadReceipt)
      → marker rs ≡ some r
      → let p : ReadReceipt → Bool = λ s. is_receipt_of room' user' s && is_later m s in
        marker (update_where p (read_up_to m) rs) ≡ some (if p r then read_up_to m r else r)
  unfolding find? update_where
  marker-update room' user' m [] r h = ground arith
  marker-update room' user' m (s ∷ rs) r h = ground (arith, marker-update room' user' m rs r)

  marker_moves_on :
      (m : Message) (p : Bool) (r : ReadReceipt)
      → (p ≡ true → is_later m r ≡ true)
      → is_at_least r (if p then read_up_to m r else r) ≡ true
  marker_moves_on m true r h = ground (arith, h refl)
  marker_moves_on m false r h = is_at_least_refl r

  Kept-mark_receipts :
      (room' user' : ℕ) (m : Option Message) (rs : List ReadReceipt) (r : ReadReceipt)
      → marker rs ≡ some r
      → Kept r (mark_receipts room' user' m rs)
  unfolding mark_receipts
  Kept-mark_receipts room' user' none rs r h = record {
    receipt = r;
    is_there = h;
    is_kept = is_at_least_refl r;
  }
  Kept-mark_receipts room' user' (some m) rs r h =
      elim (Bool-cases (any (is_receipt_of room' user') rs)) [
        | inl e ↦ rw (e) (record {
          receipt = if is_receipt_of room' user' r && is_later m r then read_up_to m r else r;
          is_there = marker-update room' user' m rs r h;
          is_kept =
              marker_moves_on m (is_receipt_of room' user' r && is_later m r) r (λ k. ground arith);
        })
        | inr e ↦ rw (e) (record {
          receipt = r;
          is_there = ground (
            arith,
            any-of_find? (is_receipt_of room user) rs r h,
            find?-snoc (is_receipt_of room user) rs (record {
              room_id = room';
              user_id = user';
              last_read_message_id = some m.id;
              read_at = m.created_at;
            }),
          );
          is_kept = is_at_least_refl r;
        })
      ]

  Kept-trans :
      (r s : ReadReceipt) (rs : List ReadReceipt) → is_at_least r s ≡ true → Kept s rs → Kept r rs
  Kept-trans r s rs h k = record {
    receipt = k.receipt;
    is_there = k.is_there;
    is_kept = is_at_least_trans r s k.receipt h k.is_kept;
  }

-- The key of "lastReadMessageId" sets the column to null when the message is deleted.
abbrev pub without_message : List Message → ReadReceipt → ReadReceipt
without_message ms r = elim r.last_read_message_id [
  | none ↦ r
  | some id ↦ if any (λ m. m.id == id) ms then r else record r { last_read_message_id = none }
]

abbrev pub replace_messages : List Message → ChatDb → ChatDb
replace_messages ms db = record db {
  messages = ms;
  receipts = map (without_message ms) db.receipts;
}

without_message-is_at_least :
    (ms : List Message) (r : ReadReceipt) → is_at_least r (without_message ms r) ≡ true
without_message-is_at_least ms r = ground arith

marker-map :
    (room user : ℕ) (ms : List Message) (rs : List ReadReceipt) (r : ReadReceipt)
    → marker room user rs ≡ some r
    → marker room user (map (without_message ms) rs) ≡ some (without_message ms r)
unfolding find?
marker-map room user ms [] r h = ground arith
marker-map room user ms (s ∷ rs) r h = ground (arith, marker-map room user ms rs r)

-- A call, with the messages that the table has when it comes.
pub record ReadCall : Type 0 where
  pub room_id : ℕ
  pub user_id : ℕ
  pub messages : List Message

abbrev pub mark_all : List ReadCall → ChatDb → ChatDb
mark_all [] db = db
mark_all (c ∷ cs) db =
    mark_all cs (mark_room_read c.room_id c.user_id (replace_messages c.messages db)).1

-- However messages are sent and deleted between the calls, also the message of a marker, which the
-- marker then loses, and in whatever order the members of whatever rooms mark them as read, the
-- marker of a member who has one stays or moves on, and never goes back.
pub marker_never_goes_back :
    (room user : ℕ) (calls : List ReadCall) (db : ChatDb) (r : ReadReceipt)
    → marker room user db.receipts ≡ some r
    → Kept room user r (mark_all calls db).receipts
unfolding mark_room_read
marker_never_goes_back room user [] db r h = record {
  receipt = r;
  is_there = h;
  is_kept = is_at_least_refl r;
}
marker_never_goes_back room user (c ∷ cs) db r h =
    let last = last_message c.room_id c.messages in
    let left : List ReadReceipt = map (without_message c.messages) db.receipts in
    let after : List ReadReceipt = mark_receipts c.room_id c.user_id last left in
    let r' : ReadReceipt = without_message c.messages r in
    let first : Kept room user r after =
      Kept-trans room user r r' after (without_message-is_at_least c.messages r) (
        Kept-mark_receipts room user c.room_id c.user_id last left r'
          (marker-map room user c.messages db.receipts r h)) in
    Kept-trans room user r first.receipt _ first.is_kept (
      marker_never_goes_back room user cs (record db { messages = c.messages; receipts = after })
        first.receipt first.is_there)
