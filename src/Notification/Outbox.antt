-- ===== src/Notification/Outbox.antt =====
-- The outbox of push messages in src/modules/notification/notification.repository.ts. A transaction
-- is one step, so that no row is locked by another when a batch is claimed.
pub mod Claims
use chattea_be.Prelude.{
  ℕ, Bool, true, false, not, ◌&&◌, ◌||◌, Option, none, some, List, [], ◌∷◌, ◌++◌, ◌+◌, ltb, leb,
  ◌==◌, if◌then◌else◌, find?, any, select, update_where, delete_where, take, map, is_some, length,
}
use chattea_be.Prelude.Text.{Text, text_eq}
use chattea_be.Prelude.Action.{
  Result, ok, err, Action, pure, gets, lift, transaction, ◌>>=◌, ◌>>◌, modify, throw_if,
}
use chattea_be.Notification.Types.{
  PushStatus, queued, sending, receipt_pending, receipt_checking, delivered, failed_permanent,
  exhausted, cancelled, PushJob, PushToken, NotificationDb, NotificationError, push_ticket_invalid,
  push_retry_time_required, unique_violation, SendKind, accepted, retry, permanent, gave_up,
  SendResult, ReceiptKind, arrived, retry_receipt, receipt_permanent, receipt_gave_up,
  ReceiptResult, is_sending, is_queued, is_receipt_pending, is_receipt_checking, is_open,
  is_accepted,
}

abbrev pub Notifications : Type 0 → Type 0
Notifications A = Action NotificationError NotificationDb A

abbrev pub is_past : Option ℕ → ℕ → Bool
is_past none now = false
is_past (some t) now = leb t now

unfoldable pub send_due : ℕ → PushJob → Bool
send_due now j =
    (is_queued j.status && leb j.next_attempt_at now)
    || (is_sending j.status && is_past j.lease_expires_at now)

unfoldable pub receipt_due : ℕ → PushJob → Bool
receipt_due now j =
    (is_receipt_pending j.status && is_past j.receipt_available_at now && leb j.next_attempt_at now)
    || (is_receipt_checking j.status && is_past j.lease_expires_at now)

-- A row comes before another: by a time, by "createdAt", by id.
abbrev pub comes_before :
    (PushJob → PushJob → Bool) → (PushJob → PushJob → Bool) → PushJob → PushJob → Bool
comes_before earlier same a b =
    earlier a b
    || (same a b
        && (ltb a.created_at b.created_at || (a.created_at == b.created_at && ltb a.id b.id)))

abbrev pub by_next_attempt : PushJob → PushJob → Bool
by_next_attempt =
    comes_before (λ a b. ltb a.next_attempt_at b.next_attempt_at)
      (λ a b. a.next_attempt_at == b.next_attempt_at)

-- A row without a time comes last.
abbrev pub option_lt : Option ℕ → Option ℕ → Bool
option_lt none b = false
option_lt (some a) none = true
option_lt (some a) (some b) = ltb a b

abbrev pub option_eq : Option ℕ → Option ℕ → Bool
option_eq none none = true
option_eq none (some b) = false
option_eq (some a) none = false
option_eq (some a) (some b) = a == b

abbrev pub by_receipt : PushJob → PushJob → Bool
by_receipt =
    comes_before (λ a b. option_lt a.receipt_available_at b.receipt_available_at)
      (λ a b. option_eq a.receipt_available_at b.receipt_available_at)

pub insert_job : (PushJob → PushJob → Bool) → PushJob → List PushJob → List PushJob
insert_job before j [] = j ∷ []
insert_job before j (k ∷ ks) = if before k j then k ∷ insert_job before j ks else j ∷ k ∷ ks

pub sort_jobs : (PushJob → PushJob → Bool) → List PushJob → List PushJob
sort_jobs before [] = []
sort_jobs before (j ∷ js) = insert_job before j (sort_jobs before js)

-- The ids of a batch: the first rows that are due.
unfoldable pub batch_ids : (PushJob → Bool) → (PushJob → PushJob → Bool) → ℕ → List PushJob → List ℕ
batch_ids due before limit jobs = map (λ j. j.id) (take limit (sort_jobs before (select due jobs)))

abbrev pub has_id : List ℕ → PushJob → Bool
has_id ids j = any (λ id. id == j.id) ids

abbrev pub start_sending : ℕ → PushJob → PushJob
start_sending lease j = record j {
  status = sending;
  send_attempts = j.send_attempts + 1;
  lease_expires_at = some lease;
}

abbrev pub start_checking : ℕ → PushJob → PushJob
start_checking lease j = record j {
  status = receipt_checking;
  receipt_attempts = j.receipt_attempts + 1;
  lease_expires_at = some lease;
}

-- A claim: the rows as they were written, and whether more are due.
pub record ClaimBatch : Type 0 where
  pub jobs : List PushJob
  pub has_more : Bool

unfoldable pub claim_batch :
    (PushJob → Bool)
    → (PushJob → PushJob → Bool)
    → (PushJob → PushJob)
    → ℕ
    → Notifications ClaimBatch
claim_batch due before start limit = transaction do
  ids ← gets (λ db. batch_ids due before limit db.outbox)
  if length ids == 0 then pure (record { jobs = []; has_more = false }) else do
    jobs ← gets (λ db. map start (select (has_id ids) db.outbox))
    modify (λ db. record db { outbox = update_where (has_id ids) start db.outbox })
    more ← gets (λ db. any due db.outbox)
    pure (record { jobs = jobs; has_more = more })

abbrev pub claim_send_batch : ℕ → ℕ → ℕ → Notifications ClaimBatch
claim_send_batch now lease limit =
    claim_batch (send_due now) by_next_attempt (start_sending lease) limit

abbrev pub claim_receipt_batch : ℕ → ℕ → ℕ → Notifications ClaimBatch
claim_receipt_batch now lease limit =
    claim_batch (receipt_due now) by_receipt (start_checking lease) limit
