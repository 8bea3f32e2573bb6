-- ===== src/Notification/Results.antt =====
-- The results of deliveries in src/modules/notification/notification.repository.ts: what an answer
-- of the push service writes to the outbox.
pub mod Settled
use chattea_be.Prelude.{
  ℕ, Bool, true, false, not, ◌&&◌, Option, none, some, List, [], ◌∷◌, ◌==◌, if◌then◌else◌, any,
  update_where, delete_where,
}
use chattea_be.Prelude.Text.{Text, text_eq}
use chattea_be.Prelude.Action.{
  Result, ok, err, pure, gets, lift, transaction, ◌>>=◌, ◌>>◌, modify, throw_if,
}
use chattea_be.Notification.Types.{
  PushStatus, queued, receipt_pending, delivered, failed_permanent, exhausted, cancelled, PushJob,
  NotificationError, push_ticket_invalid, push_retry_time_required, unique_violation, accepted,
  retry, permanent, gave_up, SendResult, arrived, retry_receipt, receipt_permanent, receipt_gave_up,
  ReceiptResult, is_sending, is_receipt_checking, is_open, is_accepted,
}
use chattea_be.Notification.Outbox.{Notifications}

-- `!result.ticketId`
abbrev pub is_blank : Option Text → Bool
is_blank none = true
is_blank (some t) = text_eq t []

-- `.set(…)` leaves a column alone when its value is undefined.
abbrev pub set_if : Option Text → Option Text → Option Text
set_if none old = old
set_if (some t) old = some t

abbrev pub failed : PushStatus → Option Text → Option Text → ℕ → PushJob → PushJob
failed status code message now j = record j {
  status = status;
  completed_at = some now;
  lease_expires_at = none;
  last_error_code = set_if code j.last_error_code;
  last_error_message = set_if message j.last_error_message;
}

abbrev pub delivery : ℕ → PushJob → PushJob
delivery now j = record j {
  status = delivered;
  completed_at = some now;
  lease_expires_at = none;
  last_error_code = none;
  last_error_message = none;
}

-- `sendResultValues`: what an update writes.
unfoldable pub send_result_values : SendResult → ℕ → Result NotificationError (PushJob → PushJob)
send_result_values r now = elim r.kind [
  | accepted ↦ elim r.receipt_available_at [
    | none ↦ err push_ticket_invalid
    | some at ↦
        if is_blank r.ticket_id
        then err push_ticket_invalid
        else ok (λ j. record j {
          status = receipt_pending;
          ticket_id = r.ticket_id;
          receipt_available_at = some at;
          next_attempt_at = at;
          sent_at = some now;
          lease_expires_at = none;
          last_error_code = none;
          last_error_message = none;
        })
  ]
  | retry ↦ elim r.next_attempt_at [
    | none ↦ err push_retry_time_required
    | some at ↦ ok (λ j. record j {
      status = queued;
      next_attempt_at = at;
      lease_expires_at = none;
      last_error_code = set_if r.error_code j.last_error_code;
      last_error_message = set_if r.error_message j.last_error_message;
    })
  ]
  | permanent ↦ ok (failed failed_permanent r.error_code r.error_message now)
  | gave_up ↦ ok (failed exhausted r.error_code r.error_message now)
]

unfoldable pub receipt_result_values :
    ReceiptResult → ℕ → Result NotificationError (PushJob → PushJob)
receipt_result_values r now = elim r.kind [
  | arrived ↦ ok (delivery now)
  | retry_receipt ↦ elim r.next_attempt_at [
    | none ↦ err push_retry_time_required
    | some at ↦ ok (λ j. record j {
      status = receipt_pending;
      next_attempt_at = at;
      lease_expires_at = none;
      last_error_code = set_if r.error_code j.last_error_code;
      last_error_message = set_if r.error_message j.last_error_message;
    })
  ]
  | receipt_permanent ↦ ok (failed failed_permanent r.error_code r.error_message now)
  | receipt_gave_up ↦ ok (failed exhausted r.error_code r.error_message now)
]

abbrev pub is_job_of : ℕ → PushJob → Bool
is_job_of token j = elim j.push_token_id [ none ↦ false | some t ↦ t == token ]

abbrev pub cancel : ℕ → PushJob → PushJob
cancel now j = record j { status = cancelled; completed_at = some now; lease_expires_at = none }

-- DELETE of a token: its foreign key in the outbox becomes null.
unfoldable pub delete_token : ℕ → Notifications Unit
delete_token token = modify λ db. record db {
  tokens = delete_where (λ t. t.id == token) db.tokens;
  outbox = update_where (is_job_of token) (λ j. record j { push_token_id = none }) db.outbox;
}

unfoldable pub cancel_jobs : (PushJob → Bool) → ℕ → Notifications Unit
cancel_jobs p now = modify (λ db. record db { outbox = update_where p (cancel now) db.outbox })

unfoldable pub invalidate_push_token : ℕ → ℕ → ℕ → Notifications Unit
invalidate_push_token token job now = do
  cancel_jobs (λ j. is_job_of token j && not (j.id == job) && is_open j.status) now
  delete_token token

-- The row that a result is about, if it still waits for it.
abbrev pub awaits_send : SendResult → PushJob → Bool
awaits_send r j = j.id == r.id && is_sending j.status && j.send_attempts == r.attempt

abbrev pub awaits_receipt : ReceiptResult → PushJob → Bool
awaits_receipt r j = j.id == r.id && is_receipt_checking j.status && j.receipt_attempts == r.attempt

abbrev pub ticket_eq : Option Text → Option Text → Bool
ticket_eq none u = false
ticket_eq (some t) none = false
ticket_eq (some t) (some u) = text_eq u t

-- Whether another row has the ticket that an update writes.
abbrev pub is_taken : SendResult → (PushJob → Bool) → List PushJob → Bool
is_taken r p jobs = is_accepted r && any (λ j. not (p j) && ticket_eq r.ticket_id j.ticket_id) jobs

abbrev pub invalidate_if : Bool → Option ℕ → ℕ → ℕ → Notifications Unit
invalidate_if found token job now = elim token [
  | none ↦ pure tt
  | some t ↦ if found then invalidate_push_token t job now else pure tt
]

unfoldable pub apply_send_result : ℕ → SendResult → Notifications Unit
apply_send_result now r = do
  write ← lift (send_result_values r now)
  found ← gets (λ db. any (awaits_send r) db.outbox)
  taken ← gets (λ db. is_taken r (awaits_send r) db.outbox)
  throw_if (found && taken) unique_violation
  modify (λ db. record db { outbox = update_where (awaits_send r) write db.outbox })
  invalidate_if found r.invalidate_push_token_id r.id now

unfoldable pub apply_receipt_result : ℕ → ReceiptResult → Notifications Unit
apply_receipt_result now r = do
  write ← lift (receipt_result_values r now)
  found ← gets (λ db. any (awaits_receipt r) db.outbox)
  modify (λ db. record db { outbox = update_where (awaits_receipt r) write db.outbox })
  invalidate_if found r.invalidate_push_token_id r.id now

-- `for (const result of results) …`
unfoldable pub for_each : {A : Type 0} → (A → Notifications Unit) → List A → Notifications Unit
for_each f [] = pure tt
for_each f (x ∷ xs) = do f x; for_each f xs

abbrev pub apply_send_results : List SendResult → ℕ → Notifications Unit
apply_send_results results now = transaction (for_each (apply_send_result now) results)

abbrev pub apply_receipt_results : List ReceiptResult → ℕ → Notifications Unit
apply_receipt_results results now = transaction (for_each (apply_receipt_result now) results)
