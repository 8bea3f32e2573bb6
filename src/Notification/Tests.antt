-- ===== src/Notification/Tests.antt =====
-- The theorems about notifications at concrete calls.
use chattea_be.Prelude.{refl, subst, ◌≤◌, ◌+◌, true, Option, none, some, List, [], ◌∷◌, arith, any}
use chattea_be.Prelude.Text.{Text, codes, text_eq}
use chattea_be.Prelude.Action.{Result, ok, err}
use chattea_be.Postgres.{UuidText}
use chattea_be.Notification.{NotifyRequest, message}
use chattea_be.Notification.Types.{
  PushStatus, queued, PushJob, PushToken, NotificationDb, SendResult, accepted, ReceiptResult,
  arrived,
}
use chattea_be.Notification.Outbox.{send_due, by_next_attempt, batch_ids}
use chattea_be.Notification.Lifecycle.{concluding}
use chattea_be.Notification.Lifecycle.Moves.{Follows}
use chattea_be.Notification.Lifecycle.Steps.Runs.{
  Call, notify, register, claim_send, claim_receipt, send_results, receipt_results, run, run_all,
  messages_keep_to_diagram,
}
use chattea_be.Notification.Delivery.{PushGateway, Ticket, ticket_ok, retry_at, check_limit}
use chattea_be.Notification.Delivery.Batches.{process_push_outbox_batch}
use chattea_be.Notification.Delivery.Answers.{IsNew, retries_back_off}
use chattea_be.Notification.Delivery.Finish.{Finished, sent_batch_settles}

-- A database that spells ids by one code unit.
abbrev one_code : UuidText
one_code = record {
  uuid_in = λ t. elim t [ [] ↦ 0 | c ∷ rest ↦ c ];
  uuid_out = λ n. n ∷ [];
  uuid_in-uuid_out = λ n. refl;
}

abbrev greeting : NotifyRequest
greeting = record {
  user_id = 7 ∷ [];
  type = message;
  title = codes "A";
  body = codes "B";
  route = none;
  source_id = none;
}

abbrev sent_job : PushStatus → PushJob
sent_job status = record {
  id = 1;
  notification_id = 5;
  push_token_id = some 3;
  token_snapshot = codes "T";
  title = codes "A";
  body = codes "B";
  route = none;
  status = status;
  ticket_id = none;
  send_attempts = 0;
  receipt_attempts = 0;
  next_attempt_at = 0;
  receipt_available_at = none;
  lease_expires_at = none;
  last_error_code = none;
  last_error_message = none;
  sent_at = none;
  completed_at = none;
  created_at = 0;
}

abbrev device : PushToken
device = record { id = 3; user_id = 7; device_id = 8; token = codes "T"; platform = codes "ios" }

abbrev one_message : PushStatus → NotificationDb
one_message status = record {
  notifications = [];
  tokens = device ∷ [];
  outbox = sent_job status ∷ [];
}

abbrev took : SendResult
took = record {
  id = 1;
  attempt = 1;
  kind = accepted;
  ticket_id = some (codes "X");
  receipt_available_at = some 900000;
  next_attempt_at = none;
  error_code = none;
  error_message = none;
  invalidate_push_token_id = none;
}

abbrev came : ReceiptResult
came = record {
  id = 1;
  attempt = 1;
  kind = arrived;
  next_attempt_at = none;
  error_code = none;
  error_message = none;
  invalidate_push_token_id = none;
}

abbrev a_day : List Call
a_day =
    claim_send 0 60000 10
    ∷ notify (λ t. t + 6) 9 greeting true 5
    ∷ send_results (took ∷ []) 10
    ∷ register 4 20
        (record { user_id = 7 ∷ []; device_id = 9 ∷ []; token = codes "U"; platform = codes "ios" })
    ∷ claim_receipt 900000 960000 10
    ∷ []

messages_keep_to_diagram_example :
    let before = run_all one_code a_day (one_message queued) in
    Follows
      (concluding (arrived ∷ []))
      before.outbox
      (run one_code (receipt_results (came ∷ []) 900010) before).outbox
unfolding any
messages_keep_to_diagram_example =
    messages_keep_to_diagram one_code a_day (receipt_results (came ∷ []) 900010)
      (one_message queued) (refl, tt)

abbrev one_ticket : PushGateway
one_ticket = record {
  is_valid_token = λ t. true;
  send = λ ms. ok (ticket_ok (codes "X") ∷ []);
  get_receipts = λ ts. ok (λ t. none);
}

abbrev IsNewAnswer : List PushJob → Result (Option Text) (List Ticket) → Type 0
IsNewAnswer jobs (ok ts) = IsNew jobs ts
IsNewAnswer jobs (err e) = Unit

sent_batch_settles_example :
    Finished
      (batch_ids (send_due 0) by_next_attempt 10 (one_message queued).outbox)
      (process_push_outbox_batch one_ticket true 0 10 (one_message queued))
unfolding any text_eq check_limit
sent_batch_settles_example =
    sent_batch_settles one_ticket 0 10 (one_message queued) refl
      (λ ms ts e. subst (IsNewAnswer (one_message queued).outbox) e (refl, refl, refl, tt))

retries_back_off_example :
    (1000 + 30000 ≤ retry_at 1000 2)
    × (retry_at 1000 2 ≤ 1000 + 3600000)
    × (retry_at 1000 2 ≤ retry_at 1000 5)
retries_back_off_example = retries_back_off 1000 2 5 (omega arith)
