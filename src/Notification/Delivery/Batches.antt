-- ===== src/Notification/Delivery/Batches.antt =====
-- The two batches of src/modules/notification/notification.service.ts, from the claim to the
-- report.
use chattea_be.Prelude.{
  ℕ, Bool, true, false, not, Option, none, some, List, [], ◌∷◌, ◌+◌, ◌==◌, if◌then◌else◌, map,
  length, get_or,
}
use chattea_be.Prelude.Text.{Text, codes, trim}
use chattea_be.Prelude.Action.{Result, ok, err, pure, ◌>>=◌, ◌>>◌, throw_if}
use chattea_be.Postgres.{UuidText}
use chattea_be.Notification.Types.{
  PushJob, push_token_invalid, push_platform_invalid, push_batch_limit_invalid, SendResult,
  ReceiptResult, BatchResult, push_lease_ms,
}
use chattea_be.Notification.Outbox.{
  Notifications, ClaimBatch, claim_send_batch, claim_receipt_batch,
}
use chattea_be.Notification.Results.{apply_send_results, apply_receipt_results, is_blank}
use chattea_be.Notification.Tokens.{RegisterInput, register_push_token}
use chattea_be.Notification.Delivery.{
  PushMessage, Ticket, Receipt, PushGateway, empty_batch, to_lower_case, is_platform, check_limit,
  retry_send_result, ticket_result, retry_receipt_result, failed_receipt, receipt_result,
  summarize_send_results, summarize_receipt_results,
}

abbrev pub message_of : PushJob → PushMessage
message_of job = record {
  to = job.token_snapshot;
  title = job.title;
  body = job.body;
  route = if is_blank job.route then none else job.route;
}

-- The tickets stand in the order of the jobs.
unfoldable pub ticket_results : List PushJob → List Ticket → ℕ → List SendResult
ticket_results [] tickets now = []
ticket_results (j ∷ js) [] now = ticket_result j none now ∷ ticket_results js [] now
ticket_results (j ∷ js) (t ∷ ts) now = ticket_result j (some t) now ∷ ticket_results js ts now

unfoldable pub send_results_of :
    List PushJob → Result (Option Text) (List Ticket) → ℕ → List SendResult
send_results_of jobs (ok tickets) now =
    if length tickets == length jobs
    then ticket_results jobs tickets now
    else map (λ j. retry_send_result j now (some (codes "ExpoTicketCountMismatch")) none) jobs
send_results_of jobs (err e) now =
    map
      (λ j.
        retry_send_result j now (some (codes "ExpoRequestFailed"))
          (some (get_or e (codes "EXPO_PUSH_SEND_FAILED"))))
      jobs

-- The ticket ids of the jobs that have one.
unfoldable pub ticket_ids : List PushJob → List Text
ticket_ids [] = []
ticket_ids (j ∷ js) =
    let rest = ticket_ids js in if is_blank j.ticket_id then rest else get_or j.ticket_id [] ∷ rest

unfoldable pub receipt_results_of :
    List PushJob → Result (Option Text) (Text → Option Receipt) → ℕ → List ReceiptResult
receipt_results_of jobs (ok receipts) now =
    map (λ j. receipt_result j (receipts (get_or j.ticket_id [])) now) jobs
receipt_results_of jobs (err e) now =
    map
      (λ j.
        retry_receipt_result j now (some (codes "ExpoReceiptRequestFailed"))
          (some (get_or e (codes "EXPO_PUSH_RECEIPT_FAILED"))))
      jobs

abbrev pub without_ticket : ℕ → PushJob → ReceiptResult
without_ticket now j =
    if is_blank j.ticket_id
    then failed_receipt j (codes "ExpoTicketMissing") none none
    else retry_receipt_result j now (some (codes "ExpoReceiptBatchInvalid")) none

module _ (gateway : PushGateway) (enabled : Bool) where
  open gateway use {is_valid_token, send, get_receipts}

  -- What follows a claim.
  unfoldable pub deliver_batch : ℕ → ClaimBatch → Notifications BatchResult
  deliver_batch now claimed =
      let results = send_results_of claimed.jobs (send (map message_of claimed.jobs)) now in
      if length claimed.jobs == 0
      then pure (empty_batch claimed.has_more)
      else do apply_send_results results now; pure (summarize_send_results results claimed.has_more)

  unfoldable pub process_push_outbox_batch : ℕ → ℕ → Notifications BatchResult
  process_push_outbox_batch now limit = if not enabled then pure (empty_batch false) else do
    throw_if (check_limit limit) push_batch_limit_invalid
    claimed ← claim_send_batch now (now + push_lease_ms) limit
    deliver_batch now claimed

  abbrev pub check_receipts : List PushJob → ℕ → List ReceiptResult
  check_receipts jobs now =
      if not (length (ticket_ids jobs) == length jobs)
      then map (without_ticket now) jobs
      else receipt_results_of jobs (get_receipts (ticket_ids jobs)) now

  unfoldable pub check_batch : ℕ → ClaimBatch → Notifications BatchResult
  check_batch now claimed =
      let results = check_receipts claimed.jobs now in
      if length claimed.jobs == 0 then pure (empty_batch claimed.has_more) else do
        apply_receipt_results results now
        pure (summarize_receipt_results results claimed.has_more)

  unfoldable pub process_push_receipt_batch : ℕ → ℕ → Notifications BatchResult
  process_push_receipt_batch now limit = if not enabled then pure (empty_batch false) else do
    throw_if (check_limit limit) push_batch_limit_invalid
    claimed ← claim_receipt_batch now (now + push_lease_ms) limit
    check_batch now claimed

  module _ (pg : UuidText) where
    unfoldable pub service_register : ℕ → ℕ → RegisterInput → Notifications Bool
    service_register id now input = do
      let token = trim input.token
      let platform = to_lower_case (trim input.platform)
      throw_if (not (is_valid_token token)) push_token_invalid
      throw_if (not (is_platform platform)) push_platform_invalid
      register_push_token pg id now (record input { token = token; platform = platform })
      pure true
