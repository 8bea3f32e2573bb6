-- ===== src/Notification/Delivery/Finish.antt =====
-- A whole batch of `processPushOutboxBatch` in src/modules/notification/notification.service.ts.
use chattea_be.Prelude.{
  ℕ, ◌≡◌, refl, ◌∙◌, true, false, ◌&&◌, Option, List, [], ◌∷◌, ◌+◌, arith, ◌==◌, any, select,
  update_where, map, length, Bool-cases, inl, inr, Each, Each-zip, Each-all, Each-map,
  Each-update_where, Each-selected, any-of_Each,
}
use chattea_be.Prelude.Text.{Text}
use chattea_be.Prelude.Action.{Result, ok, pure, bind-ok, transaction-ok}
use chattea_be.Notification.Types.{
  PushJob, NotificationDb, NotificationError, SendResult, BatchResult, is_sending, push_lease_ms,
}
use chattea_be.Notification.Outbox.{
  send_due, by_next_attempt, batch_ids, has_id, start_sending, claim_batch, claim_send_batch,
  ClaimBatch,
}
use chattea_be.Notification.Results.{apply_send_result, apply_send_results, for_each}
use chattea_be.Notification.Results.Settled.{covers, brings, IsFresh, Waits, Waits-for_each}
use chattea_be.Notification.Delivery.{
  PushMessage, Ticket, PushGateway, check_limit, summarize_send_results, empty_batch,
}
use chattea_be.Notification.Delivery.Batches.{
  message_of, send_results_of, deliver_batch, process_push_outbox_batch,
}
use chattea_be.Notification.Delivery.Answers.{
  is_attempt_of, covers-send_results_of, IsNew, IsFresh-send_results_of, results_are_new,
  summarize_send_results_lem,
}

-- The claimed rows wait for the results that are about them.
Waits-claimed :
    (ids : List ℕ) (lease now : ℕ) (js : List PushJob) (answer : Result (Option Text) (List Ticket))
    → ((ts : List Ticket) → answer ≡ ok ts → IsNew js ts)
    → Each
        (Waits ids
          (send_results_of (map (start_sending lease) (select (has_id ids) js)) answer now))
        (update_where (has_id ids) (start_sending lease) js)
Waits-claimed ids lease now js answer new =
    let start : PushJob → PushJob = start_sending lease in
    let jobs : List PushJob = map start (select (has_id ids) js) in
    let rs : List SendResult = send_results_of jobs answer now in
    Each-update_where
      (λ j.
        (has_id ids j ≡ true → any (is_attempt_of (start j)) jobs ≡ true)
        × (brings rs j.ticket_id ≡ false))
      (Waits ids rs) (has_id ids) start
      (λ j h w. record {
        is_covered = λ i s. covers-send_results_of now (start j) jobs answer ∙ w.0 h;
        is_new = w.1;
      })
      (λ j h w. record { is_covered = λ i s. ground arith; is_new = w.1 }) js
      (Each-zip (λ j h k. (h, k)) js
        (Each-selected (has_id ids) start (λ j k. is_attempt_of (start j) k) (λ j. ground arith) js)
        (results_are_new js now jobs answer new))

none_is_sending :
    (ids : List ℕ) (rs : List SendResult) (js : List PushJob)
    → ((j : PushJob) → covers rs j ≡ false)
    → Each (Waits ids rs) js
    → any (λ j. has_id ids j && is_sending j.status) js ≡ false
none_is_sending ids rs js done ws =
    any-of_Each _ js (Each-map (λ j w. ground (arith, w.is_covered, done j)) js ws)

none_is_claimed :
    (ids : List ℕ) (js : List PushJob)
    → (length ids == 0) ≡ true
    → any (λ j. has_id ids j && is_sending j.status) js ≡ false
unfolding any
none_is_claimed [] js h = any-of_Each _ js (Each-all (λ j. refl) js)
none_is_claimed (i ∷ ids) js h = ground arith

no_attempt :
    (j : PushJob) (js : List PushJob) → (length js == 0) ≡ true → any (is_attempt_of j) js ≡ false
unfolding any
no_attempt j [] h = refl
no_attempt j (k ∷ ks) h = ground arith

covers-none : (j : PushJob) → covers [] j ≡ false
unfolding covers any
covers-none j = refl

module _ (now lease limit : ℕ) (db : NotificationDb) where
  abbrev claimed_ids : List ℕ
  claimed_ids = batch_ids (send_due now) by_next_attempt limit db.outbox

  abbrev claimed_jobs : List PushJob
  claimed_jobs = map (start_sending lease) (select (has_id claimed_ids) db.outbox)

  abbrev after_claim : NotificationDb
  after_claim = record db {
    outbox = update_where (has_id claimed_ids) (start_sending lease) db.outbox;
  }

  claim_none :
      (length claimed_ids == 0) ≡ true
      → claim_send_batch now lease limit db ≡ (ok (record { jobs = []; has_more = false }), db)
  unfolding claim_batch
  claim_none h = ground arith

  claim_some :
      (length claimed_ids == 0) ≡ false
      → claim_send_batch now lease limit db ≡ (
        ok (record { jobs = claimed_jobs; has_more = any (send_due now) after_claim.outbox }),
        after_claim,
      )
  unfolding claim_batch
  claim_some h = ground arith

-- What is left of a batch: it returns, none of its messages is being sent, and its report adds up.
pub record Finished (ids : List ℕ) (r : Result NotificationError BatchResult × NotificationDb)
    : Type 0 where
  pub report : BatchResult
  pub returns : r.0 ≡ ok report
  pub settles : any (λ j. has_id ids j && is_sending j.status) r.1.outbox ≡ false
  pub adds_up :
      report.claimed ≡ report.succeeded + report.retry_scheduled + report.permanently_failed

module _ (gateway : PushGateway) where
  open gateway use {send}

  Finished-nothing :
      (ids : List ℕ) (now : ℕ) (db : NotificationDb)
      → (length ids == 0) ≡ true
      → Finished ids (deliver_batch gateway true now (record { jobs = []; has_more = false }) db)
  unfolding deliver_batch
  Finished-nothing ids now db h = record {
    report = empty_batch false;
    returns = refl;
    settles = none_is_claimed ids db.outbox h;
    adds_up = refl;
  }

  Finished-deliver_batch :
      (ids : List ℕ) (now : ℕ) (batch : ClaimBatch) (db : NotificationDb)
      → Each
          (Waits ids (send_results_of batch.jobs (send (map message_of batch.jobs)) now))
          db.outbox
      → IsFresh now (send_results_of batch.jobs (send (map message_of batch.jobs)) now)
      → Finished ids (deliver_batch gateway true now batch db)
  unfolding deliver_batch
  Finished-deliver_batch ids now batch db ws fresh =
      let answer : Result (Option Text) (List Ticket) = send (map message_of batch.jobs) in
      let rs : List SendResult = send_results_of batch.jobs answer now in
      elim (Bool-cases (length batch.jobs == 0)) [
        | inl h ↦ rw (h) (record {
          report = empty_batch batch.has_more;
          returns = refl;
          settles =
              none_is_sending ids rs db.outbox
                (λ j. covers-send_results_of now j batch.jobs answer ∙ no_attempt j batch.jobs h)
                ws;
          adds_up = refl;
        })
        | inr h ↦
            let (e, settled) = Waits-for_each ids now rs db fresh ws in
            rw
              (
                h,
                bind-ok (apply_send_results rs now)
                    (λ _. pure (summarize_send_results rs batch.has_more)) db
                    (for_each (apply_send_result now) rs db).1 tt
                    (transaction-ok (for_each (apply_send_result now) rs) db tt e),
              )
              (record {
                report = summarize_send_results rs batch.has_more;
                returns = refl;
                settles = none_is_sending ids [] _ (λ j. covers-none j) settled;
                adds_up = (summarize_send_results_lem rs batch.has_more).1;
              })
      ]

  -- A batch with a limit between 1 and 100, when the push service hands out tickets that are not
  -- empty, not repeated and not yet in the outbox, returns a report; none of the messages it
  -- claimed is then left as being sent, and the messages of the report are those that succeeded,
  -- are tried again or have failed.
  pub sent_batch_settles :
      (now limit : ℕ) (db : NotificationDb)
      → check_limit limit ≡ false
      → ((ms : List PushMessage) (ts : List Ticket) → send ms ≡ ok ts → IsNew db.outbox ts)
      → Finished
          (batch_ids (send_due now) by_next_attempt limit db.outbox)
          (process_push_outbox_batch gateway true now limit db)
  unfolding process_push_outbox_batch
  sent_batch_settles now limit db valid new =
      let lease : ℕ = now + push_lease_ms in
      let ids : List ℕ = claimed_ids now lease limit db in
      let jobs : List PushJob = claimed_jobs now lease limit db in
      let answer : Result (Option Text) (List Ticket) = send (map message_of jobs) in
      elim (Bool-cases (length ids == 0)) [
        | inl h ↦
            rw
              (
                valid,
                bind-ok (claim_send_batch now lease limit) (deliver_batch gateway true now) db db _
                    (claim_none now lease limit db h),
              )
              (Finished-nothing ids now db h)
        | inr h ↦
            rw
              (
                valid,
                bind-ok (claim_send_batch now lease limit) (deliver_batch gateway true now) db _ _
                    (claim_some now lease limit db h),
              )
              (Finished-deliver_batch ids now _ (after_claim now lease limit db)
                (Waits-claimed ids lease now db.outbox answer (new (map message_of jobs)))
                (IsFresh-send_results_of db.outbox now jobs answer (new (map message_of jobs))))
      ]
