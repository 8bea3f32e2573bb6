-- ===== src/Notification/Lifecycle/Steps.antt =====
-- The statements of src/modules/notification/notification.repository.ts as moves along the diagram
-- of statuses.
pub mod Settles
pub mod Runs
use chattea_be.Prelude.{
  ℕ, ◌≡◌, refl, Bool, true, false, ◌&&◌, ◌||◌, Option, none, some, arith, Bool-cases, inl, inr,
  ◌==◌, update_where, length, Each-zip, Each-all,
}
use chattea_be.Prelude.Action.{modify}
use chattea_be.Notification.Types.{
  PushStatus, queued, sending, receipt_pending, receipt_checking, PushJob, is_sending, is_queued,
  is_receipt_pending, is_receipt_checking, is_open,
}
use chattea_be.Notification.Outbox.{
  send_due, receipt_due, batch_ids, has_id, claim_batch, claim_send_batch, claim_receipt_batch,
}
use chattea_be.Notification.Results.{
  is_job_of, delete_token, cancel_jobs, invalidate_push_token, invalidate_if,
}
use chattea_be.Notification.Outbox.Claims.{has_id-batch_ids, is_due}
use chattea_be.Notification.Lifecycle.{
  Op, claiming, checking, cancels, claim, claim_again, check, check_again, cancel, Reaches, stay,
  step, IsMove,
}
use chattea_be.Notification.Lifecycle.Moves.{
  Moves, Follows-refl, Follows-update_where, Moves-still, Moves-transaction, Moves-bind,
}

-- An update of the outbox.
pub Moves-update :
    {op : Op} (p : PushJob → Bool) (f : PushJob → PushJob)
    → ((j : PushJob) → p j ≡ true → IsMove op j (f j))
    → Moves op (modify (λ db. record db { outbox = update_where p f db.outbox }))
Moves-update p f moves = record {
  follows = λ db d. Follows-update_where p f db.outbox d (Each-all moves db.outbox);
}

-- From a status that a Boolean test accepts.
to_sending :
    (a b : Bool) (s : PushStatus)
    → ((is_queued s && a) || (is_sending s && b)) ≡ true
    → Reaches claiming s sending
to_sending a b queued h = step claim stay
to_sending a b sending h = step claim_again stay
to_sending a b _ h = ground arith

to_checking :
    (a b c : Bool) (s : PushStatus)
    → ((is_receipt_pending s && a && b) || (is_receipt_checking s && c)) ≡ true
    → Reaches checking s receipt_checking
to_checking a b c receipt_pending h = step check stay
to_checking a b c receipt_checking h = step check_again stay
to_checking a b c _ h = ground arith

pub Moves-cancel_jobs :
    {op : Op} (p : PushJob → Bool) (now : ℕ)
    → cancels op ≡ true
    → ((j : PushJob) → p j ≡ true → is_open j.status ≡ true)
    → Moves op (cancel_jobs p now)
unfolding cancel_jobs
Moves-cancel_jobs p now c h = Moves-update p _ (λ j e. (refl, step (cancel c (h j e)) stay))

pub Moves-delete_token : {op : Op} (t : ℕ) → Moves op (delete_token t)
unfolding delete_token
Moves-delete_token t = record {
  follows = λ db d.
      Follows-update_where (is_job_of t) _ db.outbox d (Each-all (λ j e. (refl, stay)) db.outbox);
}

Moves-invalidate_push_token :
    {op : Op} (t j now : ℕ) → cancels op ≡ true → Moves op (invalidate_push_token t j now)
unfolding invalidate_push_token
Moves-invalidate_push_token t j now c =
    Moves-bind _ _ (Moves-cancel_jobs _ now c (λ k h. ground arith)) (λ _. Moves-delete_token t)

pub Moves-invalidate_if :
    {op : Op} (found : Bool) (t : Option ℕ) (j now : ℕ)
    → cancels op ≡ true
    → Moves op (invalidate_if found t j now)
Moves-invalidate_if found none j now c = Moves-still _ (λ db. refl)
Moves-invalidate_if true (some t) j now c = Moves-invalidate_push_token t j now c
Moves-invalidate_if false (some t) j now c = Moves-still _ (λ db. refl)

-- A claim takes rows that were due.
Moves-claim_batch :
    {op : Op} (due : PushJob → Bool) (before : PushJob → PushJob → Bool) (start : PushJob → PushJob)
    (limit : ℕ)
    → ((j : PushJob) → due j ≡ true → IsMove op j (start j))
    → Moves op (claim_batch due before start limit)
unfolding claim_batch
Moves-claim_batch due before start limit moves = Moves-transaction _ (record {
  follows = λ db d. elim (Bool-cases (length (batch_ids due before limit db.outbox) == 0)) [
    | inl h ↦ rw (h) (Follows-refl db.outbox d)
    | inr h ↦ rw (h) (
        Follows-update_where (has_id (batch_ids due before limit db.outbox)) start db.outbox d (
          Each-zip
            (λ j is_member h e.
              moves j (is_member (has_id-batch_ids due before limit db.outbox j e)))
            db.outbox (is_due due db.outbox d) (Each-all (λ j. tt) db.outbox)))
  ];
})

pub Moves-claim_send_batch :
    (now lease limit : ℕ) → Moves claiming (claim_send_batch now lease limit)
unfolding send_due
Moves-claim_send_batch now lease limit =
    Moves-claim_batch (send_due now) _ _ limit (λ j h. (refl, to_sending _ _ j.status h))

pub Moves-claim_receipt_batch :
    (now lease limit : ℕ) → Moves checking (claim_receipt_batch now lease limit)
unfolding receipt_due
Moves-claim_receipt_batch now lease limit =
    Moves-claim_batch (receipt_due now) _ _ limit (λ j h. (refl, to_checking _ _ _ j.status h))
