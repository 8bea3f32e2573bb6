-- ===== src/Notification/Lifecycle/Steps/Settles.antt =====
-- The results that src/modules/notification/notification.repository.ts writes, as moves along the
-- diagram of statuses.
use mathlib.Core.List.{Memᴰ}
use chattea_be.Prelude.{
  ℕ, ◌≡◌, refl, subst, Bool, true, ◌&&◌, List, [], ◌∷◌, arith, Bool-cases, Option-cases, inl, inr,
  any, update_where, map,
}
use chattea_be.Prelude.Action.{Result, ok, err, modify, ◌>>◌}
use chattea_be.Notification.Types.{
  PushStatus, queued, sending, receipt_pending, receipt_checking, delivered, failed_permanent,
  exhausted, PushJob, NotificationError, SendKind, accepted, retry, permanent, gave_up, SendResult,
  ReceiptKind, arrived, retry_receipt, receipt_permanent, receipt_gave_up, ReceiptResult,
  is_sending, is_receipt_checking, unique_violation,
}
use chattea_be.Notification.Results.{
  send_result_values, receipt_result_values, awaits_send, awaits_receipt, is_taken, invalidate_if,
  apply_send_result, apply_receipt_result, for_each, is_blank,
}
use chattea_be.Notification.Lifecycle.{
  Op, settling, concluding, Edge, accept, send_later, refuse, give_up, deliver, check_later, reject,
  stop_checking, Reaches, stay, step, IsMove,
}
use chattea_be.Notification.Lifecycle.Moves.{
  Moves, Moves-still, Moves-bind, Moves-gets, Moves-lift, Moves-throw_if,
}
use chattea_be.Notification.Lifecycle.Steps.{Moves-update, Moves-invalidate_if}

-- From a status that a Boolean test accepts.
from_sending :
    {ks : List SendKind} (s : PushStatus)
    → is_sending s ≡ true
    → (t : PushStatus) → Edge (settling ks) sending t
    → Reaches (settling ks) s t
from_sending sending h t e = step e stay
from_sending _ h t e = ground arith

from_receipt_checking :
    {ks : List ReceiptKind} (s : PushStatus)
    → is_receipt_checking s ≡ true
    → (t : PushStatus) → Edge (concluding ks) receipt_checking t
    → Reaches (concluding ks) s t
from_receipt_checking receipt_checking h t e = step e stay
from_receipt_checking _ h t e = ground arith

-- What an update writes, when there is something to write.
abbrev Writes : Op → (PushJob → Bool) → Result NotificationError (PushJob → PushJob) → Type 0
Writes op p (ok f) = (j : PushJob) → p j ≡ true → IsMove op j (f j)
Writes op p (err e) = Unit

Writes-ok :
    {op : Op} (p : PushJob → Bool) (r : Result NotificationError (PushJob → PushJob))
    (f : PushJob → PushJob)
    → Writes op p r
    → r ≡ ok f
    → (j : PushJob) → p j ≡ true
    → IsMove op j (f j)
Writes-ok {op} p r f w e = subst (Writes op p) e w

module _ {ks : List SendKind} (r : SendResult) (now : ℕ) (is_member : Memᴰ r.kind ks) where
  kind_is_member : (k : SendKind) → r.kind ≡ k → Memᴰ k ks
  kind_is_member k h = subst (λ x. Memᴰ x ks) h is_member

  from_awaited :
      (t : PushStatus)
      → Edge (settling ks) sending t
      → (j : PushJob) → awaits_send r j ≡ true
      → Reaches (settling ks) j.status t
  from_awaited t e j h = from_sending j.status (ground arith) t e

  Writes-send_result :
      (k : SendKind) → r.kind ≡ k → Writes (settling ks) (awaits_send r) (send_result_values r now)
  unfolding send_result_values
  Writes-send_result accepted h = elim (Option-cases r.receipt_available_at) [
    | inr (at, t) ↦ elim (Bool-cases (is_blank r.ticket_id)) [
      | inl b ↦ rw (h, t, b) tt
      | inr b ↦
          rw (h, t, b)
            (λ j e. (refl, from_awaited receipt_pending (accept (kind_is_member accepted h)) j e))
    ]
    | inl t ↦ rw (h, t) tt
  ]
  Writes-send_result retry h = elim (Option-cases r.next_attempt_at) [
    | inr (at, t) ↦
        rw (h, t) (λ j e. (refl, from_awaited queued (send_later (kind_is_member retry h)) j e))
    | inl t ↦ rw (h, t) tt
  ]
  Writes-send_result permanent h =
      rw (h)
        (λ j e. (refl, from_awaited failed_permanent (refuse (kind_is_member permanent h)) j e))
  Writes-send_result gave_up h =
      rw (h) (λ j e. (refl, from_awaited exhausted (give_up (kind_is_member gave_up h)) j e))

  pub Moves-apply_send_result : Moves (settling ks) (apply_send_result now r)
  unfolding apply_send_result
  Moves-apply_send_result = Moves-lift _ _ λ write e.
      Moves-gets (λ db. any (awaits_send r) db.outbox) _
        λ found.
          Moves-gets (λ db. is_taken r (awaits_send r) db.outbox) _
            λ taken.
              Moves-throw_if (found && taken) unique_violation
                (λ _. do
                  modify (λ db. record db { outbox = update_where (awaits_send r) write db.outbox })
                  invalidate_if found r.invalidate_push_token_id r.id now)
                λ fits.
                  Moves-bind _ _
                    (Moves-update (awaits_send r) write
                      (Writes-ok _ _ write (Writes-send_result r.kind refl) e))
                    (λ _. Moves-invalidate_if found r.invalidate_push_token_id r.id now refl)

module _ {ks : List ReceiptKind} (r : ReceiptResult) (now : ℕ) (is_member : Memᴰ r.kind ks) where
  receipt_kind_is_member : (k : ReceiptKind) → r.kind ≡ k → Memᴰ k ks
  receipt_kind_is_member k h = subst (λ x. Memᴰ x ks) h is_member

  from_checked :
      (t : PushStatus)
      → Edge (concluding ks) receipt_checking t
      → (j : PushJob) → awaits_receipt r j ≡ true
      → Reaches (concluding ks) j.status t
  from_checked t e j h = from_receipt_checking j.status (ground arith) t e

  Writes-receipt_result :
      (k : ReceiptKind)
      → r.kind ≡ k
      → Writes (concluding ks) (awaits_receipt r) (receipt_result_values r now)
  unfolding receipt_result_values
  Writes-receipt_result arrived h =
      rw (h)
        (λ j e. (refl, from_checked delivered (deliver (receipt_kind_is_member arrived h)) j e))
  Writes-receipt_result retry_receipt h = elim (Option-cases r.next_attempt_at) [
    | inr (at, t) ↦
        rw (h, t)
          (λ j e. (
            refl,
            from_checked receipt_pending (check_later (receipt_kind_is_member retry_receipt h)) j e,
          ))
    | inl t ↦ rw (h, t) tt
  ]
  Writes-receipt_result receipt_permanent h = rw (h) (λ j e. (
    refl,
    from_checked failed_permanent (reject (receipt_kind_is_member receipt_permanent h)) j e,
  ))
  Writes-receipt_result receipt_gave_up h = rw (h) (λ j e.
      (refl, from_checked exhausted (stop_checking (receipt_kind_is_member receipt_gave_up h)) j e))

  pub Moves-apply_receipt_result : Moves (concluding ks) (apply_receipt_result now r)
  unfolding apply_receipt_result
  Moves-apply_receipt_result = Moves-lift _ _ λ write e.
      Moves-gets (λ db. any (awaits_receipt r) db.outbox) _
        λ found.
          Moves-bind _ _
            (Moves-update (awaits_receipt r) write
              (Writes-ok _ _ write (Writes-receipt_result r.kind refl) e))
            (λ _. Moves-invalidate_if found r.invalidate_push_token_id r.id now refl)

-- The results of a call, one after another.
pub Moves-send_results :
    {ks : List SendKind} (now : ℕ) (rs : List SendResult)
    → ((k : SendKind) → Memᴰ k (map (λ r. r.kind) rs) → Memᴰ k ks)
    → Moves (settling ks) (for_each (apply_send_result now) rs)
unfolding for_each
Moves-send_results now [] inside = Moves-still _ (λ db. refl)
Moves-send_results now (r ∷ rs) inside =
    Moves-bind _ _ (Moves-apply_send_result r now (inside r.kind (Memᴰ.head refl)))
      (λ _. Moves-send_results now rs (λ k m. inside k (Memᴰ.tail m)))

pub Moves-receipt_results :
    {ks : List ReceiptKind} (now : ℕ) (rs : List ReceiptResult)
    → ((k : ReceiptKind) → Memᴰ k (map (λ r. r.kind) rs) → Memᴰ k ks)
    → Moves (concluding ks) (for_each (apply_receipt_result now) rs)
unfolding for_each
Moves-receipt_results now [] inside = Moves-still _ (λ db. refl)
Moves-receipt_results now (r ∷ rs) inside =
    Moves-bind _ _ (Moves-apply_receipt_result r now (inside r.kind (Memᴰ.head refl)))
      (λ _. Moves-receipt_results now rs (λ k m. inside k (Memᴰ.tail m)))
