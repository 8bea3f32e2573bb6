-- ===== src/Notification/Results/Settled.antt =====
-- What the results of a batch leave behind in the outbox of
-- src/modules/notification/notification.repository.ts.
use chattea_be.Prelude.{
  ℕ, ◌≡◌, refl, subst, Bool, true, false, not, ◌&&◌, Option, none, some, List, [], ◌∷◌, arith, ◌==◌,
  if◌then◌else◌, any, update_where, Bool-cases, Option-cases, inl, inr, Each, Each-update_where,
  Each-map, any-of_Each,
}
use chattea_be.Prelude.Text.{Text}
use chattea_be.Prelude.Action.{Result, ok, err, is_ok, Result-cases, bind-ok}
use chattea_be.Notification.Types.{
  PushJob, NotificationDb, NotificationError, SendKind, accepted, retry, permanent, gave_up,
  SendResult, is_sending, is_open, is_accepted,
}
use chattea_be.Notification.Outbox.{has_id}
use chattea_be.Notification.Results.{
  ticket_eq, send_result_values, is_job_of, delete_token, cancel_jobs, invalidate_push_token,
  awaits_send, is_taken, invalidate_if, apply_send_result, for_each, is_blank,
}

-- A result for the attempt that a row is in.
unfoldable pub covers : List SendResult → PushJob → Bool
covers rs j = any (λ r. r.id == j.id && r.attempt == j.send_attempts) rs

-- A ticket among the results.
unfoldable pub brings : List SendResult → Option Text → Bool
brings rs t = any (λ r. is_accepted r && ticket_eq r.ticket_id t) rs

-- Results that can be written: they have what their kind needs, and no ticket comes twice.
abbrev pub IsFresh : ℕ → List SendResult → Type 0
IsFresh now [] = Unit
IsFresh now (r ∷ rs) =
    (is_ok (send_result_values r now) ≡ true)
    × (is_accepted r ≡ true → brings rs r.ticket_id ≡ false)
    × IsFresh now rs

-- A row of the batch that is being sent has its result to come, and no row has a ticket to come.
pub record Waits (ids : List ℕ) (rs : List SendResult) (j : PushJob) : Type 0 where
  pub is_covered : has_id ids j ≡ true → is_sending j.status ≡ true → covers rs j ≡ true
  pub is_new : brings rs j.ticket_id ≡ false

-- An update that takes a row out of sending.
record Ends (r : SendResult) (f : PushJob → PushJob) : Type 0 where
  stops : (j : PushJob) → is_sending (f j).status ≡ false
  ticket : (j : PushJob) → (f j).ticket_id ≡ (if is_accepted r then r.ticket_id else j.ticket_id)

abbrev EndsOk : SendResult → Result NotificationError (PushJob → PushJob) → Type 0
EndsOk r (ok f) = Ends r f
EndsOk r (err e) = Unit

send_result_values-Ends :
    (r : SendResult) (now : ℕ) (k : SendKind) → r.kind ≡ k → EndsOk r (send_result_values r now)
unfolding send_result_values
send_result_values-Ends r now accepted h = elim (Option-cases r.receipt_available_at) [
  | inl t ↦ rw (h, t) tt
  | inr (at, t) ↦ elim (Bool-cases (is_blank r.ticket_id)) [
    | inl b ↦ rw (h, t, b) tt
    | inr b ↦ rw (h, t, b) (record { stops = λ j. refl; ticket = λ j. refl })
  ]
]
send_result_values-Ends r now retry h = elim (Option-cases r.next_attempt_at) [
  | inl t ↦ rw (h, t) tt
  | inr (at, t) ↦ rw (h, t) (record { stops = λ j. refl; ticket = λ j. refl })
]
send_result_values-Ends r now permanent h =
    rw (h) (record { stops = λ j. refl; ticket = λ j. refl })
send_result_values-Ends r now gave_up h = rw (h) (record { stops = λ j. refl; ticket = λ j. refl })

module _ (ids : List ℕ) (r : SendResult) (rs : List SendResult) where
  Waits-written :
      (f : PushJob → PushJob)
      → Ends r f
      → (is_accepted r ≡ true → brings rs r.ticket_id ≡ false)
      → (j : PushJob) → Waits ids (r ∷ rs) j
      → Waits ids rs (f j)
  unfolding brings any
  Waits-written f e new j w = record {
    is_covered = λ h s. ground (arith, e.stops j);
    is_new = ground (arith, e.ticket j, new, w.is_new);
  }

  Waits-left : (j : PushJob) → awaits_send r j ≡ false → Waits ids (r ∷ rs) j → Waits ids rs j
  unfolding brings covers any
  Waits-left j h w = record {
    is_covered = λ i s. ground (arith, w.is_covered i s);
    is_new = ground (arith, w.is_new);
  }

  not_taken :
      (js : List PushJob) → Each (Waits ids (r ∷ rs)) js → is_taken r (awaits_send r) js ≡ false
  unfolding brings any
  not_taken js ws = elim (Bool-cases (is_accepted r)) [
    | inl h ↦ ground (
      arith,
      any-of_Each (λ j. not (awaits_send r j) && ticket_eq r.ticket_id j.ticket_id) js
          (Each-map (λ j w. ground (arith, w.is_new)) js ws),
    )
    | inr h ↦ ground arith
  ]

module _ (ids : List ℕ) (rs : List SendResult) where
  Waits-cancel_jobs :
      (p : PushJob → Bool) (now : ℕ) (db : NotificationDb)
      → Each (Waits ids rs) db.outbox
      → Each (Waits ids rs) (cancel_jobs p now db).1.outbox
  unfolding cancel_jobs
  Waits-cancel_jobs p now db ws =
      Each-update_where (Waits ids rs) (Waits ids rs) p _
        (λ j h w. record { is_covered = λ i s. ground arith; is_new = w.is_new }) (λ j h w. w)
        db.outbox ws

  Waits-delete_token :
      (t : ℕ) (db : NotificationDb)
      → Each (Waits ids rs) db.outbox
      → Each (Waits ids rs) (delete_token t db).1.outbox
  unfolding delete_token covers
  Waits-delete_token t db ws =
      Each-update_where (Waits ids rs) (Waits ids rs) (is_job_of t) _
        (λ j h w. record { is_covered = w.is_covered; is_new = w.is_new }) (λ j h w. w) db.outbox ws

  Waits-invalidate_if :
      (found : Bool) (t : Option ℕ) (job now : ℕ) (db : NotificationDb)
      → Each (Waits ids rs) db.outbox
      → ((invalidate_if found t job now db).0 ≡ ok tt)
        × Each (Waits ids rs) (invalidate_if found t job now db).1.outbox
  unfolding invalidate_push_token delete_token cancel_jobs
  Waits-invalidate_if found none job now db ws = (refl, ws)
  Waits-invalidate_if false (some t) job now db ws = (refl, ws)
  Waits-invalidate_if true (some t) job now db ws =
      let p : PushJob → Bool = λ j. is_job_of t j && not (j.id == job) && is_open j.status in
      (refl, Waits-delete_token t (cancel_jobs p now db).1 (Waits-cancel_jobs p now db ws))

Waits-apply_send_result :
    (ids : List ℕ) (now : ℕ) (r : SendResult) (rs : List SendResult) (db : NotificationDb)
    → IsFresh now (r ∷ rs)
    → Each (Waits ids (r ∷ rs)) db.outbox
    → ((apply_send_result now r db).0 ≡ ok tt)
      × Each (Waits ids rs) (apply_send_result now r db).1.outbox
unfolding apply_send_result
Waits-apply_send_result ids now r rs db (valid, new, later) ws =
    elim (Result-cases (send_result_values r now)) [
      | inr (x, e) ↦ ground arith
      | inl (write, e) ↦
          let end : Ends r write = subst (EndsOk r) e (send_result_values-Ends r now r.kind refl) in
          let written : Each (Waits ids rs) (update_where (awaits_send r) write db.outbox) =
            Each-update_where (Waits ids (r ∷ rs)) (Waits ids rs) (awaits_send r) write
              (λ j h w. Waits-written ids r rs write end new j w) (Waits-left ids r rs) db.outbox
              ws in
          let after : NotificationDb = record db {
            outbox = update_where (awaits_send r) write db.outbox;
          } in
          elim (Bool-cases (any (awaits_send r) db.outbox)) [
            | inl h ↦
                rw (e, not_taken ids r rs db.outbox ws, h)
                  (Waits-invalidate_if ids rs true r.invalidate_push_token_id r.id now after
                    written)
            | inr h ↦
                rw (e, not_taken ids r rs db.outbox ws, h)
                  (Waits-invalidate_if ids rs false r.invalidate_push_token_id r.id now after
                    written)
          ]
    ]

-- The results of a batch are written, and no row of the batch is still being sent.
pub Waits-for_each :
    (ids : List ℕ) (now : ℕ) (rs : List SendResult) (db : NotificationDb)
    → IsFresh now rs
    → Each (Waits ids rs) db.outbox
    → ((for_each (apply_send_result now) rs db).0 ≡ ok tt)
      × Each (Waits ids []) (for_each (apply_send_result now) rs db).1.outbox
unfolding for_each
Waits-for_each ids now [] db fresh ws = (refl, ws)
Waits-for_each ids now (r ∷ rs) db fresh ws =
    let (e, later) = Waits-apply_send_result ids now r rs db fresh ws in
    rw
      (bind-ok (apply_send_result now r) (λ _. for_each (apply_send_result now) rs) db
        (apply_send_result now r db).1 tt (λ i. (e i, (apply_send_result now r db).1)))
      (Waits-for_each ids now rs (apply_send_result now r db).1 fresh.2 later)
