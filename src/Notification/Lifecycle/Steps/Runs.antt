-- ===== src/Notification/Lifecycle/Steps/Runs.antt =====
-- Calls in any order of src/modules/notification/notification.repository.ts.
use chattea_be.Prelude.{
  ℕ, refl, Bool, true, false, not, ◌&&◌, Option, none, some, List, [], ◌∷◌, ◌++◌, arith, ◌==◌, any,
  find?, select, update_where, map, length, Bool-cases, inl, inr, Each-all,
}
use chattea_be.Prelude.Text.{Text, text_eq}
use chattea_be.Prelude.Action.{pure, modify, ◌>>◌, throw_if}
use chattea_be.Postgres.{UuidText}
use chattea_be.Notification.{NotifyRequest}
use chattea_be.Notification.Types.{
  PushJob, PushToken, NotificationDb, unique_violation, push_token_device_conflict, SendResult,
  ReceiptResult, is_open, is_in_flight,
}
use chattea_be.Notification.Outbox.{claim_send_batch, claim_receipt_batch}
use chattea_be.Notification.Results.{is_job_of, apply_send_results, apply_receipt_results, for_each}
use chattea_be.Notification.Outbox.Claims.{IsDistinct}
use chattea_be.Notification.Tokens.{
  RegisterInput, insert_token, store_token, new_job, add_job, create_with_push_outbox, mark_read,
  is_existing, is_device_token, is_requested_token, new_token, drop_token, replace_token,
  set_platform, is_elsewhere, register_push_token, is_own, belongs, delete_tokens,
  unregister_push_token,
}
use chattea_be.Notification.Lifecycle.{
  Op, reading, creating, revoking, claiming, settling, checking, concluding, stay,
}
use chattea_be.Notification.Lifecycle.Moves.{
  Moves, Follows, Follows-refl, Follows-update_where, Follows-snoc, Moves-still, Moves-transaction,
  Moves-if, Moves-bind, Moves-gets, Moves-throw_if,
}
use chattea_be.Notification.Lifecycle.Steps.{
  Moves-update, Moves-cancel_jobs, Moves-delete_token, Moves-claim_send_batch,
  Moves-claim_receipt_batch,
}
use chattea_be.Notification.Lifecycle.Steps.Settles.{Moves-send_results, Moves-receipt_results}

-- A call, with the random ids of its rows and its time.
pub data Call : Type 0 where
  notify : (ℕ → ℕ) → ℕ → NotifyRequest → Bool → ℕ → Call
  read : ℕ → Text → Text → Call
  register : ℕ → ℕ → RegisterInput → Call
  unregister : ℕ → Text → Text → Call
  claim_send claim_receipt : ℕ → ℕ → ℕ → Call
  send_results : List SendResult → ℕ → Call
  receipt_results : List ReceiptResult → ℕ → Call

Moves-add_job :
    (key : ℕ → ℕ) (notice : ℕ) (input : NotifyRequest) (now : ℕ) (t : PushToken)
    → Moves creating (add_job (new_job key notice input now t))
unfolding add_job
Moves-add_job key notice input now t =
    let j : PushJob = new_job key notice input now t in
    record {
      follows = λ db d. elim (Bool-cases (any (λ k. k.id == key t.id) db.outbox)) [
        | inl h ↦ rw (h) (Follows-refl db.outbox d)
        | inr h ↦ rw (h) (Follows-snoc j db.outbox refl refl h d)
      ];
    }

Moves-add_jobs :
    (key : ℕ → ℕ) (notice : ℕ) (input : NotifyRequest) (now : ℕ) (ts : List PushToken)
    → Moves creating (for_each add_job (map (new_job key notice input now) ts))
unfolding for_each
Moves-add_jobs key notice input now [] = Moves-still _ (λ db. refl)
Moves-add_jobs key notice input now (t ∷ ts) =
    Moves-bind _ _ (Moves-add_job key notice input now t)
      (λ _. Moves-add_jobs key notice input now ts)

Moves-write_tokens :
    (taken : Bool) (f : List PushToken → List PushToken)
    → Moves revoking
        (throw_if taken unique_violation >> modify (λ db. record db { tokens = f db.tokens }))
Moves-write_tokens true f = Moves-still _ (λ db. refl)
Moves-write_tokens false f = Moves-still _ (λ db. refl)

module _ (pg : UuidText) where
  abbrev pub run : Call → NotificationDb → NotificationDb
  run (notify key id input enqueue now) db =
      (create_with_push_outbox pg key id input enqueue now db).1
  run (read now user id) db = (mark_read pg now user id db).1
  run (register id now r) db = (register_push_token pg id now r db).1
  run (unregister now user device) db = (unregister_push_token pg now user device db).1
  run (claim_send now lease limit) db = (claim_send_batch now lease limit db).1
  run (claim_receipt now lease limit) db = (claim_receipt_batch now lease limit db).1
  run (send_results rs now) db = (apply_send_results rs now db).1
  run (receipt_results rs now) db = (apply_receipt_results rs now db).1

  abbrev pub run_all : List Call → NotificationDb → NotificationDb
  run_all [] db = db
  run_all (c ∷ cs) db = run_all cs (run c db)

  Moves-drop_token : (o : Option PushToken) (now : ℕ) → Moves revoking (drop_token pg o now)
  unfolding drop_token
  Moves-drop_token none now = Moves-still _ (λ db. refl)
  Moves-drop_token (some t) now =
      Moves-bind _ _ (Moves-cancel_jobs _ now refl (λ j h. ground arith))
        (λ _. Moves-delete_token t.id)

  Moves-replace_token :
      (device : ℕ) (r : RegisterInput) (now : ℕ) → Moves revoking (replace_token pg device r now)
  unfolding replace_token
  Moves-replace_token device r now = Moves-bind _ _ (Moves-update _ _ (λ j h. (refl, stay))) λ _.
      Moves-bind _ _
        (Moves-cancel_jobs (λ j. is_job_of device j && is_in_flight j.status) now refl
          (λ j h. ground arith))
        λ _.
          Moves-gets (λ db. any (λ t. not (t.id == device) && is_requested_token pg r t) db.tokens)
            _
            λ taken. Moves-write_tokens taken (
              update_where (λ t. t.id == device)
                (λ t. record t { token = r.token; platform = r.platform }))

  Moves-insert_token : (id : ℕ) (r : RegisterInput) → Moves revoking (insert_token pg id r)
  unfolding insert_token
  Moves-insert_token id r =
      Moves-gets (λ db. any (is_existing pg r) db.tokens) _
        λ taken. Moves-write_tokens taken (λ ts. ts ++ new_token pg id r ∷ [])

  Moves-store_token :
      (id now : ℕ) (r : RegisterInput) (d o : Option PushToken)
      → Moves revoking (store_token pg id now r d o)
  unfolding store_token set_platform
  Moves-store_token id now r (some d) o =
      Moves-if (text_eq d.token r.token) _ _ (Moves-still _ (λ db. refl))
        (Moves-bind _ _ (Moves-drop_token o now) (λ _. Moves-replace_token d.id r now))
  Moves-store_token id now r none o =
      Moves-bind _ _ (Moves-drop_token o now) (λ _. Moves-insert_token id r)

  Moves-register :
      (id now : ℕ) (r : RegisterInput) → Moves revoking (register_push_token pg id now r)
  unfolding register_push_token
  Moves-register id now r = Moves-transaction _ (
      Moves-gets (λ db. find? (is_device_token pg r) (select (is_existing pg r) db.tokens)) _
        λ device.
          Moves-gets (λ db. find? (is_requested_token pg r) (select (is_existing pg r) db.tokens)) _
            λ requested.
              Moves-throw_if (is_elsewhere pg r requested) push_token_device_conflict
                (λ _. store_token pg id now r device requested)
                (λ h. Moves-store_token id now r device requested))

  Moves-delete_tokens : (ids : List ℕ) → Moves revoking (delete_tokens pg ids)
  unfolding delete_tokens
  Moves-delete_tokens ids = record {
    follows = λ db d.
        Follows-update_where (belongs pg ids) _ db.outbox d
          (Each-all (λ j h. (refl, stay)) db.outbox);
  }

  Moves-unregister :
      (now : ℕ) (user device : Text) → Moves revoking (unregister_push_token pg now user device)
  unfolding unregister_push_token
  Moves-unregister now user device = Moves-transaction _ (
      Moves-gets (λ db. any (λ t. t.device_id == pg.uuid_in device) db.tokens) _
        λ others.
          Moves-gets (λ db. map (λ t. t.id) (select (is_own pg user device) db.tokens)) _
            λ ids. Moves-if (length ids == 0) _ _ (Moves-still (pure (not others)) (λ db. refl)) (
              Moves-bind _ (λ _. delete_tokens pg ids)
                (Moves-cancel_jobs (λ j. belongs pg ids j && is_open j.status) now refl
                  (λ j h. ground arith))
                (λ _. Moves-delete_tokens ids)))

  Moves-create :
      (key : ℕ → ℕ) (id : ℕ) (input : NotifyRequest) (enqueue : Bool) (now : ℕ)
      → Moves creating (create_with_push_outbox pg key id input enqueue now)
  unfolding create_with_push_outbox
  Moves-create key id input enqueue now = Moves-transaction _ (record {
    follows = λ db d.
        (Moves-if enqueue _ _
            (Moves-add_jobs key id input now
              (select (λ t. t.user_id == pg.uuid_in input.user_id) db.tokens))
            (Moves-still (pure tt) (λ s. refl))).follows
          _ d;
  })

  Moves-mark_read : (now : ℕ) (user id : Text) → Moves reading (mark_read pg now user id)
  unfolding mark_read
  Moves-mark_read now user id = Moves-still _ (λ db. refl)

  -- What a call does, by its kind.
  abbrev pub op_of : Call → Op
  op_of (notify key id input enqueue now) = creating
  op_of (read now user id) = reading
  op_of (register id now r) = revoking
  op_of (unregister now user device) = revoking
  op_of (claim_send now lease limit) = claiming
  op_of (claim_receipt now lease limit) = checking
  op_of (send_results rs now) = settling (map (λ r. r.kind) rs)
  op_of (receipt_results rs now) = concluding (map (λ r. r.kind) rs)

  Follows-run :
      (c : Call) (db : NotificationDb)
      → IsDistinct db.outbox
      → Follows (op_of c) db.outbox (run c db).outbox
  Follows-run (notify key id input enqueue now) db d =
      (Moves-create key id input enqueue now).follows db d
  Follows-run (read now user id) db d = (Moves-mark_read now user id).follows db d
  Follows-run (register id now r) db d = (Moves-register id now r).follows db d
  Follows-run (unregister now user device) db d = (Moves-unregister now user device).follows db d
  Follows-run (claim_send now lease limit) db d =
      (Moves-claim_send_batch now lease limit).follows db d
  Follows-run (claim_receipt now lease limit) db d =
      (Moves-claim_receipt_batch now lease limit).follows db d
  Follows-run (send_results rs now) db d =
      (Moves-transaction _ (Moves-send_results now rs (λ k m. m))).follows db d
  Follows-run (receipt_results rs now) db d =
      (Moves-transaction _ (Moves-receipt_results now rs (λ k m. m))).follows db d

  IsDistinct-run_all :
      (cs : List Call) (db : NotificationDb)
      → IsDistinct db.outbox
      → IsDistinct (run_all cs db).outbox
  IsDistinct-run_all [] db d = d
  IsDistinct-run_all (c ∷ cs) db d = IsDistinct-run_all cs (run c db) (Follows-run c db d).distinct

  -- From an outbox without a repeated id, after whatever calls in any order, refused ones
  -- included, the next call repeats no id, leaves each message in its place, and moves it only by
  -- the edges of the diagram that are of this kind of call and, when it brings results, of their
  -- kinds; what it adds stands behind the others and is queued, and only a notification adds.
  pub messages_keep_to_diagram :
      (cs : List Call) (c : Call) (db : NotificationDb)
      → IsDistinct db.outbox
      → Follows (op_of c) (run_all cs db).outbox (run c (run_all cs db)).outbox
  messages_keep_to_diagram cs c db d = Follows-run c (run_all cs db) (IsDistinct-run_all cs db d)
