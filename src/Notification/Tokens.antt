-- ===== src/Notification/Tokens.antt =====
-- Notifications and the devices they reach: `list`, `createWithPushOutbox`, `markRead`,
-- `registerPushToken` and `unregisterPushToken` of
-- src/modules/notification/notification.repository.ts. The locks on the token and on the device
-- make a registration one step.
use chattea_be.Prelude.{
  ℕ, Bool, true, false, not, ◌&&◌, ◌||◌, Option, none, some, List, [], ◌∷◌, ◌++◌, ltb, ◌==◌,
  if◌then◌else◌, find?, any, select, update_where, delete_where, take, map, is_some, length,
}
use chattea_be.Prelude.Text.{Text, text_eq}
use chattea_be.Prelude.Action.{pure, gets, transaction, ◌>>=◌, ◌>>◌, modify, throw_if}
use chattea_be.Postgres.{UuidText}
use chattea_be.Notification.{NotifyRequest}
use chattea_be.Notification.Types.{
  queued, PushJob, PushToken, Notice, push_token_device_conflict, unique_violation, is_queued,
  is_open, is_in_flight,
}
use chattea_be.Notification.Outbox.{Notifications}
use chattea_be.Notification.Results.{is_job_of, cancel_jobs, delete_token, for_each}

pub record RegisterInput : Type 0 where
  pub user_id : Text
  pub device_id : Text
  pub token : Text
  pub platform : Text

-- ORDER BY "createdAt" DESC
pub insert_notice : Notice → List Notice → List Notice
insert_notice n [] = n ∷ []
insert_notice n (m ∷ ms) =
    if ltb n.created_at m.created_at then m ∷ insert_notice n ms else n ∷ m ∷ ms

pub sort_notices : List Notice → List Notice
sort_notices [] = []
sort_notices (n ∷ ns) = insert_notice n (sort_notices ns)

-- A row of the outbox for a token. `key` gives the random id of a new row.
abbrev pub new_job : (ℕ → ℕ) → ℕ → NotifyRequest → ℕ → PushToken → PushJob
new_job key notice input now t = record {
  id = key t.id;
  notification_id = notice;
  push_token_id = some t.id;
  token_snapshot = t.token;
  title = input.title;
  body = input.body;
  route = input.route;
  status = queued;
  ticket_id = none;
  send_attempts = 0;
  receipt_attempts = 0;
  next_attempt_at = now;
  receipt_available_at = none;
  lease_expires_at = none;
  last_error_code = none;
  last_error_message = none;
  sent_at = none;
  completed_at = none;
  created_at = now;
}

-- INSERT: the ids of the rows are the table's primary key.
unfoldable pub add_job : PushJob → Notifications Unit
add_job j = do
  taken ← gets (λ db. any (λ k. k.id == j.id) db.outbox)
  throw_if taken unique_violation
  modify λ db. record db { outbox = db.outbox ++ j ∷ [] }

module _ (pg : UuidText) where
  open pg use {uuid_in, uuid_out}

  pub list : Text → Notifications (List Notice)
  list user_id =
      gets
        λ db. take 100 (sort_notices (select (λ n. n.user_id == uuid_in user_id) db.notifications))

  unfoldable pub create_with_push_outbox :
      (ℕ → ℕ) → ℕ → NotifyRequest → Bool → ℕ → Notifications Unit
  create_with_push_outbox key id input enqueue now = transaction do
    modify λ db. record db {
      notifications =
          db.notifications
          ++ record {
            id = id;
            user_id = uuid_in input.user_id;
            request = input;
            read_at = none;
            created_at = now;
          }
            ∷ [];
    }
    fresh ← gets (λ db.
        map (new_job key id input now) (select (λ t. t.user_id == uuid_in input.user_id) db.tokens))
    if enqueue then for_each add_job fresh else pure tt

  abbrev pub is_unread_of : Text → Text → Notice → Bool
  is_unread_of user_id id n =
      n.id == uuid_in id && n.user_id == uuid_in user_id && not (is_some n.read_at)

  unfoldable pub mark_read : ℕ → Text → Text → Notifications Bool
  mark_read now user_id id = do
    found ← gets (λ db. any (is_unread_of user_id id) db.notifications)
    modify λ db. record db {
      notifications =
          update_where (is_unread_of user_id id) (λ n. record n { read_at = some now })
            db.notifications;
    }
    pure found

  -- The rows that a registration reads: of the token, or of the user's device.
  abbrev pub is_existing : RegisterInput → PushToken → Bool
  is_existing r t =
      text_eq t.token r.token
      || (t.user_id == uuid_in r.user_id && t.device_id == uuid_in r.device_id)

  -- The comparisons that the code makes on what it has read.
  abbrev pub is_device_token : RegisterInput → PushToken → Bool
  is_device_token r t =
      text_eq (uuid_out t.user_id) r.user_id && text_eq (uuid_out t.device_id) r.device_id

  abbrev pub is_requested_token : RegisterInput → PushToken → Bool
  is_requested_token r t = text_eq t.token r.token

  abbrev pub new_token : ℕ → RegisterInput → PushToken
  new_token id r = record {
    id = id;
    user_id = uuid_in r.user_id;
    device_id = uuid_in r.device_id;
    token = r.token;
    platform = r.platform;
  }

  -- The open jobs of a token that goes to another device are cancelled, and the token is deleted.
  unfoldable pub drop_token : Option PushToken → ℕ → Notifications Unit
  drop_token none now = pure tt
  drop_token (some t) now = do
    cancel_jobs (λ j. is_job_of t.id j && is_open j.status) now
    delete_token t.id

  -- The user's device gets a new token: jobs that wait take it, jobs that run are cancelled.
  unfoldable pub replace_token : ℕ → RegisterInput → ℕ → Notifications Unit
  replace_token device r now = do
    modify λ db. record db {
      outbox =
          update_where (λ j. is_job_of device j && is_queued j.status)
            (λ j. record j { token_snapshot = r.token }) db.outbox;
    }
    cancel_jobs (λ j. is_job_of device j && is_in_flight j.status) now
    taken ← gets (λ db. any (λ t. not (t.id == device) && is_requested_token r t) db.tokens)
    throw_if taken unique_violation
    modify λ db. record db {
      tokens =
          update_where (λ t. t.id == device)
            (λ t. record t { token = r.token; platform = r.platform }) db.tokens;
    }

  unfoldable pub set_platform : ℕ → RegisterInput → Notifications Unit
  set_platform device r = modify λ db. record db {
    tokens = update_where (λ t. t.id == device) (λ t. record t { platform = r.platform }) db.tokens;
  }

  abbrev pub is_elsewhere : RegisterInput → Option PushToken → Bool
  is_elsewhere r none = false
  is_elsewhere r (some t) = not (text_eq (uuid_out t.device_id) r.device_id)

  -- `id` is the key of a new row.
  unfoldable pub insert_token : ℕ → RegisterInput → Notifications Unit
  insert_token id r = do
    taken ← gets (λ db. any (is_existing r) db.tokens)
    throw_if taken unique_violation
    modify λ db. record db { tokens = db.tokens ++ new_token id r ∷ [] }

  -- What a registration writes, from the row of the user's device and the row of the token.
  unfoldable pub store_token :
      ℕ → ℕ → RegisterInput → Option PushToken → Option PushToken → Notifications Unit
  store_token id now r (some d) requested =
      if text_eq d.token r.token
      then set_platform d.id r
      else (do drop_token requested now; replace_token d.id r now)
  store_token id now r none requested = do drop_token requested now; insert_token id r

  unfoldable pub register_push_token : ℕ → ℕ → RegisterInput → Notifications Unit
  register_push_token id now r = transaction do
    device ← gets (λ db. find? (is_device_token r) (select (is_existing r) db.tokens))
    requested ← gets (λ db. find? (is_requested_token r) (select (is_existing r) db.tokens))
    throw_if (is_elsewhere r requested) push_token_device_conflict
    store_token id now r device requested

  -- The tokens of the device that are the user's.
  abbrev pub is_own : Text → Text → PushToken → Bool
  is_own user_id device_id t =
      t.device_id == uuid_in device_id && text_eq (uuid_out t.user_id) user_id

  abbrev pub belongs : List ℕ → PushJob → Bool
  belongs ids j = any (λ id. is_job_of id j) ids

  unfoldable pub delete_tokens : List ℕ → Notifications Bool
  delete_tokens ids = do
    modify λ db. record db {
      tokens = delete_where (λ t. any (λ id. id == t.id) ids) db.tokens;
      outbox = update_where (belongs ids) (λ j. record j { push_token_id = none }) db.outbox;
    }
    pure true

  unfoldable pub unregister_push_token : ℕ → Text → Text → Notifications Bool
  unregister_push_token now user_id device_id = transaction do
    others ← gets (λ db. any (λ t. t.device_id == uuid_in device_id) db.tokens)
    ids ← gets (λ db. map (λ t. t.id) (select (is_own user_id device_id) db.tokens))
    if length ids == 0
        then pure (not others)
        else do cancel_jobs (λ j. belongs ids j && is_open j.status) now; delete_tokens ids
