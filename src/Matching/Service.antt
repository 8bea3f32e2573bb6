-- ===== src/Matching/Service.antt =====
-- `MatchingService` of src/modules/matching/matching.service.ts. The notification service is a
-- parameter: a state of its own, and a call on it that may fail; it may also be missing. `clock` is
-- the time that the query for the plan reads, `now` the time of the request.
pub mod Refusals
pub mod Daily
mod Tests
use chattea_be.Prelude.{
  ℕ, Bool, true, false, not, ◌&&◌, ◌||◌, Option, none, some, List, [], ◌∷◌, ◌++◌, if◌then◌else◌,
  find?, is_some, get_or,
}
use chattea_be.Prelude.Int.{ℤ}
use chattea_be.Prelude.Text.{Text, codes, text_eq}
use chattea_be.Prelude.Action.{Result, ok, err, Action, pure, gets, lift, ◌>>=◌, ◌>>◌, throw_if}
use chattea_be.Postgres.{UuidText}
use chattea_be.Uuid.{is_uuid}
use chattea_be.Notification.{NotificationType, NotifyRequest}
use chattea_be.Matching.Types.{
  ActionKind, skip, like, superlike, MatchAction, User, MatchingDb, MatchingError, user_id_invalid,
  skip_self_not_allowed, like_self_not_allowed, profile_completion_required, liked_me_limit_reached,
  liked_me_not_available, ActInput, ActResult,
}
use chattea_be.Matching.Repository.{
  Matching, is_user, is_complete, act_on_candidate, undo_last_action,
}
use chattea_be.Matching.Boost.{Boosted, activate_boost, consume_liked_me_access}
use chattea_be.Matching.Candidates.{candidates, liked_me_candidates}
use chattea_be.Matching.Plans.{
  get_daily_like_limit, get_liked_me_limit, start_of_utc_day, next_utc_day,
  start_of_liked_me_window, current_plan_id,
}

pub record LikePayload : Type 0 where
  pub matched : Bool
  pub room_id : Option ℕ
  pub undo_available : Bool

pub record UndoPayload : Type 0 where
  pub reverted : Bool
  pub target_user_id : Option ℕ

-- One call of the service: whom it is about, and the two times.
pub record Request : Type 0 where
  pub user_id : Text
  pub target_user_id : Text
  pub action : ActionKind
  pub now : ℕ
  pub clock : ℕ

abbrev pub self_error : ActionKind → MatchingError
self_error skip = skip_self_not_allowed
self_error like = like_self_not_allowed
self_error superlike = like_self_not_allowed

abbrev pub is_skip : ActionKind → Bool
is_skip skip = true
is_skip like = false
is_skip superlike = false

-- What is checked before the database is asked.
pub check_request : Request → Result MatchingError Unit
check_request r =
    if not (is_uuid r.user_id) || not (is_uuid r.target_user_id)
    then err user_id_invalid
    else if text_eq r.user_id r.target_user_id
    then err (self_error r.action)
    else ok tt

pub validate_uuid : Text → Result MatchingError Unit
validate_uuid id = if is_uuid id then ok tt else err user_id_invalid

module _ (pg : UuidText) where
  open pg use {uuid_in, uuid_out}

  pub profile_is_complete : Text → MatchingDb → Bool
  profile_is_complete user_id db = is_complete (find? (is_user (uuid_in user_id)) db.users)

  -- The row of a room, as the route of a notification spells it.
  abbrev pub room_route : Option ℕ → Text
  room_route none = codes "/rooms"
  room_route (some room) = codes "/rooms/" ++ uuid_out room

  abbrev pub match_notification : Text → Option ℕ → NotifyRequest
  match_notification user_id room = record {
    user_id = user_id;
    type = NotificationType.match;
    title = codes "서로 관심이 닿았어요";
    body = codes "이제 대화를 시작할 수 있어요.";
    route = some (room_route room);
    source_id = elim room [ none ↦ none | some x ↦ some (uuid_out x) ];
  }

  abbrev pub like_notification : Text → Text → NotifyRequest
  like_notification user_id target_user_id = record {
    user_id = target_user_id;
    type = NotificationType.like;
    title = codes "새 관심을 받았어요";
    body = codes "나를 좋아한 사람에서 확인해 보세요.";
    route = some (codes "/likes");
    source_id = some user_id;
  }

  -- The calls that `notifyInteraction` makes.
  pub notifications_of : Request → ActResult → List NotifyRequest
  notifications_of r result =
      if result.matched
      then match_notification r.user_id result.room_id
        ∷ match_notification r.target_user_id result.room_id
        ∷ []
      else like_notification r.user_id r.target_user_id ∷ []

  abbrev pub act_input : Request → Option ℕ → ActInput
  act_input r limit = record {
    user_id = r.user_id;
    target_user_id = r.target_user_id;
    action = r.action;
    daily_limit = limit;
    now = r.now;
    day_start = start_of_utc_day r.now;
    day_end = next_utc_day r.now;
  }

  -- What `actOnCandidate` asks of the database, from the check of the profile on.
  pub act_in_db : ℕ → ℕ → Request → Matching ActResult
  act_in_db id room r = do
    complete ← gets (profile_is_complete r.user_id)
    throw_if (not complete) profile_completion_required
    plan ← gets (current_plan_id (uuid_in r.user_id) r.clock)
    act_on_candidate pg id room (act_input r (get_daily_like_limit plan))

  pub undo : Text → Matching UndoPayload
  undo user_id = do
    lift (validate_uuid user_id)
    complete ← gets (profile_is_complete user_id)
    throw_if (not complete) profile_completion_required
    action ← undo_last_action pg user_id
    pure (record {
      reverted = is_some action;
      target_user_id = elim action [ none ↦ none | some a ↦ some a.target ];
    })

  pub boost : Text → ℕ → Matching Boosted
  boost user_id now = do
    lift (validate_uuid user_id)
    complete ← gets (profile_is_complete user_id)
    throw_if (not complete) profile_completion_required
    activate_boost (uuid_in user_id) now

  -- A plan without a limit is not counted.
  pub enforce_liked_me_window : Text → Text → ℕ → Matching Unit
  enforce_liked_me_window user_id plan now = elim (get_liked_me_limit plan) [
    | none ↦ pure tt
    | some limit ↦ do
      granted ← consume_liked_me_access (uuid_in user_id) (start_of_liked_me_window now) limit
      throw_if (not granted) liked_me_limit_reached
  ]

  -- The users that `candidates` shows.
  pub show_candidates : Text → Matching (List User)
  show_candidates user_id = do
    lift (validate_uuid user_id)
    complete ← gets (profile_is_complete user_id)
    throw_if (not complete) profile_completion_required
    gets (candidates (uuid_in user_id))

  -- The users that `likedMeCandidates` shows: none on the free plan.
  pub show_liked_me : Text → ℕ → ℕ → Matching (List User)
  show_liked_me user_id clock now = do
    lift (validate_uuid user_id)
    complete ← gets (profile_is_complete user_id)
    throw_if (not complete) profile_completion_required
    plan ← gets (current_plan_id (uuid_in user_id) clock)
    throw_if (text_eq plan (codes "free")) liked_me_not_available
    enforce_liked_me_window user_id plan now
    gets (liked_me_candidates (uuid_in user_id) (get_or (get_liked_me_limit plan) 50))

module _ {N : Type 0} (pg : UuidText) (notify : Option (NotifyRequest → N → Bool × N)) where
  -- The notifications are started together; what they answer is caught and logged.
  pub send : List NotifyRequest → N → N
  send [] n = n
  send (r ∷ rs) n = send rs (elim notify [ none ↦ n | some call ↦ (call r n).1 ])

  pub service_act : ℕ → ℕ → Request → Action MatchingError (MatchingDb × N) LikePayload
  service_act id room r (db, n) = elim (check_request r) [
    | err e ↦ (err e, (db, n))
    | ok _ ↦
        let (result, db') = act_in_db pg id room r db in
        elim result [
          | err e ↦ (err e, (db', n))
          | ok a ↦ (
            ok (record {
              matched = a.matched;
              room_id = a.room_id;
              undo_available = not a.matched;
            }),
            (
              db',
              if a.created && not (is_skip r.action) then send (notifications_of pg r a) n else n,
            ),
          )
        ]
  ]
