-- ===== src/Matching/Repository.antt =====
-- `actOnCandidate` and `undoLastAction` of src/modules/matching/matching.repository.ts. The
-- advisory locks on the user and on the pair make each transaction one step.
pub mod Effects
pub mod Mutual
pub mod Reachable
pub mod Undo
pub mod Limits
mod Tests
use chattea_be.Prelude.{
  ℕ, Bool, true, false, not, ◌&&◌, ◌||◌, Option, none, some, List, [], ◌∷◌, ◌++◌, ltb, leb, ◌==◌,
  if◌then◌else◌, find?, any, count, update_where, delete_where, is_some, get_or,
}
use chattea_be.Prelude.Int.{ℤ, pos, ◌+ℤ◌, ◌-ℤ◌, ltb_ℤ}
use chattea_be.Prelude.Text.{Text, codes, text_eq, text_lt}
use chattea_be.Prelude.Action.{
  Action, pure, throw, gets, transaction, ◌>>=◌, ◌>>◌, modify, throw_if, or_throw,
}
use chattea_be.Postgres.{UuidText}
use chattea_be.Billing.Types.{ConsumableUnits}
use chattea_be.Matching.Types.{
  ActionKind, skip, like, superlike, same_kind, User, Block, Like, MatchAction, Match, RoomMember,
  MatchingDb, MatchingError, match_action_conflict, profile_completion_required, user_not_found,
  candidate_not_available, superlike_credits_required, like_limit_reached,
  undo_not_available_after_match, check_violation, ActInput, ActResult,
}

abbrev pub Matching : Type 0 → Type 0
Matching A = Action MatchingError MatchingDb A

abbrev pub is_live : ℕ → ℕ → MatchAction → Bool
is_live actor target a = a.actor == actor && a.target == target && not a.is_reverted

abbrev pub is_live_of : ℕ → MatchAction → Bool
is_live_of actor a = a.actor == actor && not a.is_reverted

abbrev pub is_like : ℕ → ℕ → Like → Bool
is_like liker liked l = l.liker == liker && l.liked == liked

abbrev pub is_match : ℕ × ℕ → Match → Bool
is_match (low, high) m = m.user_low == low && m.user_high == high

abbrev pub is_user : ℕ → User → Bool
is_user id u = u.id == id

-- A block in either direction.
abbrev pub is_block : ℕ → ℕ → Block → Bool
is_block a b k = (k.blocker == a && k.blocked == b) || (k.blocker == b && k.blocked == a)

-- ORDER BY "createdAt" DESC LIMIT 1: the first of the latest rows.
unfoldable pub latest : (MatchAction → Bool) → List MatchAction → Option MatchAction
latest p [] = none
latest p (a ∷ rest) =
    let later = latest p rest in
    if p a
    then some (elim later [ none ↦ a | some b ↦ if ltb a.created_at b.created_at then b else a ])
    else later

abbrev pub everyone : Text
everyone = codes "everyone"

-- `x.interestedGender === "everyone" || x.interestedGender === y.gender`
unfoldable pub accepts : User → User → Bool
accepts x y = elim x.interested_gender [
  | none ↦ false
  | some g ↦ text_eq g everyone || text_eq g y.gender
]

-- `user?.profileCompletedAt && !user.hiddenAt && !user.deletedAt`
unfoldable pub is_complete : Option User → Bool
is_complete none = false
is_complete (some u) = u.profile_completed && not u.is_hidden && not u.is_deleted

pub credits_of : ℕ → MatchingDb → Option ℤ
credits_of user db = elim (db.balances user) [ none ↦ none | some b ↦ some b.super_like_credits ]

abbrev pub set_balance : ℕ → ConsumableUnits → MatchingDb → MatchingDb
set_balance user b db = record db { balances = λ u. if u == user then some b else db.balances u }

-- The checks on the two people.
unfoldable pub check_people : ℕ → ℕ → Matching Unit
unfolding accepts is_complete
check_people user target = do
  actor ← gets (λ db. find? (is_user user) db.users)
  other ← gets (λ db. find? (is_user target) db.users)
  throw_if (not (is_complete actor)) profile_completion_required
  throw_if (not (is_complete other)) user_not_found
  a ← or_throw actor profile_completion_required
  t ← or_throw other user_not_found
  throw_if (not (accepts a t) || not (accepts t a)) candidate_not_available
  blocked ← gets (λ db. any (is_block user target) db.blocks)
  throw_if blocked candidate_not_available

-- UPDATE … SET credits = credits - 1 WHERE credits > 0
pub spend_super_like : ℕ → Matching Unit
spend_super_like user = do
  row ← gets (λ db. db.balances user)
  b ← or_throw row superlike_credits_required
  throw_if (not (ltb_ℤ (pos 0) b.super_like_credits)) superlike_credits_required
  modify (set_balance user (record b { super_like_credits = b.super_like_credits -ℤ pos 1 }))

abbrev pub is_like_in : ℕ → ℕ → ℕ → Like → Bool
is_like_in user day_start day_end l =
    l.liker == user && leb day_start l.created_at && ltb l.created_at day_end

-- `dailyLimit !== null && count >= dailyLimit`
abbrev pub is_reached : Option ℕ → ℕ → Bool
is_reached none n = false
is_reached (some limit) n = leb limit n

-- The like that a like or a super like leaves, within the daily limit.
pub record_like : ℕ → ℕ → ActInput → Matching Unit
record_like user target input = do
  existing ← gets (λ db. any (is_like user target) db.likes)
  if existing then pure tt else do
    n ← gets (λ db. count (is_like_in user input.day_start input.day_end) db.likes)
    throw_if (is_reached input.daily_limit n) like_limit_reached
    throw_if (user == target) check_violation
    modify λ db. record db {
      likes = db.likes ++ record { liker = user; liked = target; created_at = input.now } ∷ [];
    }

pub insert_action : ℕ → ℕ → ℕ → ActInput → Matching Unit
insert_action id user target input = do
  throw_if (user == target) check_violation
  modify λ db. record db {
    actions =
        db.actions
        ++ record {
          id = id;
          actor = user;
          target = target;
          action = input.action;
          is_reverted = false;
          created_at = input.now;
        }
          ∷ [];
  }

abbrev pub is_super : ActionKind → Bool
is_super superlike = true
is_super like = false
is_super skip = false

-- The match of a pair, and its room, once the other user's like is there. `room` is the key of a
-- new room.
pub match_if_reverse_exists : ℕ → ℕ → ℕ → ℕ × ℕ → Matching (Option ℕ)
match_if_reverse_exists room user target pair = do
  reverse ← gets (λ db. any (is_like target user) db.likes)
  existing ← gets (λ db. find? (is_match pair) db.matches)
  if not reverse then pure none else elim existing [
    | some m ↦ pure (some m.room_id)
    | none ↦ do
      modify λ db. record db {
        rooms = db.rooms ++ room ∷ [];
        room_members =
            db.room_members
            ++ record { room_id = room; user_id = user }
              ∷ record { room_id = room; user_id = target }
              ∷ [];
        matches =
            db.matches ++ record { user_low = pair.0; user_high = pair.1; room_id = room } ∷ [];
      }
      pure (some room)
  ]

-- The writes of a like or a super like, in their order.
pub like_candidate : ℕ → ℕ → ℕ → ℕ → ℕ × ℕ → ActInput → Matching (Option ℕ)
like_candidate id room user target pair input = do
  record_like user target input
  insert_action id user target input
  match_if_reverse_exists room user target pair

-- What a like or a super like answers.
abbrev pub answer : Bool → Option ℕ → Option ℤ → ActResult
answer created room credits = record {
  matched = is_some room;
  room_id = room;
  remaining_super_like_credits = credits;
  created = created;
}

module _ (pg : UuidText) where
  open pg use {uuid_in, uuid_out}

  -- The pair in the order of the two texts, as the database reads them.
  pub ordered_matching_pair : Text → Text → ℕ × ℕ
  ordered_matching_pair a b = if text_lt a b then (uuid_in a, uuid_in b) else (uuid_in b, uuid_in a)

  -- The branch of a pair that has a live action.
  pub replay_action : MatchAction → ActInput → Matching ActResult
  replay_action existing input = do
    throw_if (not (same_kind existing.action input.action)) match_action_conflict
    m ← gets (λ db.
        find? (is_match (ordered_matching_pair input.user_id input.target_user_id)) db.matches)
    credits ← gets (credits_of (uuid_in input.user_id))
    pure (elim input.action [
      | skip ↦ answer false none none
      | like ↦ answer false (elim m [ none ↦ none | some x ↦ some x.room_id ]) none
      | superlike ↦ answer false (elim m [ none ↦ none | some x ↦ some x.room_id ]) credits
    ])

  -- The branch of a pair that has none. `id` is the key of the new action.
  pub first_action : ℕ → ℕ → ActInput → Matching ActResult
  first_action id room input = do
    let user = uuid_in input.user_id
    let target = uuid_in input.target_user_id
    check_people user target
    if is_super input.action then spend_super_like user else pure tt
    elim input.action [
      | skip ↦ (do insert_action id user target input; pure (answer true none none))
      | like ↦ (do
        m ←
            like_candidate id room user target
              (ordered_matching_pair input.user_id input.target_user_id) input
        pure (answer true m none))
      | superlike ↦ (do
        m ←
            like_candidate id room user target
              (ordered_matching_pair input.user_id input.target_user_id) input
        credits ← gets (credits_of user)
        pure (answer true m credits))
    ]

  pub act_on_candidate : ℕ → ℕ → ActInput → Matching ActResult
  act_on_candidate id room input = transaction do
    existing ←
        gets
          λ db. latest (is_live (uuid_in input.user_id) (uuid_in input.target_user_id)) db.actions
    elim existing [ some a ↦ replay_action a input | none ↦ first_action id room input ]

  -- INSERT … ON CONFLICT DO UPDATE of one super like.
  pub refund_super_like : ℕ → Matching Unit
  refund_super_like user = modify λ db.
      set_balance user
        (elim (db.balances user) [
          | none ↦ record { super_like_credits = pos 1; boost_credits = pos 0 }
          | some b ↦ record b { super_like_credits = b.super_like_credits +ℤ pos 1 }
        ])
        db

  pub revert : MatchAction → Matching Unit
  revert action = modify λ db. record db {
    actions =
        update_where (λ a. a.id == action.id) (λ a. record a { is_reverted = true }) db.actions;
  }

  -- The row that was found is live still, so the claim always succeeds.
  pub undo_last_action : Text → Matching (Option MatchAction)
  undo_last_action user_id = transaction do
    let user = uuid_in user_id
    found ← gets (λ db. latest (is_live_of user) db.actions)
    elim found [
      | none ↦ pure none
      | some action ↦ do
        revert action
        m ← gets λ db.
            find?
              (is_match (ordered_matching_pair (uuid_out action.actor) (uuid_out action.target)))
              db.matches
        throw_if (is_some m) undo_not_available_after_match
        elim action.action [
          | skip ↦ pure tt
          | like ↦
              modify
                (λ db. record db { likes = delete_where (is_like user action.target) db.likes })
          | superlike ↦ (do
            modify (λ db. record db { likes = delete_where (is_like user action.target) db.likes })
            refund_super_like user)
        ]
        pure (some (record action { is_reverted = true }))
    ]
