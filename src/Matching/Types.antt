-- ===== src/Matching/Types.antt =====
-- The tables of src/modules/database/schema.ts that src/modules/matching reads and writes. Columns
-- that no query of the module reads are left out; nullable time stamps that are only tested for
-- null are Booleans (`profile_completed`, `is_hidden`, `is_deleted`, `is_reverted`).
use chattea_be.Prelude.{ℕ, Bool, true, false, Option, List}
use chattea_be.Prelude.Int.{ℤ}
use chattea_be.Prelude.Text.{Text}
use chattea_be.Billing.Types.{ConsumableUnits, UserBoost}

pub data ActionKind : Type 0 where
  skip like superlike : ActionKind

abbrev pub same_kind : ActionKind → ActionKind → Bool
same_kind skip skip = true
same_kind like like = true
same_kind superlike superlike = true
same_kind skip like = false
same_kind skip superlike = false
same_kind like skip = false
same_kind like superlike = false
same_kind superlike skip = false
same_kind superlike like = false

pub record User : Type 0 where
  pub id : ℕ
  pub gender : Text
  pub interested_gender : Option Text
  pub profile_completed : Bool
  pub is_hidden : Bool
  pub is_deleted : Bool
  pub created_at : ℕ

pub record Block : Type 0 where
  pub blocker : ℕ
  pub blocked : ℕ

pub record Like : Type 0 where
  pub liker : ℕ
  pub liked : ℕ
  pub created_at : ℕ

pub record MatchAction : Type 0 where
  pub id : ℕ
  pub actor : ℕ
  pub target : ℕ
  pub action : ActionKind
  pub is_reverted : Bool
  pub created_at : ℕ

pub record Match : Type 0 where
  pub user_low : ℕ
  pub user_high : ℕ
  pub room_id : ℕ

pub record RoomMember : Type 0 where
  pub room_id : ℕ
  pub user_id : ℕ

pub record LikedMeAccess : Type 0 where
  pub user_id : ℕ
  pub period_start : ℕ
  pub viewed_count : ℕ

-- The columns of "user_subscriptions" that tell the plan of a user.
pub record PlanSubscription : Type 0 where
  pub user_id : ℕ
  pub plan_id : Text
  pub is_active : Bool
  pub current_period_ends_at : Option ℕ
  pub created_at : ℕ
  pub updated_at : ℕ

-- The columns of "user_profile_photos" that the lists show.
pub record Photo : Type 0 where
  pub user_id : ℕ
  pub url : Text
  pub position : ℕ

pub record MatchingDb : Type 0 where
  pub users : List User
  pub blocks : List Block
  pub likes : List Like
  pub actions : List MatchAction
  pub matches : List Match
  pub rooms : List ℕ
  pub room_members : List RoomMember
  pub balances : ℕ → Option ConsumableUnits
  pub boosts : List UserBoost
  pub accesses : List LikedMeAccess
  pub subscriptions : List PlanSubscription
  pub photos : List Photo

pub data MatchingError : Type 0 where
  match_action_conflict profile_completion_required user_not_found : MatchingError
  candidate_not_available superlike_credits_required like_limit_reached : MatchingError
  undo_not_available_after_match boost_credits_required boost_already_active : MatchingError
  user_id_invalid skip_self_not_allowed like_self_not_allowed : MatchingError
  liked_me_not_available liked_me_limit_reached : MatchingError
  -- what PostgreSQL throws for a like or an action of a user on the same user
  check_violation : MatchingError

pub record ActInput : Type 0 where
  pub user_id : Text
  pub target_user_id : Text
  pub action : ActionKind
  pub daily_limit : Option ℕ
  pub now : ℕ
  pub day_start : ℕ
  pub day_end : ℕ

pub record ActResult : Type 0 where
  pub matched : Bool
  pub room_id : Option ℕ
  pub remaining_super_like_credits : Option ℤ
  pub created : Bool
