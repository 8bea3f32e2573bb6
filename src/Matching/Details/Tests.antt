-- ===== src/Matching/Details/Tests.antt =====
-- The theorem about the shown plan at a concrete user.
use chattea_be.Prelude.{◌≡◌, true, false, none, some, [], ◌∷◌, arith, count}
use chattea_be.Prelude.Text.{codes}
use chattea_be.Matching.Types.{User, MatchingDb}
use chattea_be.Matching.Plans.{current_plan_id}
use chattea_be.Matching.Details.{with_details, shown_plan_is_current}

abbrev pub person : User
person = record {
  id = 1;
  gender = codes "f";
  interested_gender = none;
  profile_completed = true;
  is_hidden = false;
  is_deleted = false;
  created_at = 0;
}

abbrev pub one_plan : MatchingDb
one_plan = record {
  users = person ∷ [];
  blocks = [];
  likes = [];
  actions = [];
  matches = [];
  rooms = [];
  room_members = [];
  balances = λ u. none;
  boosts = [];
  accesses = [];
  subscriptions =
      record {
        user_id = 1;
        plan_id = codes "gold";
        is_active = true;
        current_period_ends_at = some 50;
        created_at = 5;
        updated_at = 6;
      }
      ∷ [];
  photos = [];
}

shown_plan_is_current_example :
    (with_details 2 10 one_plan person).plan_id ≡ current_plan_id 1 10 one_plan
unfolding count
shown_plan_is_current_example = shown_plan_is_current 2 10 one_plan person (omega arith)
