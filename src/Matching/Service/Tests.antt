-- ===== src/Matching/Service/Tests.antt =====
-- The theorems about matching.service.ts at concrete requests.
use chattea_be.Prelude.{
  ℕ, ◌≡◌, ◌≤◌, ◌<◌, ◌+◌, ◌*◌, ◌%◌, refl, Bool, true, false, none, some, List, [], ◌∷◌, ◌++◌, arith,
  count,
}
use chattea_be.Prelude.Text.{Text, codes, text_eq}
use chattea_be.Postgres.{UuidText}
use chattea_be.Notification.{NotifyRequest}
use chattea_be.Uuid.{is_uuid, hex_run}
use chattea_be.Matching.Types.{like, User, MatchingDb, user_id_invalid}
use chattea_be.Matching.Plans.{
  get_daily_like_limit, current_plan_id, find_current_subscription, start_of_utc_day, next_utc_day,
  start_of_liked_me_window, hour_ms, windows_contain_now,
}
use chattea_be.Matching.Service.{Request, check_request, service_act}
use chattea_be.Matching.Service.Refusals.{refused_action_changes_nothing}
use chattea_be.Matching.Service.Daily.{likes_today, plan_limits_likes}

abbrev pub first_code : Text → ℕ
first_code [] = 0
first_code (c ∷ s) = c

abbrev pub one_code : UuidText
one_code = record { uuid_in = first_code; uuid_out = λ n. n ∷ []; uuid_in-uuid_out = λ n. refl }

abbrev pub person : ℕ → User
person n = record {
  id = n;
  gender = codes "f";
  interested_gender = some (codes "everyone");
  profile_completed = true;
  is_hidden = false;
  is_deleted = false;
  created_at = n;
}

abbrev pub people : MatchingDb
people = record {
  users = person 49 ∷ person 50 ∷ [];
  blocks = [];
  likes = [];
  actions = [];
  matches = [];
  rooms = [];
  room_members = [];
  balances = λ u. none;
  boosts = [];
  accesses = [];
  subscriptions = [];
  photos = [];
}

-- The notifications that were sent.
abbrev pub sends : NotifyRequest → List NotifyRequest → Bool × List NotifyRequest
sends r sent = (true, sent ++ r ∷ [])

abbrev pub request : Request
request = record {
  user_id = codes "11111111-1111-1111-8111-111111111111";
  target_user_id = codes "21111111-1111-1111-8111-111111111111";
  action = like;
  now = 100000000;
  clock = 100000000;
}

abbrev pub bad_request : Request
bad_request = record request { target_user_id = codes "2" }

refused_action_changes_nothing_example :
    (service_act one_code (some sends) 1 2 bad_request (people, [])).1 ≡ (people, [])
unfolding service_act check_request is_uuid hex_run text_eq
refused_action_changes_nothing_example =
    refused_action_changes_nothing one_code (some sends) 1 2 bad_request (people, [])
      user_id_invalid refl

plan_limits_likes_example :
    likes_today one_code request (service_act one_code (some sends) 1 2 request (people, [])).1.0
    ≤ 10
unfolding get_daily_like_limit current_plan_id find_current_subscription text_eq count
plan_limits_likes_example =
    plan_limits_likes one_code (some sends) 1 2 10 request people [] refl (omega arith)

windows_contain_now_example :
    (start_of_utc_day 100000000 ≤ 100000000)
    × (100000000 < next_utc_day 100000000)
    × (start_of_liked_me_window 100000000 ≤ 100000000)
    × (100000000 < start_of_liked_me_window 100000000 + 3 * hour_ms)
    × (start_of_liked_me_window 100000000 + 3 * hour_ms ≤ next_utc_day 100000000)
    × (start_of_liked_me_window 100000000 % (3 * hour_ms) ≡ 0)
windows_contain_now_example = windows_contain_now 100000000
