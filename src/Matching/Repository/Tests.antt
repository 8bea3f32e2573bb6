-- ===== src/Matching/Repository/Tests.antt =====
-- The theorems about matching.repository.ts at concrete users and actions.
use chattea_be.Prelude.{
  ℕ, ◌≡◌, refl, ◌≤◌, true, false, none, some, [], ◌∷◌, arith, find?, any, count,
}
use chattea_be.Prelude.Int.{pos, ◌-ℤ◌}
use chattea_be.Prelude.Text.{Text, codes, text_eq, text_lt}
use chattea_be.Prelude.Action.{ok}
use chattea_be.Postgres.{UuidText}
use chattea_be.Matching.Types.{like, superlike, User, MatchingDb, ActInput, ActResult, ActionKind}
use chattea_be.Matching.Repository.{
  latest, accepts, is_complete, credits_of, check_people, spend_super_like, record_like,
  insert_action, match_if_reverse_exists, like_candidate, ordered_matching_pair, first_action,
  act_on_candidate, undo_last_action,
}
use chattea_be.Matching.Repository.Mutual.{MatchesAreMutual}
use chattea_be.Matching.Repository.Reachable.{
  reaches_start, reaches_act, reaches_undo, matches_stay_mutual,
}
use chattea_be.Matching.Repository.Limits.{likes_of_day, daily_limit_holds, super_likes_are_paid}
use chattea_be.Matching.Repository.Undo.{stored, undo_takes_back}

abbrev pub first_code : Text → ℕ
first_code [] = 0
first_code (c ∷ s) = c

abbrev pub one_code : UuidText
one_code = record { uuid_in = first_code; uuid_out = λ n. n ∷ []; uuid_in-uuid_out = λ n. refl }

abbrev pub person : ℕ → User
person n = record {
  id = n;
  gender = codes "f";
  interested_gender = some (codes "everyone");
  profile_completed = true;
  is_hidden = false;
  is_deleted = false;
  created_at = n;
}

abbrev pub two_people : MatchingDb
two_people = record {
  users = person 1 ∷ person 2 ∷ [];
  blocks = [];
  likes = [];
  actions = [];
  matches = [];
  rooms = [];
  room_members = [];
  balances = λ u. some (record { super_like_credits = pos 3; boost_credits = pos 0 });
  boosts = [];
  accesses = [];
  subscriptions = [];
  photos = [];
}

abbrev pub act : ℕ → ℕ → ActionKind → ℕ → ActInput
act a b kind now = record {
  user_id = a ∷ [];
  target_user_id = b ∷ [];
  action = kind;
  daily_limit = some 1;
  now = now;
  day_start = 0;
  day_end = 1000;
}

abbrev pub after_like : MatchingDb
after_like = (act_on_candidate one_code 10 20 (act 1 2 like 5) two_people).1

abbrev pub after_match : MatchingDb
after_match = (act_on_candidate one_code 11 21 (act 2 1 superlike 6) after_like).1

abbrev pub after_undo : MatchingDb
after_undo = (undo_last_action one_code (1 ∷ []) after_match).1

matches_stay_mutual_example : MatchesAreMutual one_code after_undo
matches_stay_mutual_example = matches_stay_mutual one_code two_people after_undo refl (
    reaches_undo (1 ∷ []) (
      reaches_act 11 21 (act 2 1 superlike 6) refl refl
        (reaches_act 10 20 (act 1 2 like 5) refl refl reaches_start)))

daily_limit_holds_example : likes_of_day one_code (act 1 2 like 5) after_like ≤ 1
unfolding count
daily_limit_holds_example =
    daily_limit_holds one_code 10 20 1 (act 1 2 like 5) two_people refl (omega arith)

abbrev pub super_like_result : ActResult
super_like_result = record {
  matched = false;
  room_id = none;
  remaining_super_like_credits = some (pos 2);
  created = true;
}

super_like_succeeds :
    (act_on_candidate one_code 10 20 (act 1 2 superlike 5) two_people).0 ≡ ok super_like_result
unfolding act_on_candidate first_action latest check_people accepts is_complete spend_super_like
    like_candidate record_like insert_action match_if_reverse_exists ordered_matching_pair
    credits_of find? any count text_eq text_lt ◌-ℤ◌
super_like_succeeds = refl

super_likes_are_paid_example :
    ((act_on_candidate one_code 10 20 (act 1 2 superlike 5) two_people).1.balances 1
      ≡ some (record { super_like_credits = pos 2; boost_credits = pos 0 }))
    × (false ≡ false)
unfolding ◌-ℤ◌
super_likes_are_paid_example =
    super_likes_are_paid one_code 10 20 1 (act 1 2 superlike 5) two_people super_like_result
      super_like_succeeds

undo_takes_back_example :
    let (undone, db') =
      undo_last_action one_code
        (1 ∷ [])
        (act_on_candidate one_code 10 20 (act 1 2 superlike 5) two_people).1 in
    (undone
      ≡ ok (
          some (record (stored one_code 10 20 (act 1 2 superlike 5) two_people) {
            is_reverted = true;
          })))
    × (db'.likes ≡ [])
    × (db'.matches ≡ [])
unfolding any
undo_takes_back_example =
    undo_takes_back one_code 10 20 (act 1 2 superlike 5) two_people super_like_result
      super_like_succeeds refl refl refl refl refl
