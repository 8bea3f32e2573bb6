-- ===== src/Matching/Candidates/Tests.antt =====
-- The theorem about candidates at concrete users.
use chattea_be.Prelude.{ℕ, ◌≡◌, refl, true, false, none, some, [], ◌∷◌, find?, any, select}
use chattea_be.Prelude.Text.{codes, text_eq}
use chattea_be.Prelude.Action.{ok}
use chattea_be.Matching.Types.{User, MatchingDb}
use chattea_be.Matching.Repository.{check_people, latest, is_live, is_complete, accepts}
use chattea_be.Matching.Candidates.{candidates, is_candidate, is_visible, newest_first, insert_by}
use chattea_be.Matching.Candidates.Eligible.{has_unique_ids, candidates_can_be_acted_on}

abbrev pub person : ℕ → User
person n = record {
  id = n;
  gender = codes "f";
  interested_gender = some (codes "everyone");
  profile_completed = true;
  is_hidden = false;
  is_deleted = false;
  created_at = n;
}

abbrev pub people : MatchingDb
people = record {
  users = person 49 ∷ person 50 ∷ [];
  blocks = [];
  likes = [];
  actions = [];
  matches = [];
  rooms = [];
  room_members = [];
  balances = λ u. none;
  boosts = [];
  accesses = [];
  subscriptions = [];
  photos = [];
}

candidates_can_be_acted_on_example :
    (check_people 49 50 people ≡ (ok tt, people)) × (latest (is_live 49 50) people.actions ≡ none)
unfolding has_unique_ids candidates is_candidate is_visible newest_first insert_by select find? any
    is_complete accepts text_eq
candidates_can_be_acted_on_example = candidates_can_be_acted_on 49 50 people refl refl refl
