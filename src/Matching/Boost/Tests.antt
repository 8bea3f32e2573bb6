-- ===== src/Matching/Boost/Tests.antt =====
-- The theorems about boosts and windows at concrete calls.
use chattea_be.Prelude.{ℕ, ◌≡◌, refl, ◌≤◌, ◌+◌, some, List, [], ◌∷◌, arith, find?, leb, all, ◌&&◌}
use chattea_be.Prelude.Int.{pos, ltb_ℤ}
use chattea_be.Matching.Types.{MatchingDb}
use chattea_be.Matching.Boost.Disjoint.{
  BoostsAreDisjoint, disjoint, boost_all, boosts_never_overlap,
}
use chattea_be.Matching.Boost.Paid.{Paid, credits, boosts_of, boosts_cost_credits}
use chattea_be.Matching.Boost.Access.{AccessRequest, grants, viewed, grants_are_bounded}
use chattea_be.Matching.Boost.{activate_boost}
use chattea_be.Prelude.Action.{is_ok}

abbrev pub two_boosts : MatchingDb
two_boosts = record {
  users = [];
  blocks = [];
  likes = [];
  actions = [];
  matches = [];
  rooms = [];
  room_members = [];
  balances = λ u. some (record { super_like_credits = pos 0; boost_credits = pos 2 });
  boosts = [];
  accesses = [];
  subscriptions = [];
  photos = [];
}

abbrev pub calls : List (ℕ × ℕ)
calls = (1, 0) ∷ (1, 60000) ∷ (2, 60000) ∷ (1, 1800000) ∷ []

boosts_never_overlap_example : BoostsAreDisjoint (boost_all calls two_boosts)
unfolding disjoint
boosts_never_overlap_example = boosts_never_overlap calls two_boosts refl

abbrev pub request : AccessRequest
request = record { user_id = 1; period_start = 0; limit = 3 }

grants_are_bounded_example :
    grants 1 0 (request ∷ request ∷ request ∷ request ∷ []) two_boosts + viewed 1 0 two_boosts ≤ 3
unfolding find?
grants_are_bounded_example =
    grants_are_bounded 1 0 3 (request ∷ request ∷ request ∷ request ∷ []) two_boosts (omega arith)
      refl (omega arith)

boosts_cost_credits_example :
    let after = boost_all calls two_boosts in
    Paid 1 two_boosts after
    × (is_ok (activate_boost 1 3600000 after).0
        ≡ (ltb_ℤ (pos 0) (credits 1 after) && all (λ b. leb b.ends_at 3600000) (boosts_of 1 after)))
boosts_cost_credits_example = boosts_cost_credits calls 1 3600000 two_boosts
