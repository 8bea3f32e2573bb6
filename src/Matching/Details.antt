-- ===== src/Matching/Details.antt =====
-- `withCandidateDetails` of src/modules/matching/matching.repository.ts: what a list shows of a
-- user beside the user's own row.
mod Tests
use chattea_be.Prelude.{
  ℕ, ◌≡◌, ◌≤◌, ◌+◌, refl, ◌⊎◌, inl, inr, Bool, true, false, ◌&&◌, Option, none, some, List, [], ◌∷◌,
  arith, ltb, leb, ◌==◌, if◌then◌else◌, find?, any, count, select, map, Bool-cases, Option-cases,
}
use chattea_be.Prelude.Text.{Text, codes}
use chattea_be.Matching.Types.{User, Photo, PlanSubscription, MatchingDb}
use chattea_be.Matching.Repository.{is_like}
use chattea_be.Matching.Boost.{is_running}
use chattea_be.Matching.Plans.{is_current, find_current_subscription, current_plan_id}

pub record Candidate : Type 0 where
  pub user : User
  pub photos : List Photo
  pub liked_by_me : Bool
  pub plan_id : Text
  pub boost_active : Bool

-- ORDER BY position
pub insert_photo : Photo → List Photo → List Photo
insert_photo p [] = p ∷ []
insert_photo p (q ∷ qs) = if leb p.position q.position then p ∷ q ∷ qs else q ∷ insert_photo p qs

pub by_position : List Photo → List Photo
by_position [] = []
by_position (p ∷ ps) = insert_photo p (by_position ps)

-- The first plan of a user in the order of "updatedAt", the latest first.
pub latest_plan : ℕ → ℕ → List PlanSubscription → Option PlanSubscription
latest_plan user now [] = none
latest_plan user now (s ∷ rest) =
    let later = latest_plan user now rest in
    if is_current user now s
    then some (elim later [ none ↦ s | some t ↦ if ltb s.updated_at t.updated_at then t else s ])
    else later

pub with_details : ℕ → ℕ → MatchingDb → User → Candidate
with_details viewer now db u = record {
  user = u;
  photos = by_position (select (λ p. p.user_id == u.id) db.photos);
  liked_by_me = any (is_like viewer u.id) db.likes;
  plan_id = elim (latest_plan u.id now db.subscriptions) [
    | none ↦ codes "free"
    | some s ↦ s.plan_id
  ];
  boost_active = any (is_running u.id now) db.boosts;
}

pub with_candidate_details : ℕ → ℕ → MatchingDb → List User → List Candidate
with_candidate_details viewer now db users = map (with_details viewer now db) users

no_current :
    (user now : ℕ) (ss : List PlanSubscription)
    → count (is_current user now) ss ≤ 0
    → (latest_plan user now ss ≡ none) × (find_current_subscription user now ss ≡ none)
unfolding latest_plan find_current_subscription count
no_current user now [] h = (refl, refl)
no_current user now (s ∷ ss) h =
    (ground (arith, no_current user now ss), ground (arith, no_current user now ss))

one_current :
    (user now : ℕ) (ss : List PlanSubscription)
    → count (is_current user now) ss ≤ 1
    → latest_plan user now ss ≡ find_current_subscription user now ss
unfolding latest_plan find_current_subscription count
one_current user now [] h = refl
one_current user now (s ∷ ss) h = elim (Bool-cases (is_current user now s)) [
  | inl current ↦ ground (arith, no_current user now ss)
  | inr other ↦ ground (arith, one_current user now ss)
]

-- For a user with at most one subscription that is current, a list shows the plan by which the
-- service limits that user, although the two queries order the subscriptions differently.
pub shown_plan_is_current :
    (viewer now : ℕ) (db : MatchingDb) (u : User)
    → count (is_current u.id now) db.subscriptions ≤ 1
    → (with_details viewer now db u).plan_id ≡ current_plan_id u.id now db
unfolding with_details current_plan_id
shown_plan_is_current viewer now db u h = ground (arith, one_current u.id now db.subscriptions h)
