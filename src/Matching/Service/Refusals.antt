-- ===== src/Matching/Service/Refusals.antt =====
-- The errors of `actOnCandidate` of src/modules/matching/matching.service.ts.
use chattea_be.Prelude.{ℕ, ◌≡◌, inl, inr, Bool, Option, arith}
use chattea_be.Prelude.Action.{err, Result-cases}
use chattea_be.Postgres.{UuidText}
use chattea_be.Notification.{NotifyRequest}
use chattea_be.Matching.Types.{MatchingDb, MatchingError}
use chattea_be.Matching.Repository.Effects.{act_on_candidate_rolls_back}
use chattea_be.Matching.Service.{Request, act_in_db, act_input, service_act}
use chattea_be.Matching.Plans.{get_daily_like_limit, current_plan_id}

act_in_db_rolls_back :
    (pg : UuidText) (id room : ℕ) (r : Request) (db : MatchingDb) (e : MatchingError)
    → (act_in_db pg id room r db).0 ≡ err e
    → (act_in_db pg id room r db).1 ≡ db
unfolding act_in_db
act_in_db_rolls_back pg id room r db e h = ground (
  arith,
  act_on_candidate_rolls_back pg id room
      (act_input pg r (get_daily_like_limit (current_plan_id (pg.uuid_in r.user_id) r.clock db))) db
      e,
)

module _ {N : Type 0} (pg : UuidText) (notify : Option (NotifyRequest → N → Bool × N)) where
  -- An action that the service refuses, for whichever reason, leaves the tables and the
  -- notifications as they were.
  pub refused_action_changes_nothing :
      (id room : ℕ) (r : Request) (s : MatchingDb × N) (e : MatchingError)
      → (service_act pg notify id room r s).0 ≡ err e
      → (service_act pg notify id room r s).1 ≡ s
  unfolding service_act
  refused_action_changes_nothing id room r s e h =
      elim (Result-cases (act_in_db pg id room r s.0).0) [
        | inl (a, done) ↦ ground arith
        | inr (x, thrown) ↦ ground (arith, act_in_db_rolls_back pg id room r s.0 x thrown)
      ]
