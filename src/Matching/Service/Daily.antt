-- ===== src/Matching/Service/Daily.antt =====
-- The daily limit of a plan, through the service.
use chattea_be.Prelude.{ℕ, ◌≡◌, ◌≤◌, ◌⊎◌, inl, inr, Bool, Option, some, count, arith}
use chattea_be.Postgres.{UuidText}
use chattea_be.Notification.{NotifyRequest}
use chattea_be.Matching.Types.{MatchingDb}
use chattea_be.Matching.Repository.{act_on_candidate, is_like_in}
use chattea_be.Matching.Repository.Limits.{daily_limit_holds}
use chattea_be.Matching.Service.{Request, act_in_db, act_input, service_act}
use chattea_be.Matching.Plans.{
  get_daily_like_limit, current_plan_id, start_of_utc_day, next_utc_day,
}

-- The user's likes of the UTC day of the request.
abbrev pub likes_today : UuidText → Request → MatchingDb → ℕ
likes_today pg r db =
    count (is_like_in (pg.uuid_in r.user_id) (start_of_utc_day r.now) (next_utc_day r.now)) db.likes

service_cases :
    {N : Type 0} (pg : UuidText) (notify : Option (NotifyRequest → N → Bool × N)) (id room : ℕ)
    (r : Request) (db : MatchingDb) (n : N)
    → ((service_act pg notify id room r (db, n)).1.0 ≡ db)
      ⊎ ((service_act pg notify id room r (db, n)).1.0
          ≡ (act_on_candidate pg id room
              (act_input pg r
                (get_daily_like_limit (current_plan_id (pg.uuid_in r.user_id) r.clock db)))
              db).1)
unfolding service_act act_in_db
service_cases pg notify id room r db n = ground arith

-- When the plan that the user has at the time has a daily limit, no call of the service takes the
-- user's likes of the UTC day above it.
pub plan_limits_likes :
    {N : Type 0} (pg : UuidText) (notify : Option (NotifyRequest → N → Bool × N))
    (id room limit : ℕ) (r : Request) (db : MatchingDb) (n : N)
    → get_daily_like_limit (current_plan_id (pg.uuid_in r.user_id) r.clock db) ≡ some limit
    → likes_today pg r db ≤ limit
    → likes_today pg r (service_act pg notify id room r (db, n)).1.0 ≤ limit
plan_limits_likes pg notify id room limit r db n plan h =
    elim (service_cases pg notify id room r db n) [
      | inl same ↦ rw same h
      | inr acted ↦ rw acted (
          daily_limit_holds pg id room limit
            (act_input pg r
              (get_daily_like_limit (current_plan_id (pg.uuid_in r.user_id) r.clock db)))
            db plan h)
    ]
