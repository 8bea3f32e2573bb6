-- ===== src/Matching/Plans.antt =====
-- The plans and windows of src/modules/matching/matching.service.ts, and `findCurrentSubscription`
-- of src/modules/user/user.repository.ts. The plan ids are those of the catalogue: a plan named
-- like a property that every JavaScript object has is left out.
use chattea_be.Prelude.{
  ℕ, ◌≡◌, ◌≤◌, ◌<◌, ◌+◌, ◌*◌, ◌/◌, ◌%◌, Bool, true, ◌&&◌, Option, none, some, List, [], ◌∷◌, arith,
  ltb, ◌==◌, if◌then◌else◌,
}
use chattea_be.Prelude.Text.{Text, codes, text_eq}
use chattea_be.Matching.Types.{PlanSubscription, MatchingDb}

unfoldable pub get_daily_like_limit : Text → Option ℕ
get_daily_like_limit plan =
    if text_eq plan (codes "free")
    then some 10
    else if text_eq plan (codes "basic")
    then some 20
    else if text_eq plan (codes "gold")
    then some 40
    else if text_eq plan (codes "black")
    then none
    else some 10

pub get_liked_me_limit : Text → Option ℕ
get_liked_me_limit plan =
    if text_eq plan (codes "free")
    then none
    else if text_eq plan (codes "basic")
    then some 3
    else if text_eq plan (codes "gold")
    then some 10
    else if text_eq plan (codes "black")
    then none
    else some 3

abbrev pub hour_ms : ℕ
hour_ms = 3600000

abbrev pub day_ms : ℕ
day_ms = 86400000

-- Days of UTC are 24 hours long, so the start of the day is the last multiple of a day.
abbrev pub start_of_utc_day : ℕ → ℕ
start_of_utc_day now = now / day_ms * day_ms

abbrev pub next_utc_day : ℕ → ℕ
next_utc_day now = now / day_ms * day_ms + 24 * hour_ms

abbrev pub utc_hours : ℕ → ℕ
utc_hours now = now % day_ms / hour_ms

abbrev pub start_of_liked_me_window : ℕ → ℕ
start_of_liked_me_window now = start_of_utc_day now + utc_hours now / 3 * 3 * hour_ms

abbrev pub is_current : ℕ → ℕ → PlanSubscription → Bool
is_current user now s =
    s.user_id == user
    && s.is_active
    && (elim s.current_period_ends_at [ none ↦ true | some t ↦ ltb now t ])

-- ORDER BY "createdAt" DESC, the first
unfoldable pub find_current_subscription : ℕ → ℕ → List PlanSubscription → Option PlanSubscription
find_current_subscription user now [] = none
find_current_subscription user now (s ∷ rest) =
    let later = find_current_subscription user now rest in
    if is_current user now s
    then some (elim later [ none ↦ s | some t ↦ if ltb s.created_at t.created_at then t else s ])
    else later

unfoldable pub current_plan_id : ℕ → ℕ → MatchingDb → Text
current_plan_id user now db = elim (find_current_subscription user now db.subscriptions) [
  | none ↦ codes "free"
  | some s ↦ s.plan_id
]

-- The day and the window of a time contain it; the window lasts three hours, lies in the day, and
-- starts at a multiple of three hours.
pub windows_contain_now :
    (now : ℕ)
    → (start_of_utc_day now ≤ now)
      × (now < next_utc_day now)
      × (start_of_liked_me_window now ≤ now)
      × (now < start_of_liked_me_window now + 3 * hour_ms)
      × (start_of_liked_me_window now + 3 * hour_ms ≤ next_utc_day now)
      × (start_of_liked_me_window now % (3 * hour_ms) ≡ 0)
windows_contain_now now =
    (omega arith, omega arith, omega arith, omega arith, omega arith, omega arith)
