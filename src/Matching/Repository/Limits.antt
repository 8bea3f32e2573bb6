-- ===== src/Matching/Repository/Limits.antt =====
-- What an action costs: the likes of the day and the super like credits.
use chattea_be.Prelude.{
  ℕ, ◌≡◌, refl, ◌≤◌, ◌⊎◌, inl, inr, Bool, true, false, not, ◌&&◌, Option, none, some, List, arith,
  leb, ◌==◌, if◌then◌else◌, any, count, count-snoc, Bool-cases,
}
use chattea_be.Prelude.Int.{pos, ◌-ℤ◌, ltb_ℤ}
use chattea_be.Prelude.Action.{ok, is_ok}
use chattea_be.Postgres.{UuidText}
use chattea_be.Billing.Types.{ConsumableUnits}
use chattea_be.Matching.Types.{Like, MatchingDb, ActInput, ActResult}
use chattea_be.Matching.Repository.{
  is_like, is_like_in, is_super, spend_super_like, ordered_matching_pair, first_action,
  act_on_candidate, replay_action,
}
use chattea_be.Matching.Repository.Effects.{
  with_like, likes-like_candidate, limit-like_candidate, first_action-skip, first_action-like,
  spent, spent_keeps, act_cases, balances-like_candidate, check_people_keeps, skip-cases,
}

-- The likes that the limit of the request counts.
abbrev pub likes_of_day : UuidText → ActInput → MatchingDb → ℕ
likes_of_day pg input db =
    count (is_like_in (pg.uuid_in input.user_id) input.day_start input.day_end) db.likes

count-with_like :
    (user target now day_start day_end limit : ℕ) (likes : List Like)
    → count (is_like_in user day_start day_end) likes ≤ limit
    → (any (is_like user target) likes ≡ false
        → leb limit (count (is_like_in user day_start day_end) likes) ≡ false)
    → count (is_like_in user day_start day_end) (with_like user target now likes) ≤ limit
count-with_like user target now day_start day_end limit likes h free =
    elim (Bool-cases (any (is_like user target) likes)) [
      | inl old ↦ rw old h
      | inr new ↦ ground (
        arith,
        free new,
        count-snoc (is_like_in user day_start day_end) likes
            (record { liker = user; liked = target; created_at = now }),
      )
    ]

-- Under a plan with a daily limit, no action takes the user's likes of the day above it, whether
-- the call succeeds, repeats an action or is refused.
pub daily_limit_holds :
    (pg : UuidText) (id room limit : ℕ) (input : ActInput) (db : MatchingDb)
    → input.daily_limit ≡ some limit
    → likes_of_day pg input db ≤ limit
    → likes_of_day pg input (act_on_candidate pg id room input db).1 ≤ limit
daily_limit_holds pg id room limit input db plan h = elim (act_cases pg id room input db) [
  | inl same ↦ rw same h
  | inr (done, left) ↦ elim (skip-cases input.action) [
    | inl skipped ↦ rw (left, (first_action-skip pg id room input db done skipped).1) h
    | inr other ↦
        let (liked, e) = first_action-like pg id room input db done other in
        let base = spent pg id room input db in
        let user = pg.uuid_in input.user_id in
        let target = pg.uuid_in input.target_user_id in
        let pair = ordered_matching_pair pg input.user_id input.target_user_id in
        let keeps = spent_keeps pg id room input db in
        rw (left, e, likes-like_candidate id room user target pair input base liked)
          (count-with_like user target input.now input.day_start input.day_end limit base.likes
            (rw keeps.0 h)
            (λ new.
              rw plan at (limit-like_candidate id room user target pair input base liked new)))
  ]
]

-- The balance with one super like less.
abbrev pub less_one : Option ConsumableUnits → Option ConsumableUnits
less_one none = none
less_one (some b) = some (record b { super_like_credits = b.super_like_credits -ℤ pos 1 })

abbrev pub has_credit : Option ConsumableUnits → Bool
has_credit none = false
has_credit (some b) = ltb_ℤ (pos 0) b.super_like_credits

-- A super like that is new, and no other action, is paid for.
abbrev pub is_paid : ActInput → ActResult → Bool
is_paid input r = r.created && is_super input.action

module _ (pg : UuidText) (id room : ℕ) (input : ActInput) (db : MatchingDb) where
  -- An action that succeeds was there before, or is a first action.
  act_results :
      (r : ActResult)
      → (act_on_candidate pg id room input db).0 ≡ ok r
      → ((r.created ≡ false) × ((act_on_candidate pg id room input db).1 ≡ db))
        ⊎ ((first_action pg id room input db).0 ≡ ok r)
          × ((act_on_candidate pg id room input db).1 ≡ (first_action pg id room input db).1)
  unfolding act_on_candidate replay_action
  act_results r h = ground arith

  created-first_action :
      (r : ActResult) → (first_action pg id room input db).0 ≡ ok r → r.created ≡ true
  unfolding first_action
  created-first_action r h = ground arith

  pays-first_action :
      is_ok (first_action pg id room input db).0 ≡ true
      → (is_super input.action && not (has_credit (db.balances (pg.uuid_in input.user_id)))) ≡ false
  unfolding first_action spend_super_like
  pays-first_action h =
      ground
        (arith, check_people_keeps (pg.uuid_in input.user_id) (pg.uuid_in input.target_user_id) db)

spent-balances :
    (pg : UuidText) (id room u : ℕ) (input : ActInput) (db : MatchingDb)
    → (is_super input.action && not (has_credit (db.balances (pg.uuid_in input.user_id)))) ≡ false
    → (spent pg id room input db).balances u ≡ (
        if is_super input.action && u == pg.uuid_in input.user_id
        then less_one (db.balances u)
        else db.balances u)
unfolding spend_super_like
spent-balances pg id room u input db h = ground arith

balances-first_action :
    (pg : UuidText) (id room u : ℕ) (input : ActInput) (db : MatchingDb)
    → is_ok (first_action pg id room input db).0 ≡ true
    → (first_action pg id room input db).1.balances u ≡ (
        if is_super input.action && u == pg.uuid_in input.user_id
        then less_one (db.balances u)
        else db.balances u)
balances-first_action pg id room u input db done = elim (skip-cases input.action) [
  | inl skipped ↦ rw ((first_action-skip pg id room input db done skipped).1, skipped) refl
  | inr other ↦
      let (_, e) = first_action-like pg id room input db done other in
      let user = pg.uuid_in input.user_id in
      let target = pg.uuid_in input.target_user_id in
      let pair = ordered_matching_pair pg input.user_id input.target_user_id in
      let base = spent pg id room input db in
      rw (e, balances-like_candidate id room user target pair input base)
        (spent-balances pg id room u input db (pays-first_action pg id room input db done))
]

-- An action that succeeds takes exactly one super like credit from its user when it is a new super
-- like, and there was one to take; otherwise, and for every other user, the balances stay.
pub super_likes_are_paid :
    (pg : UuidText) (id room u : ℕ) (input : ActInput) (db : MatchingDb) (r : ActResult)
    → (act_on_candidate pg id room input db).0 ≡ ok r
    → ((act_on_candidate pg id room input db).1.balances u ≡ (
        if is_paid input r && u == pg.uuid_in input.user_id
        then less_one (db.balances u)
        else db.balances u))
      × ((is_paid input r && not (has_credit (db.balances (pg.uuid_in input.user_id)))) ≡ false)
super_likes_are_paid pg id room u input db r h = elim (act_results pg id room input db r h) [
  | inl (old, same) ↦ (rw (same, old) refl, rw old refl)
  | inr (first, left) ↦
      let created = created-first_action pg id room input db r first in
      let done : is_ok (first_action pg id room input db).0 ≡ true = rw first refl in
      (
        rw (left, created) (balances-first_action pg id room u input db done),
        rw created (pays-first_action pg id room input db done),
      )
]
