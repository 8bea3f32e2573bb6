-- ===== src/Matching/Boost.antt =====
-- `activateBoost` and `consumeLikedMeAccess` of src/modules/matching/matching.repository.ts.
pub mod Disjoint
pub mod Paid
pub mod Access
mod Tests
use chattea_be.Prelude.{
  ℕ, Bool, true, false, not, ◌&&◌, Option, none, some, List, [], ◌∷◌, ◌++◌, ◌+◌, ◌*◌, ltb, ◌==◌,
  if◌then◌else◌, find?, any, update_where, is_some,
}
use chattea_be.Prelude.Int.{ℤ, pos, ◌-ℤ◌, ltb_ℤ}
use chattea_be.Prelude.Action.{pure, gets, transaction, ◌>>=◌, ◌>>◌, modify, throw_if, or_throw}
use chattea_be.Billing.Types.{UserBoost}
use chattea_be.Matching.Types.{
  MatchingDb, LikedMeAccess, boost_credits_required, boost_already_active,
}
use chattea_be.Matching.Repository.{Matching, set_balance}

-- What a boost answers: its end and the credits that are left.
pub record Boosted : Type 0 where
  pub ends_at : ℕ
  pub remaining_boost_credits : ℤ

abbrev pub boost_ms : ℕ
boost_ms = 30 * 60 * 1000

-- `eq(userBoosts.userId, userId)` and `gt(userBoosts.endsAt, now)`
abbrev pub is_running : ℕ → ℕ → UserBoost → Bool
is_running user now b = b.user_id == user && ltb now b.ends_at

abbrev pub new_boost : ℕ → ℕ → UserBoost
new_boost user now = record { user_id = user; starts_at = now; ends_at = now + boost_ms }

pub activate_boost : ℕ → ℕ → Matching Boosted
activate_boost user now = transaction do
  row ← gets (λ db. db.balances user)
  b ← or_throw row boost_credits_required
  throw_if (not (ltb_ℤ (pos 0) b.boost_credits)) boost_credits_required
  modify (set_balance user (record b { boost_credits = b.boost_credits -ℤ pos 1 }))
  running ← gets (λ db. any (is_running user now) db.boosts)
  throw_if running boost_already_active
  modify (λ db. record db { boosts = db.boosts ++ new_boost user now ∷ [] })
  pure (record { ends_at = now + boost_ms; remaining_boost_credits = b.boost_credits -ℤ pos 1 })

abbrev pub is_access : ℕ → ℕ → LikedMeAccess → Bool
is_access user period a = a.user_id == user && a.period_start == period

-- INSERT … ON CONFLICT DO UPDATE SET viewed + 1 WHERE viewed < limit: whether a row came back.
pub consume_liked_me_access : ℕ → ℕ → ℕ → Matching Bool
consume_liked_me_access user period limit = do
  row ← gets (λ db. find? (is_access user period) db.accesses)
  elim row [
    | none ↦ do
      modify λ db. record db {
        accesses =
            db.accesses ++ record { user_id = user; period_start = period; viewed_count = 1 } ∷ [];
      }
      pure true
    | some a ↦
        if ltb a.viewed_count limit
        then (do
          modify λ db. record db {
            accesses =
                update_where (is_access user period)
                  (λ x. record x { viewed_count = 1 + x.viewed_count }) db.accesses;
          }
          pure true)
        else pure false
  ]
