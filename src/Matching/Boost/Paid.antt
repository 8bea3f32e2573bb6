-- ===== src/Matching/Boost/Paid.antt =====
-- What the calls of `activateBoost` of src/modules/matching/matching.repository.ts cost.
use mathlib.Core.List.{append-nil, append_assoc}
use chattea_be.Prelude.{
  ℕ, ◌≡◌, refl, sym, ◌∙◌, ◌⊎◌, inl, inr, Bool, true, not, ◌&&◌, none, some, List, [], ◌∷◌, ◌++◌,
  arith, leb, ◌==◌, if◌then◌else◌, any, all, select, length, ◌+◌, Bool-cases,
}
use chattea_be.Prelude.Int.{ℤ, pos, ◌-ℤ◌, ltb_ℤ, int_laws}
use chattea_be.Prelude.Action.{is_ok}
use chattea_be.Billing.Types.{UserBoost}
use chattea_be.Matching.Types.{MatchingDb}
use chattea_be.Matching.Boost.{activate_boost, is_running, new_boost}
use chattea_be.Matching.Boost.Disjoint.{boost_all}

abbrev pub boosts_of : ℕ → MatchingDb → List UserBoost
boosts_of user db = select (λ b. b.user_id == user) db.boosts

-- The boost credits of a user; none without a balance.
abbrev pub credits : ℕ → MatchingDb → ℤ
credits user db = elim (db.balances user) [ none ↦ pos 0 | some b ↦ b.boost_credits ]

abbrev pub lasts_half_an_hour : UserBoost → Bool
lasts_half_an_hour b = b.ends_at == b.starts_at + 1800000

-- The new boosts of a user, and what they cost.
pub record Paid (user : ℕ) (db after : MatchingDb) : Type 0 where
  pub added : List UserBoost
  pub is_added : boosts_of user after ≡ boosts_of user db ++ added
  pub are_whole : all lasts_half_an_hour added ≡ true
  pub are_paid : credits user after ≡ credits user db -ℤ pos (length added)

select-snoc :
    (user : ℕ) (bs : List UserBoost) (b : UserBoost)
    → select (λ x. x.user_id == user) (bs ++ b ∷ []) ≡ (
        if b.user_id == user
        then select (λ x. x.user_id == user) bs ++ b ∷ []
        else select (λ x. x.user_id == user) bs)
unfolding select
select-snoc user [] b = ground arith
select-snoc user (x ∷ bs) b = ground (arith, select-snoc user bs b)

all-append :
    (p : UserBoost → Bool) (bs cs : List UserBoost)
    → all p bs ≡ true
    → all p cs ≡ true
    → all p (bs ++ cs) ≡ true
all-append p [] cs h k = k
all-append p (b ∷ bs) cs h k = ground (arith, all-append p bs cs)

length-append : (bs cs : List UserBoost) → length (bs ++ cs) ≡ length bs + length cs
length-append [] cs = ground arith
length-append (b ∷ bs) cs = ground (arith, length-append bs cs)

same-credits : (x : ℤ) → x ≡ x -ℤ pos 0
same-credits x = omega int_laws

both-costs : (x : ℤ) (a b : ℕ) → x -ℤ pos a -ℤ pos b ≡ x -ℤ pos (a + b)
both-costs x a b = omega int_laws

pub Paid-refl : (user : ℕ) (db : MatchingDb) → Paid user db db
Paid-refl user db = record {
  added = [];
  is_added = sym (append-nil (boosts_of user db));
  are_whole = refl;
  are_paid = same-credits (credits user db);
}

Paid-trans :
    (user : ℕ) (db mid after : MatchingDb)
    → Paid user db mid
    → Paid user mid after
    → Paid user db after
Paid-trans user db mid after f g = record {
  added = f.added ++ g.added;
  is_added =
      g.is_added
      ∙ (λ i. f.is_added i ++ g.added)
      ∙ append_assoc (boosts_of user db) f.added g.added;
  are_whole = all-append lasts_half_an_hour f.added g.added f.are_whole g.are_whole;
  are_paid =
      g.are_paid
      ∙ (λ i. f.are_paid i -ℤ pos (length g.added))
      ∙ both-costs (credits user db) (length f.added) (length g.added)
      ∙ (λ i. credits user db -ℤ pos (sym (length-append f.added g.added) i));
}

-- What one call does: nothing, or a boost that starts now and a credit less.
activate_boost-outcome :
    (caller now user : ℕ) (db : MatchingDb)
    → ((activate_boost caller now db).1 ≡ db)
      ⊎ ((activate_boost caller now db).1.boosts ≡ db.boosts ++ new_boost caller now ∷ [])
        × (credits user (activate_boost caller now db).1
            ≡ (if caller == user then credits user db -ℤ pos 1 else credits user db))
unfolding activate_boost
activate_boost-outcome caller now user db = ground arith

Paid-activate_boost :
    (caller now user : ℕ) (db : MatchingDb) → Paid user db (activate_boost caller now db).1
Paid-activate_boost caller now user db = elim (activate_boost-outcome caller now user db) [
  | inl same ↦ rw (same) (Paid-refl user db)
  | inr (stored, cost) ↦ elim (Bool-cases (caller == user)) [
    | inl e ↦ record {
      added = new_boost caller now ∷ [];
      is_added = ground (arith, select-snoc user db.boosts (new_boost caller now));
      are_whole = ground arith;
      are_paid = cost ∙ rw (e) refl;
    }
    | inr e ↦ record {
      added = [];
      is_added = ground (
        arith,
        select-snoc user db.boosts (new_boost caller now),
        append-nil (boosts_of user db),
      );
      are_whole = refl;
      are_paid = cost ∙ rw (e) (same-credits (credits user db));
    }
  ]
]

Paid-boost_all :
    (calls : List (ℕ × ℕ)) (user : ℕ) (db : MatchingDb) → Paid user db (boost_all calls db)
Paid-boost_all [] user db = Paid-refl user db
Paid-boost_all ((caller, now) ∷ calls) user db =
    let mid = (activate_boost caller now db).1 in
    Paid-trans user db mid (boost_all calls mid) (Paid-activate_boost caller now user db)
      (Paid-boost_all calls user mid)

any-all :
    (user now : ℕ) (bs : List UserBoost)
    → any (is_running user now) bs
      ≡ not (all (λ b. leb b.ends_at now) (select (λ b. b.user_id == user) bs))
unfolding any select
any-all user now [] = refl
any-all user now (b ∷ bs) = ground (arith, any-all user now bs)

succeeds_when :
    (user now : ℕ) (db : MatchingDb)
    → is_ok (activate_boost user now db).0
      ≡ (ltb_ℤ (pos 0) (credits user db) && all (λ b. leb b.ends_at now) (boosts_of user db))
unfolding activate_boost
succeeds_when user now db = ground (arith, any-all user now db.boosts)

-- However often and at whatever times the users activate boosts, refused calls included, the
-- boosts that a user gets each last half an hour, and each has cost the user one credit, and
-- nothing else has; and the next call of the user succeeds exactly when there is a credit left and
-- each boost of the user is over.
pub boosts_cost_credits :
    (calls : List (ℕ × ℕ)) (user now : ℕ) (db : MatchingDb)
    → let after = boost_all calls db in
      Paid user db after
      × (is_ok (activate_boost user now after).0 ≡ (
          ltb_ℤ (pos 0) (credits user after)
          && all (λ b. leb b.ends_at now) (boosts_of user after)))
boosts_cost_credits calls user now db =
    (Paid-boost_all calls user db, succeeds_when user now (boost_all calls db))
