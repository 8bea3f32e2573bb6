-- ===== src/Matching/Boost/Disjoint.antt =====
-- `activateBoost` of src/modules/matching/matching.repository.ts over many calls.
use chattea_be.Prelude.{
  ℕ, ◌≡◌, refl, ◌⊎◌, inl, inr, Bool, true, false, not, ◌&&◌, ◌||◌, List, [], ◌∷◌, ◌++◌, arith, leb,
  ◌==◌, any, all, all-snoc,
}
use chattea_be.Billing.Types.{UserBoost}
use chattea_be.Matching.Types.{MatchingDb}
use chattea_be.Matching.Boost.{activate_boost, is_running, new_boost}

-- Two boosts of one user: the first is over when the second starts.
abbrev pub is_before : UserBoost → UserBoost → Bool
is_before b a = not (a.user_id == b.user_id) || leb a.ends_at b.starts_at

-- Each boost starts after the earlier ones of its user have ended.
unfoldable pub disjoint : List UserBoost → Bool
disjoint [] = true
disjoint (a ∷ bs) = all (λ b. is_before b a) bs && disjoint bs

abbrev pub BoostsAreDisjoint : MatchingDb → Type 0
BoostsAreDisjoint db = disjoint db.boosts ≡ true

disjoint-snoc :
    (bs : List UserBoost) (b : UserBoost)
    → disjoint bs ≡ true
    → all (is_before b) bs ≡ true
    → disjoint (bs ++ b ∷ []) ≡ true
unfolding disjoint
disjoint-snoc [] b h fits = refl
disjoint-snoc (a ∷ bs) b h fits =
    ground (arith, all-snoc (λ c. is_before c a) bs b, disjoint-snoc bs b)

all-is_before :
    (user now : ℕ) (bs : List UserBoost)
    → any (is_running user now) bs ≡ false
    → all (is_before (new_boost user now)) bs ≡ true
unfolding any
all-is_before user now [] h = refl
all-is_before user now (b ∷ bs) h = ground (arith, all-is_before user now bs)

-- What a boost does to the boosts and the balances.
pub activate_boost-cases :
    (user now : ℕ) (db : MatchingDb)
    → ((activate_boost user now db).1 ≡ db)
      ⊎ (any (is_running user now) db.boosts ≡ false)
        × ((activate_boost user now db).1.boosts ≡ db.boosts ++ new_boost user now ∷ [])
unfolding activate_boost
activate_boost-cases user now db = ground arith

-- A call of `activate_boost`: who, and when.
abbrev pub boost_all : List (ℕ × ℕ) → MatchingDb → MatchingDb
boost_all [] db = db
boost_all ((user, now) ∷ calls) db = boost_all calls (activate_boost user now db).1

activate_boost-BoostsAreDisjoint :
    (user now : ℕ) (db : MatchingDb)
    → BoostsAreDisjoint db
    → BoostsAreDisjoint (activate_boost user now db).1
activate_boost-BoostsAreDisjoint user now db v = elim (activate_boost-cases user now db) [
  | inl same ↦ rw same v
  | inr (free, added) ↦
      rw added
        (disjoint-snoc db.boosts (new_boost user now) v (all-is_before user now db.boosts free))
]

-- However often and at whatever times the users activate boosts, refused calls included, two boosts
-- of one user never overlap: the one that was stored later starts when the earlier is over.
pub boosts_never_overlap :
    (calls : List (ℕ × ℕ)) (db : MatchingDb)
    → BoostsAreDisjoint db
    → BoostsAreDisjoint (boost_all calls db)
boosts_never_overlap [] db v = v
boosts_never_overlap ((user, now) ∷ calls) db v =
    boosts_never_overlap calls (activate_boost user now db).1
      (activate_boost-BoostsAreDisjoint user now db v)
