-- ===== src/Matching/Boost/Access.antt =====
-- `consumeLikedMeAccess` of src/modules/matching/matching.repository.ts over many requests.
use chattea_be.Prelude.{
  ℕ, ◌≡◌, refl, ◌≤◌, ◌<◌, inl, inr, Bool, true, false, ◌&&◌, none, some, List, [], ◌∷◌, ◌+◌, arith,
  leb, if◌then◌else◌, find?, find?-update_where, find?-snoc, any-of_none, any-of_find?, find?-holds,
  Option-cases, all,
}
use chattea_be.Prelude.Action.{ok, err}
use chattea_be.Matching.Types.{MatchingDb, LikedMeAccess}
use chattea_be.Matching.Boost.{consume_liked_me_access, is_access}

-- A request for the list: who, the window it falls in, and the limit of the user's plan.
pub record AccessRequest : Type 0 where
  pub user_id : ℕ
  pub period_start : ℕ
  pub limit : ℕ

-- What the table holds for one user and window.
abbrev pub viewed : ℕ → ℕ → MatchingDb → ℕ
viewed user period db = elim (find? (is_access user period) db.accesses) [
  | none ↦ 0
  | some a ↦ a.viewed_count
]

abbrev pub is_granted : ℕ → ℕ → AccessRequest → MatchingDb → Bool
is_granted user period r db =
    is_access user period
      (record { user_id = r.user_id; period_start = r.period_start; viewed_count = 0 })
    && (elim (consume_liked_me_access r.user_id r.period_start r.limit db).0 [
      | ok b ↦ b
      | err _ ↦ false
    ])

-- How many of the requests are granted to one user in one window.
pub grants : ℕ → ℕ → List AccessRequest → MatchingDb → ℕ
grants user period [] db = 0
grants user period (r ∷ rs) db =
    (if is_granted user period r db then 1 else 0)
    + grants user period rs (consume_liked_me_access r.user_id r.period_start r.limit db).1

-- One request: the count grows by one exactly when it is granted.
viewed-consume :
    (user period : ℕ) (r : AccessRequest) (db : MatchingDb)
    → viewed user period (consume_liked_me_access r.user_id r.period_start r.limit db).1
      ≡ (if is_granted user period r db then 1 else 0) + viewed user period db
unfolding consume_liked_me_access
viewed-consume user period r db =
    let p = is_access user period in
    let q = is_access r.user_id r.period_start in
    let row : LikedMeAccess = record {
      user_id = r.user_id;
      period_start = r.period_start;
      viewed_count = 1;
    } in
    let grow : LikedMeAccess → LikedMeAccess =
      λ x. record x { viewed_count = 1 + x.viewed_count } in
    elim (Option-cases (find? p db.accesses)) [
      | inl e ↦ elim (Option-cases (find? q db.accesses)) [
        | inl e' ↦ ground (arith, find?-snoc p db.accesses row, any-of_none p db.accesses e)
        | inr (a, e') ↦ ground (
          arith,
          find?-holds q db.accesses a e',
          find?-update_where p q grow (λ x. refl) db.accesses,
        )
      ]
      | inr (b, e) ↦ elim (Option-cases (find? q db.accesses)) [
        | inl e' ↦ ground (
          arith,
          find?-snoc p db.accesses row,
          any-of_find? p db.accesses b e,
          find?-holds p db.accesses b e,
        )
        | inr (a, e') ↦ ground (
          arith,
          find?-holds p db.accesses b e,
          find?-holds q db.accesses a e',
          find?-update_where p q grow (λ x. refl) db.accesses,
        )
      ]
    ]

-- The limits of all requests are within one bound.
abbrev pub AreWithin : ℕ → List AccessRequest → Type 0
AreWithin bound rs = all (λ r. leb r.limit bound) rs ≡ true

grant_is_below :
    (user period bound : ℕ) (r : AccessRequest) (db : MatchingDb)
    → 1 ≤ bound
    → leb r.limit bound ≡ true
    → is_granted user period r db ≡ true
    → viewed user period db < bound
unfolding consume_liked_me_access
grant_is_below user period bound r db positive within h =
    elim (Option-cases (find? (is_access user period) db.accesses)) [
      | inl e ↦ ground arith
      | inr (a, e) ↦ ground arith
    ]

bound_step :
    (granted : Bool) (more before after bound : ℕ)
    → after ≡ (if granted then 1 else 0) + before
    → before ≤ bound
    → (granted ≡ true → before < bound)
    → (after ≤ bound → more + after ≤ bound)
    → ((if granted then 1 else 0) + more) + before ≤ bound
bound_step true more before after bound e h below rest =
    omega (arith, below refl, rest (omega (arith, below refl)))
bound_step false more before after bound e h below rest = omega (arith, rest (omega arith))

-- Whatever users and windows the requests come from, in any order, one user is granted a window
-- no oftener than the largest limit among the requests, counting the views that are stored.
pub grants_are_bounded :
    (user period bound : ℕ) (rs : List AccessRequest) (db : MatchingDb)
    → 1 ≤ bound
    → AreWithin bound rs
    → viewed user period db ≤ bound
    → grants user period rs db + viewed user period db ≤ bound
unfolding grants
grants_are_bounded user period bound [] db positive within h = omega (arith, h)
grants_are_bounded user period bound (r ∷ rs) db positive within h =
    let db' = (consume_liked_me_access r.user_id r.period_start r.limit db).1 in
    bound_step (is_granted user period r db) (grants user period rs db') (viewed user period db)
      (viewed user period db') bound (viewed-consume user period r db) h
      (grant_is_below user period bound r db positive (ground arith))
      (grants_are_bounded user period bound rs db' positive (ground arith))
