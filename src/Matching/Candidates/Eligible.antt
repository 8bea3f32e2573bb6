-- ===== src/Matching/Candidates/Eligible.antt =====
-- The candidates of src/modules/matching/matching.repository.ts and the checks of an action.
use chattea_be.Prelude.{
  ℕ, zero, suc, ◌≡◌, refl, sym, ◌∙◌, inl, inr, Bool, true, false, not, ◌&&◌, ◌||◌, none, some, List,
  [], ◌∷◌, arith, ◌==◌, find?, any, select, take, Bool-cases, Option-cases, find?-holds,
}
use chattea_be.Prelude.Action.{ok}
use chattea_be.Matching.Types.{User, MatchAction, MatchingDb}
use chattea_be.Matching.Repository.{is_user, is_live, is_complete, check_people, latest}
use chattea_be.Matching.Candidates.{insert_by, newest_first, is_visible, is_candidate, candidates}

module _ {A : Type 0} (p : A → Bool) where
  any-take : (n : ℕ) (xs : List A) → any p (take n xs) ≡ true → any p xs ≡ true
  unfolding any
  any-take zero xs h = ground arith
  any-take (suc n) [] h = h
  any-take (suc n) (x ∷ xs) h = ground (arith, any-take n xs)

  any-insert_by :
      (time : A → ℕ) (x : A) (xs : List A) → any p (insert_by time x xs) ≡ (p x || any p xs)
  unfolding any insert_by
  any-insert_by time x [] = refl
  any-insert_by time x (y ∷ ys) = ground (arith, any-insert_by time x ys)

  any-newest_first : (time : A → ℕ) (xs : List A) → any p (newest_first time xs) ≡ any p xs
  unfolding any newest_first
  any-newest_first time [] = refl
  any-newest_first time (x ∷ xs) =
      ground (arith, any-newest_first time xs, any-insert_by time x (newest_first time xs))

  any-select : (q : A → Bool) (xs : List A) → any p (select q xs) ≡ true → any p xs ≡ true
  unfolding any select
  any-select q [] h = h
  any-select q (x ∷ xs) h = ground (arith, any-select q xs)

-- The id is the key of the table of users.
unfoldable pub has_unique_ids : List User → Bool
has_unique_ids [] = true
has_unique_ids (u ∷ us) = not (any (is_user u.id) us) && has_unique_ids us

-- The user of an id is the one that a selection has under it.
find?-select :
    (q : User → Bool) (t : ℕ) (us : List User)
    → has_unique_ids us ≡ true
    → any (is_user t) (select q us) ≡ true
    → (u : User) × (find? (is_user t) us ≡ some u) × (q u ≡ true)
unfolding has_unique_ids any select find?
find?-select q t [] unique h = absurd (ground arith)
find?-select q t (u ∷ us) unique h = elim (Bool-cases (u.id == t)) [
  | inl own ↦ (u, ground arith, ground (arith, any-select (is_user t) q us))
  | inr other ↦
      let (w, found, fits) = find?-select q t us (ground arith) (ground arith) in
      (w, ground arith, fits)
]

latest-none :
    (p : MatchAction → Bool) (xs : List MatchAction) → any p xs ≡ false → latest p xs ≡ none
unfolding any latest
latest-none p [] h = refl
latest-none p (x ∷ xs) h = ground (arith, latest-none p xs)

selected :
    (v : User) (db : MatchingDb) (target : ℕ)
    → any
        (is_user target)
        (take 50 (newest_first (λ u. u.created_at) (select (is_candidate v db) db.users)))
      ≡ true
    → any (is_user target) (select (is_candidate v db) db.users) ≡ true
selected v db target h =
    let rows = select (is_candidate v db) db.users in
    sym (any-newest_first (is_user target) (λ u. u.created_at) rows)
    ∙ any-take (is_user target) 50 (newest_first (λ u. u.created_at) rows) h

-- What a candidate fulfils is what the checks ask.
candidate_checks :
    (viewer target : ℕ) (db : MatchingDb) (v u : User)
    → find? (is_user viewer) db.users ≡ some v
    → find? (is_user target) db.users ≡ some u
    → is_complete (some v) ≡ true
    → v.id ≡ viewer
    → u.id ≡ target
    → is_candidate v db u ≡ true
    → (check_people viewer target db ≡ (ok tt, db))
      × (latest (is_live viewer target) db.actions ≡ none)
unfolding check_people is_candidate is_visible is_complete
candidate_checks viewer target db v u ev eu complete own other fits =
    (ground arith, latest-none (is_live viewer target) db.actions (ground arith))

candidates_of :
    (viewer : ℕ) (db : MatchingDb) (v : User)
    → find? (is_user viewer) db.users ≡ some v
    → candidates viewer db
      ≡ take 50 (newest_first (λ u. u.created_at) (select (is_candidate v db) db.users))
unfolding candidates
candidates_of viewer db v e = ground arith

id_of : (id : ℕ) (u : User) → is_user id u ≡ true → u.id ≡ id
id_of id u h = ground arith

incomplete : ¬ (is_complete none ≡ true)
unfolding is_complete
incomplete h = ground arith

-- When user ids are unique and the viewer's profile is complete, whoever is in the list of
-- candidates passes the checks on the two people, and has no live action of the viewer, so that an
-- action on them is a first one.
pub candidates_can_be_acted_on :
    (viewer target : ℕ) (db : MatchingDb)
    → has_unique_ids db.users ≡ true
    → is_complete (find? (is_user viewer) db.users) ≡ true
    → any (is_user target) (candidates viewer db) ≡ true
    → (check_people viewer target db ≡ (ok tt, db))
      × (latest (is_live viewer target) db.actions ≡ none)
candidates_can_be_acted_on viewer target db unique complete listed =
    elim (Option-cases (find? (is_user viewer) db.users)) [
      | inl e ↦ absurd (incomplete (rw e at complete))
      | inr (v, e) ↦
          let listed' = selected v db target (rw (candidates_of viewer db v e) at listed) in
          let (u, found, fits) = find?-select (is_candidate v db) target db.users unique listed' in
          candidate_checks viewer target db v u e found (rw e at complete)
            (id_of viewer v (find?-holds (is_user viewer) db.users v e))
            (id_of target u (find?-holds (is_user target) db.users u found)) fits
    ]
