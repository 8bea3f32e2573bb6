-- ===== src/Matching/Repository/Effects.antt =====
-- What a first action that returns writes, table by table.
use chattea_be.Prelude.{
  ◌≢◌, ◌⊎◌, inl, inr, ◌||◌, delete_where, Option-cases, any-of_none, any-of_find?, ℕ, ◌≡◌, refl,
  Bool, true, false, Option, none, some, List, [], ◌∷◌, ◌++◌, arith, if◌then◌else◌, find?, any,
  count,
}
use chattea_be.Prelude.Text.{Text}
use chattea_be.Prelude.Action.{Result, ok, err, is_ok}
use chattea_be.Postgres.{UuidText}
use chattea_be.Matching.Types.{
  ActionKind, skip, like, superlike, Like, Match, MatchAction, MatchingDb, MatchingError, ActInput,
}
use chattea_be.Matching.Repository.{
  is_like, is_match, check_people, spend_super_like, record_like, insert_action,
  match_if_reverse_exists, ordered_matching_pair, is_super, like_candidate, is_like_in, is_reached,
  first_action, act_on_candidate, replay_action, latest, is_live_of, undo_last_action, revert,
  refund_super_like,
}

-- The likes after the user has liked the target.
abbrev pub with_like : ℕ → ℕ → ℕ → List Like → List Like
with_like user target now likes =
    if any (is_like user target) likes
    then likes
    else likes ++ record { liker = user; liked = target; created_at = now } ∷ []

-- The matches after that, given the likes.
abbrev pub with_match : ℕ → ℕ → ℕ → ℕ × ℕ → List Like → List Match → List Match
with_match room user target pair likes matches =
    if any (is_like target user) likes
    then elim (find? (is_match pair) matches) [
      | none ↦ matches ++ record { user_low = pair.0; user_high = pair.1; room_id = room } ∷ []
      | some _ ↦ matches
    ]
    else matches

abbrev pub is_skip : ActionKind → Bool
is_skip skip = true
is_skip like = false
is_skip superlike = false

pub skip-cases : (k : ActionKind) → (k ≡ skip) ⊎ (k ≢ skip)
skip-cases skip = inl refl
skip-cases like = inr (λ e. cc)
skip-cases superlike = inr (λ e. cc)

pub kind-cases : (k : ActionKind) → (k ≡ skip) ⊎ ((k ≡ like) ⊎ (k ≡ superlike))
kind-cases skip = inl refl
kind-cases like = inr (inl refl)
kind-cases superlike = inr (inr refl)

module _ (id room user target : ℕ) (pair : ℕ × ℕ) (input : ActInput) (db : MatchingDb) where
  abbrev pub liked : Result MatchingError (Option ℕ) × MatchingDb
  liked = like_candidate id room user target pair input db

  -- A row that `insert_action` adds.
  abbrev pub new_action : MatchAction
  new_action = record {
    id = id;
    actor = user;
    target = target;
    action = input.action;
    is_reverted = false;
    created_at = input.now;
  }

  pub likes-like_candidate :
      is_ok liked.0 ≡ true → liked.1.likes ≡ with_like user target input.now db.likes
  unfolding like_candidate record_like insert_action match_if_reverse_exists
  likes-like_candidate h = ground arith

  pub matches-like_candidate :
      is_ok liked.0 ≡ true
      → liked.1.matches
        ≡ with_match room user target pair (with_like user target input.now db.likes) db.matches
  unfolding like_candidate record_like insert_action match_if_reverse_exists
  matches-like_candidate h = ground arith

  pub actions-like_candidate :
      is_ok liked.0 ≡ true → liked.1.actions ≡ db.actions ++ new_action ∷ []
  unfolding like_candidate record_like insert_action match_if_reverse_exists
  actions-like_candidate h = ground arith

  pub other_user-like_candidate : is_ok liked.0 ≡ true → user ≢ target
  unfolding like_candidate record_like insert_action match_if_reverse_exists
  other_user-like_candidate h e = ground arith

  pub balances-like_candidate : liked.1.balances ≡ db.balances
  unfolding like_candidate record_like insert_action match_if_reverse_exists
  balances-like_candidate = ground arith

  -- The limit is respected: a new like was below it.
  pub limit-like_candidate :
      is_ok liked.0 ≡ true
      → any (is_like user target) db.likes ≡ false
      → is_reached input.daily_limit
          (count (is_like_in user input.day_start input.day_end) db.likes)
        ≡ false
  unfolding like_candidate record_like
  limit-like_candidate h new = ground arith

pub spend_super_like_keeps :
    (user : ℕ) (db : MatchingDb)
    → let db' = (spend_super_like user db).1 in
      (db'.likes ≡ db.likes) × (db'.matches ≡ db.matches) × (db'.actions ≡ db.actions)
unfolding spend_super_like
spend_super_like_keeps user db = (ground arith, ground arith, ground arith)

pub check_people_keeps : (user target : ℕ) (db : MatchingDb) → (check_people user target db).1 ≡ db
unfolding check_people
check_people_keeps user target db = ground arith

-- A first action that is no skip: what it leaves of the three tables.
module _ (pg : UuidText) (id room : ℕ) (input : ActInput) (db : MatchingDb) where
  open pg use {uuid_in}

  abbrev pub actor : ℕ
  actor = uuid_in input.user_id

  abbrev pub candidate : ℕ
  candidate = uuid_in input.target_user_id

  abbrev pub pair : ℕ × ℕ
  pair = ordered_matching_pair pg input.user_id input.target_user_id

  -- The database that the likes are written to.
  abbrev pub spent : MatchingDb
  spent = if is_super input.action then (spend_super_like actor db).1 else db

  pub first_action-skip :
      is_ok (first_action pg id room input db).0 ≡ true
      → input.action ≡ skip
      → (actor ≢ candidate)
        × ((first_action pg id room input db).1 ≡ record db {
          actions = db.actions ++ new_action id room actor candidate pair input db ∷ [];
        })
  unfolding first_action insert_action
  first_action-skip h e = (
    λ p. ground (arith, check_people_keeps actor candidate db),
    ground (arith, check_people_keeps actor candidate db),
  )

  pub first_action-like :
      is_ok (first_action pg id room input db).0 ≡ true
      → input.action ≢ skip
      → (is_ok (like_candidate id room actor candidate pair input spent).0 ≡ true)
        × ((first_action pg id room input db).1
            ≡ (like_candidate id room actor candidate pair input spent).1)
  unfolding first_action
  first_action-like h ne = (
    ground (arith, check_people_keeps actor candidate db),
    ground (arith, check_people_keeps actor candidate db),
  )

  pub spent_keeps :
      (spent.likes ≡ db.likes) × (spent.matches ≡ db.matches) × (spent.actions ≡ db.actions)
  spent_keeps =
      let k = spend_super_like_keeps actor db in (ground arith, ground arith, ground arith)

module _ (pg : UuidText) where
  open pg use {uuid_in, uuid_out}

  -- What an action leaves is the database as it was, or what a first action left.
  pub act_cases :
      (id room : ℕ) (input : ActInput) (db : MatchingDb)
      → ((act_on_candidate pg id room input db).1 ≡ db)
        ⊎ (is_ok (first_action pg id room input db).0 ≡ true)
          × ((act_on_candidate pg id room input db).1 ≡ (first_action pg id room input db).1)
  unfolding act_on_candidate replay_action
  act_cases id room input db = ground arith

  -- A call that throws is rolled back.
  pub act_on_candidate_rolls_back :
      (id room : ℕ) (input : ActInput) (db : MatchingDb) (e : MatchingError)
      → (act_on_candidate pg id room input db).0 ≡ err e
      → (act_on_candidate pg id room input db).1 ≡ db
  unfolding act_on_candidate
  act_on_candidate_rolls_back id room input db e h = ground arith

  pub latest-holds :
      (p : MatchAction → Bool) (xs : List MatchAction) (a : MatchAction)
      → latest p xs ≡ some a
      → p a ≡ true
  unfolding latest
  latest-holds p [] a h = ground arith
  latest-holds p (x ∷ xs) a h = elim (Option-cases (latest p xs)) [
    | inl e ↦ ground arith
    | inr (b, e) ↦ ground (arith, latest-holds p xs b e)
  ]

  -- Whether an undo of this action is refused.
  abbrev pub is_matched : MatchAction → MatchingDb → Bool
  is_matched a db =
      any (is_match (ordered_matching_pair pg (uuid_out a.actor) (uuid_out a.target))) db.matches

  -- The likes and matches that an undo of one action leaves.
  pub undo_found :
      (user_id : Text) (a : MatchAction) (db : MatchingDb)
      → latest (is_live_of (uuid_in user_id)) db.actions ≡ some a
      → let db' = (undo_last_action pg user_id db).1 in
        (db'.matches ≡ db.matches)
        × (db'.likes ≡ (
            if is_matched a db || is_skip a.action
            then db.likes
            else delete_where (is_like (uuid_in user_id) a.target) db.likes))
  unfolding undo_last_action revert refund_super_like
  undo_found user_id a db h =
      let p = is_match (ordered_matching_pair pg (uuid_out a.actor) (uuid_out a.target)) in
      elim (Option-cases (find? p db.matches)) [
        | inl e ↦
            (ground (arith, any-of_none p db.matches e), ground (arith, any-of_none p db.matches e))
        | inr (m, e) ↦ (
          ground (arith, any-of_find? p db.matches m e),
          ground (arith, any-of_find? p db.matches m e),
        )
      ]

  pub undo_nothing :
      (user_id : Text) (db : MatchingDb)
      → latest (is_live_of (uuid_in user_id)) db.actions ≡ none
      → undo_last_action pg user_id db ≡ (ok none, db)
  unfolding undo_last_action
  undo_nothing user_id db h = ground arith
