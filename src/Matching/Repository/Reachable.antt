-- ===== src/Matching/Repository/Reachable.antt =====
-- The matches that actions and undos can reach.
use chattea_be.Prelude.{
  ℕ, ◌≡◌, refl, inl, inr, true, false, List, arith, if◌then◌else◌, all, delete_where, ◌||◌,
  Bool-cases, Option-cases,
}
use chattea_be.Prelude.Text.{Text}
use chattea_be.Prelude.Action.{is_ok}
use chattea_be.Postgres.{UuidText}
use chattea_be.Matching.Types.{Like, Match, MatchAction, MatchingDb, ActInput}
use chattea_be.Matching.Repository.{
  is_like, latest, is_live_of, ordered_matching_pair, first_action, act_on_candidate,
  undo_last_action, like_candidate,
}
use chattea_be.Matching.Repository.Effects.{
  with_like, with_match, likes-like_candidate, matches-like_candidate, other_user-like_candidate,
  first_action-skip, first_action-like, spent, spent_keeps, act_cases, undo_found, undo_nothing,
  skip-cases, latest-holds, is_matched, is_skip,
}
use chattea_be.Matching.Repository.Mutual.{
  is_mutual, MatchesAreMutual, IsCanonical, all-is_mutual-delete, all-is_mutual-with_like,
  all-is_mutual-with_match, any-with_like,
}

module _ (pg : UuidText) where
  open pg use {uuid_in, uuid_out, uuid_in-uuid_out}

  MatchesAreMutual-eq :
      (db : MatchingDb) (likes : List Like) (ms : List Match)
      → db.likes ≡ likes
      → db.matches ≡ ms
      → all (is_mutual pg likes) ms ≡ true
      → MatchesAreMutual pg db
  MatchesAreMutual-eq db likes ms el em h = rw (el, em) h

  module _ (id room : ℕ) (input : ActInput) (db : MatchingDb) where
    first_action-MatchesAreMutual :
        IsCanonical pg input.user_id
        → IsCanonical pg input.target_user_id
        → MatchesAreMutual pg db
        → is_ok (first_action pg id room input db).0 ≡ true
        → MatchesAreMutual pg (first_action pg id room input db).1
    first_action-MatchesAreMutual ca cb v h = elim (skip-cases input.action) [
      | inl skipped ↦ rw ((first_action-skip pg id room input db h skipped).1) v
      | inr other ↦
          let (done, left) = first_action-like pg id room input db h other in
          let base = spent pg id room input db in
          let u = uuid_in input.user_id in
          let t = uuid_in input.target_user_id in
          let p = ordered_matching_pair pg input.user_id input.target_user_id in
          let k = spent_keeps pg id room input db in
          rw left (
            MatchesAreMutual-eq (like_candidate id room u t p input base).1
              (with_like u t input.now base.likes)
              (with_match room u t p (with_like u t input.now base.likes) base.matches)
              (likes-like_candidate id room u t p input base done)
              (matches-like_candidate id room u t p input base done)
              (all-is_mutual-with_match pg input.user_id input.target_user_id room
                (with_like u t input.now base.likes) base.matches ca cb
                (other_user-like_candidate id room u t p input base done)
                (any-with_like pg u t input.now base.likes)
                (all-is_mutual-with_like pg u t input.now base.likes base.matches
                  (rw (k.0, k.1) v))))
    ]

    -- An action, new or repeated, keeps the matches backed.
    act_on_candidate-MatchesAreMutual :
        IsCanonical pg input.user_id
        → IsCanonical pg input.target_user_id
        → MatchesAreMutual pg db
        → MatchesAreMutual pg (act_on_candidate pg id room input db).1
    act_on_candidate-MatchesAreMutual ca cb v = elim (act_cases pg id room input db) [
      | inl same ↦ rw same v
      | inr (done, left) ↦ rw left (first_action-MatchesAreMutual ca cb v done)
    ]

  actor_of_live : (user : ℕ) (a : MatchAction) → is_live_of user a ≡ true → a.actor ≡ user
  actor_of_live user a h = ground arith

  undo_likes :
      (user_id : Text) (a : MatchAction) (db : MatchingDb)
      → (undo_last_action pg user_id db).1.likes ≡ (
          if is_matched pg a db || is_skip a.action
          then db.likes
          else delete_where (is_like (uuid_in user_id) a.target) db.likes)
      → is_live_of (uuid_in user_id) a ≡ true
      → (is_matched pg a db || is_skip a.action) ≡ false
      → (undo_last_action pg user_id db).1.likes ≡ delete_where (is_like a.actor a.target) db.likes
  undo_likes user_id a db l own free =
      let who = actor_of_live (uuid_in user_id) a own in rw (l, free, who) refl

  undo_last_action-MatchesAreMutual :
      (user_id : Text) (db : MatchingDb)
      → MatchesAreMutual pg db
      → MatchesAreMutual pg (undo_last_action pg user_id db).1
  undo_last_action-MatchesAreMutual user_id db v =
      elim (Option-cases (latest (is_live_of (uuid_in user_id)) db.actions)) [
        | inl e ↦ rw (undo_nothing pg user_id db e) v
        | inr (a, e) ↦
            let (m, l) = undo_found pg user_id a db e in
            let own = latest-holds pg (is_live_of (uuid_in user_id)) db.actions a e in
            elim (Bool-cases (is_matched pg a db || is_skip a.action)) [
              | inl kept ↦
                  MatchesAreMutual-eq (undo_last_action pg user_id db).1 db.likes db.matches
                    (ground arith) m v
              | inr free ↦
                  MatchesAreMutual-eq (undo_last_action pg user_id db).1
                    (delete_where (is_like a.actor a.target) db.likes) db.matches
                    (undo_likes user_id a db l own free) m
                    (all-is_mutual-delete pg db.likes a.actor a.target db.matches (ground arith) v)
            ]
      ]

  -- What the two operations can make of a database. Every identifier is in the form that the
  -- database prints.
  pub data Reaches (start : MatchingDb) : MatchingDb → Type 0 where
    reaches_start : Reaches start start
    reaches_act :
        {db : MatchingDb} (id room : ℕ) (input : ActInput)
        → IsCanonical pg input.user_id
        → IsCanonical pg input.target_user_id
        → Reaches start db
        → Reaches start (act_on_candidate pg id room input db).1
    reaches_undo :
        {db : MatchingDb} (user_id : Text)
        → Reaches start db
        → Reaches start (undo_last_action pg user_id db).1

  -- From a database where every match stands between two users who like each other, lower id
  -- first, any sequence of actions and undos, refused ones included, leaves every match so, when
  -- the requests spell their ids in the form that the database prints.
  pub matches_stay_mutual :
      (start db : MatchingDb)
      → MatchesAreMutual pg start
      → Reaches start db
      → MatchesAreMutual pg db
  matches_stay_mutual start _ v reaches_start = v
  matches_stay_mutual start _ v (reaches_act {db} id room input ca cb r) =
      act_on_candidate-MatchesAreMutual id room input db ca cb (matches_stay_mutual start db v r)
  matches_stay_mutual start _ v (reaches_undo {db} user_id r) =
      undo_last_action-MatchesAreMutual user_id db (matches_stay_mutual start db v r)
