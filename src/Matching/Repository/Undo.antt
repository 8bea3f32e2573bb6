-- ===== src/Matching/Repository/Undo.antt =====
-- `undoLastAction` of src/modules/matching/matching.repository.ts right after an action.
use chattea_be.Prelude.{
  ℕ, ◌≡◌, refl, ◌∙◌, ◌≢◌, inl, inr, Bool, true, false, not, ◌||◌, some, List, [], ◌∷◌, ◌++◌, arith,
  ltb, if◌then◌else◌, any, all, delete_where, any-snoc, find?-none,
}
use chattea_be.Prelude.Action.{ok, is_ok}
use chattea_be.Postgres.{UuidText}
use chattea_be.Matching.Types.{
  ActionKind, skip, like, superlike, Like, MatchAction, MatchingDb, ActInput, ActResult,
}
use chattea_be.Matching.Repository.{
  is_like, is_match, is_live_of, latest, first_action, ordered_matching_pair, replay_action,
  act_on_candidate, undo_last_action, revert, refund_super_like,
}
use chattea_be.Matching.Repository.Effects.{
  likes-like_candidate, matches-like_candidate, actions-like_candidate, first_action-skip,
  first_action-like, spent, spent_keeps, skip-cases, is_matched, is_skip, undo_found,
  other_user-like_candidate,
}

-- A row that is newer than the others is the latest.
latest-snoc :
    (p : MatchAction → Bool) (a : MatchAction) (xs : List MatchAction)
    → p a ≡ true
    → all (λ x. ltb x.created_at a.created_at || not (p x)) xs ≡ true
    → latest p (xs ++ a ∷ []) ≡ some a
unfolding latest
latest-snoc p a [] h newer = ground arith
latest-snoc p a (x ∷ xs) h newer = ground (arith, latest-snoc p a xs)

-- A new row that fits no earlier one goes away with a delete.
delete_where-snoc :
    (p : Like → Bool) (l : Like) (xs : List Like)
    → any p xs ≡ false
    → p l ≡ true
    → delete_where p (xs ++ l ∷ []) ≡ xs
unfolding any delete_where
delete_where-snoc p l [] h e = ground arith
delete_where-snoc p l (x ∷ xs) h e = ground (arith, delete_where-snoc p l xs)

is_skip-other : (k : ActionKind) → k ≢ skip → is_skip k ≡ false
is_skip-other skip ne = absurd (ne refl)
is_skip-other like ne = refl
is_skip-other superlike ne = refl

module _ (pg : UuidText) (id room : ℕ) (input : ActInput) (db : MatchingDb) where
  open pg use {uuid_in, uuid_out, uuid_in-uuid_out}

  abbrev pub user : ℕ
  user = uuid_in input.user_id

  abbrev pub target : ℕ
  target = uuid_in input.target_user_id

  -- The call is the user's newest, by the clock.
  abbrev pub IsNewest : Type 0
  IsNewest = all (λ a. ltb a.created_at input.now || not (is_live_of user a)) db.actions ≡ true

  abbrev pub after : MatchingDb
  after = (act_on_candidate pg id room input db).1

  -- The action that is stored.
  abbrev pub stored : MatchAction
  stored = record {
    id = id;
    actor = user;
    target = target;
    action = input.action;
    is_reverted = false;
    created_at = input.now;
  }

  created_first :
      (r : ActResult)
      → (act_on_candidate pg id room input db).0 ≡ ok r
      → r.created ≡ true
      → (is_ok (first_action pg id room input db).0 ≡ true)
        × (after ≡ (first_action pg id room input db).1)
  unfolding act_on_candidate replay_action
  created_first r h c = (ground arith, ground arith)

  actions-first_action :
      is_ok (first_action pg id room input db).0 ≡ true
      → (first_action pg id room input db).1.actions ≡ db.actions ++ stored ∷ []
  actions-first_action done = elim (skip-cases input.action) [
    | inl skipped ↦ rw ((first_action-skip pg id room input db done skipped).1) refl
    | inr other ↦
        let (liked, e) = first_action-like pg id room input db done other in
        let pair = ordered_matching_pair pg input.user_id input.target_user_id in
        let base = spent pg id room input db in
        rw
          (
            e,
            actions-like_candidate id room user target pair input base liked,
            (spent_keeps pg id room input db).2,
          )
          refl
  ]

  abbrev pub new_like : Like
  new_like = record { liker = user; liked = target; created_at = input.now }

  likes-first_action :
      is_ok (first_action pg id room input db).0 ≡ true
      → any (is_like user target) db.likes ≡ false
      → (first_action pg id room input db).1.likes
        ≡ (if is_skip input.action then db.likes else db.likes ++ new_like ∷ [])
  likes-first_action done new = elim (skip-cases input.action) [
    | inl skipped ↦ rw ((first_action-skip pg id room input db done skipped).1, skipped) refl
    | inr other ↦
        let (liked, e) = first_action-like pg id room input db done other in
        let pair = ordered_matching_pair pg input.user_id input.target_user_id in
        let base = spent pg id room input db in
        rw
          (
            e,
            likes-like_candidate id room user target pair input base liked,
            (spent_keeps pg id room input db).0,
            new,
            is_skip-other input.action other,
          )
          refl
  ]

  matches-first_action :
      is_ok (first_action pg id room input db).0 ≡ true
      → any (is_like user target) db.likes ≡ false
      → any (is_like target user) db.likes ≡ false
      → (first_action pg id room input db).1.matches ≡ db.matches
  matches-first_action done new alone = elim (skip-cases input.action) [
    | inl skipped ↦ rw ((first_action-skip pg id room input db done skipped).1) refl
    | inr other ↦
        let (liked, e) = first_action-like pg id room input db done other in
        let pair = ordered_matching_pair pg input.user_id input.target_user_id in
        let base = spent pg id room input db in
        let apart = other_user-like_candidate id room user target pair input base liked in
        let alone' : any (is_like target user) (db.likes ++ new_like ∷ []) ≡ false =
          ground (arith, any-snoc (is_like target user) db.likes new_like) in
        rw
          (
            e,
            matches-like_candidate id room user target pair input base liked,
            (spent_keeps pg id room input db).0,
            (spent_keeps pg id room input db).1,
            new,
            alone',
          )
          refl
  ]

  -- What an undo answers when it finds a row without a match.
  undo_answer :
      (a : MatchAction) (d : MatchingDb)
      → latest (is_live_of user) d.actions ≡ some a
      → is_matched pg a d ≡ false
      → (undo_last_action pg input.user_id d).0 ≡ ok (some (record a { is_reverted = true }))
  unfolding undo_last_action revert refund_super_like
  undo_answer a d h free = ground (
    arith,
    find?-none (is_match (ordered_matching_pair pg (uuid_out a.actor) (uuid_out a.target)))
        d.matches free,
  )

  restored :
      (skipped : Bool) (likes : List Like)
      → delete_where (is_like user target) (likes ++ new_like ∷ []) ≡ likes
      → (if skipped
          then (if skipped then likes else likes ++ new_like ∷ [])
          else delete_where
              (is_like user target)
              (if skipped then likes else likes ++ new_like ∷ []))
        ≡ likes
  restored true likes h = refl
  restored false likes h = h

  taken_back :
      is_ok (first_action pg id room input db).0 ≡ true
      → after ≡ (first_action pg id room input db).1
      → any (is_like user target) db.likes ≡ false
      → is_matched pg stored after ≡ false
      → (if is_matched pg stored after || is_skip input.action
          then after.likes
          else delete_where (is_like user target) after.likes)
        ≡ db.likes
  taken_back done left unliked free =
      let likes : after.likes
          ≡ (if is_skip input.action then db.likes else db.likes ++ new_like ∷ []) =
        rw left (likes-first_action done unliked) in
      rw (free, likes)
        (restored (is_skip input.action) db.likes
          (delete_where-snoc (is_like user target) new_like db.likes unliked (ground arith)))

  -- An undo right after a new action that made no match, on a user who was not liked before and
  -- does not like the actor, when the action is newer than the actor's other actions, takes the
  -- like back, finds the action that was stored and leaves the matches as they were.
  pub undo_takes_back :
      (r : ActResult)
      → (act_on_candidate pg id room input db).0 ≡ ok r
      → r.created ≡ true
      → IsNewest
      → any (is_like user target) db.likes ≡ false
      → any (is_like target user) db.likes ≡ false
      → is_matched pg stored db ≡ false
      → let (undone, db') = undo_last_action pg input.user_id after in
        (undone ≡ ok (some (record stored { is_reverted = true })))
        × (db'.likes ≡ db.likes)
        × (db'.matches ≡ db.matches)
  undo_takes_back r h c newest unliked alone unmatched =
      let (done, left) = created_first r h c in
      let acts : after.actions ≡ db.actions ++ stored ∷ [] = rw left (actions-first_action done) in
      let found : latest (is_live_of user) after.actions ≡ some stored =
        rw acts (latest-snoc (is_live_of user) stored db.actions (ground arith) newest) in
      let ms : after.matches ≡ db.matches = rw left (matches-first_action done unliked alone) in
      let free : is_matched pg stored after ≡ false = rw ms unmatched in
      let (same, likes) = undo_found pg input.user_id stored after found in
      (undo_answer stored after found free, likes ∙ taken_back done left unliked free, same ∙ ms)
