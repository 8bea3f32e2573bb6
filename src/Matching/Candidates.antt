-- ===== src/Matching/Candidates.antt =====
-- Whom `candidates` and `likedMeCandidates` of src/modules/matching/matching.repository.ts list.
-- The lists are of users; the details that `withCandidateDetails` adds to each are left out. Users
-- or likes of the same time come in the order of the table.
pub mod Eligible
mod Tests
use chattea_be.Prelude.{
  ℕ, Bool, true, false, not, ◌&&◌, Option, none, some, List, [], ◌∷◌, ltb, ◌==◌, if◌then◌else◌,
  find?, any, select, take,
}
use chattea_be.Prelude.Text.{Text}
use chattea_be.Postgres.{UuidText}
use chattea_be.Matching.Types.{User, Like, MatchingDb}
use chattea_be.Matching.Repository.{is_user, is_block, is_live, is_complete, accepts}

-- ORDER BY a time DESC, by insertion.
module _ {A : Type 0} (time : A → ℕ) where
  unfoldable pub insert_by : A → List A → List A
  insert_by x [] = x ∷ []
  insert_by x (y ∷ ys) = if ltb (time x) (time y) then y ∷ insert_by x ys else x ∷ y ∷ ys

  unfoldable pub newest_first : List A → List A
  newest_first [] = []
  newest_first (x ∷ xs) = insert_by x (newest_first xs)

-- The conditions on a user that a viewer is shown.
unfoldable pub is_visible : ℕ → MatchingDb → User → Bool
is_visible viewer db u =
    not (u.id == viewer)
    && u.profile_completed
    && not u.is_hidden
    && not u.is_deleted
    && not (any (is_block viewer u.id) db.blocks)

unfoldable pub is_candidate : User → MatchingDb → User → Bool
is_candidate viewer db u =
    is_visible viewer.id db u
    && accepts u viewer
    && accepts viewer u
    && not (any (is_live viewer.id u.id) db.actions)

unfoldable pub candidates : ℕ → MatchingDb → List User
candidates viewer db = elim (find? (is_user viewer) db.users) [
  | none ↦ []
  | some v ↦ take 50 (newest_first (λ u. u.created_at) (select (is_candidate v db) db.users))
]

-- INNER JOIN of the likes of the viewer with the users who gave them.
pub likers : ℕ → MatchingDb → List Like → List User
likers viewer db [] = []
likers viewer db (l ∷ ls) =
    let rest = likers viewer db ls in
    elim (find? (is_user l.liker) db.users) [
      | none ↦ rest
      | some u ↦ if l.liked == viewer && is_visible viewer db u then u ∷ rest else rest
    ]

pub liked_me_candidates : ℕ → ℕ → MatchingDb → List User
liked_me_candidates viewer limit db =
    take limit (likers viewer db (newest_first (λ l. l.created_at) db.likes))
