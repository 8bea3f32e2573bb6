-- ===== src/Matching/Repository/Mutual.antt =====
-- The likes behind a match in src/modules/matching/matching.repository.ts.
use chattea_be.Prelude.{
  ℕ, ◌≡◌, refl, ap, ◌≢◌, inl, inr, Bool, true, false, ◌&&◌, List, [], ◌∷◌, ◌++◌, arith, ◌==◌, any,
  all, delete_where, any-snoc, all-snoc, any-delete_where, Bool-cases,
}
use chattea_be.Prelude.Text.{Text, text_lt, text_lt-asymm, text_lt-total}
use chattea_be.Postgres.{UuidText}
use chattea_be.Matching.Types.{Like, Match, MatchingDb}
use chattea_be.Matching.Repository.{is_like, is_match, ordered_matching_pair}
use chattea_be.Matching.Repository.Effects.{with_like, with_match}

module _ (pg : UuidText) where
  open pg use {uuid_in, uuid_out, uuid_in-uuid_out}

  -- The lower id stands first, and each of the two likes the other.
  abbrev pub is_mutual : List Like → Match → Bool
  is_mutual likes m =
      text_lt (uuid_out m.user_low) (uuid_out m.user_high)
      && any (is_like m.user_low m.user_high) likes
      && any (is_like m.user_high m.user_low) likes

  abbrev pub MatchesAreMutual : MatchingDb → Type 0
  MatchesAreMutual db = all (is_mutual db.likes) db.matches ≡ true

  all-is_mutual-snoc :
      (likes : List Like) (l : Like) (ms : List Match)
      → all (is_mutual likes) ms ≡ true
      → all (is_mutual (likes ++ l ∷ [])) ms ≡ true
  all-is_mutual-snoc likes l [] h = refl
  all-is_mutual-snoc likes l (m ∷ ms) h = ground (
    arith,
    any-snoc (is_like m.user_low m.user_high) likes l,
    any-snoc (is_like m.user_high m.user_low) likes l,
    all-is_mutual-snoc likes l ms,
  )

  -- A text is canonical when it is the one that a query returns for its id.
  abbrev pub IsCanonical : Text → Type 0
  IsCanonical t = uuid_out (uuid_in t) ≡ t

  ordered_pair-lt :
      (a b : Text)
      → IsCanonical a
      → IsCanonical b
      → uuid_in a ≢ uuid_in b
      → let pair = ordered_matching_pair pg a b in
        text_lt (uuid_out pair.0) (uuid_out pair.1) ≡ true
  unfolding ordered_matching_pair
  ordered_pair-lt a b ca cb ne = elim (Bool-cases (text_lt a b)) [
    | inl lt ↦ ground (arith, ca, cb)
    | inr ge ↦ ground (arith, ca, cb, text_lt-total a b ge (λ e. ne (ap uuid_in e)))
  ]

  any-delete_other :
      (l h a t : ℕ) (likes : List Like)
      → (l == a && h == t) ≡ false
      → any (is_like l h) (delete_where (is_like a t) likes) ≡ any (is_like l h) likes
  any-delete_other l h a t likes other =
      any-delete_where (is_like l h) (is_like a t) (λ x p. ground arith) likes

  -- Deleting a like that belongs to no match keeps the matches backed.
  pub all-is_mutual-delete :
      (likes : List Like) (a t : ℕ) (ms : List Match)
      → any (is_match (ordered_matching_pair pg (uuid_out a) (uuid_out t))) ms ≡ false
      → all (is_mutual likes) ms ≡ true
      → all (is_mutual (delete_where (is_like a t) likes)) ms ≡ true
  unfolding any ordered_matching_pair
  all-is_mutual-delete likes a t [] none_here h = refl
  all-is_mutual-delete likes a t (m ∷ ms) none_here h = ground (
    arith,
    uuid_in-uuid_out a,
    uuid_in-uuid_out t,
    text_lt-asymm (uuid_out m.user_low) (uuid_out m.user_high),
    any-delete_other m.user_low m.user_high a t likes,
    any-delete_other m.user_high m.user_low a t likes,
    all-is_mutual-delete likes a t ms,
  )

  pub any-with_like :
      (u t now : ℕ) (likes : List Like) → any (is_like u t) (with_like u t now likes) ≡ true
  any-with_like u t now likes =
      ground
        (arith, any-snoc (is_like u t) likes (record { liker = u; liked = t; created_at = now }))

  pub all-is_mutual-with_like :
      (u t now : ℕ) (likes : List Like) (ms : List Match)
      → all (is_mutual likes) ms ≡ true
      → all (is_mutual (with_like u t now likes)) ms ≡ true
  all-is_mutual-with_like u t now likes ms h =
      ground
        (arith, all-is_mutual-snoc likes (record { liker = u; liked = t; created_at = now }) ms h)

  -- The pair is the two users, in one order or the other.
  pub all-is_mutual-with_match :
      (a b : Text) (room : ℕ) (likes : List Like) (ms : List Match)
      → IsCanonical a
      → IsCanonical b
      → uuid_in a ≢ uuid_in b
      → any (is_like (uuid_in a) (uuid_in b)) likes ≡ true
      → all (is_mutual likes) ms ≡ true
      → all
          (is_mutual likes)
          (with_match room (uuid_in a) (uuid_in b) (ordered_matching_pair pg a b) likes ms)
        ≡ true
  unfolding ordered_matching_pair
  all-is_mutual-with_match a b room likes ms ca cb ne own h =
      let pair = ordered_matching_pair pg a b in
      ground (
        arith,
        ordered_pair-lt a b ca cb ne,
        all-snoc (is_mutual likes) ms
            (record { user_low = pair.0; user_high = pair.1; room_id = room }),
      )
