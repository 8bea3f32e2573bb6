-- ===== src/Auth/Repository/Rotation.antt =====
-- Refresh tokens in src/modules/auth/auth.repository.ts: how often a stored token can be rotated.
use chattea_be.Prelude.{
  ℕ, ◌≡◌, ◌≤◌, ◌+◌, Bool, true, false, not, ◌&&◌, List, [], ◌∷◌, arith, ◌==◌, if◌then◌else◌, any,
  all, count, update_where, delete_where, count-snoc,
}
use chattea_be.Prelude.Text.{Text, text_eq, text_eq_iff}
use chattea_be.Prelude.Action.{Result, ok, err}
use chattea_be.Auth.Types.{RefreshToken, AuthDb, AuthError}
use chattea_be.Auth.Repository.{
  is_of_device, save_refresh_token, is_current, rotate_refresh_token, delete_refresh_token,
}

-- A login that stores a token, a rotation of an expected token, or a logout.
pub data Event : Type 0 where
  login : RefreshToken → Event
  rotation : RefreshToken → Text → ℕ → Event
  leave : ℕ → Text → Event

-- The rows of a device that hold a token.
abbrev pub holds : ℕ → Text → Text → RefreshToken → Bool
holds user device token r = is_of_device user device r && text_eq r.refresh_token token

-- The event does not store the token.
abbrev pub stores_other : Text → Event → Bool
stores_other token (login row) = not (text_eq row.refresh_token token)
stores_other token (rotation next expected now) = not (text_eq next.refresh_token token)
stores_other token (leave user device) = true

abbrev pub is_true : Result AuthError Bool → Bool
is_true (ok b) = b
is_true (err e) = false

-- Whether an event rotates the token of the device.
abbrev pub rotates : ℕ → Text → Text → Event → AuthDb → Bool
rotates user device token (login row) db = false
rotates user device token (rotation next expected now) db =
    next.user_id == user
    && text_eq next.device_id device
    && text_eq expected token
    && is_true (rotate_refresh_token next expected now db).0
rotates user device token (leave u d) db = false

abbrev pub run : Event → AuthDb → AuthDb
run (login row) db = (save_refresh_token row db).1
run (rotation next expected now) db = (rotate_refresh_token next expected now db).1
run (leave u d) db = (delete_refresh_token u d db).1

abbrev pub rotations : ℕ → Text → Text → List Event → AuthDb → ℕ
rotations user device token [] db = 0
rotations user device token (e ∷ es) db =
    (if rotates user device token e db then 1 else 0) + rotations user device token es (run e db)

module _ (user : ℕ) (device token : Text) where
  rotation_takes :
      (next : RefreshToken) (expected : Text) (now : ℕ)
      → text_eq next.refresh_token token ≡ false
      → (rs : List RefreshToken)
      → (if next.user_id == user
              && text_eq next.device_id device
              && text_eq expected token
              && any (is_current next expected now) rs
            then 1
            else 0)
          + count (holds user device token) (
              update_where
                (is_current next expected now)
                (λ r. record r {
                  refresh_token = next.refresh_token;
                  refresh_token_exp = next.refresh_token_exp;
                })
                rs)
        ≤ count (holds user device token) rs
  unfolding any count update_where
  rotation_takes next expected now other [] = ground arith
  rotation_takes next expected now other (r ∷ rs) = ground (
    arith,
    rotation_takes next expected now other rs,
    text_eq_iff r.device_id next.device_id,
    text_eq_iff next.device_id device,
    text_eq_iff r.device_id device,
    text_eq_iff r.refresh_token expected,
    text_eq_iff expected token,
    text_eq_iff r.refresh_token token,
  )

  login_adds_none :
      (row : RefreshToken)
      → text_eq row.refresh_token token ≡ false
      → (rs : List RefreshToken)
      → count (holds user device token) (
          update_where
            (is_of_device row.user_id row.device_id)
            (λ r. record r {
              refresh_token = row.refresh_token;
              refresh_token_exp = row.refresh_token_exp;
            })
            rs)
        ≤ count (holds user device token) rs
  unfolding count update_where
  login_adds_none row other [] = ground arith
  login_adds_none row other (r ∷ rs) = ground (arith, login_adds_none row other rs)

  leave_adds_none :
      (u : ℕ) (d : Text) (rs : List RefreshToken)
      → count (holds user device token) (delete_where (is_of_device u d) rs)
        ≤ count (holds user device token) rs
  unfolding count delete_where
  leave_adds_none u d [] = ground arith
  leave_adds_none u d (r ∷ rs) = ground (arith, leave_adds_none u d rs)

  event_step :
      (e : Event) (db : AuthDb)
      → stores_other token e ≡ true
      → (if rotates user device token e db then 1 else 0)
          + count (holds user device token) (run e db).refresh_tokens
        ≤ count (holds user device token) db.refresh_tokens
  unfolding save_refresh_token rotate_refresh_token delete_refresh_token
  event_step (login row) db other = ground (
    arith,
    login_adds_none row (ground arith) db.refresh_tokens,
    count-snoc (holds user device token) db.refresh_tokens row,
  )
  event_step (rotation next expected now) db other =
      ground (arith, rotation_takes next expected now (ground arith) db.refresh_tokens)
  event_step (leave u d) db other = ground (arith, leave_adds_none u d db.refresh_tokens)

  rotations_are_held :
      (es : List Event) (db : AuthDb)
      → all (stores_other token) es ≡ true
      → rotations user device token es db ≤ count (holds user device token) db.refresh_tokens
  rotations_are_held [] db other = omega arith
  rotations_are_held (e ∷ es) db other =
      omega (arith, event_step e db (ground arith), rotations_are_held es (run e db) (ground arith))

  held_once :
      (rs : List RefreshToken)
      → count (holds user device token) rs ≤ count (is_of_device user device) rs
  unfolding count
  held_once [] = omega arith
  held_once (r ∷ rs) = ground (arith, held_once rs)

  -- Of all the requests that present one refresh token of a device, whatever logins, rotations and
  -- logouts come between them, at most one is answered with a new token, when a device has one row
  -- and no event stores the presented hash again.
  pub refresh_token_rotates_once :
      (es : List Event) (db : AuthDb)
      → all (stores_other token) es ≡ true
      → count (is_of_device user device) db.refresh_tokens ≤ 1
      → rotations user device token es db ≤ 1
  refresh_token_rotates_once es db other one =
      omega (arith, one, held_once db.refresh_tokens, rotations_are_held es db other)
