-- ===== src/Auth/Repository.antt =====
-- src/modules/auth/auth.repository.ts. `now` is the clock in milliseconds, read once for a call; a
-- token comes as its SHA-256 hash. Rows refer to users that exist.
pub mod Single
pub mod Rotation
use chattea_be.Prelude.{
  ℕ, Bool, true, false, not, ◌&&◌, ◌||◌, Option, none, some, List, [], ◌∷◌, ◌++◌, ltb, ◌==◌,
  if◌then◌else◌, find?, any, update_where, delete_where, is_some,
}
use chattea_be.Prelude.Text.{Text, codes, text_eq}
use chattea_be.Prelude.Action.{
  Action, pure, gets, transaction, ◌>>=◌, ◌>>◌, modify, throw_if, or_throw,
}
use chattea_be.Auth.Types.{
  User, RefreshToken, AuthIdentity, SingleUse, PhoneGrant, KakaoGrant, AuthDb, AuthError,
  phone_token_consume_failed, kakao_token_consume_failed, unique_violation,
}
use chattea_be.Auth.Input.{before_at}

abbrev pub Auth : Type 0 → Type 0
Auth A = Action AuthError AuthDb A

-- A token that can be used: of the hash, not used, not expired.
abbrev pub is_usable : {A : Type 0} → Text → ℕ → SingleUse A → Bool
is_usable hash now t = text_eq t.token_hash hash && not (is_some t.used_at) && ltb now t.expires_at

abbrev pub use_up : {A : Type 0} → ℕ → SingleUse A → SingleUse A
use_up now t = record t { used_at = some now }

unfoldable pub consume_phone_token : Text → ℕ → Auth (Option (SingleUse PhoneGrant))
consume_phone_token hash now = do
  found ← gets (λ db. find? (is_usable hash now) db.phone_tokens)
  modify λ db. record db {
    phone_tokens = update_where (is_usable hash now) (use_up now) db.phone_tokens;
  }
  pure found

unfoldable pub consume_kakao_token : Text → ℕ → Auth (Option (SingleUse KakaoGrant))
consume_kakao_token hash now = do
  found ← gets (λ db. find? (is_usable hash now) db.kakao_tokens)
  modify λ db. record db {
    kakao_tokens = update_where (is_usable hash now) (use_up now) db.kakao_tokens;
  }
  pure found

abbrev pub find_phone_token : Text → ℕ → Auth (Option (SingleUse PhoneGrant))
find_phone_token hash now = gets (λ db. find? (is_usable hash now) db.phone_tokens)

abbrev pub find_kakao_token : Text → ℕ → Auth (Option (SingleUse KakaoGrant))
find_kakao_token hash now = gets (λ db. find? (is_usable hash now) db.kakao_tokens)

abbrev pub is_user : ℕ → User → Bool
is_user id u = u.user_id == id

abbrev pub has_phone : Text → User → Bool
has_phone phone u = elim u.phone [ none ↦ false | some p ↦ text_eq p phone ]

-- The unique columns of a user: id, e-mail and phone.
abbrev pub clashes : User → User → Bool
clashes new u =
    u.user_id == new.user_id
    || text_eq u.email new.email
    || elim new.phone [ none ↦ false | some p ↦ has_phone p u ]

pub record NewUser : Type 0 where
  pub user_id : ℕ
  pub email : Text
  pub password : Text
  pub user_name : Text
  pub gender : Text

abbrev pub new_user : NewUser → Option Text → User
new_user input phone = record {
  user_id = input.user_id;
  email = input.email;
  phone = phone;
  password = input.password;
  user_name = input.user_name;
  gender = input.gender;
  hidden_at = none;
  deletion_scheduled_at = none;
  deletion_lease_expires_at = none;
  deletion_attempts = 0;
  deleted_at = none;
}

unfoldable pub insert_user : User → Auth User
insert_user u = do
  taken ← gets (λ db. any (clashes u) db.users)
  throw_if taken unique_violation
  modify (λ db. record db { users = db.users ++ u ∷ [] })
  pure u

abbrev pub is_identity : Text → Text → AuthIdentity → Bool
is_identity provider provider_user_id i =
    text_eq i.provider provider && text_eq i.provider_user_id provider_user_id

unfoldable pub insert_identity : ℕ → Text → Auth Unit
insert_identity user_id provider_user_id = do
  taken ← gets (λ db. any (is_identity (codes "kakao") provider_user_id) db.identities)
  throw_if taken unique_violation
  modify λ db. record db {
    identities =
        db.identities
        ++ record {
          user_id = user_id;
          provider = codes "kakao";
          provider_user_id = provider_user_id;
        }
          ∷ [];
  }

unfoldable pub signup_with_phone_verification_token : NewUser → Text → ℕ → Auth (Option User)
signup_with_phone_verification_token input hash now = transaction do
  token ← consume_phone_token hash now
  elim token [
    | none ↦ pure none
    | some t ↦ do user ← insert_user (new_user input (some t.grant.phone_e164)); pure (some user)
  ]

abbrev pub signin : Text → Auth (Option User)
signin email = gets (λ db. find? (λ u. text_eq u.email email) db.users)

abbrev pub is_of_device : ℕ → Text → RefreshToken → Bool
is_of_device user_id device_id r = r.user_id == user_id && text_eq r.device_id device_id

-- INSERT … ON CONFLICT DO UPDATE
unfoldable pub save_refresh_token : RefreshToken → Auth Unit
save_refresh_token input = do
  saved ← gets (λ db. any (is_of_device input.user_id input.device_id) db.refresh_tokens)
  modify λ db. record db {
    refresh_tokens =
        if saved
        then update_where (is_of_device input.user_id input.device_id)
            (λ r. record r {
              refresh_token = input.refresh_token;
              refresh_token_exp = input.refresh_token_exp;
            })
            db.refresh_tokens
        else db.refresh_tokens ++ input ∷ [];
  }

-- The row that a rotation replaces: of the device, with the expected token, not expired.
abbrev pub is_current : RefreshToken → Text → ℕ → RefreshToken → Bool
is_current next expected now r =
    is_of_device next.user_id next.device_id r
    && text_eq r.refresh_token expected
    && ltb now r.refresh_token_exp

unfoldable pub rotate_refresh_token : RefreshToken → Text → ℕ → Auth Bool
rotate_refresh_token next expected now = transaction do
  user ← gets (λ db. any (is_user next.user_id) db.users)
  if not user then pure false else do
    rotated ← gets (λ db. any (is_current next expected now) db.refresh_tokens)
    modify λ db. record db {
      refresh_tokens =
          update_where (is_current next expected now)
            (λ r. record r {
              refresh_token = next.refresh_token;
              refresh_token_exp = next.refresh_token_exp;
            })
            db.refresh_tokens;
    }
    pure rotated

abbrev pub find_refresh_token : ℕ → Text → Auth (Option RefreshToken)
find_refresh_token user_id device_id =
    gets (λ db. find? (is_of_device user_id device_id) db.refresh_tokens)

unfoldable pub delete_refresh_token : ℕ → Text → Auth Unit
delete_refresh_token user_id device_id = modify λ db. record db {
  refresh_tokens = delete_where (is_of_device user_id device_id) db.refresh_tokens;
}

abbrev pub find_user : ℕ → Auth (Option User)
find_user id = gets (λ db. find? (is_user id) db.users)

unfoldable pub find_user_by_identity : Text → Text → Auth (Option User)
find_user_by_identity provider provider_user_id = do
  identity ← gets (λ db. find? (is_identity provider provider_user_id) db.identities)
  elim identity [ none ↦ pure none | some i ↦ find_user i.user_id ]

-- `restoreScheduledDeletion` of src/modules/user/user.repository.ts
abbrev pub is_in_grace : ℕ → ℕ → User → Bool
is_in_grace id now u =
    is_user id u
    && elim u.deletion_scheduled_at [ none ↦ false | some t ↦ ltb now t ]
    && not (is_some u.deleted_at)

unfoldable pub restore_scheduled_deletion : ℕ → ℕ → Auth Bool
restore_scheduled_deletion id now = do
  found ← gets (λ db. any (is_in_grace id now) db.users)
  modify λ db. record db {
    users =
        update_where (is_in_grace id now)
          (λ u. record u {
            hidden_at = none;
            deletion_scheduled_at = none;
            deletion_lease_expires_at = none;
            deletion_attempts = 0;
          })
          db.users;
  }
  pure found
