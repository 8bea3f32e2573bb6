-- ===== src/Auth/Kakao.antt =====
-- Kakao in src/modules/auth/auth.service.ts: `loginWithKakao`, `loginWithKakaoAccessToken` and
-- `completeKakaoPhoneSignup`. What Kakao answers for an access token is an argument.
pub mod Uses
pub mod Completed
use chattea_be.Prelude.{
  ℕ, Bool, true, false, not, ◌&&◌, ◌||◌, Option, none, some, List, [], ◌∷◌, ◌++◌, ◌+◌, ◌*◌, ltb,
  leb, ◌==◌, if◌then◌else◌, find?, take, is_some,
}
use chattea_be.Prelude.Text.{Text, codes, text_eq, trim}
use chattea_be.Prelude.Action.{
  Result, ok, err, Action, pure, throw, gets, ◌>>=◌, ◌>>◌, throw_if, or_throw,
}
use chattea_be.Auth.Types.{
  User, RefreshToken, SingleUse, PhoneGrant, KakaoGrant, AuthDb, AuthError,
  phone_token_consume_failed, kakao_token_consume_failed, unique_violation, terms_not_accepted,
  invalid_email, invalid_user_name, invalid_password, invalid_phone_token, invalid_kakao_token,
  invalid_gender, phone_verification_required, duplicate_user, auth_required, refresh_exp_undefined,
  invalid_user_id,
}
use chattea_be.Auth.Input.{
  is_valid_password, normalize_email, normalize_optional_email, normalize_user_name,
  normalize_signin_email,
}
use chattea_be.Auth.Repository.{
  Auth, NewUser, find_phone_token, find_kakao_token, consume_phone_token,
  signup_with_phone_verification_token, signin, save_refresh_token, rotate_refresh_token,
  find_refresh_token, delete_refresh_token, find_user, find_user_by_identity,
  restore_scheduled_deletion,
}
use chattea_be.Auth.KakaoRepository.{
  create_kakao_token, attach_phone_with_tokens, consume_kakao_token_for_user,
  create_kakao_user_with_token, create_kakao_phone_user_with_tokens,
}
use chattea_be.Phone.Service.{Hashing}
use chattea_be.Auth.Service.{
  Signing, Session, map_error, is_unique_violation, is_empty, duplicate_user_error,
  prepare_refresh_token, issue_tokens, require_phone_token,
}

pub record KakaoProfile : Type 0 where
  pub provider_user_id : Text
  pub email : Option Text
  pub user_name : Option Text

pub record KakaoSignupInput : Type 0 where
  pub phone_verification_token : Option Text
  pub kakao_token : Text
  pub user_name : Text
  pub gender : Text
  pub terms_accepted : Bool

pub data KakaoLogin : Type 0 where
  logged_in : Session → KakaoLogin
  requires_phone : Text → Option Text → KakaoLogin

abbrev pub token_consume_error : AuthError → AuthError
token_consume_error phone_token_consume_failed = invalid_phone_token
token_consume_error kakao_token_consume_failed = invalid_kakao_token
token_consume_error e = e

-- `a || b`
abbrev pub or_else : Option Text → Option Text → Option Text
or_else a b = if is_empty a then b else a

module _ (hashing : Hashing) (jwt : Signing) where
  open hashing use {hash, compare, sha256}
  open jwt use {sign_access, sign_refresh, sign_kakao, expiry, random_uuid, shows_code}

  unfoldable pub issue_kakao_token : ℕ → KakaoProfile → Option ℕ → Auth Text
  issue_kakao_token now profile user_id = do
    create_kakao_token (record {
      token_hash = sha256 (sign_kakao now profile.provider_user_id);
      grant = record {
        user_id = user_id;
        provider_user_id = profile.provider_user_id;
        email = normalize_optional_email profile.email;
      };
      expires_at = now + 15 * 60 * 1000;
      used_at = none;
    })
    pure (sign_kakao now profile.provider_user_id)

  abbrev pub id_of : Option User → Option ℕ
  id_of none = none
  id_of (some u) = some u.user_id

  pub login_with_kakao : ℕ → KakaoProfile → Auth Text
  login_with_kakao now profile = do
    found ← find_user_by_identity (codes "kakao") profile.provider_user_id
    issue_kakao_token now profile (id_of found)

  -- The user that a Kakao profile belongs to, when it has a phone.
  abbrev pub has_any_phone : Option User → Bool
  has_any_phone none = false
  has_any_phone (some u) = not (is_empty u.phone)

  abbrev pub name_of : Option User → Option Text
  name_of none = none
  name_of (some u) = some u.user_name

  -- `profile` is what Kakao answers for the access token, if it does.
  pub login_with_kakao_access_token : ℕ → ℕ → Text → Option KakaoProfile → Text → Auth KakaoLogin
  login_with_kakao_access_token salt now access_token answer device_id = do
    throw_if (text_eq (trim access_token) []) auth_required
    profile ← or_throw answer auth_required
    found ← find_user_by_identity (codes "kakao") profile.provider_user_id
    user ← pure (if has_any_phone found then found else none)
    elim user [
      | some u ↦ do
        restore_scheduled_deletion u.user_id now
        session ← issue_tokens hashing jwt salt now u device_id
        pure (logged_in session)
      | none ↦ do
        token ← issue_kakao_token now profile (id_of found)
        pure (requires_phone token (or_else (name_of found) profile.user_name))
    ]

  abbrev pub kakao_email : KakaoGrant → Text
  kakao_email g = elim g.email [
    | some e ↦ e
    | none ↦ codes "kakao_" ++ take 32 (sha256 g.provider_user_id) ++ codes "@kakao.local"
  ]

  -- The new user of a Kakao sign-up.
  unfoldable pub kakao_user : ℕ → ℕ → KakaoSignupInput → KakaoGrant → Auth NewUser
  kakao_user id salt input g = do
    throw_if (text_eq input.gender []) invalid_gender
    email ← or_throw (normalize_email (kakao_email g)) invalid_email
    user_name ← or_throw (normalize_user_name input.user_name) invalid_user_name
    pure (record {
      user_id = id;
      email = email;
      password = hash salt (random_uuid salt);
      user_name = user_name;
      gender = input.gender;
    })

  -- What follows for a user that is there.
  unfoldable pub welcome_back : ℕ → ℕ → Option User → Text → Auth Session
  welcome_back salt now found device_id = do
    user ← or_throw found invalid_kakao_token
    restore_scheduled_deletion user.user_id now
    issue_tokens hashing jwt salt now user device_id

  unfoldable pub kakao_signup_without_phone : ℕ → ℕ → ℕ → KakaoSignupInput → Text → Auth Session
  kakao_signup_without_phone id salt now input device_id = do
    found ← find_kakao_token (sha256 input.kakao_token) now
    token ← or_throw found invalid_kakao_token
    elim token.grant.user_id [
      | some user_id ↦ do
        user ←
            map_error token_consume_error
              (consume_kakao_token_for_user user_id (sha256 input.kakao_token) now)
        welcome_back salt now user device_id
      | none ↦ do
        new ← kakao_user id salt input token.grant
        user ← map_error (duplicate_user_error hashing jwt) (
            map_error token_consume_error (
              create_kakao_user_with_token new token.grant.provider_user_id
                (sha256 input.kakao_token) now))
        issue_tokens hashing jwt salt now user device_id
    ]

  unfoldable pub kakao_signup_with_phone : ℕ → ℕ → ℕ → KakaoSignupInput → Text → Text → Auth Session
  kakao_signup_with_phone id salt now input phone_token device_id = do
    verified ← require_phone_token hashing jwt phone_token now
    found ← find_kakao_token (sha256 input.kakao_token) now
    token ← or_throw found invalid_kakao_token
    elim token.grant.user_id [
      | some user_id ↦ do
        known ← find_user user_id
        user ← or_throw known invalid_kakao_token
        throw_if
            (not (is_empty user.phone)
              && not
                  (elim user.phone [ none ↦ false | some p ↦ text_eq p verified.grant.phone_e164 ]))
            phone_verification_required
        updated ← map_error (duplicate_user_error hashing jwt) (
            map_error token_consume_error (
              attach_phone_with_tokens user.user_id verified.grant.phone_e164 (sha256 phone_token)
                (sha256 input.kakao_token) now))
        welcome_back salt now updated device_id
      | none ↦ do
        new ← kakao_user id salt input token.grant
        user ← map_error (duplicate_user_error hashing jwt) (
            map_error token_consume_error (
              create_kakao_phone_user_with_tokens new verified.grant.phone_e164
                token.grant.provider_user_id (sha256 phone_token) (sha256 input.kakao_token) now))
        issue_tokens hashing jwt salt now user device_id
    ]

  unfoldable pub complete_kakao_phone_signup : ℕ → ℕ → ℕ → KakaoSignupInput → Text → Auth Session
  complete_kakao_phone_signup id salt now input device_id = do
    throw_if (not input.terms_accepted) terms_not_accepted
    elim input.phone_verification_token [
      | none ↦ kakao_signup_without_phone id salt now input device_id
      | some t ↦
          if text_eq t []
          then kakao_signup_without_phone id salt now input device_id
          else kakao_signup_with_phone id salt now input t device_id
    ]
