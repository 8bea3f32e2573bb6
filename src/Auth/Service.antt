-- ===== src/Auth/Service.antt =====
-- src/modules/auth/auth.service.ts. bcrypt, SHA-256 and JSON web tokens are parameters, and so is
-- the request to Kakao for a profile. `now` is the clock in milliseconds, `salt` what bcrypt
-- draws, and `id` the random id of a new user.
pub mod Accounts
pub mod Signin
use chattea_be.Prelude.{
  ℕ, Bool, true, false, not, ◌&&◌, ◌||◌, Option, none, some, List, [], ◌∷◌, ◌++◌, ◌+◌, ◌*◌, ltb,
  leb, ◌==◌, if◌then◌else◌, find?, take, is_some,
}
use chattea_be.Prelude.Text.{Text, codes, text_eq, trim}
use chattea_be.Prelude.Action.{
  Result, ok, err, Action, pure, throw, gets, ◌>>=◌, ◌>>◌, throw_if, or_throw,
}
use chattea_be.Auth.Types.{
  User, RefreshToken, SingleUse, PhoneGrant, KakaoGrant, AuthDb, AuthError,
  phone_token_consume_failed, kakao_token_consume_failed, unique_violation, terms_not_accepted,
  invalid_email, invalid_user_name, invalid_password, invalid_phone_token, invalid_kakao_token,
  invalid_gender, phone_verification_required, duplicate_user, auth_required, refresh_exp_undefined,
  invalid_user_id,
}
use chattea_be.Auth.Input.{
  is_valid_password, normalize_email, normalize_optional_email, normalize_user_name,
  normalize_signin_email,
}
use chattea_be.Auth.Repository.{
  Auth, NewUser, find_phone_token, find_kakao_token, consume_phone_token,
  signup_with_phone_verification_token, signin, save_refresh_token, rotate_refresh_token,
  find_refresh_token, delete_refresh_token, find_user, find_user_by_identity,
  restore_scheduled_deletion,
}
use chattea_be.Auth.KakaoRepository.{
  create_kakao_token, attach_phone_with_tokens, consume_kakao_token_for_user,
  create_kakao_user_with_token, create_kakao_phone_user_with_tokens,
}
use chattea_be.Phone.Service.{Hashing}

-- JSON web tokens, signed at a time, and the expiry in seconds that one carries. `shows_code`:
-- whether the driver's error reaches the service with PostgreSQL's code.
pub record Signing : Type 0 where
  pub sign_access : ℕ → ℕ → Text
  pub sign_refresh : ℕ → ℕ → Text → Text
  pub sign_kakao : ℕ → Text → Text
  pub expiry : Text → Option ℕ
  -- the random id that stands in for the password of a Kakao user
  pub random_uuid : ℕ → Text
  pub shows_code : Bool

pub record Session : Type 0 where
  pub access_token : Text
  pub refresh_token : Text

pub record SignupInput : Type 0 where
  pub email : Text
  pub password : Text
  pub user_name : Text
  pub gender : Text
  pub phone_verification_token : Text
  pub terms_accepted : Bool

pub record SigninInput : Type 0 where
  pub email : Text
  pub password : Text
  pub phone_verification_token : Text

-- A catch that turns some errors into others. What was written stays.
abbrev pub map_error : {A : Type 0} → (AuthError → AuthError) → Auth A → Auth A
map_error f m db = let (r, db') = m db in elim r [ ok a ↦ (ok a, db') | err e ↦ (err (f e), db') ]

abbrev pub is_unique_violation : AuthError → Bool
is_unique_violation unique_violation = true
is_unique_violation e = false

-- A null, an undefined or an empty text.
abbrev pub is_empty : Option Text → Bool
is_empty none = true
is_empty (some s) = text_eq s []

module _ (hashing : Hashing) (jwt : Signing) where
  open hashing use {hash, compare, sha256}
  open jwt use {sign_access, sign_refresh, sign_kakao, expiry, random_uuid, shows_code}

  abbrev pub duplicate_user_error : AuthError → AuthError
  duplicate_user_error e = if is_unique_violation e && shows_code then duplicate_user else e

  -- The expiry in milliseconds; a zero counts as none.
  abbrev pub expiry_ms : Text → Option ℕ
  expiry_ms token = elim (expiry token) [
    | none ↦ none
    | some t ↦ if t == 0 then none else some (t * 1000)
  ]

  unfoldable pub prepare_refresh_token : ℕ → ℕ → Text → Text → Auth RefreshToken
  prepare_refresh_token salt user_id device_id token = do
    exp ← or_throw (expiry_ms token) refresh_exp_undefined
    pure (record {
      user_id = user_id;
      device_id = device_id;
      refresh_token = hash salt token;
      refresh_token_exp = exp;
    })

  unfoldable pub issue_tokens : ℕ → ℕ → User → Text → Auth Session
  issue_tokens salt now user device_id = do
    row ←
        prepare_refresh_token salt user.user_id device_id (sign_refresh now user.user_id device_id)
    save_refresh_token row
    pure (record {
      access_token = sign_access now user.user_id;
      refresh_token = sign_refresh now user.user_id device_id;
    })

  unfoldable pub require_phone_token : Text → ℕ → Auth (SingleUse PhoneGrant)
  require_phone_token token now = do
    found ← find_phone_token (sha256 token) now
    or_throw found invalid_phone_token

  abbrev pub user_of_input : ℕ → ℕ → SignupInput → Text → Text → NewUser
  user_of_input id salt input email user_name = record {
    user_id = id;
    email = email;
    password = hash salt input.password;
    user_name = user_name;
    gender = input.gender;
  }

  unfoldable pub signup : ℕ → ℕ → ℕ → SignupInput → Text → Auth Session
  signup id salt now input device_id = do
    throw_if (not input.terms_accepted) terms_not_accepted
    email ← or_throw (normalize_email input.email) invalid_email
    user_name ← or_throw (normalize_user_name input.user_name) invalid_user_name
    throw_if (not (is_valid_password input.password)) invalid_password
    require_phone_token input.phone_verification_token now
    created ← map_error duplicate_user_error (
        signup_with_phone_verification_token (user_of_input id salt input email user_name)
          (sha256 input.phone_verification_token) now)
    user ← or_throw created invalid_phone_token
    issue_tokens salt now user device_id

  -- By the normalised e-mail, then by the e-mail as it came.
  unfoldable pub find_signin_user : Text → Text → Auth (Option User)
  find_signin_user email given = do
    first ← signin email
    elim first [
      | some u ↦ pure (some u)
      | none ↦ if text_eq email given then pure none else signin given
    ]

  unfoldable pub service_signin : ℕ → ℕ → SigninInput → Text → Auth Session
  service_signin salt now input device_id = do
    email ← or_throw (normalize_signin_email input.email) auth_required
    found ← find_signin_user email input.email
    user ← or_throw found auth_required
    throw_if (not (compare input.password user.password)) auth_required
    token ← require_phone_token input.phone_verification_token now
    throw_if (not (elim user.phone [ none ↦ false | some p ↦ text_eq p token.grant.phone_e164 ]))
        phone_verification_required
    consumed ← consume_phone_token (sha256 input.phone_verification_token) now
    throw_if (not (is_some consumed)) invalid_phone_token
    restore_scheduled_deletion user.user_id now
    issue_tokens salt now user device_id

  unfoldable pub refresh : ℕ → ℕ → RefreshToken → Auth Session
  refresh salt now validated = do
    found ← find_user validated.user_id
    user ← or_throw found invalid_user_id
    next ←
        prepare_refresh_token salt validated.user_id validated.device_id
          (sign_refresh now user.user_id validated.device_id)
    rotated ← rotate_refresh_token next validated.refresh_token now
    throw_if (not rotated) auth_required
    pure (record {
      access_token = sign_access now user.user_id;
      refresh_token = sign_refresh now user.user_id validated.device_id;
    })

  abbrev pub logout : ℕ → Text → Auth Bool
  logout user_id device_id = do delete_refresh_token user_id device_id; pure true

  unfoldable pub validate_user_refresh_token : ℕ → ℕ → Text → Text → Auth (Option RefreshToken)
  validate_user_refresh_token now user_id device_id token = do
    saved ← find_refresh_token user_id device_id
    pure (elim saved [
      | none ↦ none
      | some r ↦
          if leb r.refresh_token_exp now || not (compare token r.refresh_token)
          then none
          else some r
    ])
