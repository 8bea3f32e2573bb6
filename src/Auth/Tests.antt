-- ===== src/Auth/Tests.antt =====
-- The theorems about accounts and tokens at concrete calls.
use chattea_be.Prelude.{refl, ◌≤◌, true, none, some, List, [], ◌∷◌, arith, count, find?, any}
use chattea_be.Prelude.Text.{Text, codes, text_eq, trim, trim_start, is_space}
use chattea_be.Auth.Types.{User, RefreshToken, SingleUse, PhoneGrant, KakaoGrant, AuthDb}
use chattea_be.Auth.Input.{
  is_valid_password, normalize_email, normalize_user_name, normalize_signin_email, is_valid_email,
  is_email, part_count, before_at, after_at, char_count, byte_length,
}
use chattea_be.Auth.Repository.{
  NewUser, new_user, consume_phone_token, signup_with_phone_verification_token, insert_user,
  save_refresh_token, restore_scheduled_deletion, consume_kakao_token,
}
use chattea_be.Auth.KakaoRepository.{attach_phone_with_tokens, consume_both, attach_phone}
use chattea_be.Auth.Repository.Single.{
  Call, sign_up, use_kakao, attach, phone_uses, kakao_uses, tokens_work_once,
}
use chattea_be.Auth.Repository.Rotation.{
  Event, login, rotation, rotations, refresh_token_rotates_once,
}
use chattea_be.Auth.Service.{
  Signing, Session, SignupInput, SigninInput, prepare_refresh_token, issue_tokens,
  require_phone_token, signup, find_signin_user, service_signin,
}
use chattea_be.Auth.Service.Accounts.{SignedUp, signup_verifies_phone}
use chattea_be.Auth.Service.Signin.{SignedIn, signin_checks_all}
use chattea_be.Auth.Kakao.{
  KakaoSignupInput, complete_kakao_phone_signup, kakao_signup_with_phone, welcome_back,
}
use chattea_be.Auth.Kakao.Completed.{CompletedSignup, kakao_signup_uses_tokens}
use chattea_be.Phone.Service.{Hashing}

-- A hash that marks what it is of.
abbrev marking : Hashing
marking = record { hash = λ salt t. 35 ∷ t; compare = λ t h. text_eq (35 ∷ t) h; sha256 = λ t. t }

abbrev plain : Signing
plain = record {
  sign_access = λ now user. now ∷ user ∷ [];
  sign_refresh = λ now user device. now ∷ user ∷ device;
  sign_kakao = λ now t. t;
  expiry = λ t. some 60;
  random_uuid = λ salt. codes "r";
  shows_code = true;
}

abbrev phone_token : SingleUse PhoneGrant
phone_token = record {
  token_hash = codes "p";
  grant = record { phone_e164 = codes "+821012345678" };
  expires_at = 1000;
  used_at = none;
}

abbrev kakao_token : SingleUse KakaoGrant
kakao_token = record {
  token_hash = codes "k";
  grant = record { user_id = some 1; provider_user_id = codes "z"; email = none };
  expires_at = 1000;
  used_at = none;
}

abbrev ann_input : NewUser
ann_input = record {
  user_id = 1;
  email = codes "a@b.c";
  password = 35 ∷ codes "password";
  user_name = codes "Ann";
  gender = codes "female";
}

abbrev ann : User
ann = new_user ann_input (some (codes "+821012345678"))

abbrev row : Text → RefreshToken
row t = record { user_id = 1; device_id = codes "d"; refresh_token = t; refresh_token_exp = 1000 }

abbrev with_users : List User → AuthDb
with_users us = record {
  users = us;
  refresh_tokens = row (codes "r") ∷ [];
  identities = [];
  phone_tokens = phone_token ∷ [];
  kakao_tokens = kakao_token ∷ [];
}

abbrev races : List Call
races =
    sign_up ann_input (codes "p") 5
    ∷ attach 1 (codes "+821012345678") (codes "p") (codes "k") 6
    ∷ use_kakao (codes "k") 7
    ∷ use_kakao (codes "k") 8
    ∷ []

tokens_work_once_example :
    (phone_uses (codes "p") races (with_users []) ≤ 1)
    × (kakao_uses (codes "k") races (with_users []) ≤ 1)
unfolding count text_eq
tokens_work_once_example =
    tokens_work_once (codes "p") (codes "k") races (with_users []) (omega arith) refl

abbrev replays : List Event
replays =
    rotation (row (codes "s")) (codes "r") 10
    ∷ rotation (row (codes "t")) (codes "r") 11
    ∷ login (row (codes "u"))
    ∷ rotation (row (codes "v")) (codes "r") 12
    ∷ []

refresh_token_rotates_once_example :
    rotations 1 (codes "d") (codes "r") replays (with_users (ann ∷ [])) ≤ 1
unfolding count text_eq
refresh_token_rotates_once_example =
    refresh_token_rotates_once 1 (codes "d") (codes "r") replays (with_users (ann ∷ [])) refl
      (omega arith)

abbrev ann_signup : SignupInput
ann_signup = record {
  email = codes "a@b.c";
  password = codes "password";
  user_name = codes "Ann";
  gender = codes "female";
  phone_verification_token = codes "p";
  terms_accepted = true;
}

abbrev ann_signin : SigninInput
ann_signin = record {
  email = codes "a@b.c";
  password = codes "password";
  phone_verification_token = codes "p";
}

abbrev ann_session : Session
ann_session = record { access_token = 5 ∷ 1 ∷ []; refresh_token = 5 ∷ 1 ∷ codes "d" }

signup_verifies_phone_example :
    SignedUp marking plain 1 0 5 ann_signup
      (with_users [])
      (signup marking plain 1 0 5 ann_signup (codes "d") (with_users [])).1
unfolding signup issue_tokens normalize_email is_valid_email is_email after_at trim part_count
    before_at char_count normalize_user_name is_valid_password byte_length require_phone_token
    signup_with_phone_verification_token consume_phone_token insert_user prepare_refresh_token find?
    any text_eq trim_start is_space save_refresh_token
signup_verifies_phone_example =
    signup_verifies_phone marking plain 1 0 5 ann_signup (codes "d") (with_users []) ann_session
      refl

signin_checks_all_example :
    SignedIn marking plain 5 ann_signin
      (with_users (ann ∷ []))
      (service_signin marking plain 0 5 ann_signin (codes "d") (with_users (ann ∷ []))).1
unfolding service_signin issue_tokens normalize_signin_email text_eq trim char_count
    find_signin_user require_phone_token consume_phone_token prepare_refresh_token
    restore_scheduled_deletion find? any trim_start is_space save_refresh_token
signin_checks_all_example =
    signin_checks_all marking plain 0 5 ann_signin (codes "d") (with_users (ann ∷ [])) ann_session
      refl

abbrev ann_kakao : KakaoSignupInput
ann_kakao = record {
  phone_verification_token = some (codes "p");
  kakao_token = codes "k";
  user_name = codes "Ann";
  gender = codes "female";
  terms_accepted = true;
}

kakao_signup_uses_tokens_example :
    CompletedSignup marking plain 5 ann_kakao
      (with_users (ann ∷ []))
      (complete_kakao_phone_signup marking plain 2 0 5 ann_kakao
        (codes "d")
        (with_users (ann ∷ []))).1
unfolding complete_kakao_phone_signup kakao_signup_with_phone welcome_back attach_phone_with_tokens
    consume_both consume_kakao_token consume_phone_token attach_phone issue_tokens
    require_phone_token prepare_refresh_token restore_scheduled_deletion find? any text_eq trim
    trim_start is_space save_refresh_token
kakao_signup_uses_tokens_example =
    kakao_signup_uses_tokens marking plain 2 0 5 ann_kakao (codes "d") (with_users (ann ∷ []))
      ann_session refl
