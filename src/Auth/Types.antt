-- ===== src/Auth/Types.antt =====
-- The tables of src/modules/database/schema.ts that src/modules/auth reads and writes. An id is the
-- number that its 128 bits write; no id is compared as a text here.
use chattea_be.Prelude.{ℕ, Option, List}
use chattea_be.Prelude.Text.{Text}

pub record User : Type 0 where
  pub user_id : ℕ
  pub email : Text
  pub phone : Option Text
  pub password : Text
  pub user_name : Text
  pub gender : Text
  pub hidden_at : Option ℕ
  pub deletion_scheduled_at : Option ℕ
  pub deletion_lease_expires_at : Option ℕ
  pub deletion_attempts : ℕ
  pub deleted_at : Option ℕ

pub record RefreshToken : Type 0 where
  pub user_id : ℕ
  pub device_id : Text
  pub refresh_token : Text
  pub refresh_token_exp : ℕ

pub record AuthIdentity : Type 0 where
  pub user_id : ℕ
  pub provider : Text
  pub provider_user_id : Text

-- A row of phoneVerificationTokens or of kakaoPhoneVerificationTokens: the columns that the two
-- tables share, and the others as its grant.
pub record SingleUse (A : Type 0) : Type 0 where
  pub token_hash : Text
  pub grant : A
  pub expires_at : ℕ
  pub used_at : Option ℕ

pub record PhoneGrant : Type 0 where
  pub phone_e164 : Text

pub record KakaoGrant : Type 0 where
  pub user_id : Option ℕ
  pub provider_user_id : Text
  pub email : Option Text

pub record AuthDb : Type 0 where
  pub users : List User
  pub refresh_tokens : List RefreshToken
  pub identities : List AuthIdentity
  pub phone_tokens : List (SingleUse PhoneGrant)
  pub kakao_tokens : List (SingleUse KakaoGrant)

pub data AuthError : Type 0 where
  -- the repository's
  phone_token_consume_failed kakao_token_consume_failed unique_violation : AuthError
  -- the service's
  terms_not_accepted invalid_email invalid_user_name invalid_password : AuthError
  invalid_phone_token invalid_kakao_token invalid_gender phone_verification_required : AuthError
  duplicate_user auth_required refresh_exp_undefined invalid_user_id : AuthError
