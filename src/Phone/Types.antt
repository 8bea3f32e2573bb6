-- ===== src/Phone/Types.antt =====
-- The tables of src/modules/database/schema.ts that src/modules/phone/phone.repository.ts reads and
-- writes. A nullable time stamp that is only tested for null is a Boolean (`is_verified`); an id
-- is the number that its 128 bits write, in whose order PostgreSQL sorts ids.
use chattea_be.Prelude.{ℕ, Bool, Option, List}
use chattea_be.Prelude.Text.{Text}

pub record Verification : Type 0 where
  pub id : ℕ
  pub phone_e164 : Text
  pub code_hash : Text
  pub purpose : Text
  pub expires_at : ℕ
  pub is_verified : Bool
  pub attempt_count : ℕ
  pub request_ip_hash : Text
  pub user_agent_hash : Text
  pub created_at : ℕ

pub record PhoneUser : Type 0 where
  pub user_id : ℕ
  pub phone : Option Text
  pub password : Text

pub record RefreshToken : Type 0 where
  pub user_id : ℕ

pub record PhoneDb : Type 0 where
  pub verifications : List Verification
  pub users : List PhoneUser
  pub refresh_tokens : List RefreshToken

pub data PhoneError : Type 0 where
  password_reset_user_update_failed : PhoneError

pub data Reservation : Type 0 where
  reserved : Verification → Reservation
  retry_too_soon phone_limit ip_limit : Reservation

pub record ReserveInput : Type 0 where
  pub phone_e164 : Text
  pub purpose : Text
  pub request_ip_hash : Text
  pub user_agent_hash : Text
  pub cooldown_ms : ℕ
  pub phone_limit : ℕ
  pub ip_limit : ℕ
