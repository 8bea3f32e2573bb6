-- ===== src/Phone/Service.antt =====
-- `requestPhoneCode`, `verifyPhoneCode` and `resetPasswordWithPhone` of
-- src/modules/phone/phone.service.ts. The
-- hash of passwords and codes, SHA-256 and the sender of messages are parameters. The tokens that
-- follow a verified code are left out: the answer says which of the two cases it is. `now` is the
-- clock of the database, read once for a call.
pub mod Right
pub mod Unsent
mod Tests
use chattea_be.Prelude.{
  ℕ, Bool, true, false, not, ◌&&◌, ◌||◌, Option, none, some, List, [], ◌∷◌, ◌++◌, ◌+◌, ◌*◌, ◌/◌,
  ◌%◌, ltb, leb, if◌then◌else◌, find?, is_some, get_or,
}
use chattea_be.Prelude.Text.{Text, codes, text_eq, member}
use chattea_be.Prelude.Action.{
  Result, ok, err, Action, pure, throw, gets, ◌>>=◌, ◌>>◌, throw_if, or_throw,
}
use chattea_be.Phone.Types.{
  Verification, PhoneUser, PhoneDb, PhoneError, Reservation, reserved, retry_too_soon, phone_limit,
  ip_limit, ReserveInput,
}
use chattea_be.Phone.Repository.{
  Phone, latest, reserve_verification, activate_verification, delete_verification,
  claim_verification_attempt, mark_verified, reset_password_with_verification, has_phone,
}
use chattea_be.Phone.Number.{normalize_korean_phone}
use chattea_be.Auth.Input.{is_valid_password}

-- bcrypt and SHA-256. A salt is the random part of a hash.
pub record Hashing : Type 0 where
  pub hash : ℕ → Text → Text
  pub compare : Text → Text → Bool
  pub sha256 : Text → Text

pub data ServiceError : Type 0 where
  repository_error : PhoneError → ServiceError
  invalid_phone_code invalid_phone_purpose korean_phone_only sms_send_failed : ServiceError
  phone_code_retry_too_soon phone_request_limit_exceeded ip_request_limit_exceeded : ServiceError
  phone_code_attempt_limit_exceeded phone_verification_required invalid_password : ServiceError

abbrev pub Service : Type 0 → Type 0
Service A = Action ServiceError PhoneDb A

-- A call of the repository.
abbrev pub repository : {A : Type 0} → Phone A → Service A
repository m db =
    let (r, db') = m db in elim r [ ok a ↦ (ok a, db') | err e ↦ (err (repository_error e), db') ]

-- `String(n).padStart(6, "0")` of a number below a million
pub six_digits : ℕ → Text
six_digits n =
    (n / 100000 % 10 + 48)
    ∷ (n / 10000 % 10 + 48)
    ∷ (n / 1000 % 10 + 48)
    ∷ (n / 100 % 10 + 48)
    ∷ (n / 10 % 10 + 48)
    ∷ (n % 10 + 48)
    ∷ []

abbrev pub purposes : List Text
purposes = codes "signup" ∷ codes "login" ∷ codes "password_reset" ∷ []

-- `ip || "no-ip"`
abbrev pub ip_of : Option Text → Text
ip_of none = codes "no-ip"
ip_of (some ip) = if text_eq ip [] then codes "no-ip" else ip

abbrev pub peppered : Text → Text → Text → Text
peppered pepper phone code = phone ++ b':' ∷ code ++ b':' ∷ pepper

-- The latest code of a phone, while it can be used.
pub get_usable_verification : Text → Option Text → Service Verification
get_usable_verification phone purpose = do
  last ← gets (λ db. latest phone db.verifications)
  v ← or_throw last invalid_phone_code
  throw_if v.is_verified invalid_phone_code
  throw_if (elim purpose [ none ↦ false | some p ↦ not (text_eq v.purpose p) ]) invalid_phone_code
  throw_if (leb 5 v.attempt_count) phone_code_attempt_limit_exceeded
  pure v

module _ (hashing : Hashing) (pepper : Text) where
  -- The claim of a try, and the comparison of the code.
  pub try_code : Verification → Text → Text → List Text → ℕ → Service Verification
  try_code v phone code allowed now = do
    row ← repository (claim_verification_attempt v.id phone allowed now)
    claimed ← or_throw row invalid_phone_code
    throw_if (not (hashing.compare (peppered pepper phone code) claimed.code_hash))
        invalid_phone_code
    pure claimed

  -- The user of the phone, or none for a phone that can sign up, with the verified code.
  pub verify_phone_code : Text → Text → ℕ → Service (Option PhoneUser × Verification)
  verify_phone_code number code now = do
    phone ← or_throw (normalize_korean_phone number) korean_phone_only
    v ← get_usable_verification phone none
    throw_if (not (text_eq v.purpose (codes "signup")) && not (text_eq v.purpose (codes "login")))
        invalid_phone_code
    claimed ← try_code v phone code (codes "signup" ∷ codes "login" ∷ []) now
    row ← repository (mark_verified claimed.id now)
    verified ← or_throw row invalid_phone_code
    user ← gets (λ db. find? (has_phone phone) db.users)
    pure (user, verified)

  pub reset_password_with_phone : Text → Text → Text → ℕ → ℕ → Service Bool
  reset_password_with_phone number code password salt now = do
    throw_if (not (is_valid_password password)) invalid_password
    phone ← or_throw (normalize_korean_phone number) korean_phone_only
    v ← get_usable_verification phone (some (codes "password_reset"))
    claimed ← try_code v phone code (codes "password_reset" ∷ []) now
    user ←
        repository
          (reset_password_with_verification claimed.id phone (hashing.hash salt password) now)
    found ← or_throw user phone_verification_required
    pure true

-- One request for a code. `code` is the random number, `id` and `salt` the random keys, `sent_at`
-- the clock after the message was sent; `activates` and `cleans_up` say whether the statements
-- that activate and delete the row go through, or throw.
pub record CodeRequest : Type 0 where
  pub phone : Text
  pub purpose : Text
  pub ip : Option Text
  pub user_agent : Option Text
  pub id : ℕ
  pub code : ℕ
  pub salt : ℕ
  pub now : ℕ
  pub sent_at : ℕ
  pub activates : Bool
  pub cleans_up : Bool

-- The clean-up of a request that fails; what it throws is caught and logged, and the row stays.
abbrev pub clean_up : Bool → ℕ → PhoneDb → PhoneDb
clean_up true id db = (delete_verification id db).1
clean_up false id db = db

module _ {N : Type 0} (hashing : Hashing) (pepper : Text)
    (send_code : Text → Text → N → Bool × N) where
  abbrev pub reserve_input : CodeRequest → Text → ReserveInput
  reserve_input r phone = record {
    phone_e164 = phone;
    purpose = r.purpose;
    request_ip_hash = hashing.sha256 (ip_of r.ip);
    user_agent_hash = hashing.sha256 (get_or r.user_agent []);
    cooldown_ms = 60000;
    phone_limit = 5;
    ip_limit = 20;
  }

  -- What follows a reservation: the message, the activation, and the clean-up when one fails.
  pub deliver_code : CodeRequest → Text → Verification → Action ServiceError (PhoneDb × N) Unit
  deliver_code r phone v (db, n) =
      let (sent, n') = send_code phone (six_digits r.code) n in
      let (activated, db') =
        activate_verification v.id (hashing.hash r.salt (peppered pepper phone (six_digits r.code)))
          300000 r.sent_at db in
      let is_active : Bool = elim activated [ ok o ↦ is_some o | err _ ↦ false ] in
      if not sent || not r.activates
      then (err sms_send_failed, (clean_up r.cleans_up v.id db, n'))
      else if is_active
      then (ok tt, (db', n'))
      else (err sms_send_failed, (clean_up r.cleans_up v.id db', n'))

  pub request_phone_code : CodeRequest → Action ServiceError (PhoneDb × N) Unit
  request_phone_code r (db, n) =
      if not (member r.purpose purposes)
      then (err invalid_phone_purpose, (db, n))
      else elim (normalize_korean_phone r.phone) [
        | none ↦ (err korean_phone_only, (db, n))
        | some phone ↦
            let (result, db') = reserve_verification r.id r.now (reserve_input r phone) db in
            elim result [
              | err e ↦ (err (repository_error e), (db', n))
              | ok (reserved v) ↦ deliver_code r phone v (db', n)
              | ok retry_too_soon ↦ (err phone_code_retry_too_soon, (db', n))
              | ok phone_limit ↦ (err phone_request_limit_exceeded, (db', n))
              | ok ip_limit ↦ (err ip_request_limit_exceeded, (db', n))
            ]
      ]
