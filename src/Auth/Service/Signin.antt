-- ===== src/Auth/Service/Signin.antt =====
-- What a sign-in with a phone, and a refresh, in src/modules/auth/auth.service.ts rest on.
use chattea_be.Prelude.{
  ℕ, ◌≡◌, refl, ap, ◌∙◌, true, false, Option, none, some, arith, find?, update_where, is_some,
}
use chattea_be.Prelude.Text.{Text, text_eq, text_eq_iff}
use chattea_be.Prelude.Action.{Result, ok, err}
use chattea_be.Auth.Types.{User, SingleUse, PhoneGrant, AuthDb, AuthError}
use chattea_be.Auth.Input.{normalize_signin_email}
use chattea_be.Auth.Repository.{is_usable, use_up, consume_phone_token, restore_scheduled_deletion}
use chattea_be.Auth.Service.{
  Signing, Session, SigninInput, require_phone_token, find_signin_user, service_signin,
}
use chattea_be.Auth.Service.Accounts.{value_of, issue_keeps}
use chattea_be.Phone.Service.{Hashing}

module _ (hashing : Hashing) (jwt : Signing) where
  open hashing use {compare, sha256}

  -- A user who may sign in: found by the e-mail, with the password, and with the phone of a token
  -- that could be used.
  pub record SignedIn (now : ℕ) (input : SigninInput) (db db' : AuthDb) : Type 0 where
    pub email : Text
    pub user : User
    pub token : SingleUse PhoneGrant
    pub is_email : normalize_signin_email input.email ≡ some email
    pub is_found : (find_signin_user hashing jwt email input.email db).0 ≡ ok (some user)
    pub is_password : compare input.password user.password ≡ true
    pub was_usable :
        find? (is_usable (sha256 input.phone_verification_token) now) db.phone_tokens ≡ some token
    pub is_phone : user.phone ≡ some token.grant.phone_e164
    pub is_used :
        db'.phone_tokens
        ≡ update_where
            (is_usable (sha256 input.phone_verification_token) now)
            (use_up now)
            db.phone_tokens

  found_reads :
      (email given : Text) (db : AuthDb) → (find_signin_user hashing jwt email given db).1 ≡ db
  unfolding find_signin_user
  found_reads email given db = ground arith

  restore_keeps :
      (id now : ℕ) (db : AuthDb)
      → (restore_scheduled_deletion id now db).1.phone_tokens ≡ db.phone_tokens
  unfolding restore_scheduled_deletion
  restore_keeps id now db = refl

  abbrev found : Result AuthError (Option User) → Option User
  found (ok o) = o
  found (err e) = none

  found_or_none :
      (email given : Text) (db : AuthDb)
      → (find_signin_user hashing jwt email given db).0
        ≡ ok (found (find_signin_user hashing jwt email given db).0)
  unfolding find_signin_user
  found_or_none email given db = ground arith

  same_phone :
      (phone : Option Text) (verified : Text)
      → elim phone [ none ↦ false | some p ↦ text_eq p verified ] ≡ true
      → phone ≡ some verified
  same_phone none verified h = ground arith
  same_phone (some p) verified h = ground (arith, text_eq_iff p verified)

  valid_email :
      (salt now : ℕ) (input : SigninInput) (device_id : Text) (db : AuthDb) (s : Session)
      → (service_signin hashing jwt salt now input device_id db).0 ≡ ok s
      → is_some (normalize_signin_email input.email) ≡ true
  unfolding service_signin
  valid_email salt now input device_id db s h = ground arith

  passes :
      (salt now : ℕ) (input : SigninInput) (device_id email : Text) (db : AuthDb) (s : Session)
      → (service_signin hashing jwt salt now input device_id db).0 ≡ ok s
      → normalize_signin_email input.email ≡ some email
      → (is_some (found (find_signin_user hashing jwt email input.email db).0) ≡ true)
        × (is_some (find? (is_usable (sha256 input.phone_verification_token) now) db.phone_tokens)
            ≡ true)
  unfolding service_signin require_phone_token
  passes salt now input device_id email db s h e = (
    ground (arith, found_or_none email input.email db, found_reads email input.email db),
    ground (arith, found_or_none email input.email db, found_reads email input.email db),
  )

  checks :
      (salt now : ℕ) (input : SigninInput) (device_id email : Text) (user : User)
      (token : SingleUse PhoneGrant) (db : AuthDb) (s : Session)
      → (service_signin hashing jwt salt now input device_id db).0 ≡ ok s
      → normalize_signin_email input.email ≡ some email
      → (find_signin_user hashing jwt email input.email db).0 ≡ ok (some user)
      → find? (is_usable (sha256 input.phone_verification_token) now) db.phone_tokens ≡ some token
      → (compare input.password user.password ≡ true)
        × (elim user.phone [ none ↦ false | some p ↦ text_eq p token.grant.phone_e164 ] ≡ true)
  unfolding service_signin require_phone_token
  checks salt now input device_id email user token db s h e f t = (
    ground (arith, found_reads email input.email db),
    ground (arith, found_reads email input.email db),
  )

  uses :
      (salt now : ℕ) (input : SigninInput) (device_id email : Text) (user : User)
      (token : SingleUse PhoneGrant) (db : AuthDb) (s : Session)
      → (service_signin hashing jwt salt now input device_id db).0 ≡ ok s
      → normalize_signin_email input.email ≡ some email
      → (find_signin_user hashing jwt email input.email db).0 ≡ ok (some user)
      → find? (is_usable (sha256 input.phone_verification_token) now) db.phone_tokens ≡ some token
      → (service_signin hashing jwt salt now input device_id db).1.phone_tokens
        ≡ update_where
            (is_usable (sha256 input.phone_verification_token) now)
            (use_up now)
            db.phone_tokens
  unfolding service_signin require_phone_token consume_phone_token
  uses salt now input device_id email user token db s h e f t =
      let after : AuthDb = record db {
        phone_tokens =
            update_where (is_usable (sha256 input.phone_verification_token) now) (use_up now)
              db.phone_tokens;
      } in
      let restored : AuthDb = (restore_scheduled_deletion user.user_id now after).1 in
      ground (
        arith,
        found_reads email input.email db,
        restore_keeps user.user_id now after,
        issue_keeps hashing jwt salt now user device_id restored,
      )

  -- When a sign-in answers with a session, the user was found by the e-mail, the password is the
  -- user's by the hash's own comparison, the phone token was there, unused and not expired, with
  -- the user's phone, and it is used up.
  pub signin_checks_all :
      (salt now : ℕ) (input : SigninInput) (device_id : Text) (db : AuthDb) (s : Session)
      → (service_signin hashing jwt salt now input device_id db).0 ≡ ok s
      → SignedIn now input db (service_signin hashing jwt salt now input device_id db).1
  signin_checks_all salt now input device_id db s h =
      let (email, e) =
        value_of (normalize_signin_email input.email)
          (valid_email salt now input device_id db s h) in
      let (has_user, has_token) = passes salt now input device_id email db s h e in
      let (user, u) =
        value_of (found (find_signin_user hashing jwt email input.email db).0) has_user in
      let (token, t) =
        value_of (find? (is_usable (sha256 input.phone_verification_token) now) db.phone_tokens)
          has_token in
      let f : (find_signin_user hashing jwt email input.email db).0 ≡ ok (some user) =
        found_or_none email input.email db ∙ ap ok u in
      let (password, phone) = checks salt now input device_id email user token db s h e f t in
      record {
        email = email;
        user = user;
        token = token;
        is_email = e;
        is_found = f;
        is_password = password;
        was_usable = t;
        is_phone = same_phone user.phone token.grant.phone_e164 phone;
        is_used = uses salt now input device_id email user token db s h e f t;
      }
