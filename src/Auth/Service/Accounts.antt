-- ===== src/Auth/Service/Accounts.antt =====
-- What a sign-up with a phone in src/modules/auth/auth.service.ts rests on.
use chattea_be.Prelude.{
  ℕ, ◌≡◌, refl, true, false, Option, none, some, [], ◌∷◌, ◌++◌, arith, find?, any, update_where,
  is_some,
}
use chattea_be.Prelude.Text.{Text}
use chattea_be.Prelude.Action.{ok}
use chattea_be.Auth.Types.{User, SingleUse, PhoneGrant, AuthDb}
use chattea_be.Auth.Input.{is_valid_password, normalize_email, normalize_user_name}
use chattea_be.Auth.Repository.{
  is_usable, use_up, clashes, new_user, insert_user, consume_phone_token,
  signup_with_phone_verification_token, save_refresh_token,
}
use chattea_be.Auth.Service.{
  Signing, Session, SignupInput, prepare_refresh_token, issue_tokens, require_phone_token,
  user_of_input, signup,
}
use chattea_be.Phone.Service.{Hashing}

pub value_of : {A : Type 0} (o : Option A) → is_some o ≡ true → (a : A) × (o ≡ some a)
value_of none h = ground arith
value_of (some a) h = (a, refl)

module _ (hashing : Hashing) (jwt : Signing) where
  open hashing use {sha256}

  -- An account that was made at a time: of a token that could be used, with its phone, and with an
  -- e-mail and a phone that no user had.
  pub record SignedUp (id salt now : ℕ) (input : SignupInput) (db db' : AuthDb) : Type 0 where
    pub email : Text
    pub user_name : Text
    pub token : SingleUse PhoneGrant
    pub user : User
    pub is_email : normalize_email input.email ≡ some email
    pub is_name : normalize_user_name input.user_name ≡ some user_name
    pub was_usable :
        find? (is_usable (sha256 input.phone_verification_token) now) db.phone_tokens ≡ some token
    pub is_user :
        user
        ≡ new_user
            (user_of_input hashing jwt id salt input email user_name)
            (some token.grant.phone_e164)
    pub was_free : any (clashes user) db.users ≡ false
    pub is_stored : db'.users ≡ db.users ++ user ∷ []
    pub is_used :
        db'.phone_tokens
        ≡ update_where
            (is_usable (sha256 input.phone_verification_token) now)
            (use_up now)
            db.phone_tokens

  refused :
      (id salt now : ℕ) (input : SignupInput) (device_id : Text) (db : AuthDb) (s : Session)
      → (signup hashing jwt id salt now input device_id db).0 ≡ ok s
      → (input.terms_accepted ≡ true)
        × (is_valid_password input.password ≡ true)
        × (is_some (normalize_email input.email) ≡ true)
        × (is_some (normalize_user_name input.user_name) ≡ true)
        × (is_some (find? (is_usable (sha256 input.phone_verification_token) now) db.phone_tokens)
            ≡ true)
  unfolding signup require_phone_token
  refused id salt now input device_id db s h =
      (ground arith, ground arith, ground arith, ground arith, ground arith)

  -- A session touches the refresh tokens only.
  pub issue_keeps :
      (salt now : ℕ) (user : User) (device_id : Text) (db : AuthDb)
      → ((issue_tokens hashing jwt salt now user device_id db).1.users ≡ db.users)
        × ((issue_tokens hashing jwt salt now user device_id db).1.phone_tokens ≡ db.phone_tokens)
  unfolding issue_tokens prepare_refresh_token save_refresh_token
  issue_keeps salt now user device_id db = (ground arith, ground arith)

  stores :
      (id salt now : ℕ) (input : SignupInput) (device_id email user_name : Text)
      (token : SingleUse PhoneGrant) (db : AuthDb) (s : Session)
      → (signup hashing jwt id salt now input device_id db).0 ≡ ok s
      → normalize_email input.email ≡ some email
      → normalize_user_name input.user_name ≡ some user_name
      → find? (is_usable (sha256 input.phone_verification_token) now) db.phone_tokens ≡ some token
      → let user =
          new_user
            (user_of_input hashing jwt id salt input email user_name)
            (some token.grant.phone_e164) in
        (any (clashes user) db.users ≡ false)
        × ((signup hashing jwt id salt now input device_id db).1.users ≡ db.users ++ user ∷ [])
        × ((signup hashing jwt id salt now input device_id db).1.phone_tokens
            ≡ update_where
                (is_usable (sha256 input.phone_verification_token) now)
                (use_up now)
                db.phone_tokens)
  unfolding signup require_phone_token signup_with_phone_verification_token consume_phone_token
      insert_user
  stores id salt now input device_id email user_name token db s h e n t =
      let user : User =
        new_user (user_of_input hashing jwt id salt input email user_name)
          (some token.grant.phone_e164) in
      let after : AuthDb = record db {
        users = db.users ++ user ∷ [];
        phone_tokens =
            update_where (is_usable (sha256 input.phone_verification_token) now) (use_up now)
              db.phone_tokens;
      } in
      (
        ground arith,
        ground (arith, issue_keeps salt now user device_id after),
        ground (arith, issue_keeps salt now user device_id after),
      )

  -- When a sign-up answers with a session, the e-mail and the name are valid, the phone token was
  -- there, unused and not expired, no user had the id, the e-mail or the phone, and the tables
  -- have one new user, with the phone of the token, and the token used up.
  pub signup_verifies_phone :
      (id salt now : ℕ) (input : SignupInput) (device_id : Text) (db : AuthDb) (s : Session)
      → (signup hashing jwt id salt now input device_id db).0 ≡ ok s
      → SignedUp id salt now input db (signup hashing jwt id salt now input device_id db).1
  signup_verifies_phone id salt now input device_id db s h =
      let (terms, password, has_email, has_name, has_token) =
        refused id salt now input device_id db s h in
      let (email, e) = value_of (normalize_email input.email) has_email in
      let (user_name, n) = value_of (normalize_user_name input.user_name) has_name in
      let (token, t) =
        value_of (find? (is_usable (sha256 input.phone_verification_token) now) db.phone_tokens)
          has_token in
      let (free, users, tokens) =
        stores id salt now input device_id email user_name token db s h e n t in
      record {
        email = email;
        user_name = user_name;
        token = token;
        user =
            new_user (user_of_input hashing jwt id salt input email user_name)
              (some token.grant.phone_e164);
        is_email = e;
        is_name = n;
        was_usable = t;
        is_user = refl;
        was_free = free;
        is_stored = users;
        is_used = tokens;
      }
