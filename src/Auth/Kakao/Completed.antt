-- ===== src/Auth/Kakao/Completed.antt =====
-- What a sign-up with Kakao in src/modules/auth/auth.service.ts rests on.
use chattea_be.Prelude.{
  ℕ, ◌≡◌, sym, ap, ◌∙◌, Bool, true, false, ◌||◌, Option, none, some, List, [], arith, if◌then◌else◌,
  find?, is_some, Bool-cases, Option-cases, inl, inr,
}
use chattea_be.Prelude.Text.{Text, text_eq}
use chattea_be.Prelude.Action.{ok}
use chattea_be.Auth.Types.{SingleUse, PhoneGrant, AuthDb}
use chattea_be.Auth.Repository.{is_usable}
use chattea_be.Auth.Service.{Signing, Session, require_phone_token}
use chattea_be.Auth.Service.Accounts.{value_of}
use chattea_be.Auth.Kakao.{
  KakaoSignupInput, kakao_signup_without_phone, kakao_signup_with_phone,
  complete_kakao_phone_signup,
}
use chattea_be.Phone.Service.{Hashing}
use chattea_be.Auth.Kakao.Uses.{used_up, without_phone, with_phone}

-- The phone token of the input, when it has one that is not empty.
abbrev pub phone_usable : Hashing → Option Text → ℕ → AuthDb → Bool
phone_usable hashing none now db = true
phone_usable hashing (some t) now db =
    text_eq t [] || is_some (find? (is_usable (hashing.sha256 t) now) db.phone_tokens)

abbrev pub phone_used :
    Hashing → Option Text → ℕ → List (SingleUse PhoneGrant) → List (SingleUse PhoneGrant)
phone_used hashing none now ts = ts
phone_used hashing (some t) now ts = if text_eq t [] then ts else used_up (hashing.sha256 t) now ts

module _ (hashing : Hashing) (jwt : Signing) where
  open hashing use {sha256}

  -- A session is answered only when the tokens were usable.
  without_phone_usable :
      (id salt now : ℕ) (input : KakaoSignupInput) (device_id : Text) (db : AuthDb) (s : Session)
      → (kakao_signup_without_phone hashing jwt id salt now input device_id db).0 ≡ ok s
      → is_some (find? (is_usable (sha256 input.kakao_token) now) db.kakao_tokens) ≡ true
  unfolding kakao_signup_without_phone
  without_phone_usable id salt now input device_id db s h = ground arith

  with_phone_usable :
      (id salt now : ℕ) (input : KakaoSignupInput) (phone_token device_id : Text) (db : AuthDb)
      (s : Session)
      → (kakao_signup_with_phone hashing jwt id salt now input phone_token device_id db).0 ≡ ok s
      → (is_some (find? (is_usable (sha256 input.kakao_token) now) db.kakao_tokens) ≡ true)
        × (is_some (find? (is_usable (sha256 phone_token) now) db.phone_tokens) ≡ true)
  unfolding kakao_signup_with_phone require_phone_token
  with_phone_usable id salt now input phone_token device_id db s h = (ground arith, ground arith)

  -- What a sign-up with Kakao has checked and used.
  pub record CompletedSignup (now : ℕ) (input : KakaoSignupInput) (db after : AuthDb) : Type 0 where
    pub is_accepted : input.terms_accepted ≡ true
    pub kakao_was_usable :
        is_some (find? (is_usable (sha256 input.kakao_token) now) db.kakao_tokens) ≡ true
    pub kakao_is_used : after.kakao_tokens ≡ used_up (sha256 input.kakao_token) now db.kakao_tokens
    pub phone_was_usable : phone_usable hashing input.phone_verification_token now db ≡ true
    pub phone_is_used :
        after.phone_tokens ≡ phone_used hashing input.phone_verification_token now db.phone_tokens

  completes_without_phone :
      (id salt now : ℕ) (input : KakaoSignupInput) (device_id : Text) (db : AuthDb) (s : Session)
      → (complete_kakao_phone_signup hashing jwt id salt now input device_id db).0 ≡ ok s
      → input.terms_accepted ≡ true
      → complete_kakao_phone_signup hashing jwt id salt now input device_id db
        ≡ kakao_signup_without_phone hashing jwt id salt now input device_id db
      → phone_usable hashing input.phone_verification_token now db ≡ true
      → phone_used hashing input.phone_verification_token now db.phone_tokens ≡ db.phone_tokens
      → CompletedSignup now input db
          (complete_kakao_phone_signup hashing jwt id salt now input device_id db).1
  completes_without_phone id salt now input device_id db s h terms form usable used =
      let r = sym (ap (λ x. x.0) form) ∙ h in
      let was_usable = without_phone_usable id salt now input device_id db s r in
      let (t, p) =
        value_of (find? (is_usable (sha256 input.kakao_token) now) db.kakao_tokens) was_usable in
      let (kakao, phone) = without_phone hashing jwt id salt now input device_id db s t r p in
      record {
        is_accepted = terms;
        kakao_was_usable = was_usable;
        kakao_is_used = ap (λ x. x.1.kakao_tokens) form ∙ kakao;
        phone_was_usable = usable;
        phone_is_used = ap (λ x. x.1.phone_tokens) form ∙ phone ∙ sym used;
      }

  completes_with_phone :
      (id salt now : ℕ) (input : KakaoSignupInput) (phone_token device_id : Text) (db : AuthDb)
      (s : Session)
      → (complete_kakao_phone_signup hashing jwt id salt now input device_id db).0 ≡ ok s
      → input.terms_accepted ≡ true
      → complete_kakao_phone_signup hashing jwt id salt now input device_id db
        ≡ kakao_signup_with_phone hashing jwt id salt now input phone_token device_id db
      → input.phone_verification_token ≡ some phone_token
      → text_eq phone_token [] ≡ false
      → CompletedSignup now input db
          (complete_kakao_phone_signup hashing jwt id salt now input device_id db).1
  completes_with_phone id salt now input phone_token device_id db s h terms form o full =
      let r = sym (ap (λ x. x.0) form) ∙ h in
      let (was_usable, phone_was) =
        with_phone_usable id salt now input phone_token device_id db s r in
      let (t, p) =
        value_of (find? (is_usable (sha256 input.kakao_token) now) db.kakao_tokens) was_usable in
      let (v, q) =
        value_of (find? (is_usable (sha256 phone_token) now) db.phone_tokens) phone_was in
      let (kakao, phone) =
        with_phone hashing jwt id salt now input phone_token device_id db s v t r q p in
      record {
        is_accepted = terms;
        kakao_was_usable = was_usable;
        kakao_is_used = ap (λ x. x.1.kakao_tokens) form ∙ kakao;
        phone_was_usable = ground arith;
        phone_is_used = ap (λ x. x.1.phone_tokens) form ∙ phone ∙ ground arith;
      }

  -- When a sign-up with Kakao answers with a session, the terms were accepted, the Kakao token was
  -- there, unused and not expired, and it is used up; so was and is the phone token, when the
  -- request has one that is not empty, and else no phone token is touched.
  pub kakao_signup_uses_tokens :
      (id salt now : ℕ) (input : KakaoSignupInput) (device_id : Text) (db : AuthDb) (s : Session)
      → (complete_kakao_phone_signup hashing jwt id salt now input device_id db).0 ≡ ok s
      → CompletedSignup now input db
          (complete_kakao_phone_signup hashing jwt id salt now input device_id db).1
  unfolding complete_kakao_phone_signup
  kakao_signup_uses_tokens id salt now input device_id db s h =
      let terms : input.terms_accepted ≡ true = ground arith in
      elim (Option-cases input.phone_verification_token) [
        | inl o ↦
            completes_without_phone id salt now input device_id db s h terms (ground arith)
              (ground arith) (ground arith)
        | inr (t, o) ↦ elim (Bool-cases (text_eq t [])) [
          | inl e ↦
              completes_without_phone id salt now input device_id db s h terms (ground arith)
                (ground arith) (ground arith)
          | inr e ↦
              completes_with_phone id salt now input t device_id db s h terms (ground arith) o e
        ]
      ]
