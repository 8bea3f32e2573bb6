-- ===== src/Auth/Kakao/Uses.antt =====
-- The tokens after a sign-up with Kakao in src/modules/auth/auth.service.ts, with and without a
-- phone.
use chattea_be.Prelude.{
  ℕ, ◌≡◌, refl, true, Option, none, some, List, arith, find?, update_where, Option-cases, inl, inr,
}
use chattea_be.Prelude.Text.{Text}
use chattea_be.Prelude.Action.{ok, is_ok, Result-cases}
use chattea_be.Auth.Types.{User, SingleUse, PhoneGrant, KakaoGrant, AuthDb}
use chattea_be.Auth.Repository.{
  NewUser, is_user, is_usable, use_up, consume_phone_token, consume_kakao_token, insert_user,
  insert_identity, save_refresh_token, restore_scheduled_deletion,
}
use chattea_be.Auth.KakaoRepository.{
  consume_both, attach_phone, attach_phone_with_tokens, consume_kakao_token_for_user,
  create_kakao_user, create_kakao_user_with_token, create_kakao_phone_user_with_tokens,
}
use chattea_be.Auth.Service.{
  Signing, Session, prepare_refresh_token, issue_tokens, require_phone_token,
}
use chattea_be.Auth.Kakao.{
  KakaoSignupInput, kakao_user, welcome_back, kakao_signup_without_phone, kakao_signup_with_phone,
}
use chattea_be.Phone.Service.{Hashing}

abbrev pub used_up : {A : Type 0} → Text → ℕ → List (SingleUse A) → List (SingleUse A)
used_up hash now ts = update_where (is_usable hash now) (use_up now) ts

-- A call that returns has used the Kakao token.
for_user_uses :
    (user : ℕ) (hash : Text) (now : ℕ) (db : AuthDb)
    → is_ok (consume_kakao_token_for_user user hash now db).0 ≡ true
    → ((consume_kakao_token_for_user user hash now db).1.kakao_tokens
        ≡ used_up hash now db.kakao_tokens)
      × ((consume_kakao_token_for_user user hash now db).1.phone_tokens ≡ db.phone_tokens)
unfolding consume_kakao_token_for_user consume_kakao_token
for_user_uses user hash now db h = (ground arith, ground arith)

new_user_uses :
    (input : NewUser) (provider hash : Text) (now : ℕ) (db : AuthDb)
    → is_ok (create_kakao_user_with_token input provider hash now db).0 ≡ true
    → ((create_kakao_user_with_token input provider hash now db).1.kakao_tokens
        ≡ used_up hash now db.kakao_tokens)
      × ((create_kakao_user_with_token input provider hash now db).1.phone_tokens ≡ db.phone_tokens)
unfolding create_kakao_user_with_token consume_kakao_token create_kakao_user insert_user
    insert_identity
new_user_uses input provider hash now db h = (ground arith, ground arith)

attach_uses :
    (user : ℕ) (phone phone_hash hash : Text) (now : ℕ) (db : AuthDb)
    → is_ok (attach_phone_with_tokens user phone phone_hash hash now db).0 ≡ true
    → ((attach_phone_with_tokens user phone phone_hash hash now db).1.kakao_tokens
        ≡ used_up hash now db.kakao_tokens)
      × ((attach_phone_with_tokens user phone phone_hash hash now db).1.phone_tokens
          ≡ used_up phone_hash now db.phone_tokens)
unfolding attach_phone_with_tokens consume_both consume_phone_token consume_kakao_token attach_phone
attach_uses user phone phone_hash hash now db h = (ground arith, ground arith)

new_phone_user_uses :
    (input : NewUser) (phone provider phone_hash hash : Text) (now : ℕ) (db : AuthDb)
    → is_ok (create_kakao_phone_user_with_tokens input phone provider phone_hash hash now db).0
      ≡ true
    → ((create_kakao_phone_user_with_tokens input phone provider phone_hash hash now
          db).1.kakao_tokens
        ≡ used_up hash now db.kakao_tokens)
      × ((create_kakao_phone_user_with_tokens input phone provider phone_hash hash now
            db).1.phone_tokens
          ≡ used_up phone_hash now db.phone_tokens)
unfolding create_kakao_phone_user_with_tokens consume_both consume_phone_token consume_kakao_token
    create_kakao_user insert_user insert_identity
new_phone_user_uses input phone provider phone_hash hash now db h = (ground arith, ground arith)

module _ (hashing : Hashing) (jwt : Signing) where
  open hashing use {sha256}

  issue_keeps_tokens :
      (salt now : ℕ) (user : User) (device_id : Text) (db : AuthDb)
      → ((issue_tokens hashing jwt salt now user device_id db).1.kakao_tokens ≡ db.kakao_tokens)
        × ((issue_tokens hashing jwt salt now user device_id db).1.phone_tokens ≡ db.phone_tokens)
  unfolding issue_tokens prepare_refresh_token save_refresh_token
  issue_keeps_tokens salt now user device_id db = (ground arith, ground arith)

  welcome_keeps_tokens :
      (salt now : ℕ) (user : Option User) (device_id : Text) (db : AuthDb)
      → ((welcome_back hashing jwt salt now user device_id db).1.kakao_tokens ≡ db.kakao_tokens)
        × ((welcome_back hashing jwt salt now user device_id db).1.phone_tokens ≡ db.phone_tokens)
  unfolding welcome_back restore_scheduled_deletion
  welcome_keeps_tokens salt now none device_id db = (refl, refl)
  welcome_keeps_tokens salt now (some u) device_id db =
      issue_keeps_tokens salt now u device_id (restore_scheduled_deletion u.user_id now db).1

  kakao_user_reads :
      (id salt : ℕ) (input : KakaoSignupInput) (g : KakaoGrant) (db : AuthDb)
      → (kakao_user hashing jwt id salt input g db).1 ≡ db
  unfolding kakao_user
  kakao_user_reads id salt input g db = ground arith

  pub without_phone :
      (id salt now : ℕ) (input : KakaoSignupInput) (device_id : Text) (db : AuthDb) (s : Session)
      (t : SingleUse KakaoGrant)
      → (kakao_signup_without_phone hashing jwt id salt now input device_id db).0 ≡ ok s
      → find? (is_usable (sha256 input.kakao_token) now) db.kakao_tokens ≡ some t
      → ((kakao_signup_without_phone hashing jwt id salt now input device_id db).1.kakao_tokens
          ≡ used_up (sha256 input.kakao_token) now db.kakao_tokens)
        × ((kakao_signup_without_phone hashing jwt id salt now input device_id db).1.phone_tokens
            ≡ db.phone_tokens)
  unfolding kakao_signup_without_phone
  without_phone id salt now input device_id db s t h p =
      let reads = kakao_user_reads id salt input t.grant db in
      elim (Option-cases t.grant.user_id) [
        | inl q ↦ elim (Result-cases (kakao_user hashing jwt id salt input t.grant db).0) [
          | inl (new, r) ↦
              let created =
                create_kakao_user_with_token new t.grant.provider_user_id (sha256 input.kakao_token)
                  now db in
              elim (Result-cases created.0) [
                | inl (u, c) ↦
                    let uses =
                      new_user_uses new t.grant.provider_user_id (sha256 input.kakao_token) now
                        db in
                    let keeps = issue_keeps_tokens salt now u device_id created.1 in
                    (ground (arith, reads, uses, keeps), ground (arith, reads, uses, keeps))
                | inr (e, c) ↦ (ground (arith, reads), ground (arith, reads))
              ]
          | inr (e, r) ↦ (ground arith, ground arith)
        ]
        | inr (u, q) ↦
            let consumed = consume_kakao_token_for_user u (sha256 input.kakao_token) now db in
            elim (Result-cases consumed.0) [
              | inl (found, c) ↦
                  let uses = for_user_uses u (sha256 input.kakao_token) now db in
                  let keeps = welcome_keeps_tokens salt now found device_id consumed.1 in
                  (ground (arith, uses, keeps), ground (arith, uses, keeps))
              | inr (e, c) ↦ (ground arith, ground arith)
            ]
      ]

  -- With a phone, for a user that is not there yet.
  new_user_with_phone :
      (id salt now : ℕ) (input : KakaoSignupInput) (phone_token device_id : Text) (db : AuthDb)
      (s : Session) (v : SingleUse PhoneGrant) (t : SingleUse KakaoGrant)
      → (kakao_signup_with_phone hashing jwt id salt now input phone_token device_id db).0 ≡ ok s
      → find? (is_usable (sha256 phone_token) now) db.phone_tokens ≡ some v
      → find? (is_usable (sha256 input.kakao_token) now) db.kakao_tokens ≡ some t
      → t.grant.user_id ≡ none
      → ((kakao_signup_with_phone hashing jwt id salt now input phone_token device_id
            db).1.kakao_tokens
          ≡ used_up (sha256 input.kakao_token) now db.kakao_tokens)
        × ((kakao_signup_with_phone hashing jwt id salt now input phone_token device_id
              db).1.phone_tokens
            ≡ used_up (sha256 phone_token) now db.phone_tokens)
  unfolding kakao_signup_with_phone require_phone_token
  new_user_with_phone id salt now input phone_token device_id db s v t h p q n =
      elim (Result-cases (kakao_user hashing jwt id salt input t.grant db).0) [
        | inl (new, r) ↦
            let created =
              create_kakao_phone_user_with_tokens new v.grant.phone_e164 t.grant.provider_user_id
                (sha256 phone_token) (sha256 input.kakao_token) now db in
            elim (Result-cases created.0) [
              | inl (u, c) ↦
                  let uses =
                    new_phone_user_uses new v.grant.phone_e164 t.grant.provider_user_id
                      (sha256 phone_token) (sha256 input.kakao_token) now db in
                  let keeps = issue_keeps_tokens salt now u device_id created.1 in
                  (
                    ground (arith, kakao_user_reads id salt input t.grant db, uses, keeps),
                    ground (arith, kakao_user_reads id salt input t.grant db, uses, keeps),
                  )
              | inr (e, c) ↦
                  let reads = kakao_user_reads id salt input t.grant db in
                  (ground (arith, reads), ground (arith, reads))
            ]
        | inr (e, r) ↦ (ground arith, ground arith)
      ]

  known_user_with_phone :
      (id salt now : ℕ) (input : KakaoSignupInput) (phone_token device_id : Text) (db : AuthDb)
      (s : Session) (v : SingleUse PhoneGrant) (t : SingleUse KakaoGrant) (user_id : ℕ)
      → (kakao_signup_with_phone hashing jwt id salt now input phone_token device_id db).0 ≡ ok s
      → find? (is_usable (sha256 phone_token) now) db.phone_tokens ≡ some v
      → find? (is_usable (sha256 input.kakao_token) now) db.kakao_tokens ≡ some t
      → t.grant.user_id ≡ some user_id
      → ((kakao_signup_with_phone hashing jwt id salt now input phone_token device_id
            db).1.kakao_tokens
          ≡ used_up (sha256 input.kakao_token) now db.kakao_tokens)
        × ((kakao_signup_with_phone hashing jwt id salt now input phone_token device_id
              db).1.phone_tokens
            ≡ used_up (sha256 phone_token) now db.phone_tokens)
  unfolding kakao_signup_with_phone require_phone_token
  known_user_with_phone id salt now input phone_token device_id db s v t user_id h p q n =
      elim (Option-cases (find? (is_user user_id) db.users)) [
        | inl r ↦ (ground arith, ground arith)
        | inr (user, r) ↦
            let attached =
              attach_phone_with_tokens user.user_id v.grant.phone_e164 (sha256 phone_token)
                (sha256 input.kakao_token) now db in
            elim (Result-cases attached.0) [
              | inl (found, c) ↦
                  let uses =
                    attach_uses user.user_id v.grant.phone_e164 (sha256 phone_token)
                      (sha256 input.kakao_token) now db in
                  let keeps = welcome_keeps_tokens salt now found device_id attached.1 in
                  (ground (arith, uses, keeps), ground (arith, uses, keeps))
              | inr (e, c) ↦ (ground arith, ground arith)
            ]
      ]

  pub with_phone :
      (id salt now : ℕ) (input : KakaoSignupInput) (phone_token device_id : Text) (db : AuthDb)
      (s : Session) (v : SingleUse PhoneGrant) (t : SingleUse KakaoGrant)
      → (kakao_signup_with_phone hashing jwt id salt now input phone_token device_id db).0 ≡ ok s
      → find? (is_usable (sha256 phone_token) now) db.phone_tokens ≡ some v
      → find? (is_usable (sha256 input.kakao_token) now) db.kakao_tokens ≡ some t
      → ((kakao_signup_with_phone hashing jwt id salt now input phone_token device_id
            db).1.kakao_tokens
          ≡ used_up (sha256 input.kakao_token) now db.kakao_tokens)
        × ((kakao_signup_with_phone hashing jwt id salt now input phone_token device_id
              db).1.phone_tokens
            ≡ used_up (sha256 phone_token) now db.phone_tokens)
  with_phone id salt now input phone_token device_id db s v t h p q =
      elim (Option-cases t.grant.user_id) [
        | inl n ↦ new_user_with_phone id salt now input phone_token device_id db s v t h p q n
        | inr (u, n) ↦
            known_user_with_phone id salt now input phone_token device_id db s v t u h p q n
      ]
