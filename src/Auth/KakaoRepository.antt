-- ===== src/Auth/KakaoRepository.antt =====
-- Kakao in src/modules/auth/auth.repository.ts: the tokens of Kakao sign-ups, and the transactions
-- that use them up.
use chattea_be.Prelude.{
  ℕ, not, ◌&&◌, Option, none, some, [], ◌∷◌, ◌++◌, if◌then◌else◌, find?, any, update_where, is_some,
}
use chattea_be.Prelude.Text.{Text, codes, text_eq}
use chattea_be.Prelude.Action.{pure, gets, transaction, ◌>>=◌, ◌>>◌, modify, throw_if}
use chattea_be.Auth.Types.{
  User, SingleUse, KakaoGrant, phone_token_consume_failed, kakao_token_consume_failed,
  unique_violation,
}
use chattea_be.Auth.Input.{before_at}
use chattea_be.Auth.Repository.{
  Auth, consume_phone_token, consume_kakao_token, is_user, has_phone, NewUser, new_user,
  insert_user, insert_identity, find_user,
}

-- `tokenHash` is the primary key.
unfoldable pub create_kakao_token : SingleUse KakaoGrant → Auth Unit
create_kakao_token t = do
  taken ← gets (λ db. any (λ u. text_eq u.token_hash t.token_hash) db.kakao_tokens)
  throw_if taken unique_violation
  modify (λ db. record db { kakao_tokens = db.kakao_tokens ++ t ∷ [] })

-- UPDATE … SET phone, which is unique.
unfoldable pub attach_phone : ℕ → Text → Auth (Option User)
attach_phone user_id phone = do
  user ← gets (λ db. find? (is_user user_id) db.users)
  taken ← gets (λ db. any (λ u. not (is_user user_id u) && has_phone phone u) db.users)
  throw_if (is_some user && taken) unique_violation
  modify λ db. record db {
    users = update_where (is_user user_id) (λ u. record u { phone = some phone }) db.users;
  }
  pure (elim user [ none ↦ none | some u ↦ some (record u { phone = some phone }) ])

-- Both tokens, or a throw.
unfoldable pub consume_both : Text → Text → ℕ → Auth Unit
consume_both phone_hash kakao_hash now = do
  phone_token ← consume_phone_token phone_hash now
  kakao_token ← consume_kakao_token kakao_hash now
  throw_if (not (is_some phone_token)) phone_token_consume_failed
  throw_if (not (is_some kakao_token)) kakao_token_consume_failed

unfoldable pub attach_phone_with_tokens : ℕ → Text → Text → Text → ℕ → Auth (Option User)
attach_phone_with_tokens user_id phone phone_hash kakao_hash now =
    transaction do consume_both phone_hash kakao_hash now; attach_phone user_id phone

unfoldable pub consume_kakao_token_for_user : ℕ → Text → ℕ → Auth (Option User)
consume_kakao_token_for_user user_id hash now = transaction do
  token ← consume_kakao_token hash now
  throw_if (not (is_some token)) kakao_token_consume_failed
  find_user user_id

unfoldable pub create_kakao_user : NewUser → Option Text → Text → Auth User
create_kakao_user input phone provider_user_id = do
  user ← insert_user (new_user input phone)
  insert_identity input.user_id provider_user_id
  pure user

-- `input.email.split("@")[0] || "kakao"`
abbrev pub name_of_email : Text → Text
name_of_email email = let name = before_at email in if text_eq name [] then codes "kakao" else name

unfoldable pub create_kakao_phone_user : NewUser → Text → Text → Auth User
create_kakao_phone_user input phone provider_user_id = transaction (
    create_kakao_user (record input { user_name = name_of_email input.email }) (some phone)
      provider_user_id)

unfoldable pub create_kakao_user_with_token : NewUser → Text → Text → ℕ → Auth User
create_kakao_user_with_token input provider_user_id hash now = transaction do
  token ← consume_kakao_token hash now
  throw_if (not (is_some token)) kakao_token_consume_failed
  create_kakao_user input none provider_user_id

unfoldable pub create_kakao_phone_user_with_tokens :
    NewUser → Text → Text → Text → Text → ℕ → Auth User
create_kakao_phone_user_with_tokens input phone provider_user_id phone_hash kakao_hash now =
    transaction do
      consume_both phone_hash kakao_hash now
      create_kakao_user input (some phone) provider_user_id
