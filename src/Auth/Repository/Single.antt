-- ===== src/Auth/Repository/Single.antt =====
-- How often the calls of src/modules/auth/auth.repository.ts use a token.
use chattea_be.Prelude.{
  ℕ, ◌≡◌, refl, ◌≤◌, ◌+◌, Bool, true, false, not, ◌&&◌, Option, List, [], ◌∷◌, arith, if◌then◌else◌,
  find?, any, count, update_where, is_some, count-snoc, any-snoc,
}
use chattea_be.Prelude.Text.{Text, text_eq, text_eq_iff, text_eq_refl}
use chattea_be.Prelude.Action.{Result, ok, err, is_ok}
use chattea_be.Auth.Types.{SingleUse, KakaoGrant, AuthDb, AuthError}
use chattea_be.Auth.Repository.{
  is_usable, use_up, consume_phone_token, consume_kakao_token, NewUser, insert_user,
  insert_identity, signup_with_phone_verification_token,
}
use chattea_be.Auth.KakaoRepository.{
  create_kakao_token, attach_phone, consume_both, attach_phone_with_tokens,
  consume_kakao_token_for_user, create_kakao_user, create_kakao_user_with_token,
  create_kakao_phone_user_with_tokens,
}

module _ {A : Type 0} where
  abbrev pub is_of_hash : Text → SingleUse A → Bool
  is_of_hash h t = text_eq t.token_hash h

  abbrev pub is_unused : Text → SingleUse A → Bool
  is_unused h t = is_of_hash h t && not (is_some t.used_at)

  -- A use of a token takes it from those that are unused.
  use_takes :
      (h hash : Text) (now : ℕ) (ts : List (SingleUse A))
      → (if text_eq hash h && is_some (find? (is_usable hash now) ts) then 1 else 0)
          + count (is_unused h) (update_where (is_usable hash now) (use_up now) ts)
        ≤ count (is_unused h) ts
  unfolding find? count update_where
  use_takes h hash now [] = ground arith
  use_takes h hash now (t ∷ ts) = ground (
    arith,
    use_takes h hash now ts,
    text_eq_iff t.token_hash hash,
    text_eq_iff hash h,
    text_eq_iff t.token_hash h,
  )

  keeps_hash :
      (h hash : Text) (now : ℕ) (ts : List (SingleUse A))
      → any (is_of_hash h) (update_where (is_usable hash now) (use_up now) ts)
        ≡ any (is_of_hash h) ts
  unfolding any update_where
  keeps_hash h hash now [] = refl
  keeps_hash h hash now (t ∷ ts) = ground (arith, keeps_hash h hash now ts)

  unused_are_of_hash :
      (h : Text) (ts : List (SingleUse A)) → count (is_unused h) ts ≤ count (is_of_hash h) ts
  unfolding count
  unused_are_of_hash h [] = omega arith
  unused_are_of_hash h (t ∷ ts) = ground (arith, unused_are_of_hash h ts)

  made_of_count :
      (h : Text) (ts : List (SingleUse A))
      → 1 ≤ count (is_of_hash h) ts
      → any (is_of_hash h) ts ≡ true
  unfolding count any
  made_of_count h [] le = ground arith
  made_of_count h (t ∷ ts) le = ground (arith, made_of_count h ts)

  new_is_other :
      (h : Text) (t : SingleUse A) (ts : List (SingleUse A))
      → any (λ u. text_eq u.token_hash t.token_hash) ts ≡ false
      → any (is_of_hash h) ts ≡ true
      → is_of_hash h t ≡ false
  unfolding any
  new_is_other h t [] new made = ground arith
  new_is_other h t (u ∷ ts) new made = ground (
    arith,
    new_is_other h t ts,
    text_eq_iff u.token_hash h,
    text_eq_iff t.token_hash h,
    text_eq_refl t.token_hash,
  )

-- A call that uses tokens, or that makes one.
pub data Call : Type 0 where
  sign_up : NewUser → Text → ℕ → Call
  use_phone use_kakao : Text → ℕ → Call
  attach : ℕ → Text → Text → Text → ℕ → Call
  use_for_user : ℕ → Text → ℕ → Call
  kakao_user : NewUser → Text → Text → ℕ → Call
  kakao_phone_user : NewUser → Text → Text → Text → Text → ℕ → Call
  new_kakao : SingleUse KakaoGrant → Call

abbrev pub gives : {A : Type 0} → Result AuthError (Option A) → Bool
gives (ok o) = is_some o
gives (err e) = false

-- Whether a call has used a phone token with the hash.
abbrev pub uses_phone : Text → Call → AuthDb → Bool
uses_phone h (sign_up input hash now) db =
    text_eq hash h && gives (signup_with_phone_verification_token input hash now db).0
uses_phone h (use_phone hash now) db = text_eq hash h && gives (consume_phone_token hash now db).0
uses_phone h (attach user phone hash kakao now) db =
    text_eq hash h && is_ok (attach_phone_with_tokens user phone hash kakao now db).0
uses_phone h (kakao_phone_user input phone provider hash kakao now) db =
    text_eq hash h
    && is_ok (create_kakao_phone_user_with_tokens input phone provider hash kakao now db).0
uses_phone h c db = false

-- Whether a call has used a Kakao token with the hash.
abbrev pub uses_kakao : Text → Call → AuthDb → Bool
uses_kakao h (use_kakao hash now) db = text_eq hash h && gives (consume_kakao_token hash now db).0
uses_kakao h (attach user phone hash kakao now) db =
    text_eq kakao h && is_ok (attach_phone_with_tokens user phone hash kakao now db).0
uses_kakao h (use_for_user user kakao now) db =
    text_eq kakao h && is_ok (consume_kakao_token_for_user user kakao now db).0
uses_kakao h (kakao_user input provider kakao now) db =
    text_eq kakao h && is_ok (create_kakao_user_with_token input provider kakao now db).0
uses_kakao h (kakao_phone_user input phone provider hash kakao now) db =
    text_eq kakao h
    && is_ok (create_kakao_phone_user_with_tokens input phone provider hash kakao now db).0
uses_kakao h c db = false

abbrev pub run : Call → AuthDb → AuthDb
run (sign_up input hash now) db = (signup_with_phone_verification_token input hash now db).1
run (use_phone hash now) db = (consume_phone_token hash now db).1
run (use_kakao hash now) db = (consume_kakao_token hash now db).1
run (attach user phone hash kakao now) db =
    (attach_phone_with_tokens user phone hash kakao now db).1
run (use_for_user user kakao now) db = (consume_kakao_token_for_user user kakao now db).1
run (kakao_user input provider kakao now) db =
    (create_kakao_user_with_token input provider kakao now db).1
run (kakao_phone_user input phone provider hash kakao now) db =
    (create_kakao_phone_user_with_tokens input phone provider hash kakao now db).1
run (new_kakao t) db = (create_kakao_token t db).1

phone_step :
    (h : Text) (c : Call) (db : AuthDb)
    → (if uses_phone h c db then 1 else 0) + count (is_unused h) (run c db).phone_tokens
      ≤ count (is_unused h) db.phone_tokens
unfolding signup_with_phone_verification_token consume_phone_token insert_user
    attach_phone_with_tokens consume_both consume_kakao_token attach_phone
    create_kakao_phone_user_with_tokens create_kakao_user insert_identity
    consume_kakao_token_for_user create_kakao_user_with_token create_kakao_token
phone_step h (sign_up input hash now) db = ground (arith, use_takes h hash now db.phone_tokens)
phone_step h (use_phone hash now) db = ground (arith, use_takes h hash now db.phone_tokens)
phone_step h (use_kakao hash now) db = ground arith
phone_step h (attach user phone hash kakao now) db =
    ground (arith, use_takes h hash now db.phone_tokens)
phone_step h (use_for_user user kakao now) db = ground arith
phone_step h (kakao_user input provider kakao now) db = ground arith
phone_step h (kakao_phone_user input phone provider hash kakao now) db =
    ground (arith, use_takes h hash now db.phone_tokens)
phone_step h (new_kakao t) db = ground arith

-- A Kakao token that was made cannot be made again: its hash is the key of the table.
kakao_step :
    (h : Text) (c : Call) (db : AuthDb)
    → any (is_of_hash h) db.kakao_tokens ≡ true
    → ((if uses_kakao h c db then 1 else 0) + count (is_unused h) (run c db).kakao_tokens
        ≤ count (is_unused h) db.kakao_tokens)
      × (any (is_of_hash h) (run c db).kakao_tokens ≡ true)
unfolding signup_with_phone_verification_token consume_phone_token insert_user
    attach_phone_with_tokens consume_both consume_kakao_token attach_phone
    create_kakao_phone_user_with_tokens create_kakao_user insert_identity
    consume_kakao_token_for_user create_kakao_user_with_token create_kakao_token
kakao_step h (sign_up input hash now) db made = (ground arith, ground arith)
kakao_step h (use_phone hash now) db made = (ground arith, ground arith)
kakao_step h (use_kakao kakao now) db made = (
  ground (arith, use_takes h kakao now db.kakao_tokens),
  ground (arith, keeps_hash h kakao now db.kakao_tokens),
)
kakao_step h (attach user phone hash kakao now) db made = (
  ground (arith, use_takes h kakao now db.kakao_tokens),
  ground (arith, keeps_hash h kakao now db.kakao_tokens),
)
kakao_step h (use_for_user user kakao now) db made = (
  ground (arith, use_takes h kakao now db.kakao_tokens),
  ground (arith, keeps_hash h kakao now db.kakao_tokens),
)
kakao_step h (kakao_user input provider kakao now) db made = (
  ground (arith, use_takes h kakao now db.kakao_tokens),
  ground (arith, keeps_hash h kakao now db.kakao_tokens),
)
kakao_step h (kakao_phone_user input phone provider hash kakao now) db made = (
  ground (arith, use_takes h kakao now db.kakao_tokens),
  ground (arith, keeps_hash h kakao now db.kakao_tokens),
)
kakao_step h (new_kakao t) db made = (
  ground (arith, new_is_other h t db.kakao_tokens, count-snoc (is_unused h) db.kakao_tokens t),
  ground (arith, any-snoc (is_of_hash h) db.kakao_tokens t),
)

-- How often a list of calls uses the tokens with a hash.
abbrev pub phone_uses : Text → List Call → AuthDb → ℕ
phone_uses h [] db = 0
phone_uses h (c ∷ cs) db = (if uses_phone h c db then 1 else 0) + phone_uses h cs (run c db)

abbrev pub kakao_uses : Text → List Call → AuthDb → ℕ
kakao_uses h [] db = 0
kakao_uses h (c ∷ cs) db = (if uses_kakao h c db then 1 else 0) + kakao_uses h cs (run c db)

phone_uses_are_unused :
    (h : Text) (cs : List Call) (db : AuthDb)
    → phone_uses h cs db ≤ count (is_unused h) db.phone_tokens
phone_uses_are_unused h [] db = omega arith
phone_uses_are_unused h (c ∷ cs) db =
    omega (arith, phone_step h c db, phone_uses_are_unused h cs (run c db))

kakao_uses_are_unused :
    (h : Text) (cs : List Call) (db : AuthDb)
    → any (is_of_hash h) db.kakao_tokens ≡ true
    → kakao_uses h cs db ≤ count (is_unused h) db.kakao_tokens
kakao_uses_are_unused h [] db made = omega arith
kakao_uses_are_unused h (c ∷ cs) db made =
    let (less, still) = kakao_step h c db made in
    omega (arith, less, kakao_uses_are_unused h cs (run c db) still)

-- Whatever calls come in any order, by whichever users, a phone token and a Kakao token that is in
-- its table are each used by at most one call that succeeds, when the table has one row for its
-- hash.
pub tokens_work_once :
    (phone_hash kakao_hash : Text) (cs : List Call) (db : AuthDb)
    → count (is_of_hash phone_hash) db.phone_tokens ≤ 1
    → count (is_of_hash kakao_hash) db.kakao_tokens ≡ 1
    → (phone_uses phone_hash cs db ≤ 1) × (kakao_uses kakao_hash cs db ≤ 1)
tokens_work_once phone_hash kakao_hash cs db one_phone one_kakao = (
  omega (
    arith,
    one_phone,
    unused_are_of_hash phone_hash db.phone_tokens,
    phone_uses_are_unused phone_hash cs db,
  ),
  omega (
    arith,
    one_kakao,
    unused_are_of_hash kakao_hash db.kakao_tokens,
    kakao_uses_are_unused kakao_hash cs db
        (made_of_count kakao_hash db.kakao_tokens (omega (arith, one_kakao))),
  ),
)
