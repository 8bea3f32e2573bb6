-- ===== src/Phone/Repository.antt =====
-- src/modules/phone/phone.repository.ts. `now` is the database's clock in milliseconds; the
-- advisory locks on the phone and the address make a reservation one step.
pub mod Calls
pub mod Tries
pub mod Quota
mod Tests
use chattea_be.Prelude.{
  ℕ, Bool, true, false, not, ◌&&◌, ◌||◌, Option, none, some, List, [], ◌∷◌, ◌++◌, ◌+◌, ◌-◌, ◌*◌,
  ltb, leb, ◌==◌, if◌then◌else◌, find?, any, count, update_where, delete_where,
}
use chattea_be.Prelude.Text.{Text, codes, text_eq, member}
use chattea_be.Prelude.Action.{Action, pure, gets, transaction, ◌>>=◌, ◌>>◌, modify, or_throw}
use chattea_be.Phone.Types.{
  Verification, PhoneUser, RefreshToken, PhoneDb, PhoneError, password_reset_user_update_failed,
  Reservation, reserved, retry_too_soon, phone_limit, ip_limit, ReserveInput,
}

abbrev pub Phone : Type 0 → Type 0
Phone A = Action PhoneError PhoneDb A

-- ORDER BY "createdAt" DESC, id DESC
abbrev pub is_newer : Verification → Verification → Bool
is_newer a b = ltb b.created_at a.created_at || (a.created_at == b.created_at && ltb b.id a.id)

abbrev pub is_of_phone : Text → Verification → Bool
is_of_phone phone v = text_eq v.phone_e164 phone

unfoldable pub latest : Text → List Verification → Option Verification
latest phone [] = none
latest phone (v ∷ rest) =
    let later = latest phone rest in
    if is_of_phone phone v
    then some (elim later [ none ↦ v | some w ↦ if is_newer w v then w else v ])
    else later

-- NOT EXISTS a newer code for the same phone
abbrev pub is_latest : List Verification → Verification → Bool
is_latest vs v = not (any (λ w. text_eq w.phone_e164 v.phone_e164 && is_newer w v) vs)

abbrev pub pending : Text
pending = codes "pending"

abbrev pub hour_ms : ℕ
hour_ms = 60 * 60 * 1000

-- `createdAt > since` for `since = now - hour`
abbrev pub is_recent : ℕ → Verification → Bool
is_recent now v = ltb now (v.created_at + hour_ms)

abbrev pub of_phone_recently : Text → ℕ → Verification → Bool
of_phone_recently phone now v = is_of_phone phone v && is_recent now v

abbrev pub of_ip_recently : Text → ℕ → Verification → Bool
of_ip_recently ip now v = text_eq v.request_ip_hash ip && is_recent now v

-- `latest && now - latest.createdAt < cooldownMs`
abbrev pub is_too_soon : ℕ → ℕ → Option Verification → Bool
is_too_soon now cooldown none = false
is_too_soon now cooldown (some v) = ltb now (v.created_at + cooldown)

-- A row that `reserve_verification` adds.
abbrev pub reservation_row : ℕ → ℕ → ReserveInput → Verification
reservation_row id now input = record {
  id = id;
  phone_e164 = input.phone_e164;
  code_hash = pending;
  purpose = input.purpose;
  expires_at = now;
  is_verified = false;
  attempt_count = 0;
  request_ip_hash = input.request_ip_hash;
  user_agent_hash = input.user_agent_hash;
  created_at = now;
}

unfoldable pub reserve_verification : ℕ → ℕ → ReserveInput → Phone Reservation
reserve_verification id now input = transaction do
  last ← gets (λ db. latest input.phone_e164 db.verifications)
  phone_requests ← gets (λ db. count (of_phone_recently input.phone_e164 now) db.verifications)
  ip_requests ← gets (λ db. count (of_ip_recently input.request_ip_hash now) db.verifications)
  if is_too_soon now input.cooldown_ms last
      then pure retry_too_soon
      else if leb input.phone_limit phone_requests
      then pure phone_limit
      else if leb input.ip_limit ip_requests
      then pure ip_limit
      else (do
        modify λ db. record db {
          verifications = db.verifications ++ reservation_row id now input ∷ [];
        }
        pure (reserved (reservation_row id now input)))

-- UPDATE … SET f WHERE p RETURNING *, on rows with distinct ids.
unfoldable pub update_returning :
    (List Verification → Verification → Bool)
    → (Verification → Verification)
    → Phone (Option Verification)
update_returning p f = do
  row ← gets (λ db. find? (p db.verifications) db.verifications)
  modify λ db. record db { verifications = update_where (p db.verifications) f db.verifications }
  pure (elim row [ none ↦ none | some v ↦ some (f v) ])

abbrev pub can_activate : ℕ → List Verification → Verification → Bool
can_activate id vs v = v.id == id && text_eq v.code_hash pending && is_latest vs v

unfoldable pub activate_verification : ℕ → Text → ℕ → ℕ → Phone (Option Verification)
activate_verification id code_hash ttl_ms now =
    update_returning (can_activate id)
      (λ v. record v { code_hash = code_hash; expires_at = now + ttl_ms })

unfoldable pub delete_verification : ℕ → Phone Unit
delete_verification id =
    modify λ db. record db { verifications = delete_where (λ v. v.id == id) db.verifications }

abbrev pub can_claim : ℕ → Text → List Text → ℕ → List Verification → Verification → Bool
can_claim id phone purposes now vs v =
    v.id == id
    && is_of_phone phone v
    && member v.purpose purposes
    && not v.is_verified
    && ltb now v.expires_at
    && ltb v.attempt_count 5
    && is_latest vs v

abbrev pub one_more_try : Verification → Verification
one_more_try v = record v { attempt_count = v.attempt_count + 1 }

unfoldable pub claim_verification_attempt : ℕ → Text → List Text → ℕ → Phone (Option Verification)
claim_verification_attempt id phone purposes now =
    update_returning (can_claim id phone purposes now) one_more_try

abbrev pub set_verified : Verification → Verification
set_verified v = record v { is_verified = true }

abbrev pub can_verify : ℕ → ℕ → List Verification → Verification → Bool
can_verify id now vs v =
    v.id == id
    && not v.is_verified
    && ltb now v.expires_at
    && ltb 0 v.attempt_count
    && is_latest vs v

unfoldable pub mark_verified : ℕ → ℕ → Phone (Option Verification)
mark_verified id now = update_returning (can_verify id now) set_verified

abbrev pub has_phone : Text → PhoneUser → Bool
has_phone phone u = elim u.phone [ none ↦ false | some p ↦ text_eq p phone ]

abbrev pub is_user : ℕ → PhoneUser → Bool
is_user id u = u.user_id == id

abbrev pub can_reset : ℕ → Text → ℕ → List Verification → Verification → Bool
can_reset id phone now vs v =
    can_verify id now vs v && is_of_phone phone v && text_eq v.purpose (codes "password_reset")

pub reset_password_with_verification : ℕ → Text → Text → ℕ → Phone (Option PhoneUser)
reset_password_with_verification id phone password now = transaction do
  locked ← gets (λ db. find? (has_phone phone) db.users)
  elim locked [
    | none ↦ pure none
    | some u ↦ do
      verified ← update_returning (can_reset id phone now) set_verified
      elim verified [
        | none ↦ pure none
        | some v ↦ do
          row ← gets (λ db. find? (is_user u.user_id) db.users)
          found ← or_throw row password_reset_user_update_failed
          modify λ db. record db {
            users =
                update_where (is_user u.user_id) (λ x. record x { password = password }) db.users;
            refresh_tokens = delete_where (λ t. t.user_id == u.user_id) db.refresh_tokens;
          }
          pure (some (record found { password = password }))
      ]
  ]
