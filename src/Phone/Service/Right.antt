-- ===== src/Phone/Service/Right.antt =====
-- The code in `verifyPhoneCode` of src/modules/phone/phone.service.ts.
use chattea_be.Prelude.{
  ℕ, ◌≡◌, inl, inr, Bool, true, ◌&&◌, Option, none, some, List, [], ◌∷◌, arith, find?, find?-holds,
  any, Option-cases,
}
use chattea_be.Prelude.Text.{Text, codes}
use chattea_be.Prelude.Action.{is_ok, Result-cases}
use chattea_be.Phone.Types.{Verification, PhoneDb}
use chattea_be.Phone.Repository.{can_claim, claim_verification_attempt, update_returning}
use chattea_be.Phone.Number.{normalize_korean_phone}
use chattea_be.Phone.Service.{
  Hashing, peppered, get_usable_verification, try_code, verify_phone_code,
}

-- A row that a search finds is in the table.
any-of_found :
    {A : Type 0} (p q : A → Bool) (xs : List A) (x : A)
    → find? p xs ≡ some x
    → q x ≡ true
    → any q xs ≡ true
unfolding find? any
any-of_found p q [] x h good = ground arith
any-of_found p q (y ∷ xs) x h good = ground (arith, any-of_found p q xs x)

-- The purposes that verify a phone.
abbrev pub verifying : List Text
verifying = codes "signup" ∷ codes "login" ∷ []

module _ (hashing : Hashing) (pepper : Text) where
  -- A row with the right code for the phone, which can be claimed.
  abbrev pub is_right : Text → Text → ℕ → List Verification → Verification → Bool
  is_right phone code now vs w =
      can_claim w.id phone verifying now vs w
      && hashing.compare (peppered pepper phone code) w.code_hash

  right-try_code :
      (v : Verification) (phone code : Text) (now : ℕ) (db : PhoneDb)
      → is_ok (try_code hashing pepper v phone code verifying now db).0 ≡ true
      → any (is_right phone code now db.verifications) db.verifications ≡ true
  unfolding try_code claim_verification_attempt update_returning
  right-try_code v phone code now db h =
      let p = can_claim v.id phone verifying now db.verifications in
      elim (Option-cases (find? p db.verifications)) [
        | inl e ↦ ground arith
        | inr (w, e) ↦
            any-of_found p (is_right phone code now db.verifications) db.verifications w e
              (ground (arith, find?-holds p db.verifications w e))
      ]

  usable-keeps :
      (phone : Text) (purpose : Option Text) (db : PhoneDb)
      → (get_usable_verification phone purpose db).1 ≡ db
  unfolding get_usable_verification
  usable-keeps phone purpose db = ground arith

  -- When a code verifies a number, the table held, for the number's normal form, a code that was
  -- the latest of the phone, not verified, not expired, sent for signing up or logging in and
  -- tried less than five times, and the code that was given is the one it was made from, by the
  -- hash's own comparison.
  pub verified_code_was_right :
      (number phone code : Text) (now : ℕ) (db : PhoneDb)
      → normalize_korean_phone number ≡ some phone
      → is_ok (verify_phone_code hashing pepper number code now db).0 ≡ true
      → any (is_right phone code now db.verifications) db.verifications ≡ true
  unfolding verify_phone_code
  verified_code_was_right number phone code now db e h =
      elim (Result-cases (get_usable_verification phone none db).0) [
        | inl (v, g) ↦
            ground (arith, usable-keeps phone none db, right-try_code v phone code now db)
        | inr (x, g) ↦ ground (arith, usable-keeps phone none db)
      ]
