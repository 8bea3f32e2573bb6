-- ===== src/Phone/Repository/Tries.antt =====
-- How often a code can be tried and used.
use chattea_be.Prelude.{
  ℕ, ◌≡◌, refl, ◌≤◌, ◌⊎◌, inl, inr, Bool, true, false, ◌&&◌, List, [], ◌∷◌, ◌+◌, suc, arith, ◌==◌,
  if◌then◌else◌, find?, any, is_some, Option-cases, Bool-cases, update_where,
}
use chattea_be.Prelude.Text.{Text}
use chattea_be.Phone.Types.{Verification, PhoneDb, ReserveInput}
use chattea_be.Phone.Repository.{
  can_activate, can_claim, can_verify, can_reset, one_more_try, set_verified, update_returning,
  reserve_verification, reservation_row, activate_verification, delete_verification,
  claim_verification_attempt, mark_verified, reset_password_with_verification,
}
use chattea_be.Phone.Repository.Calls.{
  Call, reserve, activate, delete, claim, verify, reset, call, granted_user, total, total-snoc,
  total-delete, total-update, total-update_found, tries_of, uses_of, tries_left, uses_left, is_try,
  is_use, is_other, IsOther, run, times,
}

-- What a password reset does to the codes.
module _ (i : ℕ) (phone password : Text) (now : ℕ) (db : PhoneDb) where
  abbrev pub reset_codes : List Verification
  reset_codes = update_where (can_reset i phone now db.verifications) set_verified db.verifications

  reset_outcome :
      let (r, db') = reset_password_with_verification i phone password now db in
      (db'.verifications ≡ db.verifications) ⊎ (db'.verifications ≡ reset_codes)
  unfolding reset_password_with_verification update_returning
  reset_outcome = ground arith

  reset_granted :
      granted_user (reset_password_with_verification i phone password now db) ≡ true
      → ((reset_password_with_verification i phone password now db).1.verifications ≡ reset_codes)
        × (is_some (find? (can_reset i phone now db.verifications) db.verifications) ≡ true)
  unfolding reset_password_with_verification update_returning
  reset_granted h = (ground arith, ground arith)

  reset-less :
      (m : Verification → ℕ)
      → ((v : Verification)
          → can_reset i phone now db.verifications v ≡ true
          → m (set_verified v) ≤ m v)
      → total m (reset_password_with_verification i phone password now db).1.verifications
        ≤ total m db.verifications
  reset-less m less = elim reset_outcome [
    | inl same ↦ rw same (omega arith)
    | inr used ↦
        rw used (
          total-update m (can_reset i phone now db.verifications) set_verified less
            db.verifications)
  ]

  reset-used :
      granted_user (reset_password_with_verification i phone password now db) ≡ true
      → suc (
          total
            (uses_of i)
            (reset_password_with_verification i phone password now db).1.verifications)
        ≤ total (uses_of i) db.verifications
  reset-used h =
      let p = can_reset i phone now db.verifications in
      let (used, found) = reset_granted h in
      rw used (elim (Option-cases (find? p db.verifications)) [
        | inl e ↦ ground arith
        | inr (w, e) ↦
            total-update_found (uses_of i) p set_verified (λ v k. ground arith) db.verifications w e
      ])

tries-call :
    (id : ℕ) (c : Call) (db : PhoneDb)
    → is_other id c ≡ true
    → (if is_try id c db then 1 else 0) + tries_left id (call c db) ≤ tries_left id db
unfolding call is_try reserve_verification activate_verification delete_verification
    claim_verification_attempt mark_verified update_returning
tries-call id (reserve i now input) db fresh =
    ground (arith, total-snoc (tries_of id) db.verifications (reservation_row i now input))
tries-call id (activate i hash ttl now) db fresh = ground (
  arith,
  total-update (tries_of id) (can_activate i db.verifications)
      (λ v. record v { code_hash = hash; expires_at = now + ttl }) (λ v e. omega arith)
      db.verifications,
)
tries-call id (delete i) db fresh =
    omega (arith, total-delete (tries_of id) (λ v. v.id == i) db.verifications)
tries-call id (claim i phone purposes now) db fresh =
    let p = can_claim i phone purposes now db.verifications in
    elim (Option-cases (find? p db.verifications)) [
      | inl e ↦
          ground (
            arith,
            total-update (tries_of id) p one_more_try (λ v h. ground arith) db.verifications,
          )
      | inr (w, e) ↦ elim (Bool-cases (i == id)) [
        | inl own ↦ ground (
          arith,
          total-update_found (tries_of id) p one_more_try (λ v h. ground arith) db.verifications w
              e,
        )
        | inr other ↦ ground (
          arith,
          total-update (tries_of id) p one_more_try (λ v h. ground arith) db.verifications,
        )
      ]
    ]
tries-call id (verify i now) db fresh = ground (
  arith,
  total-update (tries_of id) (can_verify i now db.verifications) set_verified (λ v e. omega arith)
      db.verifications,
)
tries-call id (reset i phone password now) db fresh =
    omega (arith, reset-less i phone password now db (tries_of id) (λ v h. omega arith))

uses-call :
    (id : ℕ) (c : Call) (db : PhoneDb)
    → is_other id c ≡ true
    → (if is_use id c db then 1 else 0) + uses_left id (call c db) ≤ uses_left id db
unfolding call is_use reserve_verification activate_verification delete_verification
    claim_verification_attempt mark_verified update_returning
uses-call id (reserve i now input) db fresh =
    ground (arith, total-snoc (uses_of id) db.verifications (reservation_row i now input))
uses-call id (activate i hash ttl now) db fresh = ground (
  arith,
  total-update (uses_of id) (can_activate i db.verifications)
      (λ v. record v { code_hash = hash; expires_at = now + ttl }) (λ v e. omega arith)
      db.verifications,
)
uses-call id (delete i) db fresh =
    omega (arith, total-delete (uses_of id) (λ v. v.id == i) db.verifications)
uses-call id (claim i phone purposes now) db fresh = ground (
  arith,
  total-update (uses_of id) (can_claim i phone purposes now db.verifications) one_more_try
      (λ v e. ground arith) db.verifications,
)
uses-call id (verify i now) db fresh =
    let p = can_verify i now db.verifications in
    elim (Option-cases (find? p db.verifications)) [
      | inl e ↦
          ground
            (arith, total-update (uses_of id) p set_verified (λ v h. ground arith) db.verifications)
      | inr (w, e) ↦ elim (Bool-cases (i == id)) [
        | inl own ↦ ground (
          arith,
          total-update_found (uses_of id) p set_verified (λ v h. ground arith) db.verifications w e,
        )
        | inr other ↦
            ground (
              arith,
              total-update (uses_of id) p set_verified (λ v h. ground arith) db.verifications,
            )
      ]
    ]
uses-call id (reset i phone password now) db fresh =
    let less = reset-less i phone password now db (uses_of id) (λ v h. ground arith) in
    elim (Bool-cases
      (i == id && granted_user (reset_password_with_verification i phone password now db))) [
        | inl used ↦ ground (arith, reset-used i phone password now db)
        | inr other ↦ ground (arith, less)
      ]

times_within :
    (test : Call → PhoneDb → Bool) (left : PhoneDb → ℕ) (id : ℕ)
    → ((c : Call) (db : PhoneDb)
        → is_other id c ≡ true
        → (if test c db then 1 else 0) + left (call c db) ≤ left db)
    → (cs : List Call) (db : PhoneDb) → IsOther id cs
    → times test cs db + left (run cs db) ≤ left db
unfolding times run
times_within test left id step [] db fresh = omega arith
times_within test left id step (c ∷ cs) db fresh =
    omega (
      arith,
      step c db (ground arith),
      times_within test left id step cs (call c db) (ground arith),
    )

-- Whatever statements follow, in any order, as long as none reserves the id again, the granted
-- tries of a code and the tries that are left at the end are no more than were left at first.
pub tries_are_bounded :
    (id : ℕ) (cs : List Call) (db : PhoneDb)
    → IsOther id cs
    → times (is_try id) cs db + tries_left id (run cs db) ≤ tries_left id db
tries_are_bounded id = times_within (is_try id) (tries_left id) id (tries-call id)

-- Under the same condition, a code is used, to verify a phone or to reset a password, no oftener
-- than there were rows of its id that are not verified: once, for the one row of an id.
pub code_is_used_once :
    (id : ℕ) (cs : List Call) (db : PhoneDb)
    → IsOther id cs
    → times (is_use id) cs db + uses_left id (run cs db) ≤ uses_left id db
code_is_used_once id = times_within (is_use id) (uses_left id) id (uses-call id)

tries_left-none :
    (id : ℕ) (vs : List Verification)
    → any (λ v. v.id == id) vs ≡ false
    → total (tries_of id) vs ≡ 0
unfolding total any
tries_left-none id [] h = refl
tries_left-none id (v ∷ vs) h = ground (arith, tries_left-none id vs)

uses_left-none :
    (id : ℕ) (vs : List Verification) → any (λ v. v.id == id) vs ≡ false → total (uses_of id) vs ≡ 0
unfolding total any
uses_left-none id [] h = refl
uses_left-none id (v ∷ vs) h = ground (arith, uses_left-none id vs)

left-reserve :
    (id now : ℕ) (input : ReserveInput) (db : PhoneDb)
    → any (λ v. v.id == id) db.verifications ≡ false
    → let db' = (reserve_verification id now input db).1 in
      (tries_left id db' ≤ 5) × (uses_left id db' ≤ 1)
unfolding reserve_verification
left-reserve id now input db new = (
  ground (
    arith,
    tries_left-none id db.verifications new,
    total-snoc (tries_of id) db.verifications (reservation_row id now input),
  ),
  ground (
    arith,
    uses_left-none id db.verifications new,
    total-snoc (uses_of id) db.verifications (reservation_row id now input),
  ),
)

-- After a reservation under a new id, whatever statements follow in any order, as long as none
-- reserves that id again: at most five tries of the code are granted, and it verifies a phone or
-- resets a password at most once.
pub five_tries_one_use :
    (id now : ℕ) (input : ReserveInput) (db : PhoneDb) (cs : List Call)
    → any (λ v. v.id == id) db.verifications ≡ false
    → IsOther id cs
    → let db' = (reserve_verification id now input db).1 in
      (times (is_try id) cs db' ≤ 5) × (times (is_use id) cs db' ≤ 1)
five_tries_one_use id now input db cs new other =
    let db' = (reserve_verification id now input db).1 in
    let left = left-reserve id now input db new in
    (
      omega (arith, left.0, tries_are_bounded id cs db' other),
      omega (arith, left.1, code_is_used_once id cs db' other),
    )
