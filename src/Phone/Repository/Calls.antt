-- ===== src/Phone/Repository/Calls.antt =====
-- The statements of the repository as calls, and totals over the codes that they write.
use chattea_be.Prelude.{
  ℕ, ◌≡◌, ◌≤◌, Bool, true, false, not, ◌&&◌, Option, some, List, [], ◌∷◌, ◌++◌, ◌+◌, ◌-◌, suc,
  arith, ◌==◌, if◌then◌else◌, find?, all, is_some, update_where, delete_where,
}
use chattea_be.Prelude.Text.{Text}
use chattea_be.Prelude.Action.{Result, ok, err}
use chattea_be.Phone.Types.{Verification, PhoneDb, PhoneUser, PhoneError, ReserveInput}
use chattea_be.Phone.Repository.{
  reserve_verification, activate_verification, delete_verification, claim_verification_attempt,
  mark_verified, reset_password_with_verification,
}

-- One statement of the repository, as it reaches the database.
pub data Call : Type 0 where
  reserve : ℕ → ℕ → ReserveInput → Call
  activate : ℕ → Text → ℕ → ℕ → Call
  delete : ℕ → Call
  claim : ℕ → Text → List Text → ℕ → Call
  verify : ℕ → ℕ → Call
  reset : ℕ → Text → Text → ℕ → Call

unfoldable pub call : Call → PhoneDb → PhoneDb
call (reserve id now input) db = (reserve_verification id now input db).1
call (activate id hash ttl now) db = (activate_verification id hash ttl now db).1
call (delete id) db = (delete_verification id db).1
call (claim id phone purposes now) db = (claim_verification_attempt id phone purposes now db).1
call (verify id now) db = (mark_verified id now db).1
call (reset id phone password now) db =
    (reset_password_with_verification id phone password now db).1

abbrev pub granted : Result PhoneError (Option Verification) × PhoneDb → Bool
granted (ok r, db) = is_some r
granted (err e, db) = false

abbrev pub granted_user : Result PhoneError (Option PhoneUser) × PhoneDb → Bool
granted_user (ok r, db) = is_some r
granted_user (err e, db) = false

-- A total over the rows of the table.
unfoldable pub total : (Verification → ℕ) → List Verification → ℕ
total m [] = 0
total m (v ∷ vs) = m v + total m vs

module _ (m : Verification → ℕ) where
  pub total-snoc :
      (vs : List Verification) (v : Verification) → total m (vs ++ v ∷ []) ≡ total m vs + m v
  unfolding total
  total-snoc [] v = omega arith
  total-snoc (w ∷ vs) v = omega (arith, total-snoc vs v)

  pub total-delete :
      (p : Verification → Bool) (vs : List Verification) → total m (delete_where p vs) ≤ total m vs
  unfolding total delete_where
  total-delete p [] = omega arith
  total-delete p (v ∷ vs) = ground (arith, total-delete p vs)

  module _ (p : Verification → Bool) (f : Verification → Verification) where
    pub total-update :
        ((v : Verification) → p v ≡ true → m (f v) ≤ m v)
        → (vs : List Verification) → total m (update_where p f vs) ≤ total m vs
    unfolding total update_where
    total-update less [] = omega arith
    total-update less (v ∷ vs) = ground (arith, less v, total-update less vs)

    -- When a row is found, an update that makes each row smaller makes the total smaller.
    pub total-update_found :
        ((v : Verification) → p v ≡ true → suc (m (f v)) ≤ m v)
        → (vs : List Verification) (w : Verification) → find? p vs ≡ some w
        → suc (total m (update_where p f vs)) ≤ total m vs
    unfolding total update_where find?
    total-update_found less [] w h = ground arith
    total-update_found less (v ∷ vs) w h = ground (
      arith,
      less v,
      total-update (λ x e. omega (arith, less x e)) vs,
      total-update_found less vs w,
    )

-- The tries that a row of a code leaves, and whether the code can still be used.
abbrev pub tries_of : ℕ → Verification → ℕ
tries_of id v = if v.id == id then 5 - v.attempt_count else 0

abbrev pub uses_of : ℕ → Verification → ℕ
uses_of id v = if v.id == id && not v.is_verified then 1 else 0

abbrev pub tries_left : ℕ → PhoneDb → ℕ
tries_left id db = total (tries_of id) db.verifications

abbrev pub uses_left : ℕ → PhoneDb → ℕ
uses_left id db = total (uses_of id) db.verifications

-- Whether a call is a granted try of the code, or uses it up.
unfoldable pub is_try : ℕ → Call → PhoneDb → Bool
is_try id (claim i phone purposes now) db =
    i == id && granted (claim_verification_attempt i phone purposes now db)
is_try id _ db = false

unfoldable pub is_use : ℕ → Call → PhoneDb → Bool
is_use id (verify i now) db = i == id && granted (mark_verified i now db)
is_use id (reset i phone password now) db =
    i == id && granted_user (reset_password_with_verification i phone password now db)
is_use id _ db = false

-- A reservation takes a new id.
abbrev pub is_other : ℕ → Call → Bool
is_other id (reserve i now input) = not (i == id)
is_other id _ = true

abbrev pub IsOther : ℕ → List Call → Type 0
IsOther id cs = all (is_other id) cs ≡ true

unfoldable pub run : List Call → PhoneDb → PhoneDb
run [] db = db
run (c ∷ cs) db = run cs (call c db)

-- How many of the calls fulfil a test, each at the database it meets.
unfoldable pub times : (Call → PhoneDb → Bool) → List Call → PhoneDb → ℕ
times test [] db = 0
times test (c ∷ cs) db = (if test c db then 1 else 0) + times test cs (call c db)
