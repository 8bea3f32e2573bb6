-- ===== src/Phone/Service/Unsent.antt =====
-- The errors of `requestPhoneCode` of src/modules/phone/phone.service.ts.
use chattea_be.Prelude.{
  ℕ, ◌≡◌, refl, ◌⊎◌, inl, inr, Bool, true, false, List, [], ◌∷◌, ◌++◌, arith, ◌==◌, any,
  Option-cases, ◌+◌, update_where, delete_where, find?, none, Bool-cases, ◌≤◌,
}
use chattea_be.Prelude.Text.{Text, codes, member}
use chattea_be.Prelude.Action.{Result, ok, err, is_ok}
use chattea_be.Phone.Types.{
  Verification, PhoneDb, PhoneError, ReserveInput, Reservation, reserved, retry_too_soon,
  phone_limit, ip_limit,
}
use chattea_be.Phone.Repository.{
  can_activate, reservation_row, reserve_verification, activate_verification, delete_verification,
  update_returning,
}
use chattea_be.Phone.Service.{
  Hashing, CodeRequest, reserve_input, purposes, deliver_code, request_phone_code, peppered,
  six_digits,
}
use chattea_be.Phone.Number.{normalize_korean_phone}

-- An update of rows that are deleted next is not seen.
delete-update :
    (p q : Verification → Bool) (f : Verification → Verification)
    → ((x : Verification) → p x ≡ true → q x ≡ true)
    → ((x : Verification) → q (f x) ≡ q x)
    → (vs : List Verification) → delete_where q (update_where p f vs) ≡ delete_where q vs
unfolding delete_where update_where
delete-update p q f inside keep [] = refl
delete-update p q f inside keep (v ∷ vs) =
    ground (arith, inside v, keep v, delete-update p q f inside keep vs)

delete-snoc :
    (q : Verification → Bool) (vs : List Verification) (v : Verification)
    → any q vs ≡ false
    → q v ≡ true
    → delete_where q (vs ++ v ∷ []) ≡ vs
unfolding delete_where any
delete-snoc q [] v h own = ground arith
delete-snoc q (w ∷ vs) v h own = ground (arith, delete-snoc q vs v)

update-none :
    (p : Verification → Bool) (f : Verification → Verification) (vs : List Verification)
    → find? p vs ≡ none
    → update_where p f vs ≡ vs
unfolding find? update_where
update-none p f [] h = refl
update-none p f (v ∷ vs) h = ground (arith, update-none p f vs)

-- The row that a request leaves when it fails and its clean-up fails.
pub record Leftover (r : CodeRequest) (before after : List Verification) : Type 0 where
  pub row : Verification
  pub is_added : after ≡ before ++ row ∷ []
  pub fails_to_clean : r.cleans_up ≡ false
  pub is_own : row.id ≡ r.id
  pub has_no_code : row.code_hash ≡ codes "pending"
  pub has_expired : row.expires_at ≤ r.now

module _ {N : Type 0} (hashing : Hashing) (pepper : Text)
    (send_code : Text → Text → N → Bool × N) where
  deliver-fails :
      (r : CodeRequest) (phone : Text) (row : Verification) (db : PhoneDb) (n : N)
      (vs : List Verification)
      → db.verifications ≡ vs ++ row ∷ []
      → any (λ v. v.id == row.id) vs ≡ false
      → is_ok (deliver_code hashing pepper send_code r phone row (db, n)).0 ≡ false
      → let after = (deliver_code hashing pepper send_code r phone row (db, n)).1.0.verifications in
        ((r.cleans_up ≡ true) × (after ≡ vs)) ⊎ (r.cleans_up ≡ false) × (after ≡ db.verifications)
  unfolding deliver_code activate_verification delete_verification update_returning
  deliver-fails r phone row db n vs e new h =
      let f : Verification → Verification = λ v. record v {
        code_hash = hashing.hash r.salt (peppered pepper phone (six_digits r.code));
        expires_at = r.sent_at + 300000;
      } in
      let q : Verification → Bool = λ v. v.id == row.id in
      elim (Bool-cases r.cleans_up) [
        | inl c ↦ inl (
          c,
          ground (
            arith,
            delete-update (can_activate row.id db.verifications) q f (λ x k. ground arith)
                (λ x. refl) db.verifications,
            delete-snoc q vs row new (ground arith),
          ),
        )
        | inr c ↦ inr (
          c,
          ground (arith, update-none (can_activate row.id db.verifications) f db.verifications),
        )
      ]

  abbrev pub is_reserved : Result PhoneError Reservation → Bool
  is_reserved (err _) = false
  is_reserved (ok (reserved _)) = true
  is_reserved (ok retry_too_soon) = false
  is_reserved (ok phone_limit) = false
  is_reserved (ok ip_limit) = false

  reserve_outcome :
      (id now : ℕ) (input : ReserveInput) (db : PhoneDb)
      → ((reserve_verification id now input db).1 ≡ db)
          × (is_reserved (reserve_verification id now input db).0 ≡ false)
        ⊎ ((reserve_verification id now input db).0 ≡ ok (reserved (reservation_row id now input)))
          × ((reserve_verification id now input db).1.verifications
              ≡ db.verifications ++ reservation_row id now input ∷ [])
  unfolding reserve_verification
  reserve_outcome id now input db = ground arith

  -- A request for a code under a new id that fails, whether it is refused, the message is not sent
  -- or the code is not activated, leaves the codes as they were; or, when its clean-up fails too,
  -- with one more row behind them, which has no code and has expired by the time of the request.
  pub failed_request_leaves_no_code :
      (r : CodeRequest) (db : PhoneDb) (n : N)
      → any (λ v. v.id == r.id) db.verifications ≡ false
      → is_ok (request_phone_code hashing pepper send_code r (db, n)).0 ≡ false
      → let after = (request_phone_code hashing pepper send_code r (db, n)).1.0.verifications in
        (after ≡ db.verifications) ⊎ Leftover r db.verifications after
  unfolding request_phone_code
  failed_request_leaves_no_code r db n new h =
      elim (Option-cases (normalize_korean_phone r.phone)) [
        | inl e ↦ inl (ground arith)
        | inr (phone, e) ↦
            let input = reserve_input hashing pepper send_code r phone in
            let db' = (reserve_verification r.id r.now input db).1 in
            let row = reservation_row r.id r.now input in
            elim (reserve_outcome r.id r.now input db) [
              | inl (same, other) ↦ inl (ground arith)
              | inr (done, added) ↦ elim (Bool-cases (member r.purpose purposes)) [
                | inr p ↦ inl (ground arith)
                | inl p ↦
                    elim (deliver-fails r phone row db' n db.verifications added new
                      (ground arith)) [
                        | inl (c, same) ↦ inl (ground arith)
                        | inr (c, stays) ↦ inr (record {
                          row = row;
                          is_added = ground arith;
                          fails_to_clean = c;
                          is_own = refl;
                          has_no_code = refl;
                          has_expired = omega arith;
                        })
                      ]
              ]
            ]
      ]
