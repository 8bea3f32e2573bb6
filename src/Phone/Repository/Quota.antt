-- ===== src/Phone/Repository/Quota.antt =====
-- How often codes are reserved.
use chattea_be.Prelude.{
  ℕ, ◌≡◌, refl, ◌≤◌, ◌⊎◌, inl, inr, Bool, true, false, not, ◌&&◌, ◌||◌, List, [], ◌∷◌, ◌++◌, ◌+◌,
  arith, leb, all, all-snoc, count, count-snoc, Option-cases,
}
use chattea_be.Prelude.Text.{Text, text_eq}
use chattea_be.Phone.Types.{Verification, PhoneDb, ReserveInput}
use chattea_be.Phone.Repository.{
  latest, is_of_phone, of_phone_recently, of_ip_recently, is_too_soon, reserve_verification,
  reservation_row,
}

-- What a reservation leaves.
reserve-cases :
    (id now : ℕ) (input : ReserveInput) (db : PhoneDb)
    → ((reserve_verification id now input db).1 ≡ db)
      ⊎ (is_too_soon now input.cooldown_ms (latest input.phone_e164 db.verifications) ≡ false)
        × (leb input.phone_limit (count (of_phone_recently input.phone_e164 now) db.verifications)
            ≡ false)
        × (leb input.ip_limit (count (of_ip_recently input.request_ip_hash now) db.verifications)
            ≡ false)
        × ((reserve_verification id now input db).1
            ≡ record db { verifications = db.verifications ++ reservation_row id now input ∷ [] })
unfolding reserve_verification
reserve-cases id now input db = ground arith

-- No reservation takes the codes of a phone, or of an address, in the hour before it above the
-- limit.
pub quotas_hold :
    (id now : ℕ) (input : ReserveInput) (db : PhoneDb)
    → count (of_phone_recently input.phone_e164 now) db.verifications ≤ input.phone_limit
    → count (of_ip_recently input.request_ip_hash now) db.verifications ≤ input.ip_limit
    → let db' = (reserve_verification id now input db).1 in
      (count (of_phone_recently input.phone_e164 now) db'.verifications ≤ input.phone_limit)
      × (count (of_ip_recently input.request_ip_hash now) db'.verifications ≤ input.ip_limit)
quotas_hold id now input db hp hi = elim (reserve-cases id now input db) [
  | inl same ↦ rw same (hp, hi)
  | inr (_, p, i, added) ↦
      let row = reservation_row id now input in
      rw added (
        ground (arith, count-snoc (of_phone_recently input.phone_e164 now) db.verifications row),
        ground (arith, count-snoc (of_ip_recently input.request_ip_hash now) db.verifications row),
      )
]

-- A later code of the same phone comes after the cool-down.
abbrev pub is_spaced : ℕ → Verification → Verification → Bool
is_spaced cooldown later v =
    not (text_eq v.phone_e164 later.phone_e164) || leb (v.created_at + cooldown) later.created_at

unfoldable pub spaced : ℕ → List Verification → Bool
spaced cooldown [] = true
spaced cooldown (v ∷ vs) = all (λ w. is_spaced cooldown w v) vs && spaced cooldown vs

spaced-snoc :
    (cooldown : ℕ) (w : Verification) (vs : List Verification)
    → spaced cooldown vs ≡ true
    → all (is_spaced cooldown w) vs ≡ true
    → spaced cooldown (vs ++ w ∷ []) ≡ true
unfolding spaced
spaced-snoc cooldown w [] h fits = refl
spaced-snoc cooldown w (v ∷ vs) h fits =
    ground (arith, all-snoc (λ x. is_spaced cooldown x v) vs w, spaced-snoc cooldown w vs)

latest-bounds :
    (phone : Text) (now cooldown : ℕ) (vs : List Verification)
    → is_too_soon now cooldown (latest phone vs) ≡ false
    → all (λ v. not (is_of_phone phone v) || leb (v.created_at + cooldown) now) vs ≡ true
unfolding latest
latest-bounds phone now cooldown [] h = refl
latest-bounds phone now cooldown (v ∷ vs) h = elim (Option-cases (latest phone vs)) [
  | inl e ↦ ground (arith, latest-bounds phone now cooldown vs)
  | inr (w, e) ↦ ground (arith, latest-bounds phone now cooldown vs)
]

-- When the codes of each phone, in the order they were stored, are a cool-down apart, they still
-- are after a reservation, granted or refused.
pub codes_are_spaced :
    (id now : ℕ) (input : ReserveInput) (db : PhoneDb)
    → spaced input.cooldown_ms db.verifications ≡ true
    → spaced input.cooldown_ms (reserve_verification id now input db).1.verifications ≡ true
codes_are_spaced id now input db h = elim (reserve-cases id now input db) [
  | inl same ↦ rw same h
  | inr (soon, _, _, added) ↦ rw added (
      spaced-snoc input.cooldown_ms (reservation_row id now input) db.verifications h
        (latest-bounds input.phone_e164 now input.cooldown_ms db.verifications soon))
]
