-- ===== src/Phone/Number.antt =====
-- `normalizeKoreanPhone` of src/modules/phone/phone.service.ts.
use chattea_be.Prelude.{
  ℕ, ◌≡◌, refl, inl, inr, Bool, true, false, ◌&&◌, Option, none, some, [], ◌∷◌, arith, leb, ◌==◌,
  if◌then◌else◌, all, length, select, drop, Bool-cases,
}
use chattea_be.Prelude.Text.{Text, codes}

abbrev pub is_digit : ℕ → Bool
is_digit c = leb 48 c && leb c 57

-- `text.startsWith(prefix)`
unfoldable pub starts_with : Text → Text → Bool
starts_with [] s = true
starts_with (a ∷ p) [] = false
starts_with (a ∷ p) (b ∷ s) = a == b && starts_with p s

-- The number in E.164 form; none where the source throws KoreanPhoneOnly. The keep of the
-- digits is `phone.replace(/\D/g, "")`.
unfoldable pub normalize_korean_phone : Text → Option Text
unfolding starts_with
normalize_korean_phone phone =
    let digits = select is_digit phone in
    if starts_with (codes "010") digits && length digits == 11
    then some (43 ∷ 56 ∷ 50 ∷ drop 1 digits)
    else if starts_with (codes "8210") digits && length digits == 12
    then some (43 ∷ digits)
    else none

-- +8210 and eight digits
abbrev pub is_e164 : Text → Bool
is_e164 (p ∷ a ∷ b ∷ c ∷ d ∷ rest) =
    p == 43 && a == 56 && b == 50 && c == 49 && d == 48 && length rest == 8 && all is_digit rest
is_e164 _ = false

all-select : (s : Text) → all is_digit (select is_digit s) ≡ true
unfolding select
all-select [] = refl
all-select (c ∷ s) = ground (arith, all-select s)

select-all : (s : Text) → all is_digit s ≡ true → select is_digit s ≡ s
unfolding select
select-all [] h = refl
select-all (c ∷ s) h = ground (arith, select-all s)

digits_shape :
    (ds e : Text)
    → all is_digit ds ≡ true
    → (if starts_with (codes "010") ds && length ds == 11
        then some (43 ∷ 56 ∷ 50 ∷ drop 1 ds)
        else if starts_with (codes "8210") ds && length ds == 12
        then some (43 ∷ ds)
        else none)
      ≡ some e
    → is_e164 e ≡ true
unfolding starts_with
digits_shape [] e h q = ground arith
digits_shape (a ∷ []) e h q = ground arith
digits_shape (a ∷ b ∷ []) e h q = ground arith
digits_shape (a ∷ b ∷ c ∷ []) e h q = ground arith
digits_shape (a ∷ b ∷ c ∷ d ∷ rest) e h q =
    elim (Bool-cases
      (starts_with (codes "010") (a ∷ b ∷ c ∷ d ∷ rest) && length (a ∷ b ∷ c ∷ d ∷ rest) == 11)) [
        | inl local ↦ ground arith
        | inr other ↦ ground arith
      ]

normalize-e164 : (e : Text) → is_e164 e ≡ true → normalize_korean_phone e ≡ some e
unfolding normalize_korean_phone starts_with select
normalize-e164 [] h = ground arith
normalize-e164 (p ∷ []) h = ground arith
normalize-e164 (p ∷ a ∷ []) h = ground arith
normalize-e164 (p ∷ a ∷ b ∷ []) h = ground arith
normalize-e164 (p ∷ a ∷ b ∷ c ∷ []) h = ground arith
normalize-e164 (p ∷ a ∷ b ∷ c ∷ d ∷ rest) h = ground (arith, select-all rest)

-- What is accepted is normalised to +8210 and eight digits, and a number in that form normalises
-- to itself: requests and codes meet under one spelling of the phone.
pub normalize_korean_phone_canonical :
    (phone e : Text)
    → normalize_korean_phone phone ≡ some e
    → (is_e164 e ≡ true) × (normalize_korean_phone e ≡ some e)
unfolding normalize_korean_phone
normalize_korean_phone_canonical phone e h =
    let shape = digits_shape (select is_digit phone) e (all-select phone) h in
    (shape, normalize-e164 e shape)
