-- ===== src/Billing/Signature/Form.antt =====
-- The signature header that `assertSignature` of src/modules/billing/billing.service.ts reads,
-- described without the regular expression and the conversions.
use native.Mathlib.Nat.{pow-succ'}
use chattea_be.Prelude.{
  ℕ, ◌+◌, ◌-◌, ◌*◌, ◌^◌, ◌≤◌, ◌≡◌, refl, sym, ◌∙◌, ◌⊎◌, inl, inr, true, some, List, [], ◌∷◌, ◌++◌,
  arith, length, all, Option-cases, ◌&&◌, leb,
}
use chattea_be.Prelude.Text.{Text}
use chattea_be.Billing.Signature.{
  is_digit, is_hex, split_digits, hex_part, match_signature, decimal, hex_value, hex_bytes,
}

-- The value of a digit of base 16, in either case.
abbrev pub HexDigit : ℕ → ℕ → Type 0
HexDigit c x = (x ≤ 9) × (c ≡ 48 + x) ⊎ (10 ≤ x) × (x ≤ 15) × ((c ≡ 55 + x) ⊎ (c ≡ 87 + x))

-- A text spells bytes, two digits each.
pub data Spells : Text → List ℕ → Type 0 where
  no_bytes : Spells [] []
  byte :
      {a b x y : ℕ} {s : Text} {bs : List ℕ}
      → HexDigit a x
      → HexDigit b y
      → Spells s bs
      → Spells (a ∷ b ∷ s) ((x * 16 + y) ∷ bs)

-- The number that decimal digits write, by their places.
unfoldable pub number : Text → ℕ
number [] = 0
number (c ∷ s) = (c - 48) * 10 ^ length s + number s

-- t=<digits>,v1=<64 characters>, where t and v may be upper case.
pub record HasForm (signature timestamp received : Text) : Type 0 where
  pub t : ℕ
  pub v : ℕ
  pub is_spelled : signature ≡ t ∷ b'=' ∷ (timestamp ++ b',' ∷ v ∷ b'1' ∷ b'=' ∷ received)
  pub is_t : (t ≡ b't') ⊎ (t ≡ b'T')
  pub is_v : (v ≡ b'v') ⊎ (v ≡ b'V')
  pub has_digits : 1 ≤ length timestamp
  pub are_digits : all (λ c. leb 48 c && leb c 57) timestamp ≡ true
  pub is_long : length received ≡ 64

step_lem : (a d p n : ℕ) → (a * 10 + d) * p + n ≡ a * (10 * p) + (d * p + n)
step_lem a d p n = omega arith

pub decimal-number : (acc : ℕ) (s : Text) → decimal acc s ≡ acc * 10 ^ length s + number s
unfolding decimal number
decimal-number acc [] = ground arith
decimal-number acc (c ∷ s) =
    decimal-number (acc * 10 + (c - 48)) s
    ∙ step_lem acc (c - 48) (10 ^ length s) (number s)
    ∙ (λ i. acc * sym (pow-succ' 10 (length s)) i + ((c - 48) * 10 ^ length s + number s))

split_digits-append :
    (s : Text)
    → (s ≡ (split_digits s).0 ++ (split_digits s).1) × (all is_digit (split_digits s).0 ≡ true)
unfolding split_digits
split_digits-append [] = (refl, refl)
split_digits-append (c ∷ s) =
    (ground (arith, split_digits-append s), ground (arith, split_digits-append s))

split_digits-digits :
    (ds rest : Text) → all is_digit ds ≡ true → split_digits (ds ++ b',' ∷ rest) ≡ (ds, b',' ∷ rest)
unfolding split_digits
split_digits-digits [] rest h = refl
split_digits-digits (d ∷ ds) rest h = ground (arith, split_digits-digits ds rest)

hex_part-cases :
    (s h : Text)
    → hex_part s ≡ some h
    → (v : ℕ) × (s ≡ b',' ∷ v ∷ b'1' ∷ b'=' ∷ h)
      × ((v ≡ b'v') ⊎ (v ≡ b'V'))
      × (length h ≡ 64)
      × (all is_hex h ≡ true)
unfolding hex_part
hex_part-cases (a ∷ b ∷ c ∷ d ∷ s) h e = (b, ground arith, ground arith, ground arith, ground arith)
hex_part-cases _ h e = ground arith

hex_part-form :
    (v : ℕ) (h : Text)
    → (v ≡ b'v') ⊎ (v ≡ b'V')
    → length h ≡ 64
    → all is_hex h ≡ true
    → hex_part (b',' ∷ v ∷ b'1' ∷ b'=' ∷ h) ≡ some h
unfolding hex_part
hex_part-form v h c l x = ground arith

digit-value : (c x : ℕ) → HexDigit c x → (hex_value c ≡ x) × (is_hex c ≡ true)
digit-value c x h = (ground arith, ground arith)

pub Spells-hex_bytes :
    (n : ℕ) (s : Text) → length s ≡ 2 * n → all is_hex s ≡ true → Spells s (hex_bytes s)
unfolding hex_bytes
Spells-hex_bytes n [] l h = no_bytes
Spells-hex_bytes n (a ∷ []) l h = ground arith
Spells-hex_bytes n (a ∷ b ∷ s) l h =
    byte (ground arith) (ground arith) (Spells-hex_bytes (n - 1) s (ground arith) (ground arith))

pub hex_bytes-of_Spells :
    (s : Text) (bs : List ℕ) → Spells s bs → (hex_bytes s ≡ bs) × (all is_hex s ≡ true)
unfolding hex_bytes
hex_bytes-of_Spells [] [] no_bytes = (refl, refl)
hex_bytes-of_Spells _ _ (byte {a} {b} {x} {y} {s} {bs} p q r) =
    let (same, hex) = hex_bytes-of_Spells s bs r in
    (
      ground (arith, digit-value a x p, digit-value b y q),
      ground (arith, digit-value a x p, digit-value b y q),
    )

pub match_signature-HasForm :
    (s t h : Text) → match_signature s ≡ some (t, h) → HasForm s t h × (all is_hex h ≡ true)
unfolding match_signature
match_signature-HasForm [] t h e = ground arith
match_signature-HasForm (a ∷ []) t h e = ground arith
match_signature-HasForm (a ∷ b ∷ s) t h e =
    let (spelled, digits) = split_digits-append s in
    elim (Option-cases (hex_part (split_digits s).1)) [
      | inl n ↦ ground arith
      | inr (k, p) ↦
          let (v, rest, is_v, long, hex) = hex_part-cases (split_digits s).1 k p in
          (
            record {
              t = a;
              v = v;
              is_spelled = ground (arith, spelled, rest);
              is_t = ground arith;
              is_v = is_v;
              has_digits = ground arith;
              are_digits = ground (arith, digits);
              is_long = ground (arith, long);
            },
            ground (arith, hex),
          )
    ]

pub match_signature-of_HasForm :
    (s t h : Text) → HasForm s t h → all is_hex h ≡ true → match_signature s ≡ some (t, h)
unfolding match_signature
match_signature-of_HasForm s t h f hex = rw (f.is_spelled) (
    ground (
      arith,
      split_digits-digits t (f.v ∷ b'1' ∷ b'=' ∷ h) f.are_digits,
      hex_part-form f.v h f.is_v f.is_long hex,
    ))
