-- ===== src/Billing/Signature.antt =====
-- `assertSignature` of src/modules/billing/billing.service.ts. Times are in milliseconds, so the
-- tolerance of 300 seconds is compared after multiplying by 1000.
pub mod Form
pub mod Authentic
use chattea_be.Prelude.{
  ℕ, suc, zero, ◌+◌, ◌-◌, ◌*◌, ◌^◌, ◌≤◌, ◌≡◌, refl, Bool, true, false, not, ◌&&◌, ◌||◌, Option,
  none, some, List, [], ◌∷◌, ◌++◌, arith, leb, ltb, ◌==◌, if◌then◌else◌, length, all, is_some,
}
use chattea_be.Prelude.Text.{Text, codes, text_eq, text_eq_iff}
use chattea_be.Prelude.Action.{Result, ok, err, is_ok}

-- Node's `crypto`: bytes are numbers.
pub record Crypto : Type 0 where
  pub hmac_sha256 : Text → List ℕ → List ℕ
  pub sha256_hex : List ℕ → Text

pub data SignatureError : Type 0 where
  webhook_secret_required signature_invalid signature_timestamp_invalid : SignatureError

abbrev pub tolerance_seconds : ℕ
tolerance_seconds = 300

abbrev pub max_safe_integer : ℕ
max_safe_integer = 2 ^ 53 - 1

abbrev pub is_digit : ℕ → Bool
is_digit c = leb b'0' c && leb c b'9'

-- [0-9a-f] under the flag i
abbrev pub is_hex : ℕ → Bool
is_hex c = is_digit c || (leb b'a' c && leb c b'f') || (leb b'A' c && leb c b'F')

-- The longest prefix of digits, and what follows it.
unfoldable pub split_digits : Text → Text × Text
split_digits [] = ([], [])
split_digits (c ∷ s) =
    let (ds, rest) = split_digits s in if is_digit c then (c ∷ ds, rest) else ([], c ∷ s)

-- ,v1=
unfoldable pub hex_part : Text → Option Text
hex_part (a ∷ b ∷ c ∷ d ∷ h) =
    if a == b','
      && (b == b'v' || b == b'V')
      && c == b'1'
      && d == b'='
      && length h == 64
      && all is_hex h
    then some h
    else none
hex_part _ = none

-- /^t=(\d+),v1=([0-9a-f]{64})$/i
unfoldable pub match_signature : Text → Option (Text × Text)
unfolding split_digits hex_part
match_signature (a ∷ b ∷ s) =
    let (ds, rest) = split_digits s in
    if (a == b't' || a == b'T') && b == b'=' && ltb 0 (length ds)
    then elim (hex_part rest) [ none ↦ none | some h ↦ some (ds, h) ]
    else none
match_signature _ = none

-- `Number(text)` of digits
unfoldable pub decimal : ℕ → Text → ℕ
decimal acc [] = acc
decimal acc (c ∷ s) = decimal (acc * 10 + (c - b'0')) s

abbrev pub hex_value : ℕ → ℕ
hex_value c = if leb c b'9' then c - b'0' else if leb c b'F' then c - b'A' + 10 else c - b'a' + 10

-- `Buffer.from(text, "hex")` of a text of even length
unfoldable pub hex_bytes : Text → List ℕ
hex_bytes [] = []
hex_bytes (a ∷ []) = []
hex_bytes (a ∷ b ∷ s) = (hex_value a * 16 + hex_value b) ∷ hex_bytes s

-- |a - b|
abbrev pub distance : ℕ → ℕ → ℕ
distance a b = (a - b) + (b - a)

module _ (crypto : Crypto) where
  open crypto use {hmac_sha256}

  unfoldable pub signed_bytes : Text → List ℕ → List ℕ
  signed_bytes timestamp raw_body = timestamp ++ b'.' ∷ raw_body

  unfoldable pub check_match : Text → List ℕ → ℕ → Text → Text → Result SignatureError Unit
  check_match secret raw_body now_ms timestamp received =
      if ltb max_safe_integer (decimal 0 timestamp)
      then err signature_invalid
      else if not
          (text_eq (hex_bytes received) (hmac_sha256 secret (signed_bytes timestamp raw_body)))
      then err signature_invalid
      else if ltb (tolerance_seconds * 1000) (distance now_ms (decimal 0 timestamp * 1000))
      then err signature_timestamp_invalid
      else ok tt

  unfoldable pub assert_signature :
      Option Text → List ℕ → Option Text → ℕ → Result SignatureError Unit
  assert_signature none raw_body signature now_ms = err webhook_secret_required
  assert_signature (some secret) raw_body none now_ms =
      if text_eq secret [] then err webhook_secret_required else err signature_invalid
  assert_signature (some secret) raw_body (some signature) now_ms =
      if text_eq secret [] then err webhook_secret_required else elim (match_signature signature) [
        | none ↦ err signature_invalid
        | some (timestamp, received) ↦ check_match secret raw_body now_ms timestamp received
      ]
