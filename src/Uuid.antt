-- ===== src/Uuid.antt =====
-- The test that the services make on ids in requests (chat.service.ts, matching.service.ts,
-- billing.service.ts).
use chattea_be.Prelude.{
  ℕ, Bool, false, ◌&&◌, ◌||◌, Option, none, some, [], ◌∷◌, leb, ◌==◌, if◌then◌else◌, length, all,
  take, drop,
}
use chattea_be.Prelude.Text.{Text, text_eq}

abbrev pub is_hex_digit : ℕ → Bool
is_hex_digit c =
    (leb b'0' c && leb c b'9') || (leb b'a' c && leb c b'f') || (leb b'A' c && leb c b'F')

abbrev pub is_version : ℕ → Bool
is_version c = leb b'1' c && leb c b'5'

abbrev pub is_variant : ℕ → Bool
is_variant c = c == b'8' || c == b'9' || c == b'a' || c == b'b' || c == b'A' || c == b'B'

-- Eat `n` hex digits.
unfoldable pub hex_run : ℕ → Text → Option Text
hex_run n s =
    if length (take n s) == n && all is_hex_digit (take n s) then some (drop n s) else none

-- Eat one character of a class.
abbrev pub eat : (ℕ → Bool) → Option Text → Option Text
eat p none = none
eat p (some []) = none
eat p (some (c ∷ s)) = if p c then some s else none

abbrev pub eat_hex : ℕ → Option Text → Option Text
eat_hex n none = none
eat_hex n (some s) = hex_run n s

-- /^[0-9a-f]{8}-[0-9a-f]{4}-[1-5][0-9a-f]{3}-[89ab][0-9a-f]{3}-[0-9a-f]{12}$/i
unfoldable pub is_uuid : Text → Bool
unfolding hex_run
is_uuid s =
    let dash = eat (λ c. c == b'-') in
    elim (eat_hex 12 (
      dash (
        eat_hex 3 (
          eat is_variant
            (dash (eat_hex 3 (eat is_version (dash (eat_hex 4 (dash (eat_hex 8 (some s)))))))))))) [
              | none ↦ false
              | some rest ↦ text_eq rest []
            ]
