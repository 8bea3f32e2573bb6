-- ===== src/Phone/Tests.antt =====
-- The theorem about phone numbers at a concrete number.
use chattea_be.Prelude.{◌≡◌, refl, true, some, select}
use chattea_be.Prelude.Text.{codes}
use chattea_be.Phone.Number.{
  normalize_korean_phone, starts_with, is_e164, normalize_korean_phone_canonical,
}

normalize_korean_phone_canonical_example :
    (is_e164 (codes "+821012345678") ≡ true)
    × (normalize_korean_phone (codes "+821012345678") ≡ some (codes "+821012345678"))
unfolding normalize_korean_phone starts_with select
normalize_korean_phone_canonical_example =
    normalize_korean_phone_canonical (codes "010-1234-5678") (codes "+821012345678") refl
