-- ===== src/Billing/Signature/Authentic.antt =====
-- Which deliveries `assertSignature` of src/modules/billing/billing.service.ts lets through.
use chattea_be.Prelude.{
  ℕ, ◌+◌, ◌*◌, ◌≤◌, ◌∷◌, ◌++◌, subst, ◌≡◌, ◌↔◌, ◌≢◌, inl, inr, true, some, List, [], arith,
  Option-cases,
}
use chattea_be.Prelude.Text.{Text, text_eq_iff}
use chattea_be.Prelude.Action.{is_ok}
use chattea_be.Billing.Signature.{
  Crypto, match_signature, hex_bytes, signed_bytes, check_match, assert_signature,
}
use chattea_be.Billing.Signature.Form.{
  HasForm, Spells, number, decimal-number, match_signature-HasForm, match_signature-of_HasForm,
  Spells-hex_bytes, hex_bytes-of_Spells,
}

-- The header has the form t=<digits>,v1=<64 hex digits>, the digits write a safe integer, the hex
-- digits spell the HMAC under the secret of the digits, a full stop and the body, and the clock is
-- at most 300,000 milliseconds before or after the seconds that the digits write.
pub record IsAuthentic (crypto : Crypto) (secret : Text) (raw_body : List ℕ) (signature : Text)
    (now_ms : ℕ) : Type 0 where
  pub timestamp : Text
  pub received : Text
  pub has_form : HasForm signature timestamp received
  pub is_safe : number timestamp ≤ 9007199254740991
  pub is_hmac : Spells received (crypto.hmac_sha256 secret (timestamp ++ b'.' ∷ raw_body))
  pub is_not_late : now_ms ≤ number timestamp * 1000 + 300000
  pub is_not_early : number timestamp * 1000 ≤ now_ms + 300000

-- What the check of a match accepts.
check_match-IsAuthentic :
    (crypto : Crypto) (secret : Text) (raw_body : List ℕ) (now_ms : ℕ) (t r : Text)
    → is_ok (check_match crypto secret raw_body now_ms t r) ≡ true
    → (number t ≤ 9007199254740991)
      × (hex_bytes r ≡ crypto.hmac_sha256 secret (t ++ b'.' ∷ raw_body))
      × (now_ms ≤ number t * 1000 + 300000)
      × (number t * 1000 ≤ now_ms + 300000)
unfolding check_match signed_bytes
check_match-IsAuthentic crypto secret raw_body now_ms t r h =
    let n = decimal-number 0 t in
    (
      ground (arith, n),
      ground (arith, text_eq_iff (hex_bytes r) (crypto.hmac_sha256 secret (t ++ b'.' ∷ raw_body))),
      ground (arith, n),
      ground (arith, n),
    )

check_match-of_IsAuthentic :
    (crypto : Crypto) (secret : Text) (raw_body : List ℕ) (now_ms : ℕ) (t r : Text)
    → number t ≤ 9007199254740991
    → hex_bytes r ≡ crypto.hmac_sha256 secret (t ++ b'.' ∷ raw_body)
    → now_ms ≤ number t * 1000 + 300000
    → number t * 1000 ≤ now_ms + 300000
    → is_ok (check_match crypto secret raw_body now_ms t r) ≡ true
unfolding check_match signed_bytes
check_match-of_IsAuthentic crypto secret raw_body now_ms t r safe same late early = ground (
  arith,
  decimal-number 0 t,
  text_eq_iff (hex_bytes r) (crypto.hmac_sha256 secret (t ++ b'.' ∷ raw_body)),
)

module _ (crypto : Crypto) (secret : Text) (raw_body : List ℕ) (signature : Text) (now_ms : ℕ) where
  -- With a secret that is not empty, a delivery is accepted exactly when it is authentic: of the
  -- right form, with the HMAC of its digits and its body under the secret, and within 300 seconds
  -- of the clock in either direction.
  pub accepts_iff_IsAuthentic :
      secret ≢ []
      → (is_ok (assert_signature crypto (some secret) raw_body (some signature) now_ms) ≡ true)
        ↔ IsAuthentic crypto secret raw_body signature now_ms
  unfolding assert_signature
  accepts_iff_IsAuthentic ne = (
    λ h. elim (Option-cases (match_signature signature)) [
      | inl z ↦ ground (arith, text_eq_iff secret [])
      | inr ((t, r), z) ↦
          let (form, hex) = match_signature-HasForm signature t r z in
          let (safe, same, late, early) =
            check_match-IsAuthentic crypto secret raw_body now_ms t r
              (ground (arith, text_eq_iff secret [])) in
          record {
            timestamp = t;
            received = r;
            has_form = form;
            is_safe = safe;
            is_hmac = subst (Spells r) same (Spells-hex_bytes 32 r form.is_long hex);
            is_not_late = late;
            is_not_early = early;
          }
    ],
    λ a.
        let (same, hex) = hex_bytes-of_Spells a.received _ a.is_hmac in
        ground (
          arith,
          text_eq_iff secret [],
          match_signature-of_HasForm signature a.timestamp a.received a.has_form hex,
          check_match-of_IsAuthentic crypto secret raw_body now_ms a.timestamp a.received a.is_safe
              same a.is_not_late a.is_not_early,
        ),
  )
