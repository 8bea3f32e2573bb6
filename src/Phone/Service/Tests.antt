-- ===== src/Phone/Service/Tests.antt =====
-- The theorems about phone.service.ts at concrete requests.
use chattea_be.Prelude.{
  ◌≡◌, refl, ◌⊎◌, Bool, true, false, none, List, [], ◌∷◌, ◌++◌, find?, any, select, update_where,
  delete_where, count,
}
use chattea_be.Prelude.Text.{Text, codes, text_eq, member}
use chattea_be.Prelude.Action.{is_ok}
use chattea_be.Phone.Types.{Verification, PhoneDb}
use chattea_be.Phone.Repository.{
  latest, claim_verification_attempt, mark_verified, update_returning, reserve_verification,
  activate_verification, delete_verification,
}
use chattea_be.Phone.Number.{normalize_korean_phone, starts_with}
use chattea_be.Phone.Service.{
  Hashing, CodeRequest, get_usable_verification, try_code, verify_phone_code, request_phone_code,
  deliver_code, six_digits,
}
use chattea_be.Phone.Service.Right.{is_right, verified_code_was_right}
use chattea_be.Phone.Service.Unsent.{Leftover, failed_request_leaves_no_code}

-- A hash that keeps the text.
abbrev pub plain : Hashing
plain = record { hash = λ salt s. s; compare = text_eq; sha256 = λ s. s }

abbrev pub phone : Text
phone = codes "+821012345678"

abbrev pub sent : Verification
sent = record {
  id = 1;
  phone_e164 = phone;
  code_hash = codes "+821012345678:000001:pepper";
  purpose = codes "login";
  expires_at = 300000;
  is_verified = false;
  attempt_count = 0;
  request_ip_hash = codes "ip";
  user_agent_hash = [];
  created_at = 0;
}

abbrev pub one_code : PhoneDb
one_code = record { verifications = sent ∷ []; users = []; refresh_tokens = [] }

abbrev pub no_codes : PhoneDb
no_codes = record { verifications = []; users = []; refresh_tokens = [] }

verified_code_was_right_example :
    any (is_right plain (codes "pepper") phone (codes "000001") 1000 (sent ∷ [])) (sent ∷ []) ≡ true
unfolding verify_phone_code normalize_korean_phone starts_with get_usable_verification try_code
    latest claim_verification_attempt mark_verified update_returning find? any select text_eq member
    update_where
verified_code_was_right_example =
    verified_code_was_right plain (codes "pepper") (codes "010-1234-5678") phone (codes "000001")
      1000 one_code refl refl

-- A sender that fails, and counts the calls.
abbrev pub fails : Text → Text → List Text → Bool × List Text
fails to code calls = (false, calls ++ to ∷ [])

abbrev pub request : CodeRequest
request = record {
  phone = codes "01012345678";
  purpose = codes "login";
  ip = none;
  user_agent = none;
  id = 1;
  code = 1;
  salt = 0;
  now = 1000;
  sent_at = 2000;
  activates = true;
  cleans_up = false;
}

code_is_not_sent :
    is_ok (request_phone_code plain (codes "pepper") fails request (no_codes, [])).0 ≡ false
unfolding request_phone_code deliver_code normalize_korean_phone starts_with latest
    reserve_verification activate_verification delete_verification update_returning find? any select
    text_eq member update_where delete_where count six_digits
code_is_not_sent = refl

failed_request_leaves_no_code_example :
    let after = (request_phone_code plain (codes "pepper") fails request (no_codes, [])).1.0 in
    (after.verifications ≡ []) ⊎ Leftover request [] after.verifications
unfolding any
failed_request_leaves_no_code_example =
    failed_request_leaves_no_code plain (codes "pepper") fails request no_codes [] refl
      code_is_not_sent
