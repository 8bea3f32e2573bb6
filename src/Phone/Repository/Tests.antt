-- ===== src/Phone/Repository/Tests.antt =====
-- The theorems about phone.repository.ts at concrete codes.
use chattea_be.Prelude.{◌≡◌, refl, ◌≤◌, true, List, [], ◌∷◌, arith, any, count}
use chattea_be.Prelude.Text.{Text, codes}
use chattea_be.Phone.Types.{PhoneDb, ReserveInput}
use chattea_be.Phone.Repository.{reserve_verification, of_phone_recently, of_ip_recently}
use chattea_be.Phone.Repository.Calls.{Call, activate, claim, verify, times, is_try, is_use}
use chattea_be.Phone.Repository.Tries.{five_tries_one_use}
use chattea_be.Phone.Repository.Quota.{spaced, quotas_hold, codes_are_spaced}

abbrev pub phone : Text
phone = codes "+821012345678"

abbrev pub input : ReserveInput
input = record {
  phone_e164 = phone;
  purpose = codes "login";
  request_ip_hash = codes "ip";
  user_agent_hash = codes "agent";
  cooldown_ms = 60000;
  phone_limit = 5;
  ip_limit = 20;
}

abbrev pub no_codes : PhoneDb
no_codes = record { verifications = []; users = []; refresh_tokens = [] }

abbrev pub calls : List Call
calls =
    activate 1 (codes "hash") 300000 100
    ∷ claim 1 phone (codes "login" ∷ []) 200
    ∷ verify 1 300
    ∷ verify 1 400
    ∷ []

five_tries_one_use_example :
    (times (is_try 1) calls (reserve_verification 1 100 input no_codes).1 ≤ 5)
    × (times (is_use 1) calls (reserve_verification 1 100 input no_codes).1 ≤ 1)
unfolding any
five_tries_one_use_example = five_tries_one_use 1 100 input no_codes calls refl refl

quotas_hold_example :
    (count (of_phone_recently phone 100) (reserve_verification 1 100 input no_codes).1.verifications
      ≤ 5)
    × (count
          (of_ip_recently (codes "ip") 100)
          (reserve_verification 1 100 input no_codes).1.verifications
        ≤ 20)
unfolding count
quotas_hold_example = quotas_hold 1 100 input no_codes (omega arith) (omega arith)

codes_are_spaced_example :
    spaced 60000 (reserve_verification 1 100 input no_codes).1.verifications ≡ true
unfolding spaced
codes_are_spaced_example = codes_are_spaced 1 100 input no_codes refl
