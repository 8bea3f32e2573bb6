-- ===== src/Notification/Delivery/Answers.antt =====
-- What the results of src/modules/notification/notification.service.ts carry: the job and the
-- attempt they are about, the tickets, and the time of the next attempt.
use chattea_be.Prelude.{
  ℕ, ◌≡◌, refl, Bool, true, false, ◌&&◌, ◌||◌, Option, none, some, List, [], ◌∷◌, ◌+◌, ◌-◌, ◌*◌,
  ◌^◌, ◌≤◌, min, leb, arith, ◌==◌, any, count, map, length, Bool-cases, inl, inr, Each, Each-all,
  Each-zip, Each-map, Each-of_any,
}
use native.Mathlib.Nat.{pow-le-pow_right, one-le-pow}
use chattea_be.Prelude.Text.{Text, codes, text_eq}
use chattea_be.Prelude.Action.{Result, ok, err, is_ok}
use chattea_be.Notification.Types.{PushJob, SendResult, is_accepted, max_send_attempts}
use chattea_be.Notification.Results.{ticket_eq, send_result_values}
use chattea_be.Notification.Results.Settled.{covers, brings, IsFresh}
use chattea_be.Notification.Delivery.{
  Ticket, ticket_ok, ticket_error, retry_at, retry_send_result, ticket_result, code_is,
  summarize_send_results,
}
use chattea_be.Notification.Delivery.Batches.{ticket_results, send_results_of}

abbrev pub is_attempt_of : PushJob → PushJob → Bool
is_attempt_of j k = k.id == j.id && k.send_attempts == j.send_attempts

-- The results are about the attempts of the jobs.
covers-retries :
    (code message : Option Text) (now : ℕ) (k : PushJob) (js : List PushJob)
    → covers (map (λ j. retry_send_result j now code message) js) k ≡ any (is_attempt_of k) js
unfolding covers any retry_send_result
covers-retries code message now k [] = refl
covers-retries code message now k (j ∷ js) = ground (arith, covers-retries code message now k js)

attempt_of :
    (j : PushJob) (t : Option Ticket) (now : ℕ)
    → ((ticket_result j t now).id ≡ j.id) × ((ticket_result j t now).attempt ≡ j.send_attempts)
unfolding ticket_result retry_send_result
attempt_of j none now = (refl, refl)
attempt_of j (some (ticket_ok id)) now = (refl, refl)
attempt_of j (some (ticket_error message code)) now = (ground arith, ground arith)

covers-ticket_results :
    (now : ℕ) (k : PushJob) (js : List PushJob) (ts : List Ticket)
    → covers (ticket_results js ts now) k ≡ any (is_attempt_of k) js
unfolding covers any ticket_results
covers-ticket_results now k [] ts = refl
covers-ticket_results now k (j ∷ js) [] =
    ground (arith, attempt_of j none now, covers-ticket_results now k js [])
covers-ticket_results now k (j ∷ js) (t ∷ ts) =
    ground (arith, attempt_of j (some t) now, covers-ticket_results now k js ts)

pub covers-send_results_of :
    (now : ℕ) (k : PushJob) (js : List PushJob) (answer : Result (Option Text) (List Ticket))
    → covers (send_results_of js answer now) k ≡ any (is_attempt_of k) js
unfolding send_results_of
covers-send_results_of now k js (err e) = covers-retries _ _ now k js
covers-send_results_of now k js (ok ts) = elim (Bool-cases (length ts == length js)) [
  | inl h ↦ rw (h) (covers-ticket_results now k js ts)
  | inr h ↦ rw (h) (covers-retries _ _ now k js)
]

-- A ticket that the push service gives.
abbrev pub is_ticket : Option Text → Ticket → Bool
is_ticket t (ticket_ok id) = ticket_eq (some id) t
is_ticket t (ticket_error message code) = false

-- Tickets as the push service hands them out: not empty, none twice, and none that a job has.
abbrev pub IsNew : List PushJob → List Ticket → Type 0
IsNew jobs [] = Unit
IsNew jobs (ticket_ok id ∷ ts) =
    (text_eq id [] ≡ false)
    × (any (is_ticket (some id)) ts ≡ false)
    × (any (λ j. ticket_eq (some id) j.ticket_id) jobs ≡ false)
    × IsNew jobs ts
IsNew jobs (ticket_error message code ∷ ts) = IsNew jobs ts

-- A result that asks for no ticket.
IsFresh-retry :
    (j : PushJob) (now : ℕ) (code message : Option Text)
    → (is_ok (send_result_values (retry_send_result j now code message) now) ≡ true)
      × (is_accepted (retry_send_result j now code message) ≡ false)
unfolding send_result_values retry_send_result
IsFresh-retry j now code message = elim (Bool-cases (leb max_send_attempts j.send_attempts)) [
  | inl h ↦ rw (h) (refl, refl)
  | inr h ↦ rw (h) (refl, refl)
]

IsFresh-retries :
    (code message : Option Text) (now : ℕ) (js : List PushJob)
    → IsFresh now (map (λ j. retry_send_result j now code message) js)
IsFresh-retries code message now [] = tt
IsFresh-retries code message now (j ∷ js) =
    let (valid, other) = IsFresh-retry j now code message in
    (valid, (λ h. ground arith), IsFresh-retries code message now js)

brings-retries :
    (code message : Option Text) (now : ℕ) (t : Option Text) (js : List PushJob)
    → brings (map (λ j. retry_send_result j now code message) js) t ≡ false
unfolding brings any
brings-retries code message now t [] = refl
brings-retries code message now t (j ∷ js) =
    ground (arith, IsFresh-retry j now code message, brings-retries code message now t js)

refused :
    (j : PushJob) (message : Text) (code : Option Text) (now : ℕ)
    → (is_ok (send_result_values (ticket_result j (some (ticket_error message code)) now) now)
        ≡ true)
      × (is_accepted (ticket_result j (some (ticket_error message code)) now) ≡ false)
unfolding ticket_result send_result_values
refused j message code now =
    elim (Bool-cases
      (code_is code (codes "MessageRateExceeded") || code_is code (codes "ProviderError"))) [
        | inl h ↦ rw (h) (IsFresh-retry j now code (some message))
        | inr h ↦ rw (h) (refl, refl)
      ]

brings-ticket_results :
    (now : ℕ) (t : Option Text) (js : List PushJob) (ts : List Ticket)
    → any (is_ticket t) ts ≡ false
    → brings (ticket_results js ts now) t ≡ false
unfolding brings any ticket_results ticket_result
brings-ticket_results now t [] ts h = refl
brings-ticket_results now t (j ∷ js) [] h = ground (
  arith,
  IsFresh-retry j now (some (codes "ExpoTicketMissing")) none,
  brings-ticket_results now t js [] h,
)
brings-ticket_results now t (j ∷ js) (ticket_ok id ∷ ts) h =
    ground (arith, brings-ticket_results now t js ts)
brings-ticket_results now t (j ∷ js) (ticket_error message code ∷ ts) h =
    ground (arith, refused j message code now, brings-ticket_results now t js ts)

IsFresh-ticket_results :
    (jobs : List PushJob) (now : ℕ) (js : List PushJob) (ts : List Ticket)
    → IsNew jobs ts
    → IsFresh now (ticket_results js ts now)
unfolding ticket_results ticket_result send_result_values
IsFresh-ticket_results jobs now [] ts new = tt
IsFresh-ticket_results jobs now (j ∷ js) [] new =
    let (valid, other) = IsFresh-retry j now (some (codes "ExpoTicketMissing")) none in
    (valid, (λ h. ground arith), IsFresh-ticket_results jobs now js [] tt)
IsFresh-ticket_results jobs now (j ∷ js) (ticket_ok id ∷ ts) (full, once, other, new) = (
  ground arith,
  (λ h. brings-ticket_results now (some id) js ts once),
  IsFresh-ticket_results jobs now js ts new,
)
IsFresh-ticket_results jobs now (j ∷ js) (ticket_error message code ∷ ts) new =
    let (valid, other) = refused j message code now in
    (valid, (λ h. ground arith), IsFresh-ticket_results jobs now js ts new)

pub IsFresh-send_results_of :
    (jobs : List PushJob) (now : ℕ) (js : List PushJob)
    (answer : Result (Option Text) (List Ticket))
    → ((ts : List Ticket) → answer ≡ ok ts → IsNew jobs ts)
    → IsFresh now (send_results_of js answer now)
unfolding send_results_of
IsFresh-send_results_of jobs now js (err e) new = IsFresh-retries _ _ now js
IsFresh-send_results_of jobs now js (ok ts) new = elim (Bool-cases (length ts == length js)) [
  | inl h ↦ rw (h) (IsFresh-ticket_results jobs now js ts (new ts refl))
  | inr h ↦ rw (h) (IsFresh-retries _ _ now js)
]

-- No job has a ticket that is new.
tickets_are_new :
    (jobs : List PushJob) (ts : List Ticket)
    → IsNew jobs ts
    → Each (λ j. any (is_ticket j.ticket_id) ts ≡ false) jobs
unfolding any
tickets_are_new jobs [] new = Each-all (λ j. refl) jobs
tickets_are_new jobs (ticket_ok id ∷ ts) (full, once, other, new) =
    Each-zip (λ j h k. ground arith) jobs
      (Each-of_any (λ j. ticket_eq (some id) j.ticket_id) jobs other) (tickets_are_new jobs ts new)
tickets_are_new jobs (ticket_error message code ∷ ts) new =
    Each-map (λ j h. ground arith) jobs (tickets_are_new jobs ts new)

brings-send_results_of :
    (now : ℕ) (t : Option Text) (js : List PushJob) (answer : Result (Option Text) (List Ticket))
    → ((ts : List Ticket) → answer ≡ ok ts → any (is_ticket t) ts ≡ false)
    → brings (send_results_of js answer now) t ≡ false
unfolding send_results_of
brings-send_results_of now t js (err e) new = brings-retries _ _ now t js
brings-send_results_of now t js (ok ts) new = elim (Bool-cases (length ts == length js)) [
  | inl h ↦ rw (h) (brings-ticket_results now t js ts (new ts refl))
  | inr h ↦ rw (h) (brings-retries _ _ now t js)
]

pub results_are_new :
    (jobs : List PushJob) (now : ℕ) (js : List PushJob)
    (answer : Result (Option Text) (List Ticket))
    → ((ts : List Ticket) → answer ≡ ok ts → IsNew jobs ts)
    → Each (λ j. brings (send_results_of js answer now) j.ticket_id ≡ false) jobs
results_are_new jobs now js (err e) new =
    Each-all (λ j. brings-send_results_of now j.ticket_id js (err e) (λ ts h. ground arith)) jobs
results_are_new jobs now js (ok ts) new =
    Each-map (λ j h. brings-send_results_of now j.ticket_id js (ok ts) (λ us e. ground arith)) jobs
      (tickets_are_new jobs ts (new ts refl))

-- Each result is counted once.
pub summarize_send_results_lem :
    (rs : List SendResult) (more : Bool)
    → let b = summarize_send_results rs more in
      (b.claimed ≡ length rs) × (b.claimed ≡ b.succeeded + b.retry_scheduled + b.permanently_failed)
unfolding summarize_send_results count
summarize_send_results_lem [] more = (refl, refl)
summarize_send_results_lem (r ∷ rs) more =
    (refl, ground (arith, (summarize_send_results_lem rs more).1))

bounded_delay :
    (now x y : ℕ)
    → x ≤ y
    → 1 ≤ x
    → (now + 30000 ≤ now + min (30000 * x) 3600000)
      × (now + min (30000 * x) 3600000 ≤ now + 3600000)
      × (now + min (30000 * x) 3600000 ≤ now + min (30000 * y) 3600000)
bounded_delay now x y h k = (omega arith, omega arith, omega arith)

-- The next attempt is between half a minute and an hour away, and no nearer after more attempts.
pub retries_back_off :
    (now fewer more : ℕ)
    → fewer ≤ more
    → (now + 30000 ≤ retry_at now fewer)
      × (retry_at now fewer ≤ now + 3600000)
      × (retry_at now fewer ≤ retry_at now more)
unfolding retry_at
retries_back_off now fewer more h =
    bounded_delay now (2 ^ (fewer - 1)) (2 ^ (more - 1))
      (pow-le-pow_right (omega arith) (omega (arith, h))) (one-le-pow (fewer - 1) 2 (omega arith))
