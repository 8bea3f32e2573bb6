-- ===== src/Lib.antt =====
-- chattea-be: the billing, matching, phone, notification, auth and chat modules of a dating service's
-- back end (NestJS, a GraphQL and HTTP server over PostgreSQL), and its maintenance process.
--
-- Parts and files:
--   * Prelude: results, the monad of service calls (a state that keeps what was written before a
--     throw, and `transaction`, which rolls back), JavaScript strings, tables as lists of rows.
--   * Postgres: the conversions of ids between texts and values, a parameter.
--   * Uuid: the test on ids that src/modules/billing/billing.service.ts makes.
--   * Notification: src/modules/notification, and the request that other services make of it. Types
--     has the tables and push-delivery.types.ts; Outbox and Results are the claims and the results of
--     notification.repository.ts; Tokens is its notifications and devices; Lifecycle is the diagram
--     of a message's statuses; Delivery and Delivery/Batches are notification.service.ts.
--   * Auth: src/modules/auth. Types has the tables; Input is auth-input.ts; Repository
--     and KakaoRepository are auth.repository.ts, with restoreScheduledDeletion of
--     src/modules/user/user.repository.ts; Service and Kakao are auth.service.ts.
--   * Chat: src/modules/chat. Types has the tables; Repository is chat.repository.ts and Service is
--     chat.service.ts.
--   * Maintenance: src/maintenance. Lock is maintenance-lock.service.ts; Runner is runCycle and run
--     of maintenance.runner.ts.
--   * Billing: src/modules/billing. Types has the tables and the event; Signature is
--     assertSignature; Payload reads the body; Products is the catalogue and the classes of
--     events; Webhook decides what an event asks for (the middle of handleRevenueCatWebhook);
--     Handler is handleRevenueCatWebhook and balance; Repository is billing.repository.ts.
--   * Matching: src/modules/matching. Types has the tables; Repository is actOnCandidate and
--     undoLastAction; Boost is activateBoost and consumeLikedMeAccess; Candidates is the choice and
--     the order of candidates and likedMeCandidates; Details is withCandidateDetails; Plans is the
--     limits and windows, with findCurrentSubscription of src/modules/user/user.repository.ts;
--     Service is the rest of matching.service.ts.
--   * Phone: src/modules/phone. Types has the tables; Repository is phone.repository.ts without
--     the table of phone tokens; Number is normalizeKoreanPhone; Service is requestPhoneCode,
--     verifyPhoneCode and resetPasswordWithPhone.
-- The webhook calls the repository and then notifies; matching reads and spends the balances that
-- billing fills, and has the boosts that billing's balance reports. What is notified goes to the
-- outbox; the maintenance runner claims it in batches, one process at a time. A verified phone gives
-- a token, which auth uses up for an account or a session.
--
-- How code corresponds: a definition has the name of its function in snake case. A repository call
-- is a function of the tables to a result and the tables it leaves. A transaction is one step,
-- since the locks it takes make the steps on one key exclusive; single statements are atomic. A
-- query that an index orders is a search with the same order. The clock, random ids and random
-- codes are arguments. Times are milliseconds since the epoch as natural numbers. Credits are
-- integers without a bound: the columns are 32-bit integers, and no call of the code adds more
-- than five at a time.
--
-- Parameters: UuidText (PostgreSQL reads and prints ids; what it prints reads back), Crypto (HMAC
-- and SHA-256), Hashing (bcrypt and SHA-256), Signing (web tokens), PushGateway (the push service),
-- Services and Answers (what the runner calls and what the pool answers it), Kakao's answer for an
-- access token, and the notification service and the sender of messages, each a call on a state of
-- its own that may fail. All recursion is structural, so there is no fuel; the loop of the runner
-- goes over the turns it meets. The calls of one service method run with no other request between
-- them.
--
-- Not modelled: the ages and labels of listed candidates, the creation of phone tokens after a
-- verified code, the parsing of Kakao's profile, the Passport strategies and cookies, resolvers,
-- controllers and modules (they pass arguments on), logging but for the runner's, the file of the
-- heartbeat, the list of a user's rooms, the tables' columns that no modelled query reads, failures
-- of the connection to the database but where requestPhoneCode and the maintenance process catch
-- them, upper-casings of one character to several (such as of ß), and the other modules of
-- src/modules (community, user, upload) and src/common/config.
pub mod Prelude
pub mod Postgres
pub mod Uuid
pub mod Notification
pub mod Auth
pub mod Billing
pub mod Chat
pub mod Maintenance
pub mod Matching
pub mod Phone
