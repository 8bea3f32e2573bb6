-- ===== src/Maintenance/Runner.antt =====
-- `runCycle` and `run` of src/maintenance/maintenance.runner.ts. The four services are parameters,
-- as they are in the code; the logger does not fail. Durations are left out of the log.
pub mod Loop
use chattea_be.Prelude.{
  ℕ, ◌≡◌, refl, ◌+◌, Bool, true, false, List, [], ◌∷◌, ◌++◌, if◌then◌else◌, arith, map, length,
}
use chattea_be.Prelude.Text.{Text, codes}
use chattea_be.Prelude.Action.{Result, ok, err, Action, pure, modify, ◌>>=◌, ◌>>◌}
use chattea_be.Notification.Types.{BatchResult}
use chattea_be.Maintenance.Lock.{
  Outcome, acquired, skipped, World, Answers, run_exclusive, with_lock,
}

pub data Entry : Type 0 where
  job_completed : Text → BatchResult → Entry
  job_failed : Text → Entry
  cycle_skipped cycle_failed : Entry

-- What the services work on, the log, and how often the heartbeat was written.
pub record Process (S : Type 0) : Type 0 where
  pub state : S
  pub log : List Entry
  pub beats : ℕ

-- A job: its name, and its batch at a time with a limit.
pub record Job (S E : Type 0) : Type 0 where
  pub name : Text
  pub execute : ℕ → ℕ → Action E S BatchResult

pub record Services (S E : Type 0) : Type 0 where
  pub process_due_account_deletion_batch : ℕ → ℕ → Action E S BatchResult
  pub process_push_outbox_batch : ℕ → ℕ → Action E S BatchResult
  pub process_push_receipt_batch : ℕ → ℕ → Action E S BatchResult
  pub cleanup_expired_staging_batch : ℕ → ℕ → Action E S BatchResult

abbrev pub entry_of : {E : Type 0} → Text → Result E BatchResult → Entry
entry_of name (ok r) = job_completed name r
entry_of name (err e) = job_failed name

abbrev pub note : {S : Type 0} → Entry → World (Process S) → World (Process S)
note entry w = record w { services = record w.services { log = w.services.log ++ entry ∷ [] } }

abbrev pub log_skipped : {S : Type 0} → Outcome → World (Process S) → World (Process S)
log_skipped acquired w = w
log_skipped skipped w = note cycle_skipped w

module _ {S E : Type 0} where
  abbrev pub jobs_of : Services S E → List (Job S E)
  jobs_of s =
      record { name = codes "account-deletion"; execute = s.process_due_account_deletion_batch }
      ∷ record { name = codes "push-outbox"; execute = s.process_push_outbox_batch }
      ∷ record { name = codes "push-receipts"; execute = s.process_push_receipt_batch }
      ∷ record { name = codes "staging-cleanup"; execute = s.cleanup_expired_staging_batch }
      ∷ []

  -- A failed job is logged, and the next one runs.
  unfoldable pub run_job : ℕ → Job S E → World (Process S) → World (Process S)
  run_job now job w =
      let (result, state) = job.execute now 100 w.services.state in
      note (entry_of job.name result) (record w { services = record w.services { state = state } })

  unfoldable pub run_jobs : ℕ → List (Job S E) → World (Process S) → World (Process S)
  run_jobs now [] w = w
  run_jobs now (job ∷ jobs) w = run_jobs now jobs (run_job now job w)

  abbrev pub task : Services S E → ℕ → Action E (World (Process S)) Unit
  task services now w = (ok tt, run_jobs now (jobs_of services) w)

  -- `writes` says whether the heartbeat can be written.
  unfoldable pub beat : Result E Unit → Action E (World (Process S)) Unit
  beat (ok u) w =
      (ok tt, record w { services = record w.services { beats = w.services.beats + 1 } })
  beat (err e) w = (err e, w)

  unfoldable pub run_cycle :
      Services S E → Answers E → Result E Unit → ℕ → Action E (World (Process S)) Outcome
  run_cycle services answers writes now = do
    outcome ← run_exclusive answers (task services now)
    modify (log_skipped outcome)
    beat writes
    pure outcome

-- What one turn of `run` meets: the signal before and after the cycle, the answers to the cycle,
-- and how the sleep ends.
pub record Turn (E : Type 0) : Type 0 where
  pub is_aborted : Bool
  pub now : ℕ
  pub answers : Answers E
  pub writes : Result E Unit
  pub is_aborted_after : Bool
  pub sleeps : Result E Unit
  pub is_aborted_asleep : Bool

pub data Stop (E : Type 0) : Type 0 where
  stopped : Stop E
  threw : E → Stop E
  still_running : Stop E

abbrev pub log_failure : {S E A : Type 0} → Result E A × World (Process S) → World (Process S)
log_failure (ok a, w) = w
log_failure (err e, w) = note cycle_failed w

module _ {S E : Type 0} where
  -- A cycle in `run`: what it throws is logged.
  abbrev pub guarded_cycle : Services S E → Turn E → World (Process S) → World (Process S)
  guarded_cycle services t w = log_failure (run_cycle services t.answers t.writes t.now w)

  -- The loop, on the turns that come; at their end it is still running.
  unfoldable pub loop :
      Services S E → List (Turn E) → World (Process S) → Stop E × World (Process S)
  loop services [] w = (still_running, w)
  loop services (t ∷ ts) w =
      let after = guarded_cycle services t w in
      let rest = loop services ts after in
      if t.is_aborted
      then (stopped, w)
      else if t.is_aborted_after
      then (stopped, after)
      else elim t.sleeps [
        | ok u ↦ rest
        | err e ↦ if t.is_aborted_asleep then (stopped, after) else (threw e, after)
      ]

  -- `resets` says whether the old heartbeat can be removed.
  unfoldable pub run :
      Services S E → Result E Unit → List (Turn E) → World (Process S) → Stop E × World (Process S)
  run services (ok u) turns w = loop services turns w
  run services (err e) turns w = (threw e, w)
