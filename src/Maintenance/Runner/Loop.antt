-- ===== src/Maintenance/Runner/Loop.antt =====
-- What a cycle does for each job, and when the loop of src/maintenance/maintenance.runner.ts ends.
use mathlib.Core.List.{append-nil, append_assoc}
use chattea_be.Prelude.{
  ℕ, ◌≡◌, refl, sym, subst, ◌∙◌, ◌+◌, Bool, true, false, not, ◌&&◌, ◌||◌, List, [], ◌∷◌, ◌++◌,
  if◌then◌else◌, arith, any, all,
}
use chattea_be.Prelude.Text.{Text, codes}
use chattea_be.Prelude.Action.{Result, ok, err, is_ok}
use chattea_be.Notification.Types.{BatchResult}
use chattea_be.Maintenance.Lock.{
  Outcome, acquired, World, Answers, run_exclusive, with_lock, run_exclusive_releases,
}
use chattea_be.Maintenance.Runner.{
  Entry, job_completed, job_failed, Process, Job, Services, entry_of, jobs_of, run_job, run_jobs,
  task, beat, run_cycle, Turn, stopped, threw, guarded_cycle, loop, run,
}

-- What the log says of a batch that a job ran.
pub data Reports (name : Text) {E : Type 0} : Result E BatchResult → Entry → Type 0 where
  completes : {r : BatchResult} → Reports name (ok r) (job_completed name r)
  fails : {e : E} → Reports name (err e) (job_failed name)

Reports-entry_of :
    {E : Type 0} (name : Text) (r : Result E BatchResult) → Reports name r (entry_of name r)
Reports-entry_of name (ok r) = completes
Reports-entry_of name (err e) = fails

-- The batches ran one after another, each on the state that the one before left, whether that
-- failed or not, all of the same time and limit, and the log has an entry for each.
pub data Ran {S E : Type 0} (now limit : ℕ) : List (Job S E) → S → S → List Entry → Type 0 where
  none_left : {s : S} → Ran now limit [] s s []
  batch :
      {job : Job S E} {jobs : List (Job S E)} {s t : S} {entry : Entry} {entries : List Entry}
      → Reports job.name (job.execute now limit s).0 entry
      → Ran now limit jobs (job.execute now limit s).1 t entries
      → Ran now limit (job ∷ jobs) s t (entry ∷ entries)

-- How a cycle ends that got the lock: by the unlock, then by the heartbeat, never by a job.
abbrev pub ending : {E : Type 0} → Result E Bool → Result E Unit → Result E Outcome
ending (err e) writes = err e
ending (ok b) (err e) = err e
ending (ok b) (ok u) = ok acquired

-- A turn at which the signal is seen.
abbrev pub is_last : {E : Type 0} → Turn E → Bool
is_last t = t.is_aborted || t.is_aborted_after || (not (is_ok t.sleeps) && t.is_aborted_asleep)

-- The timer fails only because the signal aborts it.
abbrev pub sleeps_well : {E : Type 0} → Turn E → Bool
sleeps_well t = is_ok t.sleeps || t.is_aborted_asleep

module _ {S E : Type 0} where
  -- What a list of jobs does to the state and adds to the log.
  pub record Logged (now : ℕ) (jobs : List (Job S E)) (w w' : World (Process S)) : Type 0 where
    pub entries : List Entry
    pub is_added : w'.services.log ≡ w.services.log ++ entries
    pub ran : Ran now 100 jobs w.services.state w'.services.state entries

  logs :
      (now : ℕ) (jobs : List (Job S E)) (w : World (Process S))
      → Logged now jobs w (run_jobs now jobs w)
  unfolding run_jobs run_job
  logs now [] w = record {
    entries = [];
    is_added = sym (append-nil w.services.log);
    ran = none_left;
  }
  logs now (job ∷ jobs) w =
      let later : Logged now jobs (run_job now job w) (run_jobs now jobs (run_job now job w)) =
        logs now jobs (run_job now job w) in
      let result = (job.execute now 100 w.services.state).0 in
      record {
        entries = entry_of job.name result ∷ later.entries;
        is_added =
            later.is_added
            ∙ append_assoc w.services.log (entry_of job.name result ∷ []) later.entries;
        ran = batch (Reports-entry_of job.name result) later.ran;
      }

  -- A run of jobs takes no client.
  clients_back :
      (now : ℕ) (jobs : List (Job S E)) (w : World (Process S))
      → (run_jobs now jobs w).clients ≡ w.clients
  unfolding run_jobs run_job
  clients_back now [] w = refl
  clients_back now (job ∷ jobs) w = clients_back now jobs (run_job now job w)

  after_cycle :
      (services : Services S E) (answers : Answers E) (writes : Result E Unit) (now : ℕ)
      (w : World (Process S))
      → answers.connects ≡ ok tt
      → answers.locks ≡ ok true
      → let done =
          run_jobs now
            (jobs_of services)
            (record w { clients = w.clients + 1; holds_lock = true }) in
        let (result, w') = run_cycle services answers writes now w in
        (result ≡ ending answers.unlocks writes)
        × (w'.services.log ≡ done.services.log)
        × (w'.services.state ≡ done.services.state)
  unfolding run_cycle run_exclusive with_lock beat
  after_cycle services answers writes now w c l = (ground arith, ground arith, ground arith)

  -- A cycle that gets the lock runs the four batches in their order, each with the time of the
  -- cycle and the limit 100, on the state that the one before left, whichever of them fail; the
  -- log has an entry for each that says how it ended, and the cycle fails only by the unlock or
  -- the heartbeat.
  pub every_job_is_tried :
      (services : Services S E) (answers : Answers E) (writes : Result E Unit) (now : ℕ)
      (w : World (Process S))
      → answers.connects ≡ ok tt
      → answers.locks ≡ ok true
      → let (result, w') = run_cycle services answers writes now w in
        (result ≡ ending answers.unlocks writes)
        × Logged now
            (record {
              name = codes "account-deletion";
              execute = services.process_due_account_deletion_batch;
            }
              ∷ record { name = codes "push-outbox"; execute = services.process_push_outbox_batch }
              ∷ record {
                name = codes "push-receipts";
                execute = services.process_push_receipt_batch;
              }
              ∷ record {
                name = codes "staging-cleanup";
                execute = services.cleanup_expired_staging_batch;
              }
              ∷ [])
            w
            w'
  every_job_is_tried services answers writes now w c l =
      let start : World (Process S) = record w { clients = w.clients + 1; holds_lock = true } in
      let logged = logs now (jobs_of services) start in
      let (result, log, state) = after_cycle services answers writes now w c l in
      (
        result,
        record {
          entries = logged.entries;
          is_added = log ∙ logged.is_added;
          ran =
              subst (λ s. Ran now 100 (jobs_of services) w.services.state s logged.entries)
                (sym state) logged.ran;
        },
      )

  -- The cycles that run before the signal is seen.
  abbrev pub cycles : Services S E → List (Turn E) → World (Process S) → World (Process S)
  cycles services [] w = w
  cycles services (t ∷ ts) w =
      let after = guarded_cycle services t w in
      let rest = cycles services ts after in
      if t.is_aborted then w else if t.is_aborted_after || not (is_ok t.sleeps) then after else rest

  loop_stops :
      (services : Services S E) (turns : List (Turn E)) (w : World (Process S))
      → any is_last turns ≡ true
      → all sleeps_well turns ≡ true
      → loop services turns w ≡ (stopped, cycles services turns w)
  unfolding any loop
  loop_stops services [] w last well = ground arith
  loop_stops services (t ∷ ts) w last well =
      ground (arith, loop_stops services ts (guarded_cycle services t w))

  -- When the timer fails only as the signal aborts it, and the signal is aborted at some turn, the
  -- process throws the error of the heartbeat's reset before any cycle, if there is one; else it
  -- ends at the first turn at which the signal is aborted, has run the cycles up to there, and
  -- throws nothing, whatever the cycles throw.
  pub run_stops :
      (services : Services S E) (resets : Result E Unit) (turns : List (Turn E))
      (w : World (Process S))
      → any is_last turns ≡ true
      → all sleeps_well turns ≡ true
      → run services resets turns w
        ≡ (elim resets [ ok u ↦ (stopped, cycles services turns w) | err e ↦ (threw e, w) ])
  unfolding run
  run_stops services (ok u) turns w last well = loop_stops services turns w last well
  run_stops services (err e) turns w last well = refl

  -- A cycle, whatever it meets, leaves this process without the lock and its clients in the pool,
  -- when it did not have the lock before.
  pub run_cycle_releases :
      (services : Services S E) (answers : Answers E) (writes : Result E Unit) (now : ℕ)
      (w : World (Process S))
      → w.holds_lock ≡ false
      → ((run_cycle services answers writes now w).1.holds_lock ≡ false)
        × ((run_cycle services answers writes now w).1.clients ≡ w.clients)
  unfolding run_cycle beat
  run_cycle_releases services answers writes now w free = ground (
    arith,
    run_exclusive_releases answers (task services now) w free (clients_back now (jobs_of services)),
  )
