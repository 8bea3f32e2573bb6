-- ===== src/Maintenance/Tests.antt =====
-- The theorems about maintenance at a concrete process, whose services count their calls.
use chattea_be.Prelude.{ℕ, ◌≡◌, refl, ◌+◌, Bool, true, false, [], ◌∷◌, any}
use chattea_be.Prelude.Text.{Text, codes}
use chattea_be.Prelude.Action.{ok, err, Action}
use chattea_be.Notification.Types.{BatchResult}
use chattea_be.Maintenance.Lock.{World, Answers}
use chattea_be.Maintenance.Runner.{Process, Services, Turn, stopped, run, run_cycle, jobs_of}
use chattea_be.Maintenance.Runner.Loop.{
  Logged, every_job_is_tried, cycles, run_stops, run_cycle_releases,
}

abbrev nothing : BatchResult
nothing = record {
  claimed = 0;
  succeeded = 0;
  retry_scheduled = 0;
  permanently_failed = 0;
  has_more = false;
}

abbrev counts : ℕ → ℕ → Action Text ℕ BatchResult
counts now limit n = (ok nothing, n + 1)

abbrev fails : ℕ → ℕ → Action Text ℕ BatchResult
fails now limit n = (err (codes "down"), n)

abbrev counting : Services ℕ Text
counting = record {
  process_due_account_deletion_batch = fails;
  process_push_outbox_batch = counts;
  process_push_receipt_batch = counts;
  cleanup_expired_staging_batch = fails;
}

abbrev granted : Answers Text
granted = record { connects = ok tt; locks = ok true; unlocks = err (codes "gone") }

abbrev start : World (Process ℕ)
start = record {
  services = record { state = 0; log = []; beats = 0 };
  clients = 0;
  holds_lock = false;
}

abbrev turn : Bool → Turn Text
turn b = record {
  is_aborted = b;
  now = 0;
  answers = granted;
  writes = ok tt;
  is_aborted_after = false;
  sleeps = ok tt;
  is_aborted_asleep = false;
}

every_job_is_tried_example :
    ((run_cycle counting granted (ok tt) 0 start).0 ≡ err (codes "gone"))
    × Logged 0 (jobs_of counting) start (run_cycle counting granted (ok tt) 0 start).1
every_job_is_tried_example = every_job_is_tried counting granted (ok tt) 0 start refl refl

run_stops_example :
    run counting (ok tt) (turn false ∷ turn false ∷ turn true ∷ []) start
    ≡ (stopped, cycles counting (turn false ∷ turn false ∷ turn true ∷ []) start)
unfolding any
run_stops_example =
    run_stops counting (ok tt) (turn false ∷ turn false ∷ turn true ∷ []) start refl refl

run_cycle_releases_example :
    ((run_cycle counting granted (ok tt) 0 start).1.holds_lock ≡ false)
    × ((run_cycle counting granted (ok tt) 0 start).1.clients ≡ 0)
run_cycle_releases_example = run_cycle_releases counting granted (ok tt) 0 start refl
