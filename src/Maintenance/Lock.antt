-- ===== src/Maintenance/Lock.antt =====
-- src/maintenance/maintenance-lock.service.ts. What the pool and PostgreSQL answer is a parameter;
-- a client that is destroyed ends its session, and with it the session's advisory locks.
use chattea_be.Prelude.{ℕ, ◌≡◌, Bool, true, false, not, ◌+◌, ◌-◌, if◌then◌else◌, arith}
use chattea_be.Prelude.Action.{Result, ok, err, Action}

pub data Outcome : Type 0 where
  acquired skipped : Outcome

-- `services` is what the jobs work on, `clients` counts the clients out of the pool, and
-- `holds_lock` says whether this process has the advisory lock.
pub record World (S : Type 0) : Type 0 where
  pub services : S
  pub clients : ℕ
  pub holds_lock : Bool

-- The answers to one call: of `connect`, of the query for the lock and of the query that unlocks.
pub record Answers (E : Type 0) : Type 0 where
  pub connects : Result E Unit
  pub locks : Result E Bool
  pub unlocks : Result E Bool

-- `client.release(destroy)`
abbrev pub release : {S : Type 0} → Bool → World S → World S
release destroy w = record w {
  clients = w.clients - 1;
  holds_lock = if destroy then false else w.holds_lock;
}

abbrev pub does_unlock : {E : Type 0} → Result E Bool → Bool
does_unlock (ok b) = b
does_unlock (err e) = false

-- The error of the task goes before the error of the unlock.
abbrev pub outcome_of : {E : Type 0} → Result E Unit → Result E Bool → Result E Outcome
outcome_of (err e) unlocked = err e
outcome_of (ok u) (err e) = err e
outcome_of (ok u) (ok b) = ok acquired

module _ {S E : Type 0} where
  -- The lock is there: the task, the unlock, and the client back to the pool.
  unfoldable pub with_lock :
      Answers E → Action E (World S) Unit → World S → Result E Outcome × World S
  with_lock answers task w =
      let (result, done) = task (record w { holds_lock = true }) in
      let unlocked = does_unlock answers.unlocks in
      (
        outcome_of result answers.unlocks,
        release (not unlocked)
            (record done { holds_lock = if unlocked then false else done.holds_lock }),
      )

  unfoldable pub run_exclusive : Answers E → Action E (World S) Unit → Action E (World S) Outcome
  run_exclusive answers task w = elim answers.connects [
    | err e ↦ (err e, w)
    | ok u ↦
        let connected : World S = record w { clients = w.clients + 1 } in
        elim answers.locks [
          | err e ↦ (err e, release false connected)
          | ok b ↦
              if b then with_lock answers task connected else (ok skipped, release false connected)
        ]
  ]

  -- A call, whatever is answered and however the task ends, leaves this process without the lock
  -- and gives its client back, when it did not have the lock before and the task gives back its
  -- clients.
  pub run_exclusive_releases :
      (answers : Answers E) (task : Action E (World S) Unit) (w : World S)
      → w.holds_lock ≡ false
      → ((v : World S) → (task v).1.clients ≡ v.clients)
      → ((run_exclusive answers task w).1.holds_lock ≡ false)
        × ((run_exclusive answers task w).1.clients ≡ w.clients)
  unfolding run_exclusive with_lock
  run_exclusive_releases answers task w free back =
      (ground arith, ground (arith, back (record w { clients = w.clients + 1; holds_lock = true })))
