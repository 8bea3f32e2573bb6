-- ===== src/Billing/Repository/Ordering.antt =====
-- The order of the events of one store transaction in src/modules/billing/billing.repository.ts.
use chattea_be.Prelude.{
  ℕ, ◌<◌, ◌≡◌, refl, sym, Bool, true, Option, none, some, arith, ◌==◌, leb, if◌then◌else◌, find?,
  any, find?-snoc, any-of_none, find?-update_where, any-snoc, not, ◌≢◌,
}
use chattea_be.Prelude.Text.{Text, text_eq_refl, text_eq_iff}
use chattea_be.Prelude.Action.{is_ok}
use chattea_be.Postgres.{UuidText}
use chattea_be.Billing.Types.{
  Transaction, TransactionState, ConsumableTransition, BillingDb, ApplyResult, consuming,
  RecordedEvent,
}
use chattea_be.Billing.Repository.{
  Billing, write_transaction, apply_input, apply_revenue_cat_event, replay_event, record_event,
  is_transaction, new_row, event_row, is_event,
}
use chattea_be.Billing.Repository.Sums.{set_state}
use chattea_be.Billing.Repository.Replay.{events-apply_input}
use chattea_be.Billing.Repository.Reconciled.{applied_transactions, applied_writes}

module _ (pg : UuidText) where
  -- The row that a transition leaves, by the row that it finds.
  abbrev pub newest : ℕ → Option Transaction → ConsumableTransition → Transaction
  newest id none t = new_row pg id t
  newest id (some c) t =
      if leb t.event_timestamp_ms c.state_event_timestamp_ms
      then c
      else set_state t.target_state t.event_timestamp_ms c

  find?-write_transaction :
      (id : ℕ) (t : ConsumableTransition) (db : BillingDb) (current : Option Transaction)
      → find? (is_transaction t.provider_transaction_id) db.transactions ≡ current
      → is_ok (write_transaction pg id current t db).0 ≡ true
      → find?
          (is_transaction t.provider_transaction_id)
          (write_transaction pg id current t db).1.transactions
        ≡ some (newest id current t)
  unfolding write_transaction
  find?-write_transaction id t db none e h = ground (
    arith,
    find?-snoc (is_transaction t.provider_transaction_id) db.transactions (new_row pg id t),
    any-of_none (is_transaction t.provider_transaction_id) db.transactions e,
    text_eq_refl t.provider_transaction_id,
  )
  find?-write_transaction id t db (some c) e h = ground (
    arith,
    find?-update_where (is_transaction t.provider_transaction_id) (λ r. r.id == c.id)
        (set_state t.target_state t.event_timestamp_ms) (λ r. refl) db.transactions,
  )

  abbrev pub is_new : RecordedEvent → BillingDb → Bool
  is_new e db = not (any (is_event e.provider_event_id) db.events)

  -- A transition of a new event that was applied leaves, as its transaction's row, the newer of the
  -- row that was there and its own state.
  pub newest_wins :
      (id : ℕ) (e : RecordedEvent) (t : ConsumableTransition) (db : BillingDb)
      → is_new e db ≡ true
      → is_ok (apply_revenue_cat_event pg id (consuming e t) db).0 ≡ true
      → find?
          (is_transaction t.provider_transaction_id)
          (apply_revenue_cat_event pg id (consuming e t) db).1.transactions
        ≡ some (newest id (find? (is_transaction t.provider_transaction_id) db.transactions) t)
  unfolding apply_revenue_cat_event apply_input record_event
  newest_wins id e t db new h =
      let db' = (record_event e db).1 in
      ground (
        arith,
        applied_transactions pg id e.provider_event_id t db',
        applied_writes pg id e.provider_event_id t db',
        find?-write_transaction id t db'
            (find? (is_transaction t.provider_transaction_id) db.transactions) refl,
      )

  is_new-after :
      (id : ℕ) (e e' : RecordedEvent) (t : ConsumableTransition) (db : BillingDb)
      → is_new e' db ≡ true
      → e'.provider_event_id ≢ e.provider_event_id
      → is_new e' (apply_revenue_cat_event pg id (consuming e t) db).1 ≡ true
  unfolding apply_revenue_cat_event record_event replay_event
  is_new-after id e e' t db new ne = ground (
    arith,
    events-apply_input pg id (consuming e t) (record_event e db).1,
    any-snoc (is_event e'.provider_event_id) db.events (event_row e),
    text_eq_iff e.provider_event_id e'.provider_event_id,
  )

  -- What a query for the transaction shows: its state and the time of the event that set it.
  abbrev pub status : Text → BillingDb → Option (TransactionState × ℕ)
  status x db = elim (find? (is_transaction x) db.transactions) [
    | none ↦ none
    | some r ↦ some (r.state, r.state_event_timestamp_ms)
  ]

  -- The call for a consumable event: its reply, and the database that it leaves.
  abbrev pub deliver_to : ℕ → RecordedEvent → ConsumableTransition → Billing ApplyResult
  deliver_to id e t = apply_revenue_cat_event pg id (consuming e t)

  newest_twice :
      (id id' : ℕ) (t t' : ConsumableTransition) (o : Option Transaction)
      → t.event_timestamp_ms < t'.event_timestamp_ms
      → let a = newest id' (some (newest id o t)) t' in
        let b = newest id (some (newest id' o t')) t in
        (a.state ≡ b.state) × (a.state_event_timestamp_ms ≡ b.state_event_timestamp_ms)
  newest_twice id id' t t' none lt = (ground arith, ground arith)
  newest_twice id id' t t' (some c) lt = (ground arith, ground arith)

  -- Two events of one store transaction with different timestamps, both new and of different ids,
  -- leave the transaction in the same state with the same timestamp in whichever order they are
  -- delivered, when all four calls return.
  pub delivery_order_is_irrelevant :
      (id id' : ℕ) (e e' : RecordedEvent) (t t' : ConsumableTransition) (db : BillingDb)
      → t'.provider_transaction_id ≡ t.provider_transaction_id
      → t.event_timestamp_ms < t'.event_timestamp_ms
      → is_new e db ≡ true
      → is_new e' db ≡ true
      → e'.provider_event_id ≢ e.provider_event_id
      → is_ok (deliver_to id e t db).0 ≡ true
      → is_ok (deliver_to id' e' t' (deliver_to id e t db).1).0 ≡ true
      → is_ok (deliver_to id' e' t' db).0 ≡ true
      → is_ok (deliver_to id e t (deliver_to id' e' t' db).1).0 ≡ true
      → status t.provider_transaction_id (deliver_to id' e' t' (deliver_to id e t db).1).1
        ≡ status t.provider_transaction_id (deliver_to id e t (deliver_to id' e' t' db).1).1
  delivery_order_is_irrelevant id id' e e' t t' db same lt new new' ne r r' s s' =
      let first = (apply_revenue_cat_event pg id (consuming e t) db).1 in
      let first' = (apply_revenue_cat_event pg id' (consuming e' t') db).1 in
      ground (
        arith,
        newest_wins id e t db new,
        newest_wins id' e' t' db new',
        newest_wins id' e' t' first,
        newest_wins id e t first',
        is_new-after id e e' t db new' ne,
        is_new-after id' e' e t' db new (λ p. ne (sym p)),
        newest_twice id id' t t' (find? (is_transaction t.provider_transaction_id) db.transactions)
            lt,
      )
