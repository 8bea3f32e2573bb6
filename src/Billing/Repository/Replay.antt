-- ===== src/Billing/Repository/Replay.antt =====
-- Events that are recorded already in src/modules/billing/billing.repository.ts.
use chattea_be.Prelude.{
  ℕ, ◌≡◌, refl, sym, ◌∙◌, ◌≢◌, ◌⊎◌, inl, inr, List, [], ◌∷◌, ◌++◌, Bool, true, false, ◌&&◌, none,
  some, arith, find?, any, find?-snoc, any-of_find?, Option-cases,
}
use chattea_be.Prelude.Text.{Text, text_eq, text_eq_iff, text_eq_refl}
use chattea_be.Prelude.Action.{ok, err}
use chattea_be.Postgres.{UuidText}
use chattea_be.Billing.Types.{
  RecordedEvent, ConsumableTransition, EventInput, recorded, subscribing, consuming, duplicate,
  ApplyResult, BillingEvent, BillingDb, BillingError, event_payload_conflict, zero_delta,
}
use chattea_be.Billing.Repository.{
  revenuecat, is_event, event_row, apply_revenue_cat_event, apply_input, replay_event,
  write_transaction, write_balance, check_current, write_subscription, record_event, event_of,
  apply_subscription, apply_consumable_transition,
}

abbrev pub duplicate_result : ApplyResult
duplicate_result = record {
  outcome = duplicate;
  effective_state = none;
  balance_delta = zero_delta;
}

-- Whether the event is in the table with the hash that this delivery has.
abbrev pub is_recorded : RecordedEvent → BillingDb → Bool
is_recorded e db = elim (find? (is_event e.provider_event_id) db.events) [
  | none ↦ false
  | some row ↦ text_eq row.provider revenuecat && text_eq row.payload_hash e.payload_hash
]

recorded_row :
    (e : RecordedEvent) (db : BillingDb)
    → is_recorded e db ≡ true
    → (row : BillingEvent) × (find? (is_event e.provider_event_id) db.events ≡ some row)
      × (row.payload_hash ≡ e.payload_hash)
recorded_row e db h = elim (Option-cases (find? (is_event e.provider_event_id) db.events)) [
  | inl n ↦ ground arith
  | inr (row, p) ↦ (row, p, ground (arith, text_eq_iff row.payload_hash e.payload_hash))
]

module _ (pg : UuidText) where
  -- What follows the recording of the event leaves the table of events alone.
  events-apply_consumable_transition :
      (id : ℕ) (e : Text) (t : ConsumableTransition) (db : BillingDb)
      → (apply_consumable_transition pg id e t db).1.events ≡ db.events
  unfolding apply_consumable_transition write_transaction write_balance check_current
  events-apply_consumable_transition id e t db = ground arith

  pub events-apply_input :
      (id : ℕ) (input : EventInput) (db : BillingDb)
      → (apply_input pg id input db).1.events ≡ db.events
  unfolding apply_input apply_subscription write_subscription
  events-apply_input id (recorded e) db = refl
  events-apply_input id (subscribing e u s) db = ground arith
  events-apply_input id (consuming e t) db =
      events-apply_consumable_transition id e.provider_event_id t db

  find?-record_event :
      (e : RecordedEvent) (db : BillingDb)
      → any (is_event e.provider_event_id) db.events ≡ false
      → is_recorded e (record_event e db).1 ≡ true
  unfolding record_event
  find?-record_event e db new = ground (
    arith,
    find?-snoc (is_event e.provider_event_id) db.events (event_row e),
    text_eq_refl e.provider_event_id,
    text_eq_refl e.payload_hash,
    text_eq_refl revenuecat,
  )

  pub recorded_is_duplicate :
      (id : ℕ) (input : EventInput) (db : BillingDb)
      → is_recorded (event_of input) db ≡ true
      → apply_revenue_cat_event pg id input db ≡ (ok duplicate_result, db)
  unfolding apply_revenue_cat_event replay_event
  recorded_is_duplicate id input db h =
      elim (Option-cases (find? (is_event (event_of input).provider_event_id) db.events)) [
        | inl e ↦ ground arith
        | inr (row, e) ↦
            ground
              (arith, any-of_find? (is_event (event_of input).provider_event_id) db.events row e)
      ]

  -- An event id that the table has with another payload hash.
  conflicts :
      (id : ℕ) (input : EventInput) (db : BillingDb) (row : BillingEvent)
      → find? (is_event (event_of input).provider_event_id) db.events ≡ some row
      → row.payload_hash ≢ (event_of input).payload_hash
      → apply_revenue_cat_event pg id input db ≡ (err event_payload_conflict, db)
  unfolding apply_revenue_cat_event replay_event
  conflicts id input db row e ne = ground (
    arith,
    any-of_find? (is_event (event_of input).provider_event_id) db.events row e,
    text_eq_iff row.payload_hash (event_of input).payload_hash,
  )

  -- A call adds at most one event, behind the others.
  events-apply_revenue_cat_event :
      (id : ℕ) (input : EventInput) (db : BillingDb)
      → let after = (apply_revenue_cat_event pg id input db).1.events in
        (after ≡ db.events) ⊎ (after ≡ db.events ++ event_row (event_of input) ∷ [])
  unfolding apply_revenue_cat_event replay_event record_event
  events-apply_revenue_cat_event id input db =
      ground (arith, events-apply_input id input (record_event (event_of input) db).1)

  -- Calls one after another, each with the random key of its row.
  abbrev pub apply_all : List (ℕ × EventInput) → BillingDb → BillingDb
  apply_all [] db = db
  apply_all ((id, input) ∷ calls) db = apply_all calls (apply_revenue_cat_event pg id input db).1

  event_stays :
      (calls : List (ℕ × EventInput)) (event : Text) (db : BillingDb) (row : BillingEvent)
      → find? (is_event event) db.events ≡ some row
      → find? (is_event event) (apply_all calls db).events ≡ some row
  event_stays [] event db row h = h
  event_stays ((id, input) ∷ calls) event db row h =
      event_stays calls event (apply_revenue_cat_event pg id input db).1 row
        (elim (events-apply_revenue_cat_event id input db) [
          | inl same ↦ rw same h
          | inr added ↦ rw added (
              ground (
                arith,
                any-of_find? (is_event event) db.events row h,
                find?-snoc (is_event event) db.events (event_row (event_of input)),
              ))
        ])

  -- A call that returned has left its event recorded.
  pub apply_revenue_cat_event_records :
      (id : ℕ) (input : EventInput) (db : BillingDb) (r : ApplyResult)
      → (apply_revenue_cat_event pg id input db).0 ≡ ok r
      → is_recorded (event_of input) (apply_revenue_cat_event pg id input db).1 ≡ true
  unfolding apply_revenue_cat_event replay_event
  apply_revenue_cat_event_records id input db r h = ground (
    arith,
    find?-record_event (event_of input) db,
    events-apply_input id input (record_event (event_of input) db).1,
  )

  -- Once a call for an event has returned, a call with the event's id and another payload hash is
  -- refused with a payload conflict and leaves the whole database as it is, whatever calls, of
  -- this event or of others, come between the two.
  pub other_payload_is_refused :
      (id id' : ℕ) (input input' : EventInput) (db : BillingDb) (r : ApplyResult)
      (between : List (ℕ × EventInput))
      → (apply_revenue_cat_event pg id input db).0 ≡ ok r
      → (event_of input').provider_event_id ≡ (event_of input).provider_event_id
      → (event_of input').payload_hash ≢ (event_of input).payload_hash
      → let db' = apply_all between (apply_revenue_cat_event pg id input db).1 in
        apply_revenue_cat_event pg id' input' db' ≡ (err event_payload_conflict, db')
  other_payload_is_refused id id' input input' db r between h same other =
      let db' = (apply_revenue_cat_event pg id input db).1 in
      let (row, found, hash) =
        recorded_row (event_of input) db' (apply_revenue_cat_event_records id input db r h) in
      conflicts id' input' (apply_all between db') row
        (rw same (event_stays between (event_of input).provider_event_id db' row found))
        (λ e. other (sym e ∙ hash))

  -- A call that throws is rolled back.
  pub apply_revenue_cat_event_rolls_back :
      (id : ℕ) (input : EventInput) (db : BillingDb) {e : BillingError}
      → (apply_revenue_cat_event pg id input db).0 ≡ err e
      → (apply_revenue_cat_event pg id input db).1 ≡ db
  unfolding apply_revenue_cat_event
  apply_revenue_cat_event_rolls_back id input db h = ground arith
