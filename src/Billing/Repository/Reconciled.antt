-- ===== src/Billing/Repository/Reconciled.antt =====
-- Sequences of events in `applyRevenueCatEvent` of src/modules/billing/billing.repository.ts.
use chattea_be.Prelude.{
  ℕ, ◌≡◌, refl, sym, ◌∙◌, ◌⊎◌, inl, inr, Bool, true, false, Option, none, some, List, [], ◌∷◌, ◌++◌,
  update_where, if◌then◌else◌, arith, ◌==◌, find?, any, leb,
}
use chattea_be.Prelude.Text.{Text}
use chattea_be.Prelude.Action.{ok, is_ok}
use chattea_be.Postgres.{UuidText}
use chattea_be.Billing.Types.{
  Transaction, ConsumableUnits, Subscription, ConsumableTransition, BillingDb, EventInput, recorded,
  subscribing, consuming,
}
use chattea_be.Billing.Repository.{
  balance_delta_of, check_current, write_transaction, write_balance, apply_consumable_transition,
  apply_subscription, write_subscription, apply_input, apply_revenue_cat_event, replay_event,
  record_event, event_of, is_transaction, new_row,
}
use chattea_be.Billing.Repository.Sums.{HasUniqueIds, set_state}
use chattea_be.Billing.Repository.Balances.{
  IsReconciled, credit-write_balance, HasUniqueIds-snoc, HasUniqueIds-update, granted_units-write,
}

transactions-write_balance :
    (user : ℕ) (d : ConsumableUnits) (db : BillingDb)
    → (write_balance user d db).1.transactions ≡ db.transactions
unfolding write_balance
transactions-write_balance user d db = ground arith

is_ok-write_balance :
    (user : ℕ) (d : ConsumableUnits) (db : BillingDb) → is_ok (write_balance user d db).0 ≡ true
unfolding write_balance
is_ok-write_balance user d db = ground arith

module _ (pg : UuidText) where
  open pg use {uuid_in}

  balances-write_transaction :
      (id : ℕ) (current : Option Transaction) (t : ConsumableTransition) (db : BillingDb)
      → (write_transaction pg id current t db).1.balances ≡ db.balances
  unfolding write_transaction
  balances-write_transaction id none t db = ground arith
  balances-write_transaction id (some c) t db = ground arith

  pub transactions-write_new :
      (id : ℕ) (t : ConsumableTransition) (db : BillingDb)
      → (write_transaction pg id none t db).1.transactions ≡ (
          if any (λ u. u == uuid_in t.user_id) db.users
          then db.transactions ++ new_row pg id t ∷ []
          else db.transactions)
  unfolding write_transaction
  transactions-write_new id t db = ground arith

  pub transactions-write_old :
      (id : ℕ) (c : Transaction) (t : ConsumableTransition) (db : BillingDb)
      → (write_transaction pg id (some c) t db).1.transactions ≡ (
          if leb t.event_timestamp_ms c.state_event_timestamp_ms
          then db.transactions
          else update_where
              (λ r. r.id == c.id)
              (set_state t.target_state t.event_timestamp_ms)
              db.transactions)
  unfolding write_transaction
  transactions-write_old id c t db = ground arith

  HasUniqueIds-if :
      (b : Bool) (xs ys : List Transaction)
      → HasUniqueIds xs
      → HasUniqueIds ys
      → HasUniqueIds (if b then xs else ys)
  HasUniqueIds-if true xs ys h k = h
  HasUniqueIds-if false xs ys h k = k

  HasUniqueIds-write_transaction :
      (id : ℕ) (current : Option Transaction) (t : ConsumableTransition) (db : BillingDb)
      → any (λ r. r.id == id) db.transactions ≡ false
      → HasUniqueIds db.transactions
      → HasUniqueIds (write_transaction pg id current t db).1.transactions
  HasUniqueIds-write_transaction id none t db fresh h =
      rw (transactions-write_new id t db)
        (HasUniqueIds-if _ _ _ (HasUniqueIds-snoc db.transactions (new_row pg id t) h fresh) h)
  HasUniqueIds-write_transaction id (some c) t db fresh h = rw (transactions-write_old id c t db) (
      HasUniqueIds-if _ _ _ h (
        HasUniqueIds-update (λ r. r.id == c.id) t.target_state t.event_timestamp_ms db.transactions
          h))

  module _ (id : ℕ) (e : Text) (t : ConsumableTransition) (db : BillingDb) where
    abbrev pub current : Option Transaction
    current = find? (is_transaction t.provider_transaction_id) db.transactions

    abbrev pub written : BillingDb
    written = (write_transaction pg id current t db).1

    abbrev balance_written : BillingDb
    balance_written = (write_balance (uuid_in t.user_id) (balance_delta_of current t) written).1

    -- A call that returned has passed the checks and the write of the row.
    pub applied_checks :
        is_ok (apply_consumable_transition pg id e t db).0 ≡ true
        → check_current pg current t ≡ ok tt
    unfolding apply_consumable_transition
    applied_checks h = ground arith

    pub applied_writes :
        is_ok (apply_consumable_transition pg id e t db).0 ≡ true
        → is_ok (write_transaction pg id current t db).0 ≡ true
    unfolding apply_consumable_transition
    applied_writes h = ground arith

    pub applied_transactions :
        is_ok (apply_consumable_transition pg id e t db).0 ≡ true
        → (apply_consumable_transition pg id e t db).1.transactions ≡ written.transactions
    unfolding apply_consumable_transition
    applied_transactions h =
        ground (
          arith,
          transactions-write_balance (uuid_in t.user_id) (balance_delta_of current t) written,
        )

    applied_balances :
        is_ok (apply_consumable_transition pg id e t db).0 ≡ true
        → (apply_consumable_transition pg id e t db).1.balances ≡ balance_written.balances
    unfolding apply_consumable_transition
    applied_balances h =
        ground (arith, is_ok-write_balance (uuid_in t.user_id) (balance_delta_of current t) written)

    apply_consumable_transition-IsReconciled :
        is_ok (apply_consumable_transition pg id e t db).0 ≡ true
        → any (λ q. q.id == id) db.transactions ≡ false
        → IsReconciled db
        → IsReconciled (apply_consumable_transition pg id e t db).1
    apply_consumable_transition-IsReconciled h fresh v = record {
      unique =
          rw (applied_transactions h)
            (HasUniqueIds-write_transaction id current t db fresh v.unique);
      balanced = λ kind u.
          rw (applied_transactions h, applied_balances h)
            (credit-write_balance kind (uuid_in t.user_id) u (balance_delta_of current t) written
              ∙ rw (balances-write_transaction id current t db, v.balanced kind u)
                  (sym (
                    granted_units-write pg t kind u id current db v.unique refl (applied_checks h)
                      (applied_writes h))));
    }

  -- Nothing but the tables that a subscription or a plain event writes can change.
  frame_subscription :
      (user : Text) (sub : Subscription) (db : BillingDb)
      → let db' = (apply_subscription pg user sub db).1 in
        (db'.transactions ≡ db.transactions) × (db'.balances ≡ db.balances)
  unfolding apply_subscription write_subscription
  frame_subscription user sub db = (ground arith, ground arith)

  IsReconciled-frame :
      (db db' : BillingDb)
      → db'.transactions ≡ db.transactions
      → db'.balances ≡ db.balances
      → IsReconciled db
      → IsReconciled db'
  IsReconciled-frame db db' et eb v = record {
    unique = rw et v.unique;
    balanced = λ kind u. rw (et, eb) (v.balanced kind u);
  }

  apply_input-IsReconciled :
      (id : ℕ) (input : EventInput) (db : BillingDb)
      → is_ok (apply_input pg id input db).0 ≡ true
      → any (λ q. q.id == id) db.transactions ≡ false
      → IsReconciled db
      → IsReconciled (apply_input pg id input db).1
  unfolding apply_input
  apply_input-IsReconciled id (recorded e) db h fresh v = v
  apply_input-IsReconciled id (subscribing e user sub) db h fresh v =
      let f = frame_subscription user sub db in
      IsReconciled-frame db (apply_subscription pg user sub db).1 f.0 f.1 v
  apply_input-IsReconciled id (consuming e t) db h fresh v =
      apply_consumable_transition-IsReconciled id e.provider_event_id t db h fresh v

  -- What a call leaves is the database as it was, or what the recorded event's part left.
  pub apply_cases :
      (id : ℕ) (input : EventInput) (db : BillingDb)
      → let recorded_db = (record_event (event_of input) db).1 in
        ((apply_revenue_cat_event pg id input db).1 ≡ db)
        ⊎ (is_ok (apply_input pg id input recorded_db).0 ≡ true)
          × ((apply_revenue_cat_event pg id input db).1 ≡ (apply_input pg id input recorded_db).1)
  unfolding apply_revenue_cat_event record_event replay_event
  apply_cases id input db = ground arith

  apply_revenue_cat_event-IsReconciled :
      (id : ℕ) (input : EventInput) (db : BillingDb)
      → any (λ q. q.id == id) db.transactions ≡ false
      → IsReconciled db
      → IsReconciled (apply_revenue_cat_event pg id input db).1
  apply_revenue_cat_event-IsReconciled id input db fresh v = elim (apply_cases id input db) [
    | inl same ↦ rw same v
    | inr (done, left) ↦ rw left (
        apply_input-IsReconciled id input (record_event (event_of input) db).1 done
          (unfold record_event in fresh)
          (unfold record_event in IsReconciled-frame db _ refl refl v))
  ]

  -- Webhook calls, each with a row id that no transaction has.
  pub data Delivers (db : BillingDb) : BillingDb → Type 0 where
    start : Delivers db db
    deliver :
        {before : BillingDb}
        → Delivers db before
        → (id : ℕ) (input : EventInput) → any (λ q. q.id == id) before.transactions ≡ false
        → Delivers db (apply_revenue_cat_event pg id input before).1

  -- After any sequence of events, new, repeated, late or refused, from a database that was
  -- reconciled: no two transactions share an id, and each user's balance of super likes and of
  -- boosts is the sum of the units of the user's transactions that are in the state granted.
  pub deliveries_reconcile :
      (db db' : BillingDb) → Delivers db db' → IsReconciled db → IsReconciled db'
  deliveries_reconcile db db' start v = v
  deliveries_reconcile db db' (deliver {before = b} earlier id input fresh) v =
      apply_revenue_cat_event-IsReconciled id input b fresh (deliveries_reconcile db b earlier v)
