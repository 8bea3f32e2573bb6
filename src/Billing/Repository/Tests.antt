-- ===== src/Billing/Repository/Tests.antt =====
-- The theorems about billing.repository.ts at concrete tables and events.
use chattea_be.Prelude.{ℕ, ◌≡◌, refl, ◌≢◌, none, some, [], ◌∷◌, arith, any, find?}
use chattea_be.Prelude.Int.{pos, ◌-ℤ◌}
use chattea_be.Prelude.Text.{Text, codes, text_eq}
use chattea_be.Prelude.Action.{ok, err}
use chattea_be.Postgres.{UuidText}
use chattea_be.Billing.Types.{
  granted, refunded, ConsumableTransition, RecordedEvent, BillingDb, ApplyResult, TransactionState,
  applied, EventInput, consuming, event_payload_conflict,
}
use chattea_be.Billing.Repository.{
  apply_revenue_cat_event, apply_input, apply_consumable_transition, record_event, check_current,
  assert_transaction_identity, effective_state_of, is_stale, balance_delta_of, transition_delta,
  write_transaction, write_balance, require_user,
}
use chattea_be.Billing.Repository.Balances.{IsReconciled}
use chattea_be.Billing.Repository.Sums.{granted_units}
use chattea_be.Billing.Repository.Reconciled.{Delivers, start, deliver, deliveries_reconcile}
use chattea_be.Billing.Repository.Ordering.{
  deliver_to, status, newest_wins, newest, delivery_order_is_irrelevant,
}
use chattea_be.Billing.Repository.Replay.{apply_all, other_payload_is_refused}

-- Ids are texts of one code unit.
abbrev pub first_code : Text → ℕ
first_code [] = 0
first_code (c ∷ s) = c

abbrev pub one_code : UuidText
one_code = record { uuid_in = first_code; uuid_out = λ n. n ∷ []; uuid_in-uuid_out = λ n. refl }

abbrev pub empty : BillingDb
empty = record {
  users = 7 ∷ [];
  events = [];
  subscriptions = [];
  transactions = [];
  ledger = [];
  balances = λ u. none;
  boosts = [];
}

abbrev pub event_1 : RecordedEvent
event_1 = record { provider_event_id = codes "e1"; payload_hash = codes "h1" }

abbrev pub event_2 : RecordedEvent
event_2 = record { provider_event_id = codes "e2"; payload_hash = codes "h2" }

abbrev pub transition : ℕ → TransactionState → ConsumableTransition
transition ms state = record {
  provider_transaction_id = codes "t";
  original_transaction_id = codes "o";
  user_id = 7 ∷ [];
  canonical_product_id = codes "superlike_5";
  provider_product_id = codes "superlike_5";
  event_timestamp_ms = ms;
  target_state = state;
  units = record { super_like_credits = pos 5; boost_credits = pos 0 };
}

abbrev pub purchase : EventInput
purchase = consuming event_1 (transition 100 granted)

abbrev pub refund : EventInput
refund = consuming event_2 (transition 200 refunded)

abbrev pub after_purchase : BillingDb
after_purchase = (apply_revenue_cat_event one_code 1 purchase empty).1

abbrev pub after_refund : BillingDb
after_refund = (apply_revenue_cat_event one_code 2 refund after_purchase).1

empty-IsReconciled : IsReconciled empty
unfolding granted_units
empty-IsReconciled = record { unique = tt; balanced = λ kind u. refl }

purchase_and_refund : Delivers one_code empty after_refund
unfolding apply_revenue_cat_event apply_input apply_consumable_transition record_event
    write_transaction write_balance check_current effective_state_of is_stale balance_delta_of
    transition_delta require_user any find? text_eq
purchase_and_refund = deliver (deliver start 1 purchase refl) 2 refund refl

deliveries_reconcile_example : IsReconciled after_refund
deliveries_reconcile_example =
    deliveries_reconcile one_code empty after_refund purchase_and_refund empty-IsReconciled

abbrev pub purchase_result : ApplyResult
purchase_result = record {
  outcome = applied;
  effective_state = some granted;
  balance_delta = record { super_like_credits = pos 5; boost_credits = pos 0 };
}

purchase_succeeds : (apply_revenue_cat_event one_code 1 purchase empty).0 ≡ ok purchase_result
unfolding apply_revenue_cat_event apply_input apply_consumable_transition record_event
    write_transaction write_balance check_current effective_state_of is_stale balance_delta_of
    transition_delta require_user any find? text_eq
purchase_succeeds = refl

abbrev pub forged : EventInput
forged = consuming (record event_1 { payload_hash = codes "h9" }) (transition 100 granted)

other_payload_is_refused_example :
    let after = apply_all one_code ((2, refund) ∷ []) after_purchase in
    apply_revenue_cat_event one_code 3 forged after ≡ (err event_payload_conflict, after)
other_payload_is_refused_example =
    other_payload_is_refused one_code 1 3 purchase forged empty purchase_result ((2, refund) ∷ [])
      purchase_succeeds refl (λ e. cc)

newest_wins_example :
    find?
      (λ t. text_eq t.provider_transaction_id (codes "t"))
      (deliver_to one_code 1 event_1 (transition 100 granted) empty).1.transactions
    ≡ some (newest one_code 1 none (transition 100 granted))
unfolding apply_revenue_cat_event apply_input apply_consumable_transition record_event
    write_transaction write_balance check_current effective_state_of is_stale balance_delta_of
    transition_delta require_user any find? text_eq
newest_wins_example = newest_wins one_code 1 event_1 (transition 100 granted) empty refl refl

ids_differ : codes "e2" ≢ codes "e1"
ids_differ e = ground arith

delivery_order_is_irrelevant_example :
    status one_code
      (codes "t")
      (deliver_to one_code 2 event_2 (transition 200 refunded) after_purchase).1
    ≡ status one_code
        (codes "t")
        (deliver_to one_code 1 event_1
          (transition 100 granted)
          (deliver_to one_code 2 event_2 (transition 200 refunded) empty).1).1
unfolding apply_revenue_cat_event apply_input apply_consumable_transition record_event
    write_transaction write_balance check_current assert_transaction_identity effective_state_of
    is_stale balance_delta_of transition_delta require_user any find? text_eq ◌-ℤ◌
delivery_order_is_irrelevant_example =
    delivery_order_is_irrelevant one_code 1 2 event_1 event_2 (transition 100 granted)
      (transition 200 refunded) empty refl (omega arith) refl refl ids_differ refl refl refl refl
