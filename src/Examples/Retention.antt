-- ===== src/Examples/Retention.antt =====
-- The theorems on the cleanup, the listings and the limits, at concrete inputs.
use webhook_delivery_platfor.Base.{
  ◌+◌, ◌-◌, ◌≡◌, refl, true, false, some, [], ◌∷◌, find, select, query, order_by, insert_before,
  update_where,
}
use webhook_delivery_platfor.Schema.{Database, Delivery, find_delivery}
use webhook_delivery_platfor.Errors.{ok, integrity_error}
use webhook_delivery_platfor.Ledger.{IsBalanced}
use webhook_delivery_platfor.Maintenance.Reconcile.{
  schedule_due, schedule_all, reconcile_stale, reconcile_all, is_due, is_stale,
}
use webhook_delivery_platfor.Maintenance.Scheduler.{Round, maintain, run}
use webhook_delivery_platfor.Maintenance.Scheduler.Balance.{run-IsBalanced}
use webhook_delivery_platfor.Maintenance.Scheduler.Stops.{run-stops}
use webhook_delivery_platfor.Maintenance.Cleanup.{
  CleanupInput, days, cleanup_expired, expire, preview_ids, audit_ids, expire_previews,
  delete_audits, delivery_ids, delete_deliveries, purge_events, event_ids, delete_events,
  remove_events, delivery_ids_of, id_in, any_orphan, is_orphan, is_expired, is_unused, has_delivery,
  has_old_preview,
}
use webhook_delivery_platfor.Maintenance.Cleanup.Blocked.{current_delivery_stays}
use webhook_delivery_platfor.Examples.Data.{
  sample_db, sample_settings, sample_delivery, ended_delivery, sample-IsBalanced,
}

-- A day after the retention of the sample's rows.
abbrev cleanup_input : CleanupInput
cleanup_input = record {
  now = 2600000000000;
  batch_size = 1000;
  locked_attempts = λ id. false;
  locked_audits = λ id. false;
  locked_deliveries = λ id. false;
  locked_events = λ id. false;
}

abbrev cleaned_db : Database
cleaned_db = record sample_db { deliveries = sample_delivery ∷ []; attempts = [] }

sample_cleaned : cleanup_expired sample_settings cleanup_input sample_db ≡ ok (cleaned_db, 1)
unfolding cleanup_expired expire preview_ids audit_ids expire_previews delete_audits delivery_ids
    delete_deliveries purge_events event_ids delete_events remove_events delivery_ids_of id_in
    any_orphan is_orphan is_expired is_unused has_delivery has_old_preview query select order_by
    insert_before update_where
sample_cleaned = refl

abbrev sample_round : Round
sample_round = record {
  stale_now = 2600000000000;
  stale_before = λ a b. true;
  stale_locked = λ id. false;
  due_now = 2600000000000;
  due_locked = λ id. false;
  message_id = λ id. id + 100;
  cleanup = cleanup_input;
}

run-IsBalanced_example :
    IsBalanced 6 (run sample_settings 0 (sample_round ∷ sample_round ∷ []) sample_db).0
run-IsBalanced_example =
    run-IsBalanced sample_settings 0 (sample_round ∷ sample_round ∷ []) sample_db sample-IsBalanced

found_waiting : find_delivery 5 sample_db.deliveries ≡ some sample_delivery
unfolding find
found_waiting = refl

not_expired :
    is_expired (cleanup_input.now - days sample_settings.metadata_retention_days) sample_delivery
    ≡ false
unfolding is_expired
not_expired = refl

current_delivery_stays_example : find_delivery 5 cleaned_db.deliveries ≡ some sample_delivery
current_delivery_stays_example =
    current_delivery_stays sample_settings cleanup_input sample_db 5 sample_delivery
      (unfold find in (refl, (refl, tt))) found_waiting not_expired sample_cleaned

abbrev late_replay : Delivery
late_replay = record sample_delivery {
  id = 50;
  created_at = 2599999999999;
  replay_of = some 6;
  replay_idempotency_key = some "0123456789abcdef";
}

abbrev replayed_db : Database
replayed_db = record sample_db { deliveries = late_replay ∷ sample_delivery ∷ ended_delivery ∷ [] }

-- Nothing is stale or due in it.
nothing_due : maintain sample_settings sample_round replayed_db ≡ replayed_db
unfolding maintain schedule_due schedule_all reconcile_stale reconcile_all is_due is_stale query
    select order_by insert_before
nothing_due = refl

source_listed :
    id_in 6 (
      delivery_ids sample_settings cleanup_input
        (maintain sample_settings sample_round replayed_db))
    ≡ true
unfolding id_in delivery_ids is_expired maintain schedule_due schedule_all reconcile_stale
    reconcile_all is_due is_stale query select order_by insert_before
source_listed = refl

replay_kept :
    id_in 50 (
      delivery_ids sample_settings cleanup_input
        (maintain sample_settings sample_round replayed_db))
    ≡ false
unfolding id_in delivery_ids is_expired maintain schedule_due schedule_all reconcile_stale
    reconcile_all is_due is_stale query select order_by insert_before
replay_kept = refl

replay_found :
    find_delivery 50 (maintain sample_settings sample_round replayed_db).deliveries
    ≡ some late_replay
unfolding find maintain schedule_due schedule_all reconcile_stale reconcile_all is_due is_stale
    query select order_by insert_before
replay_found = refl

run-stops_example :
    run sample_settings 0 (sample_round ∷ sample_round ∷ []) replayed_db
    ≡ (maintain sample_settings sample_round replayed_db, some integrity_error)
run-stops_example =
    run-stops sample_settings sample_round (sample_round ∷ []) replayed_db 6 50 late_replay
      source_listed replay_found refl replay_kept
