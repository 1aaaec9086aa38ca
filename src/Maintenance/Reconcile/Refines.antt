-- ===== src/Maintenance/Reconcile/Refines.antt =====
-- schedule_due and reconcile_stale (src/webhook_platform/maintenance/application/reconcile.py)
-- against the ledger.
use webhook_delivery_platfor.Base.{
  ℕ, ◌-◌, ◌<◌, ◌≡◌, refl, ap, Bool, true, false, Option, none, some, List, [], ◌∷◌, arith, All,
  All-select, All-order_by, Unique, count, rows_found, count-pos, first_of_All, length-select,
  length-order_by, select, order_by, query_found, query-Unique, batch_rest,
}
use webhook_delivery_platfor.Schema.{
  Database, Settings, Endpoint, Delivery, DeliveryAttempt, is_delivering, queued, find_delivery,
  find_endpoint, find_attempt, delivery_key, attempt_key,
}
use webhook_delivery_platfor.Ledger.{IsBalanced, in_flight, delivering_id}
use webhook_delivery_platfor.Ledger.Moves.{Moves, Replaces, here, one, relabel, settle, Moves-trans}
use webhook_delivery_platfor.Ledger.Balance.{Moves-IsBalanced}
use webhook_delivery_platfor.Ledger.Facts.{delivering_slot}
use webhook_delivery_platfor.Maintenance.Reconcile.{
  is_due, due_before, schedule_one, schedule_all, schedule_due, is_stale, started_for,
  later_attempt, latest_started, abandon, requeue, reconcile_one, reconcile_all, release_slot,
  reconcile_stale,
}

-- The rows of a batch: each stands in the table and passes the test of the query.
abbrev Batch : (Delivery → Bool) → Database → List Delivery → Type 0
Batch p db = All (λ r. (find_delivery r.id db.deliveries ≡ some r) × (p r ≡ true))

schedule_one-Moves :
    (limit now : ℕ) (message_id : ℕ → ℕ) (db : Database) (d : Delivery)
    → IsBalanced limit db
    → find_delivery d.id db.deliveries ≡ some d
    → is_due now d ≡ true
    → Moves limit db (schedule_one now message_id d db)
unfolding schedule_one is_due
schedule_one-Moves limit now message_id db d v found due = one (
    relabel d (record d { status = queued; next_attempt_at = none })
      (record {
        found = found;
        same_id = refl;
        same_endpoint = refl;
        within = ground (arith, v.bounded d.id d found);
        may_wait = λ h. ground (arith, v.room d.id d found);
      })
      (ground arith) refl refl refl refl)

schedule_all-Moves :
    (limit now : ℕ) (message_id : ℕ → ℕ) (ds : List Delivery) (db : Database)
    → IsBalanced limit db
    → Batch (is_due now) db ds
    → Unique delivery_key ds
    → Moves limit db (schedule_all now message_id ds db)
unfolding schedule_all
schedule_all-Moves limit now message_id [] db v b u = here
schedule_all-Moves limit now message_id (d ∷ ds) db v b u =
    let m = schedule_one-Moves limit now message_id db d v b.0.0 b.0.1 in
    Moves-trans m (
      schedule_all-Moves limit now message_id ds (schedule_one now message_id d db)
        (Moves-IsBalanced limit db v m)
        (unfold schedule_one in
          batch_rest delivery_key (λ r. is_due now r ≡ true) db.deliveries d _ ds refl b.0.0 u.0
            b.1)
        u.1)

-- On a balanced ledger, a round of the scheduler is a row of moves of the ledger.
pub schedule_due-Moves :
    (limit : ℕ) (settings : Settings) (now : ℕ) (locked : ℕ → Bool) (message_id : ℕ → ℕ)
    (db : Database)
    → IsBalanced limit db
    → Moves limit db (schedule_due settings now locked message_id db)
unfolding schedule_due
schedule_due-Moves limit settings now locked message_id db v =
    schedule_all-Moves limit now message_id _ db v
      (query_found delivery_key (is_due now) due_before locked settings.retry_batch_size
        db.deliveries v.delivery_ids)
      (query-Unique delivery_key (is_due now) due_before locked settings.retry_batch_size
        db.deliveries v.delivery_ids)

-- The attempt that the reconciler looks for is there.
latest_started_found :
    (id : ℕ) (t : List DeliveryAttempt)
    → Unique attempt_key t
    → 0 < count (started_for id) t
    → (a : DeliveryAttempt) × (latest_started id t ≡ some a)
      × ((find_attempt a.id t ≡ some a) × (started_for id a ≡ true))
unfolding latest_started
latest_started_found id t u h =
    first_of_All _ (order_by later_attempt (select (started_for id) t))
      (All-order_by _ later_attempt _
        (All-select _ (started_for id) t (rows_found attempt_key t u)))
      (omega (
        arith,
        length-order_by later_attempt (select (started_for id) t),
        length-select (started_for id) t,
      ))

module _ (settings : Settings) (now : ℕ) (db : Database) (d : Delivery)
    (v : IsBalanced settings.max_delivery_attempts db)
    (found : find_delivery d.id db.deliveries ≡ some d) (live : is_delivering d.status ≡ true) where
  -- A delivery in flight has a started attempt, and its endpoint is there with a slot taken.
  some_started : 0 < count (started_for d.id) db.attempts
  some_started =
      ground (
        arith,
        v.leased d.id,
        count-pos delivery_key d.id (delivering_id d.id) db.deliveries d found,
      )

  some_endpoint :
      (e : Option Endpoint)
      → find_endpoint d.endpoint_id db.endpoints ≡ e
      → (x : Endpoint) × (find_endpoint d.endpoint_id db.endpoints ≡ some x)
  some_endpoint (some x) h = (x, h)
  some_endpoint none h = absurd (
      ground (
        arith,
        v.counted d.endpoint_id,
        h,
        count-pos delivery_key d.id (in_flight d.endpoint_id) db.deliveries d found,
      ))

  requeue-Replaces :
      Replaces settings.max_delivery_attempts db.deliveries d (requeue settings now d)
  unfolding requeue
  requeue-Replaces = record {
    found = found;
    same_id = ground arith;
    same_endpoint = ground arith;
    within = ground (arith, v.bounded d.id d found);
    may_wait = λ h. ground arith;
  }

  requeue_idle : is_delivering (requeue settings now d).status ≡ false
  unfolding requeue
  requeue_idle = ground arith

  reconcile_one-Moves : Moves settings.max_delivery_attempts db (reconcile_one settings now d db)
  unfolding reconcile_one
  reconcile_one-Moves =
      let (a, ha, (fa, st)) = latest_started_found d.id db.attempts v.attempt_ids some_started in
      let (e, he) = some_endpoint (find_endpoint d.endpoint_id db.endpoints) refl in
      one (
        settle d (requeue settings now d) e
          (record e { active_delivery_count = e.active_delivery_count - 1 }) a
          (abandon settings now d a) requeue-Replaces live requeue_idle he refl
          (delivering_slot settings.max_delivery_attempts db d e v found he live) fa
          (unfold abandon in refl) (unfold abandon in refl) (ground arith) (ground arith)
          (unfold abandon in refl) refl (rw ha) (ap (λ x. release_slot x db.endpoints) he))

reconcile_all-Moves :
    (settings : Settings) (now : ℕ) (ds : List Delivery) (db : Database)
    → IsBalanced settings.max_delivery_attempts db
    → Batch (is_stale now) db ds
    → Unique delivery_key ds
    → Moves settings.max_delivery_attempts db (reconcile_all settings now ds db)
unfolding reconcile_all
reconcile_all-Moves settings now [] db v b u = here
reconcile_all-Moves settings now (d ∷ ds) db v b u =
    let limit = settings.max_delivery_attempts in
    let m =
      reconcile_one-Moves settings now db d v b.0.0 (unfold is_stale in ground (arith, b.0.1)) in
    Moves-trans m (
      reconcile_all-Moves settings now ds (reconcile_one settings now d db)
        (Moves-IsBalanced limit db v m)
        (unfold reconcile_one in
          batch_rest delivery_key (λ r. is_stale now r ≡ true) db.deliveries d
            (requeue settings now d) ds
            (requeue-Replaces settings now db d v b.0.0 live_first).same_id b.0.0 u.0 b.1)
        u.1)
  where
    live_first : is_delivering d.status ≡ true
    live_first = unfold is_stale in ground (arith, b.0.1)

-- On a balanced ledger, the recovery of stale leases is a row of moves of the ledger.
pub reconcile_stale-Moves :
    (settings : Settings) (now : ℕ) (before : Delivery → Delivery → Bool) (locked : ℕ → Bool)
    (db : Database)
    → IsBalanced settings.max_delivery_attempts db
    → Moves settings.max_delivery_attempts db (reconcile_stale settings now before locked db)
unfolding reconcile_stale
reconcile_stale-Moves settings now before locked db v =
    reconcile_all-Moves settings now _ db v
      (query_found delivery_key (is_stale now) before locked settings.retry_batch_size db.deliveries
        v.delivery_ids)
      (query-Unique delivery_key (is_stale now) before locked settings.retry_batch_size
        db.deliveries v.delivery_ids)
