-- ===== src/Maintenance/Cleanup/Balance.antt =====
-- A cleanup keeps the ledger of leases balanced.
use webhook_delivery_platfor.Base.{
  ℕ, ◌-◌, ◌≡◌, refl, sym, subst, ◌∙◌, Bool, true, false, not, some, List, inl, inr, arith,
  Bool-cases, Option-cases, eq→≡, select, count, All-imp, Unique, rows_found, select-Unique,
  count-key, update_where-Unique, count-update_where,
}
use webhook_delivery_platfor.Schema.{
  Database, Settings, Delivery, is_terminal, is_delivering, delivery_key, attempt_key,
  find_delivery,
}
use webhook_delivery_platfor.Errors.{ok, Result-cases}
use webhook_delivery_platfor.Ledger.{IsBalanced, in_flight, delivering_id, started_of}
use webhook_delivery_platfor.Maintenance.Cleanup.{
  CleanupInput, id_in, days, expire, expire_previews, delete_audits, erase_preview, delivery_ids,
  delete_deliveries, any_orphan, purge_events, remove_events, event_ids, is_expired,
  cleanup_expired,
}
use webhook_delivery_platfor.Maintenance.Cleanup.Cascade.{delete_events-alone}
use webhook_delivery_platfor.Maintenance.Cleanup.Selects.{
  query_passes, find-select_was, count-select, count-select-le, All-rows,
}

-- A cleanup that commits: the database after the expiry, and after the deliveries are deleted.
pub record Cleaned (settings : Settings) (i : CleanupInput) (db db' : Database) : Type 0 where
  pub between : Database
  pub deleted :
      delete_deliveries (delivery_ids settings i (expire settings i db).0) (expire settings i db).0
      ≡ ok between
  pub purged : db' ≡ remove_events (event_ids settings i between) between

pub cleanup_expired-ok :
    (settings : Settings) (i : CleanupInput) (db : Database) {db' : Database} {total : ℕ}
    → cleanup_expired settings i db ≡ ok (db', total)
    → Cleaned settings i db db'
unfolding cleanup_expired purge_events
cleanup_expired-ok settings i db {db'} {total} h =
    elim (Result-cases (
      delete_deliveries (delivery_ids settings i (expire settings i db).0)
        (expire settings i db).0)) [
          | inr (x, e) ↦ absurd (ground (arith, e, h))
          | inl (mid, e) ↦ record {
            between = mid;
            deleted = e;
            purged = ground (arith, e, h, delete_events-alone settings i mid);
          }
        ]

-- The tables after deliveries are deleted.
pub delete_deliveries-ok :
    (ids : List ℕ) (db : Database) {db' : Database}
    → delete_deliveries ids db ≡ ok db'
    → (any_orphan ids db.deliveries ≡ false)
      × (db' ≡ record db {
        deliveries = select (λ d. not (id_in d.id ids)) db.deliveries;
        attempts = select (λ a. not (id_in a.delivery_id ids)) db.attempts;
      })
unfolding delete_deliveries
delete_deliveries-ok ids db {db'} h = elim (Bool-cases (any_orphan ids db.deliveries)) [
  | inl e ↦ absurd (ground (arith, e, h))
  | inr e ↦ (e, ground (arith, e, h))
]

-- Every delivery of the batch has ended.
pub batch_ended :
    (settings : Settings) (i : CleanupInput) (db : Database) (k : ℕ) (d : Delivery)
    → Unique delivery_key db.deliveries
    → id_in k (delivery_ids settings i db) ≡ true
    → find_delivery k db.deliveries ≡ some d
    → is_expired (i.now - days settings.metadata_retention_days) d ≡ true
unfolding delivery_ids
batch_ended settings i db k d u h e =
    query_passes delivery_key (is_expired (i.now - days settings.metadata_retention_days)) _
      i.locked_deliveries i.batch_size db.deliveries k u h e

module _ (limit : ℕ) (ids : List ℕ) (db : Database) (v : IsBalanced limit db)
    (ended : (k : ℕ) (d : Delivery)
      → id_in k ids ≡ true
      → find_delivery k db.deliveries ≡ some d
      → is_terminal d.status ≡ true) where
  kept : Delivery → Bool
  kept d = not (id_in d.id ids)

  not_delivering :
      (p : Delivery → Bool)
      → ((d : Delivery) → is_terminal d.status ≡ true → p d ≡ false)
      → count p (select kept db.deliveries) ≡ count p db.deliveries
  unfolding kept
  not_delivering p h = count-select p kept db.deliveries (
      All-imp (λ d f gone. h d (ended d.id d (ground (arith, gone)) f)) db.deliveries
        (rows_found delivery_key db.deliveries v.delivery_ids))

  none_started : (id : ℕ) → id_in id ids ≡ true → count (started_of id) db.attempts ≡ 0
  none_started id h =
      v.leased id
      ∙ count-key delivery_key id (λ d. is_delivering d.status) db.deliveries v.delivery_ids
      ∙ elim (Option-cases (find_delivery id db.deliveries)) [
        | inl e ↦ rw e refl
        | inr (d, e) ↦ rw e (ground (arith, ended id d h e))
      ]

  leased_after :
      (id : ℕ)
      → count (started_of id) (select (λ a. not (id_in a.delivery_id ids)) db.attempts)
        ≡ count (delivering_id id) (select kept db.deliveries)
  leased_after id =
      let same = not_delivering (delivering_id id) (λ d t. ground (arith, t)) in
      elim (Bool-cases (id_in id ids)) [
        | inl e ↦ omega (
          arith,
          same,
          v.leased id,
          none_started id e,
          count-select-le (started_of id) (λ a. not (id_in a.delivery_id ids)) db.attempts,
        )
        | inr e ↦
            count-select (started_of id) (λ a. not (id_in a.delivery_id ids)) db.attempts
              (All-rows _ (λ a gone. ground (arith, e, gone, eq→≡ a.delivery_id id)) db.attempts)
            ∙ v.leased id
            ∙ sym same
      ]

  deleted-IsBalanced : IsBalanced limit (record db {
    deliveries = select kept db.deliveries;
    attempts = select (λ a. not (id_in a.delivery_id ids)) db.attempts;
  })
  deleted-IsBalanced = record {
    delivery_ids = select-Unique delivery_key kept db.deliveries v.delivery_ids;
    attempt_ids = select-Unique attempt_key _ db.attempts v.attempt_ids;
    bounded = λ id d h.
        v.bounded id d (find-select_was delivery_key kept id db.deliveries v.delivery_ids h);
    room = λ id d h w.
        v.room id d (find-select_was delivery_key kept id db.deliveries v.delivery_ids h) w;
    counted = λ id. v.counted id ∙ sym (not_delivering (in_flight id) (λ d t. ground (arith, t)));
    capacity = v.capacity;
    leased = leased_after;
  }

expire-IsBalanced :
    (limit : ℕ) (settings : Settings) (i : CleanupInput) (db : Database)
    → IsBalanced limit db
    → IsBalanced limit (expire settings i db).0
unfolding expire expire_previews delete_audits
expire-IsBalanced limit settings i db v = record {
  delivery_ids = v.delivery_ids;
  attempt_ids =
      update_where-Unique attempt_key _ erase_preview db.attempts (λ a. refl) v.attempt_ids;
  bounded = v.bounded;
  room = v.room;
  counted = v.counted;
  capacity = v.capacity;
  leased = λ id.
      count-update_where (started_of id) _ erase_preview db.attempts (λ a h. refl) ∙ v.leased id;
}

remove_events-IsBalanced :
    (limit : ℕ) (ids : List ℕ) (db : Database)
    → IsBalanced limit db
    → IsBalanced limit (remove_events ids db)
unfolding remove_events
remove_events-IsBalanced limit ids db v = record {
  delivery_ids = v.delivery_ids;
  attempt_ids = v.attempt_ids;
  bounded = v.bounded;
  room = v.room;
  counted = v.counted;
  capacity = v.capacity;
  leased = v.leased;
}

-- A cleanup that commits keeps the ledger balanced: the counters of the endpoints, the leases and
-- their started attempts, and the attempts that are left.
pub cleanup_expired-IsBalanced :
    (limit : ℕ) (settings : Settings) (i : CleanupInput) (db : Database) {db' : Database}
    {total : ℕ}
    → IsBalanced limit db
    → cleanup_expired settings i db ≡ ok (db', total)
    → IsBalanced limit db'
cleanup_expired-IsBalanced limit settings i db {db'} v h =
    let c = cleanup_expired-ok settings i db h in
    let x = (expire settings i db).0 in
    let balanced = expire-IsBalanced limit settings i db v in
    let d = delete_deliveries-ok (delivery_ids settings i x) x c.deleted in
    subst (IsBalanced limit) (sym c.purged) (
      remove_events-IsBalanced limit _ c.between (
        subst (IsBalanced limit) (sym d.1) (
          unfold kept in
          deleted-IsBalanced limit (delivery_ids settings i x) x balanced
            (λ k r b f. terminal r (batch_ended settings i x k r balanced.delivery_ids b f)))))
  where
    terminal :
        (r : Delivery)
        → is_expired (i.now - days settings.metadata_retention_days) r ≡ true
        → is_terminal r.status ≡ true
    terminal r e = unfold is_expired in ground (arith, e)
