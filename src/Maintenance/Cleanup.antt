-- ===== src/Maintenance/Cleanup.antt =====
-- src/webhook_platform/maintenance/application/cleanup.py, cleanup_expired: the transaction that
-- deletes what is older than its retention. The foreign keys of
-- src/webhook_platform/shared/infrastructure/models.py act in it: a deleted event takes its deliveries
-- along, and a deleted delivery its attempts; a delivery cannot go while one that stays is a replay of it.
pub mod Selects
pub mod Balance
pub mod Cascade
pub mod Rows
pub mod Blocked
use webhook_delivery_platfor.Base.{
  ℕ, ◌+◌, ◌-◌, ◌*◌, Bool, true, false, not, ◌&&◌, ◌||◌, Option, none, some, List, [], ◌∷◌, ltb,
  ◌==◌, if◌then◌else◌, is_some, map, length, select, update_where, query,
}
use webhook_delivery_platfor.Schema.{
  Database, Settings, Delivery, DeliveryAttempt, AuditEvent, Event, seconds, is_terminal,
  delivery_key, attempt_key, event_key, audit_key,
}
use webhook_delivery_platfor.Errors.{Result, ok, err, integrity_error}

-- timedelta(days=n), in microseconds.
abbrev pub days : ℕ → ℕ
days n = seconds (n * 86400)

-- ORDER BY a time and id.
abbrev pub earlier : ℕ → ℕ → ℕ → ℕ → Bool
earlier time id time' id' = ltb time time' || (time == time' && ltb id id')

-- id.in_(ids)
unfoldable pub id_in : ℕ → List ℕ → Bool
id_in id [] = false
id_in id (k ∷ ks) = k == id || id_in id ks

-- What the transaction takes from outside: the database's time, the size of a batch, and the rows of
-- each table that other transactions hold.
pub record CleanupInput : Type 0 where
  pub now : ℕ
  pub batch_size : ℕ
  pub locked_attempts : ℕ → Bool
  pub locked_audits : ℕ → Bool
  pub locked_deliveries : ℕ → Bool
  pub locked_events : ℕ → Bool

abbrev ended_before : ℕ → Option ℕ → Bool
ended_before cutoff none = false
ended_before cutoff (some t) = ltb t cutoff

unfoldable pub has_old_preview : ℕ → DeliveryAttempt → Bool
has_old_preview cutoff a = ended_before cutoff a.ended_at && is_some a.preview

abbrev end_time : Option ℕ → ℕ
end_time none = 0
end_time (some t) = t

abbrev pub erase_preview : DeliveryAttempt → DeliveryAttempt
erase_preview a = record a { preview = none }

-- The identifiers preview_ids.
unfoldable pub preview_ids : Settings → CleanupInput → Database → List ℕ
unfolding has_old_preview
preview_ids settings i db = map attempt_key (
    query attempt_key (has_old_preview (i.now - days settings.preview_retention_days))
      (λ a b. earlier (end_time a.ended_at) a.id (end_time b.ended_at) b.id) i.locked_attempts
      i.batch_size db.attempts)

-- UPDATE ... SET the three columns of the preview to NULL.
unfoldable pub expire_previews : List ℕ → Database → Database
unfolding id_in
expire_previews ids db = record db {
  attempts = update_where (λ a. id_in a.id ids) erase_preview db.attempts;
}

-- The identifiers audit_ids.
unfoldable pub audit_ids : Settings → CleanupInput → Database → List ℕ
audit_ids settings i db = map audit_key (
    query audit_key (λ a. ltb a.created_at (i.now - days settings.audit_retention_days))
      (λ a b. earlier a.created_at a.id b.created_at b.id) i.locked_audits i.batch_size db.audits)

unfoldable pub delete_audits : List ℕ → Database → Database
unfolding id_in
delete_audits ids db = record db { audits = select (λ a. not (id_in a.id ids)) db.audits }

unfoldable pub is_expired : ℕ → Delivery → Bool
is_expired cutoff d = ltb d.created_at cutoff && is_terminal d.status

-- The identifiers delivery_ids.
unfoldable pub delivery_ids : Settings → CleanupInput → Database → List ℕ
unfolding is_expired
delivery_ids settings i db = map delivery_key (
    query delivery_key (is_expired (i.now - days settings.metadata_retention_days))
      (λ a b. earlier a.created_at a.id b.created_at b.id) i.locked_deliveries i.batch_size
      db.deliveries)

-- A delivery that stays and is a replay of one that goes.
unfoldable pub is_orphan : List ℕ → Delivery → Bool
unfolding id_in
is_orphan ids d = not (id_in d.id ids) && elim d.replay_of [ none ↦ false | some k ↦ id_in k ids ]

unfoldable pub any_orphan : List ℕ → List Delivery → Bool
unfolding is_orphan
any_orphan ids [] = false
any_orphan ids (d ∷ t) = is_orphan ids d || any_orphan ids t

-- DELETE FROM deliveries, with its foreign keys.
unfoldable pub delete_deliveries : List ℕ → Database → Result Database
unfolding id_in any_orphan
delete_deliveries ids db =
    if any_orphan ids db.deliveries
    then err integrity_error
    else ok (record db {
      deliveries = select (λ d. not (id_in d.id ids)) db.deliveries;
      attempts = select (λ a. not (id_in a.delivery_id ids)) db.attempts;
    })

-- exists(select(DeliveryModel.id).where(event_id == ...))
unfoldable pub has_delivery : ℕ → List Delivery → Bool
has_delivery event_id [] = false
has_delivery event_id (d ∷ t) = d.event_id == event_id || has_delivery event_id t

unfoldable pub is_unused : ℕ → List Delivery → Event → Bool
unfolding has_delivery
is_unused cutoff deliveries e = ltb e.created_at cutoff && not (has_delivery e.id deliveries)

-- The identifiers event_ids.
unfoldable pub event_ids : Settings → CleanupInput → Database → List ℕ
unfolding is_unused
event_ids settings i db = map event_key (
    query event_key (is_unused (i.now - days settings.metadata_retention_days) db.deliveries)
      (λ a b. earlier a.created_at a.id b.created_at b.id) i.locked_events i.batch_size db.events)

-- The deliveries that ON DELETE CASCADE takes along with the events.
unfoldable pub delivery_ids_of : List ℕ → Database → List ℕ
unfolding id_in
delivery_ids_of ids db = map delivery_key (select (λ d. id_in d.event_id ids) db.deliveries)

unfoldable pub remove_events : List ℕ → Database → Database
unfolding id_in
remove_events ids db = record db { events = select (λ e. not (id_in e.id ids)) db.events }

-- DELETE FROM events, with its foreign key: the deliveries of the events go too, as a DELETE of them
-- would have it.
unfoldable pub delete_events : List ℕ → Database → Result Database
unfolding delivery_ids_of delete_deliveries remove_events
delete_events ids db = elim (delete_deliveries (delivery_ids_of ids db) db) [
  | err x ↦ err x
  | ok db' ↦ ok (remove_events ids db')
]

-- The first two stages, which delete nothing of the pipeline's.
unfoldable pub expire : Settings → CleanupInput → Database → Database × ℕ
unfolding preview_ids audit_ids expire_previews delete_audits
expire settings i db =
    let previews = preview_ids settings i db in
    let db' = expire_previews previews db in
    let audits = audit_ids settings i db' in
    (delete_audits audits db', length previews + length audits)

-- The last stage.
unfoldable pub purge_events : Settings → CleanupInput → ℕ → Database → Result (Database × ℕ)
unfolding event_ids delete_events
purge_events settings i total db =
    let ids = event_ids settings i db in
    elim (delete_events ids db) [ err x ↦ err x | ok db' ↦ ok (db', total + length ids) ]

-- cleanup_expired: the number of rows; an `err` rolls all of it back.
unfoldable pub cleanup_expired : Settings → CleanupInput → Database → Result (Database × ℕ)
unfolding expire delivery_ids delete_deliveries purge_events
cleanup_expired settings i db =
    let expired = expire settings i db in
    let ids = delivery_ids settings i expired.0 in
    elim (delete_deliveries ids expired.0) [
      | err x ↦ err x
      | ok db' ↦ purge_events settings i (expired.1 + length ids) db'
    ]
