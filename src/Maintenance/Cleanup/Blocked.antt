-- ===== src/Maintenance/Cleanup/Blocked.antt =====
-- Which deliveries a cleanup leaves alone, and when it cannot delete any.
use webhook_delivery_platfor.Base.{
  ℕ, ◌-◌, ◌≡◌, refl, sym, subst, true, false, some, List, [], ◌∷◌, inl, inr, arith, Bool-cases,
  find, find_key, Unique,
}
use webhook_delivery_platfor.Schema.{Database, Settings, Delivery, delivery_key, find_delivery}
use webhook_delivery_platfor.Errors.{ok, err, integrity_error}
use webhook_delivery_platfor.Maintenance.Cleanup.{
  CleanupInput, id_in, days, expire, expire_previews, delete_audits, delivery_ids,
  delete_deliveries, any_orphan, is_orphan, remove_events, is_expired, cleanup_expired,
}
use webhook_delivery_platfor.Maintenance.Cleanup.Selects.{find-select}
use webhook_delivery_platfor.Maintenance.Cleanup.Balance.{
  cleanup_expired-ok, delete_deliveries-ok, batch_ended,
}

orphan_found :
    (ids : List ℕ) (k : ℕ) (t : List Delivery) {d : Delivery}
    → find_delivery k t ≡ some d
    → is_orphan ids d ≡ true
    → any_orphan ids t ≡ true
unfolding find any_orphan
orphan_found ids k [] h e = cc
orphan_found ids k (x ∷ t) {d} h e = ground (arith, h, e, orphan_found ids k t {d = d})

delivery_ids-expire :
    (settings : Settings) (i : CleanupInput) (db : Database)
    → delivery_ids settings i (expire settings i db).0 ≡ delivery_ids settings i db
unfolding delivery_ids expire expire_previews delete_audits
delivery_ids-expire settings i db = refl

deliveries-expire :
    (settings : Settings) (i : CleanupInput) (db : Database)
    → (expire settings i db).0.deliveries ≡ db.deliveries
unfolding expire expire_previews delete_audits
deliveries-expire settings i db = refl

-- Where identifiers of deliveries are unique, a delivery that has not ended, or is newer than the
-- retention of metadata, is unchanged after a cleanup that commits: neither the deletion of old
-- deliveries nor the foreign key that takes deliveries along with deleted events touches it.
pub current_delivery_stays :
    (settings : Settings) (i : CleanupInput) (db : Database) (k : ℕ) (d : Delivery) {db' : Database}
    {total : ℕ}
    → Unique delivery_key db.deliveries
    → find_delivery k db.deliveries ≡ some d
    → is_expired (i.now - days settings.metadata_retention_days) d ≡ false
    → cleanup_expired settings i db ≡ ok (db', total)
    → find_delivery k db'.deliveries ≡ some d
unfolding remove_events expire delivery_ids id_in
current_delivery_stays settings i db k d {db'} u there current h =
    let c = cleanup_expired-ok settings i db h in
    let x = (expire settings i db).0 in
    let del = delete_deliveries-ok (delivery_ids settings i x) x c.deleted in
    rw
      (
        c.purged,
        remove_events,
        del.1,
        deliveries-expire settings i db,
        delivery_ids-expire settings i db,
      )
      (find-select delivery_key _ k db.deliveries there
        (rw (find_key delivery_key k db.deliveries there) (ground (arith, not_listed))))
  where
    clash : is_expired (i.now - days settings.metadata_retention_days) d ≡ true → ⊥
    clash e = ground (arith, e, current)

    not_listed : id_in k (delivery_ids settings i db) ≡ false
    not_listed = elim (Bool-cases (id_in k (delivery_ids settings i db))) [
      | inr out ↦ out
      | inl inside ↦ absurd (clash (batch_ended settings i db k d u inside there))
    ]

deletion-blocked :
    (ids : List ℕ) (db : Database)
    → any_orphan ids db.deliveries ≡ true
    → delete_deliveries ids db ≡ err integrity_error
unfolding delete_deliveries
deletion-blocked ids db h = rw h refl

cleanup-blocked :
    (settings : Settings) (i : CleanupInput) (db : Database)
    → any_orphan
        (delivery_ids settings i (expire settings i db).0)
        (expire settings i db).0.deliveries
      ≡ true
    → cleanup_expired settings i db ≡ err integrity_error
unfolding cleanup_expired
cleanup-blocked settings i db h =
    rw
      (
        deletion-blocked (delivery_ids settings i (expire settings i db).0) (expire settings i db).0
            h,
        cleanup_expired,
      )
      refl

-- Where a delivery of the batch has been replayed by one that is not in the batch, the cleanup fails
-- with an IntegrityError, and so deletes and erases nothing at all.
pub replay_blocks_cleanup :
    (settings : Settings) (i : CleanupInput) (db : Database) (source replay : ℕ) (d : Delivery)
    → id_in source (delivery_ids settings i db) ≡ true
    → find_delivery replay db.deliveries ≡ some d
    → d.replay_of ≡ some source
    → id_in replay (delivery_ids settings i db) ≡ false
    → cleanup_expired settings i db ≡ err integrity_error
replay_blocks_cleanup settings i db source replay d inside there of outside =
    let blocked : any_orphan (delivery_ids settings i db) db.deliveries ≡ true =
      orphan_found (delivery_ids settings i db) replay db.deliveries there orphan in
    cleanup-blocked settings i db (
      subst (λ ids. any_orphan ids (expire settings i db).0.deliveries ≡ true)
        (sym (delivery_ids-expire settings i db))
        (subst (λ ds. any_orphan (delivery_ids settings i db) ds ≡ true)
          (sym (deliveries-expire settings i db)) blocked))
  where
    orphan : is_orphan (delivery_ids settings i db) d ≡ true
    orphan =
        unfold is_orphan in
        rw (find_key delivery_key replay db.deliveries there, outside, of, inside) refl
