-- ===== src/Maintenance/Scheduler/Stops.antt =====
-- What a cleanup that fails does to the scheduler.
use webhook_delivery_platfor.Base.{ℕ, ◌≡◌, refl, ap, true, false, Option, none, some, List, ◌∷◌}
use webhook_delivery_platfor.Schema.{Database, Settings, Delivery, find_delivery}
use webhook_delivery_platfor.Errors.{Exception, err, integrity_error}
use webhook_delivery_platfor.Maintenance.Cleanup.{delivery_ids, id_in, cleanup_expired}
use webhook_delivery_platfor.Maintenance.Cleanup.Blocked.{replay_blocks_cleanup}
use webhook_delivery_platfor.Maintenance.Scheduler.{Round, maintain, clean, round, run}

clean-failed :
    (settings : Settings) (i : Round) (db : Database) {x : Exception}
    → cleanup_expired settings i.cleanup db ≡ err x
    → clean settings i db ≡ (db, some x)
unfolding clean
clean-failed settings i db h = rw (h, clean) refl

-- The first round cleans, and an exception in it ends the loop.
run-raised :
    (settings : Settings) (i : Round) (more : List Round) (db : Database) {db' : Database}
    {x : Exception}
    → clean settings i (maintain settings i db) ≡ (db', some x)
    → run settings 0 (i ∷ more) db ≡ (db', some x)
unfolding run round
run-raised settings i more db h =
    ap
      (λ (out : Database × Option Exception). elim out.1 as (λ o. Database × Option Exception) [
        | some x ↦ (out.0, some x)
        | none ↦ run settings 1 more out.0
      ])
      h

-- Where, after the first round's reconciliation, a delivery that the cleanup would delete has been
-- replayed by one that it would not delete, a scheduler that starts commits that reconciliation and
-- then ends with an IntegrityError, however many rounds it was to run.
pub run-stops :
    (settings : Settings) (i : Round) (more : List Round) (db : Database) (source replay : ℕ)
    (d : Delivery)
    → id_in source (delivery_ids settings i.cleanup (maintain settings i db)) ≡ true
    → find_delivery replay (maintain settings i db).deliveries ≡ some d
    → d.replay_of ≡ some source
    → id_in replay (delivery_ids settings i.cleanup (maintain settings i db)) ≡ false
    → run settings 0 (i ∷ more) db ≡ (maintain settings i db, some integrity_error)
run-stops settings i more db source replay d inside there of outside =
    run-raised settings i more db (
      clean-failed settings i (maintain settings i db) (
        replay_blocks_cleanup settings i.cleanup (maintain settings i db) source replay d inside
          there of outside))
