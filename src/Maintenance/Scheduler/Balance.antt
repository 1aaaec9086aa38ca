-- ===== src/Maintenance/Scheduler/Balance.antt =====
-- The scheduler keeps the ledger of leases balanced.
use Prim.Native.Nat.{◌%◌}
use webhook_delivery_platfor.Base.{
  ℕ, ◌+◌, Option, none, some, List, [], ◌∷◌, inl, inr, Bool-cases, ◌==◌,
}
use webhook_delivery_platfor.Schema.{Database, Settings}
use webhook_delivery_platfor.Errors.{Exception, Result-cases}
use webhook_delivery_platfor.Ledger.{IsBalanced}
use webhook_delivery_platfor.Ledger.Balance.{Moves-IsBalanced}
use webhook_delivery_platfor.Maintenance.Reconcile.{reconcile_stale}
use webhook_delivery_platfor.Maintenance.Reconcile.Refines.{
  reconcile_stale-Moves, schedule_due-Moves,
}
use webhook_delivery_platfor.Maintenance.Cleanup.{cleanup_expired}
use webhook_delivery_platfor.Maintenance.Cleanup.Balance.{cleanup_expired-IsBalanced}
use webhook_delivery_platfor.Maintenance.Scheduler.{Round, maintain, clean, round, run}

module _ (settings : Settings) where
  maintain-IsBalanced :
      (i : Round) (db : Database)
      → IsBalanced settings.max_delivery_attempts db
      → IsBalanced settings.max_delivery_attempts (maintain settings i db)
  unfolding maintain
  maintain-IsBalanced i db v =
      let recovered =
        Moves-IsBalanced settings.max_delivery_attempts db v
          (reconcile_stale-Moves settings i.stale_now i.stale_before i.stale_locked db v) in
      Moves-IsBalanced settings.max_delivery_attempts _ recovered (
        schedule_due-Moves settings.max_delivery_attempts settings i.due_now i.due_locked
          i.message_id (reconcile_stale settings i.stale_now i.stale_before i.stale_locked db)
          recovered)

  clean-IsBalanced :
      (i : Round) (db : Database)
      → IsBalanced settings.max_delivery_attempts db
      → IsBalanced settings.max_delivery_attempts (clean settings i db).0
  unfolding clean
  clean-IsBalanced i db v = elim (Result-cases (cleanup_expired settings i.cleanup db)) [
    | inr (x, e) ↦ rw (e, clean) v
    | inl (out, e) ↦
        rw (e, clean)
          (cleanup_expired-IsBalanced settings.max_delivery_attempts settings i.cleanup db v e)
  ]

  round-IsBalanced :
      (iteration : ℕ) (i : Round) (db : Database)
      → IsBalanced settings.max_delivery_attempts db
      → IsBalanced settings.max_delivery_attempts (round settings iteration i db).0
  unfolding round
  round-IsBalanced iteration i db v =
      let maintained = maintain-IsBalanced i db v in
      elim (Bool-cases (iteration % 3600 == 0)) [
        | inl e ↦ rw e (clean-IsBalanced i (maintain settings i db) maintained)
        | inr e ↦ rw e maintained
      ]

  -- The rest of the rounds, if there is no exception.
  go_on :
      (more : Database → Database × Option Exception)
      → ((db : Database)
          → IsBalanced settings.max_delivery_attempts db
          → IsBalanced settings.max_delivery_attempts (more db).0)
      → (out : Database × Option Exception) → IsBalanced settings.max_delivery_attempts out.0
      → IsBalanced settings.max_delivery_attempts
          (elim out.1 as (λ o. Database × Option Exception) [
            | some x ↦ (out.0, some x)
            | none ↦ more out.0
          ]).0
  go_on more kept (db', none) w = kept db' w
  go_on more kept (db', some x) w = w

-- Whatever the rounds find and however many there are, the scheduler leaves a balanced ledger
-- balanced, also where an exception ends it.
pub run-IsBalanced :
    (settings : Settings) (iteration : ℕ) (rounds : List Round) (db : Database)
    → IsBalanced settings.max_delivery_attempts db
    → IsBalanced settings.max_delivery_attempts (run settings iteration rounds db).0
unfolding run
run-IsBalanced settings iteration [] db v = v
run-IsBalanced settings iteration (i ∷ is) db v =
    go_on settings (run settings (iteration + 1) is)
      (λ db' w. run-IsBalanced settings (iteration + 1) is db' w) (round settings iteration i db)
      (round-IsBalanced settings iteration i db v)
