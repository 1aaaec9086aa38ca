-- ===== src/Maintenance/Scheduler.antt =====
-- src/webhook_platform/scheduler.py: the loop of `run`, as the database that its transactions leave
-- and the exception that ends the process, if one does. A round is what happens between two sleeps.
pub mod Balance
pub mod Stops
use Prim.Native.Nat.{◌%◌}
use webhook_delivery_platfor.Base.{
  ℕ, ◌+◌, Bool, Option, none, some, List, [], ◌∷◌, ◌==◌, if◌then◌else◌,
}
use webhook_delivery_platfor.Schema.{Database, Settings, Delivery}
use webhook_delivery_platfor.Errors.{Exception, Result, ok, err}
use webhook_delivery_platfor.Maintenance.Reconcile.{reconcile_stale, schedule_due}
use webhook_delivery_platfor.Maintenance.Cleanup.{CleanupInput, cleanup_expired}

-- What the transactions of one round take from outside.
pub record Round : Type 0 where
  pub stale_now : ℕ
  pub stale_before : Delivery → Delivery → Bool
  pub stale_locked : ℕ → Bool
  pub due_now : ℕ
  pub due_locked : ℕ → Bool
  pub message_id : ℕ → ℕ
  pub cleanup : CleanupInput

-- The two transactions of every round.
unfoldable pub maintain : Settings → Round → Database → Database
maintain settings i db =
    schedule_due settings i.due_now i.due_locked i.message_id
      (reconcile_stale settings i.stale_now i.stale_before i.stale_locked db)

-- await cleanup_expired(...): an exception in it passes through the loop.
unfoldable pub clean : Settings → Round → Database → Database × Option Exception
clean settings i db = elim (cleanup_expired settings i.cleanup db) [
  | err x ↦ (db, some x)
  | ok out ↦ (out.0, none)
]

-- One pass of the loop.
unfoldable pub round : Settings → ℕ → Round → Database → Database × Option Exception
unfolding maintain clean
round settings iteration i db =
    let db' = maintain settings i db in
    if iteration % 3600 == 0 then clean settings i db' else (db', none)

-- The loop from an iteration on, for as many rounds as there are in the list.
unfoldable pub run : Settings → ℕ → List Round → Database → Database × Option Exception
unfolding round
run settings iteration [] db = (db, none)
run settings iteration (i ∷ is) db =
    let (db', raised) = round settings iteration i db in
    elim raised [ some x ↦ (db', some x) | none ↦ run settings (iteration + 1) is db' ]
