-- ===== src/Examples/Pipeline.antt =====
-- A worker claims a delivery of the small database; the scheduler runs on it.
use webhook_delivery_platfor.Base.{
  ◌≤◌, ◌≡◌, ◌⊎◌, ◌-◌, true, refl, none, some, [], arith, count, find, is_some, bit,
}
use webhook_delivery_platfor.Schema.{
  Database, find_delivery, find_attempt, find_endpoint, is_delivering,
}
use webhook_delivery_platfor.Ledger.{in_flight, started_of, slots}
use webhook_delivery_platfor.Ledger.Moves.{Moves}
use webhook_delivery_platfor.Deliveries.Claim.{claim_delivery}
use webhook_delivery_platfor.Deliveries.Claim.Refines.{claim_delivery-Moves}
use webhook_delivery_platfor.Deliveries.Claim.Outcome.{
  claim_twice, claim_delivery-exact, is_claimable,
}
use webhook_delivery_platfor.Maintenance.Cleanup.{CleanupInput, days, is_expired, has_old_preview}
use webhook_delivery_platfor.System.{Platform, Step, Reach, start, after, claims_delivery, hand_out}
use webhook_delivery_platfor.System.Balance.{IsSound}
use webhook_delivery_platfor.System.Safety.{
  Reach-IsSound, at_most_three, one_started, terminal_stays, history_stays, IsCleanup,
}
use webhook_delivery_platfor.Examples.Data.{
  sample_settings, sample_db, sample_input, sample_platform, ended_delivery, ended_attempt,
  sample-IsBalanced, sample-IsSound,
}

abbrev claimed_db : Database
claimed_db = (claim_delivery sample_settings sample_input 5 sample_db).0

abbrev claimed_platform : Platform
claimed_platform = record {
  db = claimed_db;
  claims = hand_out (claim_delivery sample_settings sample_input 5 sample_db).1 [];
}

unused_attempt : find_attempt 21 sample_db.attempts ≡ none
unfolding find
unused_attempt = refl

claims_it : Reach sample_settings sample_platform claimed_platform
claims_it = after start (claims_delivery sample_input 5 unused_attempt refl refl)

Reach-IsSound_example : IsSound sample_settings claimed_platform
Reach-IsSound_example =
    Reach-IsSound sample_settings (omega arith) sample_platform sample-IsSound claimed_platform
      claims_it

at_most_three_example :
    (count (in_flight 1) claimed_db.deliveries ≤ 3)
    × (slots (find_endpoint 1 claimed_db.endpoints) ≡ count (in_flight 1) claimed_db.deliveries)
at_most_three_example =
    at_most_three sample_settings (omega arith) sample_platform sample-IsSound claimed_platform
      claims_it 1

found_ended : find_delivery 6 sample_db.deliveries ≡ some ended_delivery
unfolding find
found_ended = refl

found_attempt : find_attempt 20 sample_db.attempts ≡ some ended_attempt
unfolding find
found_attempt = refl

claims-Step : Step sample_settings sample_platform claimed_platform
claims-Step = claims_delivery sample_input 5 unused_attempt refl refl

terminal_stays_example :
    (find_delivery 6 claimed_db.deliveries ≡ some ended_delivery)
    ⊎ ((i : CleanupInput) × IsCleanup sample_settings i sample_db claimed_db
        × (is_expired (i.now - days sample_settings.metadata_retention_days) ended_delivery ≡ true)
        × (find_delivery 6 claimed_db.deliveries ≡ none))
terminal_stays_example =
    terminal_stays sample_settings (omega arith) sample_platform sample-IsSound sample_platform
      claimed_platform start claims-Step 6 ended_delivery found_ended refl

history_stays_example :
    (find_attempt 20 claimed_db.attempts ≡ some ended_attempt)
    ⊎ ((i : CleanupInput) × IsCleanup sample_settings i sample_db claimed_db
        × (((has_old_preview (i.now - days sample_settings.preview_retention_days) ended_attempt
                ≡ true)
              × (find_attempt 20 claimed_db.attempts
                  ≡ some (record ended_attempt { preview = none })))
            ⊎ ((find_delivery ended_attempt.delivery_id claimed_db.deliveries ≡ none)
                × (find_attempt 20 claimed_db.attempts ≡ none))))
history_stays_example =
    history_stays sample_settings (omega arith) sample_platform sample-IsSound sample_platform
      claimed_platform start claims-Step 20 ended_attempt found_attempt refl

one_started_example :
    count (started_of 5) claimed_db.attempts ≡ elim (find_delivery 5 claimed_db.deliveries) [
      | none ↦ 0
      | some d ↦ bit (is_delivering d.status)
    ]
one_started_example =
    one_started sample_settings (omega arith) sample_platform sample-IsSound claimed_platform
      claims_it 5

claim_twice_example :
    claim_delivery sample_settings (record sample_input { now = 101 }) 5 claimed_db
    ≡ (claimed_db, none)
claim_twice_example =
    claim_twice sample_settings sample_input (record sample_input { now = 101 }) 5 sample_db

claim_delivery-exact_example :
    is_some (claim_delivery sample_settings sample_input 5 sample_db).1
    ≡ is_claimable sample_settings sample_input 5 sample_db
claim_delivery-exact_example = claim_delivery-exact sample_settings sample_input 5 sample_db

claim_delivery-Moves_example : Moves 6 sample_db claimed_db
claim_delivery-Moves_example =
    claim_delivery-Moves 6 sample_settings sample_input 5 sample_db sample-IsBalanced unused_attempt
