-- ===== src/Ledger.antt =====
-- The ledger of leases, which the whole delivery pipeline keeps: what must hold between the tables
-- deliveries, delivery_attempts and webhook_endpoints after every transaction
-- (src/webhook_platform/shared/infrastructure/models.py has the parts that check constraints state).
pub mod Moves
pub mod Facts
pub mod Preserve
pub mod Sweep
pub mod InFlight
pub mod Balance
pub mod Terminal
use webhook_delivery_platfor.Base.{
  ℕ, ◌≤◌, ◌<◌, ◌≡◌, Bool, true, ◌&&◌, Option, none, some, ◌==◌, count, Unique, List,
}
use webhook_delivery_platfor.Schema.{
  Database, Delivery, DeliveryAttempt, Endpoint, is_delivering, is_waiting, is_started,
  delivery_key, attempt_key, find_delivery, find_endpoint,
}

-- A delivery that holds one of an endpoint's slots.
abbrev pub in_flight : ℕ → Delivery → Bool
in_flight endpoint_id d = d.endpoint_id == endpoint_id && is_delivering d.status

abbrev pub delivering_id : ℕ → Delivery → Bool
delivering_id delivery_id d = d.id == delivery_id && is_delivering d.status

abbrev pub started_of : ℕ → DeliveryAttempt → Bool
started_of delivery_id a = a.delivery_id == delivery_id && is_started a.outcome

-- The slots that an endpoint's counter says are taken.
abbrev pub slots : Option Endpoint → ℕ
slots none = 0
slots (some e) = e.active_delivery_count

-- `limit` is max_delivery_attempts.
pub record IsBalanced (limit : ℕ) (db : Database) : Type 0 where
  pub delivery_ids : Unique delivery_key db.deliveries
  pub attempt_ids : Unique attempt_key db.attempts
  -- No delivery has had more attempts than allowed, and one that waits may have another.
  pub bounded :
      (id : ℕ) (d : Delivery) → find_delivery id db.deliveries ≡ some d → d.attempt_count ≤ limit
  pub room :
      (id : ℕ) (d : Delivery)
      → find_delivery id db.deliveries ≡ some d
      → is_waiting d.status ≡ true
      → d.attempt_count < limit
  -- The counter of an endpoint is the number of its deliveries in flight, at most three.
  pub counted :
      (id : ℕ) → slots (find_endpoint id db.endpoints) ≡ count (in_flight id) db.deliveries
  pub capacity : (id : ℕ) → slots (find_endpoint id db.endpoints) ≤ 3
  -- A delivery has one started attempt while it is being delivered, and none at other times.
  pub leased : (id : ℕ) → count (started_of id) db.attempts ≡ count (delivering_id id) db.deliveries
