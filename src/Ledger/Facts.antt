-- ===== src/Ledger/Facts.antt =====
-- What a balanced ledger says of one delivery in flight.
use webhook_delivery_platfor.Base.{ℕ, ◌+◌, ◌-◌, ◌≡◌, true, some, arith, count-key, count-pos}
use webhook_delivery_platfor.Schema.{
  Database, Endpoint, Delivery, DeliveryAttempt, is_delivering, is_started, find_delivery,
  find_endpoint, find_attempt, delivery_key, attempt_key,
}
use webhook_delivery_platfor.Ledger.{IsBalanced, in_flight, started_of}

-- In a balanced ledger a started attempt has a delivery in flight, which holds a slot.
pub started_delivering :
    (limit : ℕ) (db : Database) (d : Delivery) (a : DeliveryAttempt)
    → IsBalanced limit db
    → find_delivery d.id db.deliveries ≡ some d
    → find_attempt a.id db.attempts ≡ some a
    → a.delivery_id ≡ d.id
    → is_started a.outcome ≡ true
    → is_delivering d.status ≡ true
started_delivering limit db d a v hd ha own st = ground (
  arith,
  v.leased d.id,
  count-key delivery_key d.id (λ (r : Delivery). is_delivering r.status) db.deliveries
      v.delivery_ids,
  count-pos attempt_key a.id (started_of d.id) db.attempts a ha,
)

pub delivering_slot :
    (limit : ℕ) (db : Database) (d : Delivery) (e : Endpoint)
    → IsBalanced limit db
    → find_delivery d.id db.deliveries ≡ some d
    → find_endpoint d.endpoint_id db.endpoints ≡ some e
    → is_delivering d.status ≡ true
    → e.active_delivery_count ≡ (e.active_delivery_count - 1) + 1
delivering_slot limit db d e v hd he x = ground (
  arith,
  v.counted d.endpoint_id,
  he,
  count-pos delivery_key d.id (in_flight d.endpoint_id) db.deliveries d hd,
)
