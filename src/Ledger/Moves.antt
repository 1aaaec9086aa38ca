-- ===== src/Ledger/Moves.antt =====
-- The moves of the ledger: what a transaction may do to deliveries, attempts and the counters of
-- endpoints. Other columns and tables are free.
use webhook_delivery_platfor.Base.{
  Bool, update_where, ℕ, ◌+◌, ◌≤◌, ◌<◌, ◌≡◌, true, false, none, some, List, ◌∷◌,
}
use webhook_delivery_platfor.Schema.{
  Database, Delivery, DeliveryAttempt, Endpoint, is_delivering, is_waiting, is_started,
  find_delivery, find_endpoint, find_attempt, save_delivery, save_endpoint, save_attempt,
}
use webhook_delivery_platfor.Ledger.{slots}

-- `d'` may replace the delivery `d`: it is the same delivery, within its attempts.
pub record Replaces (limit : ℕ) (t : List Delivery) (d d' : Delivery) : Type 0 where
  pub found : find_delivery d.id t ≡ some d
  pub same_id : d'.id ≡ d.id
  pub same_endpoint : d'.endpoint_id ≡ d.endpoint_id
  pub within : d'.attempt_count ≤ limit
  pub may_wait : is_waiting d'.status ≡ true → d'.attempt_count < limit

pub data Move (limit : ℕ) (db db' : Database) : Type 0 where
  -- Nothing that the ledger speaks of changes.
  edit :
      db'.deliveries ≡ db.deliveries
      → db'.attempts ≡ db.attempts
      → ((id : ℕ) → slots (find_endpoint id db'.endpoints) ≡ slots (find_endpoint id db.endpoints))
      → Move limit db db'
  -- A delivery that waits changes its state, and gets no lease.
  relabel :
      (d d' : Delivery)
      → Replaces limit db.deliveries d d'
      → is_waiting d.status ≡ true
      → is_delivering d'.status ≡ false
      → db'.deliveries ≡ save_delivery d' db.deliveries
      → db'.attempts ≡ db.attempts
      → db'.endpoints ≡ db.endpoints
      → Move limit db db'
  -- An attempt that is over is added.
  note :
      (a : DeliveryAttempt)
      → find_attempt a.id db.attempts ≡ none
      → is_started a.outcome ≡ false
      → db'.deliveries ≡ db.deliveries
      → db'.attempts ≡ a ∷ db.attempts
      → db'.endpoints ≡ db.endpoints
      → Move limit db db'
  -- A delivery that waits takes a slot of its endpoint and starts an attempt.
  start :
      (d d' : Delivery) (e e' : Endpoint) (a : DeliveryAttempt)
      → Replaces limit db.deliveries d d'
      → is_waiting d.status ≡ true
      → is_delivering d'.status ≡ true
      → find_endpoint d.endpoint_id db.endpoints ≡ some e
      → e'.id ≡ e.id
      → e.active_delivery_count < 3
      → e'.active_delivery_count ≡ e.active_delivery_count + 1
      → find_attempt a.id db.attempts ≡ none
      → a.delivery_id ≡ d.id
      → is_started a.outcome ≡ true
      → db'.deliveries ≡ save_delivery d' db.deliveries
      → db'.attempts ≡ a ∷ db.attempts
      → db'.endpoints ≡ save_endpoint e' db.endpoints
      → Move limit db db'
  -- The started attempt of a delivery ends, and the slot is given back.
  settle :
      (d d' : Delivery) (e e' : Endpoint) (a a' : DeliveryAttempt)
      → Replaces limit db.deliveries d d'
      → is_delivering d.status ≡ true
      → is_delivering d'.status ≡ false
      → find_endpoint d.endpoint_id db.endpoints ≡ some e
      → e'.id ≡ e.id
      → e.active_delivery_count ≡ e'.active_delivery_count + 1
      → find_attempt a.id db.attempts ≡ some a
      → a'.id ≡ a.id
      → a'.delivery_id ≡ a.delivery_id
      → a.delivery_id ≡ d.id
      → is_started a.outcome ≡ true
      → is_started a'.outcome ≡ false
      → db'.deliveries ≡ save_delivery d' db.deliveries
      → db'.attempts ≡ save_attempt a' db.attempts
      → db'.endpoints ≡ save_endpoint e' db.endpoints
      → Move limit db db'
  -- Deliveries that wait end.
  sweep :
      (p : Delivery → Bool) (f : Delivery → Delivery)
      → ((d : Delivery) → p d ≡ true → is_waiting d.status ≡ true)
      → ((d : Delivery) → (f d).id ≡ d.id)
      → ((d : Delivery) → (f d).endpoint_id ≡ d.endpoint_id)
      → ((d : Delivery) → is_delivering (f d).status ≡ false)
      → ((d : Delivery) → is_waiting (f d).status ≡ false)
      → ((d : Delivery) → (f d).attempt_count ≡ d.attempt_count)
      → db'.deliveries ≡ update_where p f db.deliveries
      → db'.attempts ≡ db.attempts
      → db'.endpoints ≡ db.endpoints
      → Move limit db db'
  -- A new delivery, not in flight.
  create :
      (d : Delivery)
      → find_delivery d.id db.deliveries ≡ none
      → is_delivering d.status ≡ false
      → d.attempt_count < limit
      → db'.deliveries ≡ d ∷ db.deliveries
      → db'.attempts ≡ db.attempts
      → db'.endpoints ≡ db.endpoints
      → Move limit db db'

-- Transactions are rows of moves.
pub data Moves (limit : ℕ) (db : Database) : Database → Type 0 where
  here : Moves limit db db
  next : {db' db'' : Database} → Moves limit db db' → Move limit db' db'' → Moves limit db db''

pub one : {limit : ℕ} {db db' : Database} → Move limit db db' → Moves limit db db'
one m = next here m

pub Moves-trans :
    {limit : ℕ} {db db' db'' : Database}
    → Moves limit db db'
    → Moves limit db' db''
    → Moves limit db db''
Moves-trans m here = m
Moves-trans m (next n s) = next (Moves-trans m n) s
