-- ===== src/Ledger/InFlight.antt =====
-- The moves that take a slot and give it back keep the ledger balanced.
use webhook_delivery_platfor.Base.{
  ℕ, ◌+◌, ◌<◌, ◌≡◌, ◌∙◌, sym, subst, true, false, none, some, List, ◌∷◌, arith, ◌==◌, count,
  find_key, find-save, count-save, save-Unique, if◌then◌else◌,
}
use webhook_delivery_platfor.Schema.{
  Database, Delivery, DeliveryAttempt, Endpoint, is_delivering, is_waiting, is_started,
  delivery_key, attempt_key, endpoint_key, find_endpoint, find_attempt, save_delivery,
  save_endpoint, save_attempt,
}
use webhook_delivery_platfor.Ledger.{IsBalanced, slots, in_flight, delivering_id, started_of}
use webhook_delivery_platfor.Ledger.Moves.{Replaces}
use webhook_delivery_platfor.Ledger.Preserve.{found', save-bounded, save-room, save-ids}

-- The counter of one endpoint changes, the others stay.
slots-save :
    (id k : ℕ) (e e' : Endpoint) (t : List Endpoint)
    → find_endpoint k t ≡ some e
    → e'.id ≡ e.id
    → slots (find_endpoint id (save_endpoint e' t))
      ≡ (if k == id then e'.active_delivery_count else slots (find_endpoint id t))
slots-save id k e e' t h same =
    rw (find-save endpoint_key id e' t found) (ground (arith, find_key endpoint_key k t h))
  where
    found : find_endpoint e'.id t ≡ some e
    found = subst (λ i. find_endpoint i t ≡ some e) (sym (find_key endpoint_key k t h) ∙ sym same) h

pub start-IsBalanced :
    (limit : ℕ) (db db' : Database)
    → IsBalanced limit db
    → (d d' : Delivery) (e e' : Endpoint) (a : DeliveryAttempt) → Replaces limit db.deliveries d d'
    → is_waiting d.status ≡ true
    → is_delivering d'.status ≡ true
    → find_endpoint d.endpoint_id db.endpoints ≡ some e
    → e'.id ≡ e.id
    → e.active_delivery_count < 3
    → e'.active_delivery_count ≡ e.active_delivery_count + 1
    → find_attempt a.id db.attempts ≡ none
    → a.delivery_id ≡ d.id
    → is_started a.outcome ≡ true
    → db'.deliveries ≡ save_delivery d' db.deliveries
    → db'.attempts ≡ a ∷ db.attempts
    → db'.endpoints ≡ save_endpoint e' db.endpoints
    → IsBalanced limit db'
unfolding count
start-IsBalanced limit db db' v d d' e e' a r x y he hk free up fresh own st p q s = record {
  delivery_ids = rw p (save-ids limit db v d d' r);
  attempt_ids = rw q (fresh, v.attempt_ids);
  bounded = rw p (save-bounded limit db v d d' r);
  room = rw p (save-room limit db v d d' r);
  counted = λ id.
      rw (p, s)
        (ground (
          arith,
          slots-save id d.endpoint_id e e' db.endpoints he hk,
          v.counted id,
          he,
          r.same_endpoint,
          count-save delivery_key (in_flight id) d' db.deliveries (found' limit db v d d' r),
        ));
  capacity = λ id.
      rw s (ground (arith, slots-save id d.endpoint_id e e' db.endpoints he hk, v.capacity id, he));
  leased = λ id.
      rw (p, q)
        (ground (
          arith,
          v.leased id,
          r.same_id,
          count-save delivery_key (delivering_id id) d' db.deliveries (found' limit db v d d' r),
        ));
}

pub settle-IsBalanced :
    (limit : ℕ) (db db' : Database)
    → IsBalanced limit db
    → (d d' : Delivery) (e e' : Endpoint) (a a' : DeliveryAttempt)
    → Replaces limit db.deliveries d d'
    → is_delivering d.status ≡ true
    → is_delivering d'.status ≡ false
    → find_endpoint d.endpoint_id db.endpoints ≡ some e
    → e'.id ≡ e.id
    → e.active_delivery_count ≡ e'.active_delivery_count + 1
    → find_attempt a.id db.attempts ≡ some a
    → a'.id ≡ a.id
    → a'.delivery_id ≡ a.delivery_id
    → a.delivery_id ≡ d.id
    → is_started a.outcome ≡ true
    → is_started a'.outcome ≡ false
    → db'.deliveries ≡ save_delivery d' db.deliveries
    → db'.attempts ≡ save_attempt a' db.attempts
    → db'.endpoints ≡ save_endpoint e' db.endpoints
    → IsBalanced limit db'
settle-IsBalanced limit db db' v d d' e e' a a' r x y he hk down ha same keep own st over p q s =
    record {
      delivery_ids = rw p (save-ids limit db v d d' r);
      attempt_ids = rw q (save-Unique attempt_key a' db.attempts found_a v.attempt_ids);
      bounded = rw p (save-bounded limit db v d d' r);
      room = rw p (save-room limit db v d d' r);
      counted = λ id.
          rw (p, s)
            (ground (
              arith,
              slots-save id d.endpoint_id e e' db.endpoints he hk,
              v.counted id,
              he,
              r.same_endpoint,
              count-save delivery_key (in_flight id) d' db.deliveries (found' limit db v d d' r),
            ));
      capacity = λ id.
          rw s (
            ground (arith, slots-save id d.endpoint_id e e' db.endpoints he hk, v.capacity id, he));
      leased = λ id.
          rw (p, q)
            (ground (
              arith,
              v.leased id,
              r.same_id,
              count-save delivery_key (delivering_id id) d' db.deliveries
                  (found' limit db v d d' r),
              count-save attempt_key (started_of id) a' db.attempts found_a,
            ));
    }
  where
    found_a : find_attempt a'.id db.attempts ≡ some a
    found_a = rw same ha
