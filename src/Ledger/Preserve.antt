-- ===== src/Ledger/Preserve.antt =====
-- The moves that neither take nor give back a slot keep the ledger balanced.
use webhook_delivery_platfor.Base.{
  ℕ, ◌≤◌, ◌<◌, ◌≡◌, ◌∙◌, true, false, none, some, ◌∷◌, arith, count, Unique, find, find-save,
  count-save, save-Unique,
}
use webhook_delivery_platfor.Schema.{
  Database, Delivery, DeliveryAttempt, is_delivering, is_waiting, is_started, delivery_key,
  find_delivery, find_endpoint, find_attempt, save_delivery,
}
use webhook_delivery_platfor.Ledger.{IsBalanced, slots, in_flight, delivering_id}
use webhook_delivery_platfor.Ledger.Moves.{Replaces}

module _ (limit : ℕ) (db : Database) (v : IsBalanced limit db) (d d' : Delivery)
    (r : Replaces limit db.deliveries d d') where
  pub found' : find_delivery d'.id db.deliveries ≡ some d
  found' = rw r.same_id r.found

  pub save-bounded :
      (id : ℕ) (x : Delivery)
      → find_delivery id (save_delivery d' db.deliveries) ≡ some x
      → x.attempt_count ≤ limit
  save-bounded id x h =
      ground (arith, find-save delivery_key id d' db.deliveries found', v.bounded id x, r.within)

  pub save-room :
      (id : ℕ) (x : Delivery)
      → find_delivery id (save_delivery d' db.deliveries) ≡ some x
      → is_waiting x.status ≡ true
      → x.attempt_count < limit
  save-room id x h w =
      ground (arith, find-save delivery_key id d' db.deliveries found', v.room id x, r.may_wait)

  pub save-ids : Unique delivery_key (save_delivery d' db.deliveries)
  save-ids = save-Unique delivery_key d' db.deliveries found' v.delivery_ids

pub relabel-IsBalanced :
    (limit : ℕ) (db db' : Database)
    → IsBalanced limit db
    → (d d' : Delivery) → Replaces limit db.deliveries d d'
    → is_waiting d.status ≡ true
    → is_delivering d'.status ≡ false
    → db'.deliveries ≡ save_delivery d' db.deliveries
    → db'.attempts ≡ db.attempts
    → db'.endpoints ≡ db.endpoints
    → IsBalanced limit db'
relabel-IsBalanced limit db db' v d d' r x y p q s = record {
  delivery_ids = rw p (save-ids limit db v d d' r);
  attempt_ids = rw q v.attempt_ids;
  bounded = rw p (save-bounded limit db v d d' r);
  room = rw p (save-room limit db v d d' r);
  counted = λ id.
      rw (p, s)
        (ground (
          arith,
          v.counted id,
          r.same_endpoint,
          count-save delivery_key (in_flight id) d' db.deliveries (found' limit db v d d' r),
        ));
  capacity = rw s v.capacity;
  leased = λ id.
      rw (p, q)
        (ground (
          arith,
          v.leased id,
          r.same_id,
          count-save delivery_key (delivering_id id) d' db.deliveries (found' limit db v d d' r),
        ));
}

pub edit-IsBalanced :
    (limit : ℕ) (db db' : Database)
    → IsBalanced limit db
    → db'.deliveries ≡ db.deliveries
    → db'.attempts ≡ db.attempts
    → ((id : ℕ) → slots (find_endpoint id db'.endpoints) ≡ slots (find_endpoint id db.endpoints))
    → IsBalanced limit db'
edit-IsBalanced limit db db' v p q s = record {
  delivery_ids = rw p v.delivery_ids;
  attempt_ids = rw q v.attempt_ids;
  bounded = rw p v.bounded;
  room = rw p v.room;
  counted = λ id. rw p (s id ∙ v.counted id);
  capacity = λ id. omega (arith, s id, v.capacity id);
  leased = λ id. rw (p, q) (v.leased id);
}

pub note-IsBalanced :
    (limit : ℕ) (db db' : Database)
    → IsBalanced limit db
    → (a : DeliveryAttempt) → find_attempt a.id db.attempts ≡ none
    → is_started a.outcome ≡ false
    → db'.deliveries ≡ db.deliveries
    → db'.attempts ≡ a ∷ db.attempts
    → db'.endpoints ≡ db.endpoints
    → IsBalanced limit db'
unfolding count
note-IsBalanced limit db db' v a fresh over p q s = record {
  delivery_ids = rw p v.delivery_ids;
  attempt_ids = rw q (fresh, v.attempt_ids);
  bounded = rw p v.bounded;
  room = rw p v.room;
  counted = λ id. rw (p, s) (v.counted id);
  capacity = rw s v.capacity;
  leased = λ id. rw (p, q) (ground (arith, v.leased id));
}

pub create-IsBalanced :
    (limit : ℕ) (db db' : Database)
    → IsBalanced limit db
    → (d : Delivery) → find_delivery d.id db.deliveries ≡ none
    → is_delivering d.status ≡ false
    → d.attempt_count < limit
    → db'.deliveries ≡ d ∷ db.deliveries
    → db'.attempts ≡ db.attempts
    → db'.endpoints ≡ db.endpoints
    → IsBalanced limit db'
unfolding count find
create-IsBalanced limit db db' v d fresh over below p q s = record {
  delivery_ids = rw p (fresh, v.delivery_ids);
  attempt_ids = rw q v.attempt_ids;
  bounded = rw p (λ id x h. ground (arith, v.bounded id x));
  room = rw p (λ id x h w. ground (arith, v.room id x));
  counted = λ id. rw (p, s) (ground (arith, v.counted id));
  capacity = rw s v.capacity;
  leased = λ id. rw (p, q) (ground (arith, v.leased id));
}
