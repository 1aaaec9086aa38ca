-- ===== src/Ledger/Sweep.antt =====
-- Ending many deliveries at once keeps the ledger balanced.
use webhook_delivery_platfor.Base.{
  ℕ, ◌≤◌, ◌<◌, ◌≡◌, ◌∙◌, refl, sym, Bool, true, false, Option, none, some, arith, update_where,
  count-update_where, find-update_where, update_where-Unique,
}
use webhook_delivery_platfor.Schema.{
  Database, Delivery, is_delivering, is_waiting, find_delivery, delivery_key,
}
use webhook_delivery_platfor.Ledger.{IsBalanced, in_flight, delivering_id}

pub sweep-IsBalanced :
    (limit : ℕ) (db db' : Database)
    → IsBalanced limit db
    → (p : Delivery → Bool) (f : Delivery → Delivery)
    → ((d : Delivery) → p d ≡ true → is_waiting d.status ≡ true)
    → ((d : Delivery) → (f d).id ≡ d.id)
    → ((d : Delivery) → is_delivering (f d).status ≡ false)
    → ((d : Delivery) → is_waiting (f d).status ≡ false)
    → ((d : Delivery) → (f d).attempt_count ≡ d.attempt_count)
    → db'.deliveries ≡ update_where p f db.deliveries
    → db'.attempts ≡ db.attempts
    → db'.endpoints ≡ db.endpoints
    → IsBalanced limit db'
sweep-IsBalanced limit db db' v p f idle same idle' ended kept dp ap' ep = record {
  delivery_ids = rw dp (update_where-Unique delivery_key p f db.deliveries same v.delivery_ids);
  attempt_ids = rw ap' v.attempt_ids;
  bounded = rw dp (λ id x h. swept_bounded id x (find_delivery id db.deliveries) refl h);
  room = rw dp (λ id x h. swept_room id x (find_delivery id db.deliveries) refl h);
  counted = λ id.
      rw (dp, ep)
        (v.counted id
          ∙ sym (
              count-update_where (in_flight id) p f db.deliveries
                (λ d t. ground (arith, idle d t, idle' d))));
  capacity = rw ep v.capacity;
  leased = λ id.
      rw (dp, ap')
        (v.leased id
          ∙ sym (
              count-update_where (delivering_id id) p f db.deliveries
                (λ d t. ground (arith, idle d t, idle' d))));
}
  where
    swept_bounded :
        (id : ℕ) (x : Delivery) (o : Option Delivery)
        → find_delivery id db.deliveries ≡ o
        → find_delivery id (update_where p f db.deliveries) ≡ some x
        → x.attempt_count ≤ limit
    swept_bounded id x none h e =
        ground (arith, find-update_where delivery_key id p f db.deliveries same, h)
    swept_bounded id x (some d) h e = ground (
      arith,
      find-update_where delivery_key id p f db.deliveries same,
      h,
      v.bounded id d h,
      kept d,
    )

    swept_room :
        (id : ℕ) (x : Delivery) (o : Option Delivery)
        → find_delivery id db.deliveries ≡ o
        → find_delivery id (update_where p f db.deliveries) ≡ some x
        → is_waiting x.status ≡ true
        → x.attempt_count < limit
    swept_room id x none h e w =
        ground (arith, find-update_where delivery_key id p f db.deliveries same, h)
    swept_room id x (some d) h e w =
        ground (
          arith,
          find-update_where delivery_key id p f db.deliveries same,
          h,
          v.room id d h,
          ended d,
        )
