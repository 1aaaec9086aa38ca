-- ===== src/Deliveries/Finalize/Refines.antt =====
-- finalize_delivery (src/webhook_platform/deliveries/infrastructure/processor.py) against the
-- ledger.
use webhook_delivery_platfor.Base.{
  ℕ, ◌-◌, ◌<◌, ◌≡◌, refl, sym, subst, ◌∙◌, true, false, Option, none, some, inl, inr, arith,
  Bool-cases, find_key,
}
use webhook_delivery_platfor.Schema.{
  Database, Settings, Endpoint, Delivery, DeliveryAttempt, is_delivering, is_started, is_waiting,
  find_delivery, find_endpoint, find_attempt, delivery_key, attempt_key,
}
use webhook_delivery_platfor.Errors.{Result, ok, err}
use webhook_delivery_platfor.Ledger.{IsBalanced}
use webhook_delivery_platfor.Ledger.Facts.{started_delivering, delivering_slot}
use webhook_delivery_platfor.Ledger.Moves.{Moves, here, one, settle}
use webhook_delivery_platfor.Deliveries.Claim.{ClaimedDelivery}
use webhook_delivery_platfor.Deliveries.Claim.Names.{Names}
use webhook_delivery_platfor.Deliveries.Exchange.{Outcome}
use webhook_delivery_platfor.Deliveries.Finalize.{
  FinalizeInput, record_response, judge, store_result, finalize_rows, finalize_delivery,
}

-- What the branch on the result makes of the two rows.
pub record Judged (limit : ℕ) (d d' : Delivery) (a a' : DeliveryAttempt) : Type 0 where
  pub same_id : d'.id ≡ d.id
  pub same_endpoint : d'.endpoint_id ≡ d.endpoint_id
  pub same_count : d'.attempt_count ≡ d.attempt_count
  pub idle : is_delivering d'.status ≡ false
  pub may_wait : is_waiting d'.status ≡ true → d.attempt_count < limit
  pub same_attempt : a'.id ≡ a.id
  pub same_delivery : a'.delivery_id ≡ a.delivery_id
  pub over : is_started a'.outcome ≡ false

pub judge-Judged :
    (settings : Settings) (i : FinalizeInput) (o : Outcome) (d d' : Delivery)
    (a a' : DeliveryAttempt)
    → judge settings i o d a ≡ ok (d', a')
    → Judged settings.max_delivery_attempts d d' a a'
unfolding judge
judge-Judged settings i o d d' a a' h = ground arith

module _ (settings : Settings) (db db' : Database)
    (v : IsBalanced settings.max_delivery_attempts db) (d : Delivery) (e : Endpoint)
    (a : DeliveryAttempt) (hd : find_delivery d.id db.deliveries ≡ some d)
    (he : find_endpoint d.endpoint_id db.endpoints ≡ some e)
    (ha : find_attempt a.id db.attempts ≡ some a) (own : a.delivery_id ≡ d.id)
    (st : is_started a.outcome ≡ true) where
  live : is_delivering d.status ≡ true
  live = started_delivering settings.max_delivery_attempts db d a v hd ha own st

  store-Moves :
      (i : FinalizeInput) (o : Outcome) (r : Result (Delivery × DeliveryAttempt))
      → judge settings i o d (record_response i o d a) ≡ r
      → store_result e db r ≡ ok db'
      → Moves settings.max_delivery_attempts db db'
  unfolding store_result record_response
  store-Moves i o (err x) judged h = cc
  store-Moves i o (ok (d', a')) judged h =
      let j = judge-Judged settings i o d d' (record_response i o d a) a' judged in
      subst (Moves settings.max_delivery_attempts db) (result h) (
        one (
          settle d (record d' { lease_until = none }) e
            (record e { active_delivery_count = e.active_delivery_count - 1 }) a a'
            (record {
              found = hd;
              same_id = j.same_id;
              same_endpoint = j.same_endpoint;
              within = omega (arith, j.same_count, v.bounded d.id d hd);
              may_wait = λ w. omega (arith, j.same_count, j.may_wait w);
            })
            live j.idle he refl (delivering_slot settings.max_delivery_attempts db d e v hd he live)
            ha j.same_attempt j.same_delivery own st j.over refl refl refl))
    where
      result : {x y : Database} → ok x ≡ ok y → x ≡ y
      result p = cc

finalize_rows-Moves :
    (settings : Settings) (i : FinalizeInput) (c : ClaimedDelivery) (o : Outcome)
    (db db' : Database) (d : Option Delivery) (e : Option Endpoint) (a : Option DeliveryAttempt)
    → IsBalanced settings.max_delivery_attempts db
    → Names c db
    → find_delivery c.delivery_id db.deliveries ≡ d
    → find_endpoint c.endpoint_id db.endpoints ≡ e
    → find_attempt c.attempt_id db.attempts ≡ a
    → finalize_rows settings i o d e a db ≡ ok db'
    → Moves settings.max_delivery_attempts db db'
unfolding finalize_rows
finalize_rows-Moves settings i c o db db' (some d) (some e) (some a) v n hd he ha h =
    elim (Bool-cases (is_started a.outcome)) [
      | inl st ↦
          store-Moves settings db db' v d e a
            (subst (λ k. find_delivery k db.deliveries ≡ some d)
              (sym (find_key delivery_key c.delivery_id db.deliveries hd)) hd)
            (subst (λ k. find_endpoint k db.endpoints ≡ some e) (sym (n.of_endpoint d hd)) he)
            (subst (λ k. find_attempt k db.attempts ≡ some a)
              (sym (find_key attempt_key c.attempt_id db.attempts ha)) ha)
            (n.of_delivery a ha ∙ sym (find_key delivery_key c.delivery_id db.deliveries hd)) st i o
            (judge settings i o d (record_response i o d a)) refl (rw st at h)
      | inr over ↦ subst (Moves settings.max_delivery_attempts db) (unchanged (rw over at h)) here
    ]
  where
    unchanged : {x y : Database} → ok x ≡ ok y → x ≡ y
    unchanged p = cc
finalize_rows-Moves settings i c o db db' (some d) (some e) none v n hd he ha h =
    subst (Moves settings.max_delivery_attempts db) (ground arith) here
finalize_rows-Moves settings i c o db db' (some d) none a v n hd he ha h =
    subst (Moves settings.max_delivery_attempts db) (ground arith) here
finalize_rows-Moves settings i c o db db' none e a v n hd he ha h =
    subst (Moves settings.max_delivery_attempts db) (ground arith) here

-- Whenever the transaction commits, it is a row of moves of the ledger.
pub finalize_delivery-Moves :
    (settings : Settings) (i : FinalizeInput) (c : ClaimedDelivery) (o : Outcome)
    (db db' : Database)
    → IsBalanced settings.max_delivery_attempts db
    → Names c db
    → finalize_delivery settings i c o db ≡ ok db'
    → Moves settings.max_delivery_attempts db db'
unfolding finalize_delivery
finalize_delivery-Moves settings i c o db db' v n h =
    finalize_rows-Moves settings i c o db db' _ _ _ v n refl refl refl h
