-- ===== src/Deliveries/Finalize/Total.antt =====
-- finalize_delivery (src/webhook_platform/deliveries/infrastructure/processor.py): that it commits.
use webhook_delivery_platfor.Base.{
  ℕ, suc, zero, ◌+◌, ◌-◌, ◌≤◌, min, max, All, Option-cases, ◌<◌, ◌≡◌, refl, subst, true, Option,
  none, some, List, [], ◌∷◌, inl, inr, arith, length, get_last?, is_some,
}
use webhook_delivery_platfor.Schema.{
  Database, Settings, Endpoint, Delivery, DeliveryAttempt, find_delivery, find_endpoint,
  find_attempt, seconds,
}
use webhook_delivery_platfor.Errors.{ok, is_ok, is_ok-some}
use webhook_delivery_platfor.Deliveries.Retry.{retry_delay, base_delay, jittered, time_delta}
use webhook_delivery_platfor.Deliveries.Retry.Bounds.{base_delay-total, get_elem-All}
use webhook_delivery_platfor.Deliveries.Claim.{ClaimedDelivery}
use webhook_delivery_platfor.Deliveries.Exchange.{Outcome}
use webhook_delivery_platfor.Deliveries.Finalize.{
  FinalizeInput, record_response, judge, schedule_retry, store_result, finalize_rows,
  finalize_delivery, last_time,
}

get_last-some : {A : Type 0} (xs : List A) → 0 < length xs → is_some (get_last? xs) ≡ true
get_last-some [] h = absurd (omega arith)
get_last-some (x ∷ []) h = refl
get_last-some (x ∷ y ∷ xs) h = get_last-some (y ∷ xs) (omega arith)

get_last-All : (P : ℕ → Type 0) (xs : List ℕ) {a : ℕ} → All P xs → get_last? xs ≡ some a → P a
get_last-All P [] all h = cc
get_last-All P (x ∷ []) {a} all h = subst P (ok-some h) all.0
  where
    ok-some : some x ≡ some a → x ≡ a
    ok-some e = cc
get_last-All P (x ∷ y ∷ xs) all h = get_last-All P (y ∷ xs) all.1 h

-- Every attempt has a base delay, which is one of the settings' delays.
base_delay-All :
    (P : ℕ → Type 0) (n : ℕ) (delays : List ℕ)
    → 0 < length delays
    → All P delays
    → (base : ℕ) × (base_delay n delays ≡ some base) × P base
unfolding base_delay
base_delay-All P zero delays h all = elim (Option-cases (get_last? delays)) [
  | inl e ↦ absurd (ground (arith, e, get_last-some delays h))
  | inr (base, e) ↦ (base, e, get_last-All P delays all e)
]
base_delay-All P (suc n) delays h all =
    let (base, e) = base_delay-total n delays h in
    (base, e, get_elem-All P delays (min n (length delays - 1)) all e)

-- The time of the next attempt after a base delay of `d` seconds, with its jitter, is a datetime.
abbrev pub Fits : FinalizeInput → ℕ → Type 0
Fits i d = i.now + seconds (max (d + i.jitter d) 21600) ≤ last_time

schedule-is_ok :
    (i : FinalizeInput) (d : Delivery) (a : DeliveryAttempt) (base : ℕ) (retry_after : Option ℕ)
    → Fits i base
    → is_ok (schedule_retry i d a (time_delta (jittered i.jitter retry_after base))) ≡ true
unfolding schedule_retry time_delta jittered
schedule-is_ok i d a base none h = ground (arith, h)
schedule-is_ok i d a base (some r) h = ground (arith, h)

retry-is_ok :
    (i : FinalizeInput) (d : Delivery) (a : DeliveryAttempt) (n : ℕ) (delays : List ℕ)
    (retry_after : Option ℕ)
    → 0 < length delays
    → All (Fits i) delays
    → is_ok (schedule_retry i d a (retry_delay i.jitter n delays retry_after)) ≡ true
unfolding retry_delay
retry-is_ok i d a n delays retry_after h all =
    let (base, e, fits) = base_delay-All (Fits i) n delays h all in
    rw (retry_delay, e) (schedule-is_ok i d a base retry_after fits)

judge-is_ok :
    (settings : Settings) (i : FinalizeInput) (o : Outcome) (d : Delivery) (a : DeliveryAttempt)
    → 0 < length settings.retry_delays_seconds
    → All (Fits i) settings.retry_delays_seconds
    → is_ok (judge settings i o d a) ≡ true
unfolding judge
judge-is_ok settings i o d a h all =
    ground
      (arith, retry-is_ok i d a d.attempt_count settings.retry_delays_seconds o.retry_after h all)

rows-is_ok :
    (settings : Settings) (i : FinalizeInput) (o : Outcome) (d : Option Delivery)
    (e : Option Endpoint) (a : Option DeliveryAttempt) (db : Database)
    → 0 < length settings.retry_delays_seconds
    → All (Fits i) settings.retry_delays_seconds
    → is_ok (finalize_rows settings i o d e a db) ≡ true
unfolding finalize_rows store_result
rows-is_ok settings i o (some d) (some e) (some a) db h all =
    ground (arith, judge-is_ok settings i o d (record_response i o d a) h all)
rows-is_ok settings i o (some d) (some e) none db h all = refl
rows-is_ok settings i o (some d) none a db h all = refl
rows-is_ok settings i o none e a db h all = refl

-- With at least one delay in the settings, and where each delay with its jitter, and six hours, from
-- now lie before the year 10000, the transaction raises no exception, whatever rows it finds and
-- whatever the result of the attempt is.
pub finalize_delivery-total :
    (settings : Settings) (i : FinalizeInput) (c : ClaimedDelivery) (o : Outcome) (db : Database)
    → 0 < length settings.retry_delays_seconds
    → All (Fits i) settings.retry_delays_seconds
    → (db' : Database) × (finalize_delivery settings i c o db ≡ ok db')
unfolding finalize_delivery
finalize_delivery-total settings i c o db h all = is_ok-some _ (
    rows-is_ok settings i o (find_delivery c.delivery_id db.deliveries)
      (find_endpoint c.endpoint_id db.endpoints) (find_attempt c.attempt_id db.attempts) db h all)
