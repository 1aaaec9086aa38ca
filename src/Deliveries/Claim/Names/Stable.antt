-- ===== src/Deliveries/Claim/Names/Stable.antt =====
-- No move of the ledger takes away the rows that a claim names, or parts them.
use webhook_delivery_platfor.Base.{
  ℕ, ◌≡◌, ◌≢◌, refl, Bool, Option, none, some, ◌∷◌, arith, find, find-save, update_where,
  find-update_where, List,
}
use webhook_delivery_platfor.Schema.{
  Database, Delivery, DeliveryAttempt, find_delivery, find_attempt, delivery_key, attempt_key,
  save_delivery, save_attempt,
}
use webhook_delivery_platfor.Ledger.Moves.{
  Move, Moves, Replaces, edit, relabel, note, start, settle, sweep, create, here, next,
}
use webhook_delivery_platfor.Deliveries.Claim.{ClaimedDelivery}
use webhook_delivery_platfor.Deliveries.Claim.Names.{Names}

-- The two halves of `Names`: what it asks of the deliveries, and of the attempts.
record NamesDelivery (c : ClaimedDelivery) (t : List Delivery) : Type 0 where
  there : find_delivery c.delivery_id t ≢ none
  same : (d : Delivery) → find_delivery c.delivery_id t ≡ some d → d.endpoint_id ≡ c.endpoint_id

record NamesAttempt (c : ClaimedDelivery) (t : List DeliveryAttempt) : Type 0 where
  there : find_attempt c.attempt_id t ≢ none
  same :
      (a : DeliveryAttempt) → find_attempt c.attempt_id t ≡ some a → a.delivery_id ≡ c.delivery_id

join :
    (c : ClaimedDelivery) (db : Database)
    → NamesDelivery c db.deliveries
    → NamesAttempt c db.attempts
    → Names c db
join c db n m = record {
  delivery_there = n.there;
  attempt_there = m.there;
  of_endpoint = n.same;
  of_delivery = m.same;
}

left : (c : ClaimedDelivery) (db : Database) → Names c db → NamesDelivery c db.deliveries
left c db n = record { there = n.delivery_there; same = n.of_endpoint }

right : (c : ClaimedDelivery) (db : Database) → Names c db → NamesAttempt c db.attempts
right c db n = record { there = n.attempt_there; same = n.of_delivery }

module _ (c : ClaimedDelivery) (t : List Delivery) (n : NamesDelivery c t) where
  save-NamesDelivery :
      (limit : ℕ) (d d' : Delivery) → Replaces limit t d d' → NamesDelivery c (save_delivery d' t)
  save-NamesDelivery limit d d' r = record {
    there = λ gone. ground (arith, find-save delivery_key c.delivery_id d' t found, n.there);
    same = λ x h. ground (
      arith,
      find-save delivery_key c.delivery_id d' t found,
      n.same x,
      n.same d,
      r.found,
      r.same_id,
      r.same_endpoint,
    );
  }
    where
      found : find_delivery d'.id t ≡ some d
      found = rw r.same_id r.found

  cons-NamesDelivery : (d : Delivery) → find_delivery d.id t ≡ none → NamesDelivery c (d ∷ t)
  unfolding find
  cons-NamesDelivery d fresh = record {
    there = λ gone. ground (arith, n.there);
    same = λ x h. ground (arith, n.there, n.same x);
  }

module _ (c : ClaimedDelivery) (t : List DeliveryAttempt) (n : NamesAttempt c t) where
  cons-NamesAttempt : (a : DeliveryAttempt) → find_attempt a.id t ≡ none → NamesAttempt c (a ∷ t)
  unfolding find
  cons-NamesAttempt a fresh = record {
    there = λ gone. ground (arith, n.there);
    same = λ x h. ground (arith, n.there, n.same x);
  }

  save-NamesAttempt :
      (a a' : DeliveryAttempt)
      → find_attempt a.id t ≡ some a
      → a'.id ≡ a.id
      → a'.delivery_id ≡ a.delivery_id
      → NamesAttempt c (save_attempt a' t)
  save-NamesAttempt a a' ha same own = record {
    there = λ gone. ground (arith, find-save attempt_key c.attempt_id a' t found, n.there);
    same = λ x h. ground (arith, find-save attempt_key c.attempt_id a' t found, n.same x, n.same a);
  }
    where
      found : find_attempt a'.id t ≡ some a
      found = rw same ha

sweep-NamesDelivery :
    (c : ClaimedDelivery) (t : List Delivery) (p : Delivery → Bool) (f : Delivery → Delivery)
    → NamesDelivery c t
    → ((d : Delivery) → (f d).id ≡ d.id)
    → ((d : Delivery) → (f d).endpoint_id ≡ d.endpoint_id)
    → NamesDelivery c (update_where p f t)
sweep-NamesDelivery c t p f n same place = record {
  there = λ gone. swept_there (find_delivery c.delivery_id t) refl gone;
  same = λ x h. swept_same x (find_delivery c.delivery_id t) refl h;
}
  where
    swept_there :
        (o : Option Delivery)
        → find_delivery c.delivery_id t ≡ o
        → find_delivery c.delivery_id (update_where p f t) ≢ none
    swept_there none h = absurd (n.there h)
    swept_there (some d) h =
        λ gone. ground (arith, find-update_where delivery_key c.delivery_id p f t same, h)

    swept_same :
        (x : Delivery) (o : Option Delivery)
        → find_delivery c.delivery_id t ≡ o
        → find_delivery c.delivery_id (update_where p f t) ≡ some x
        → x.endpoint_id ≡ c.endpoint_id
    swept_same x none h = absurd (n.there h)
    swept_same x (some d) h = λ e.
        ground
          (arith, find-update_where delivery_key c.delivery_id p f t same, h, n.same d h, place d)

Move-Names :
    (limit : ℕ) (c : ClaimedDelivery) (db db' : Database)
    → Names c db
    → Move limit db db'
    → Names c db'
Move-Names limit c db db' n (edit p q s) = join c db' (rw p (left c db n)) (rw q (right c db n))
Move-Names limit c db db' n (relabel d d' r x y p q s) =
    join c db' (rw p (save-NamesDelivery c db.deliveries (left c db n) limit d d' r))
      (rw q (right c db n))
Move-Names limit c db db' n (note a fresh o p q s) =
    join c db' (rw p (left c db n)) (rw q (cons-NamesAttempt c db.attempts (right c db n) a fresh))
Move-Names limit c db db' n (start d d' e e' a r x y he hk free up fresh own st p q s) =
    join c db' (rw p (save-NamesDelivery c db.deliveries (left c db n) limit d d' r))
      (rw q (cons-NamesAttempt c db.attempts (right c db n) a fresh))
Move-Names limit c db db' n
      (settle d d' e e' a a' r x y he hk down ha same keep own st over p q s) =
    join c db' (rw p (save-NamesDelivery c db.deliveries (left c db n) limit d d' r))
      (rw q (save-NamesAttempt c db.attempts (right c db n) a a' ha same keep))
Move-Names limit c db db' n (sweep p f idle same place idle' ended kept x y z) =
    join c db' (rw x (sweep-NamesDelivery c db.deliveries p f (left c db n) same place))
      (rw y (right c db n))
Move-Names limit c db db' n (create d fresh o b p q s) =
    join c db' (rw p (cons-NamesDelivery c db.deliveries (left c db n) d fresh))
      (rw q (right c db n))

pub Moves-Names :
    (limit : ℕ) (c : ClaimedDelivery) (db : Database)
    → Names c db
    → {db' : Database} → Moves limit db db'
    → Names c db'
Moves-Names limit c db n here = n
Moves-Names limit c db n (next {db' = x} {db'' = y} m s) =
    Move-Names limit c x y (Moves-Names limit c db n m) s
