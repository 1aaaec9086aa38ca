-- ===== src/Ledger/Terminal.antt =====
-- What no move of the ledger touches: deliveries that have ended, and attempts that are over.
use webhook_delivery_platfor.Base.{
  ℕ, ◌≡◌, sym, subst, true, false, some, none, arith, find-save, find-update_where, List, ◌∷◌, find,
  eq→≡,
}
use webhook_delivery_platfor.Schema.{
  Database, Delivery, DeliveryAttempt, is_terminal, is_started, is_delivering, is_waiting,
  find_delivery, find_attempt, save_delivery, delivery_key, attempt_key,
}
use webhook_delivery_platfor.Ledger.Moves.{
  Move, edit, relabel, note, start, settle, sweep, create, Moves, here, next, Replaces,
}

-- A delivery is replaced, and it was not this one.
other_delivery :
    (limit : ℕ) (db : Database) (id : ℕ) (t d d' : Delivery)
    → Replaces limit db.deliveries d d'
    → is_terminal d.status ≡ false
    → find_delivery id db.deliveries ≡ some t
    → is_terminal t.status ≡ true
    → find_delivery id (save_delivery d' db.deliveries) ≡ some t
other_delivery limit db id t d d' r live h end =
    rw (find-save delivery_key id d' db.deliveries found) (ground (arith, found, r.same_id))
  where
    found : find_delivery d'.id db.deliveries ≡ some d
    found = subst (λ k. find_delivery k db.deliveries ≡ some d) (sym r.same_id) r.found

waiting_live : (d : Delivery) → is_waiting d.status ≡ true → is_terminal d.status ≡ false
waiting_live d h = ground arith

delivering_live : (d : Delivery) → is_delivering d.status ≡ true → is_terminal d.status ≡ false
delivering_live d h = ground arith

-- A row with an unused key hides no other.
find-fresh {ℓ} :
    {A : Type ℓ} (key : A → ℕ) (k : ℕ) (r : A) (t : List A) {s : A}
    → find key (key r) t ≡ none
    → find key k t ≡ some s
    → find key k (r ∷ t) ≡ some s
unfolding find
find-fresh key k r t {s} f h = ground (arith, eq→≡ (key r) k)

pub Move-terminal :
    (limit : ℕ) (db db' : Database)
    → Move limit db db'
    → (id : ℕ) (t : Delivery) → find_delivery id db.deliveries ≡ some t
    → is_terminal t.status ≡ true
    → find_delivery id db'.deliveries ≡ some t
Move-terminal limit db db' (edit p q s) id t h end = rw p h
Move-terminal limit db db' (relabel d d' r x y p q s) id t h end =
    rw p (other_delivery limit db id t d d' r (waiting_live d x) h end)
Move-terminal limit db db' (note a f o p q s) id t h end = rw p h
Move-terminal limit db db' (start d d' e e' a r x y he hk free up fresh own st p q s) id t h end =
    rw p (other_delivery limit db id t d d' r (waiting_live d x) h end)
Move-terminal limit db db' (settle d d' e e' a a' r x y he hk down ha same keep own st over p q s)
      id t h end =
    rw p (other_delivery limit db id t d d' r (delivering_live d x) h end)
Move-terminal limit db db' (create d f o b p q s) id t h end =
    rw p (find-fresh delivery_key id d db.deliveries f h)
Move-terminal limit db db' (sweep p f idle same place idle' ended kept x y z) id t h end =
    rw (x, find-update_where delivery_key id p f db.deliveries same, h) (ground (arith, idle t))

-- An attempt is replaced while it is started only.
pub Move-over :
    (limit : ℕ) (db db' : Database)
    → Move limit db db'
    → (id : ℕ) (t : DeliveryAttempt) → find_attempt id db.attempts ≡ some t
    → is_started t.outcome ≡ false
    → find_attempt id db'.attempts ≡ some t
Move-over limit db db' (edit p q s) id t h end = rw q h
Move-over limit db db' (relabel d d' r x y p q s) id t h end = rw q h
Move-over limit db db' (note a f o p q s) id t h end =
    rw q (find-fresh attempt_key id a db.attempts f h)
Move-over limit db db' (start d d' e e' a r x y he hk free up fresh own st p q s) id t h end =
    rw q (find-fresh attempt_key id a db.attempts fresh h)
Move-over limit db db' (settle d d' e e' a a' r x y he hk down ha same keep own st over p q s) id t
      h end =
    rw (q, find-save attempt_key id a' db.attempts found) (ground (arith, found, same))
  where
    found : find_attempt a'.id db.attempts ≡ some a
    found = subst (λ k. find_attempt k db.attempts ≡ some a) (sym same) ha
Move-over limit db db' (create d f o b p q s) id t h end = rw q h
Move-over limit db db' (sweep p f idle same place idle' ended kept x y z) id t h end = rw y h

pub Moves-terminal :
    (limit : ℕ) (db : Database) {db' : Database}
    → Moves limit db db'
    → (id : ℕ) (t : Delivery) → find_delivery id db.deliveries ≡ some t
    → is_terminal t.status ≡ true
    → find_delivery id db'.deliveries ≡ some t
Moves-terminal limit db here id t h end = h
Moves-terminal limit db (next {db' = x} {db'' = y} m n) id t h end =
    Move-terminal limit x y n id t (Moves-terminal limit db m id t h end) end

pub Moves-over :
    (limit : ℕ) (db : Database) {db' : Database}
    → Moves limit db db'
    → (id : ℕ) (t : DeliveryAttempt) → find_attempt id db.attempts ≡ some t
    → is_started t.outcome ≡ false
    → find_attempt id db'.attempts ≡ some t
Moves-over limit db here id t h end = h
Moves-over limit db (next {db' = x} {db'' = y} m n) id t h end =
    Move-over limit x y n id t (Moves-over limit db m id t h end) end
