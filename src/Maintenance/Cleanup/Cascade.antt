-- ===== src/Maintenance/Cleanup/Cascade.antt =====
-- What the foreign key of deliveries to events (ON DELETE CASCADE) takes along in a cleanup: nothing,
-- since the events of the batch have no delivery.
use webhook_delivery_platfor.Base.{
  ℕ, ◌-◌, ◌≡◌, refl, sym, Bool, true, false, List, [], ◌∷◌, inl, inr, arith, Bool-cases,
  Option-cases, ◌==◌, eq→≡, eq_self, map, select, All, All-imp, All-select, All-order_by, All-take,
  query, subst,
}
use webhook_delivery_platfor.Schema.{Database, Settings, Delivery, Event, event_key}
use webhook_delivery_platfor.Errors.{ok}
use webhook_delivery_platfor.Maintenance.Cleanup.{
  CleanupInput, id_in, days, delivery_ids_of, remove_events, delete_events, delete_deliveries,
  any_orphan, is_orphan, event_ids, is_unused, has_delivery,
}
use webhook_delivery_platfor.Maintenance.Cleanup.Selects.{All-rows}

query-All :
    {A : Type 0} (key : A → ℕ) (p : A → Bool) (before : A → A → Bool) (locked : ℕ → Bool)
    (limit : ℕ) (t : List A)
    → All (λ r. p r ≡ true) (query key p before locked limit t)
unfolding query
query-All key p before locked limit t = All-take _ limit _ (
    All-imp (λ r h. h.0) _
      (All-select (λ r. p r ≡ true) _ _
        (All-order_by _ before _ (
          All-imp (λ r h. h.1) _
            (All-select (λ r. Unit {0}) p t (All-rows (λ r. Unit {0}) (λ r. tt) t))))))

batch_unused :
    (cutoff k : ℕ) (ds : List Delivery) (rs : List Event)
    → All (λ e. is_unused cutoff ds e ≡ true) rs
    → id_in k (map event_key rs) ≡ true
    → has_delivery k ds ≡ false
unfolding id_in is_unused
batch_unused cutoff k ds [] a h = absurd (ground (arith, h))
batch_unused cutoff k ds (e ∷ rs) a h = elim (Bool-cases (e.id == k)) [
  | inl s ↦ subst (λ j. has_delivery j ds ≡ false) (eq→≡ e.id k s) (ground (arith, a.0))
  | inr s ↦ batch_unused cutoff k ds rs a.1 (ground (arith, s, h))
]

has_own : (t : List Delivery) → All (λ d. has_delivery d.event_id t ≡ true) t
unfolding has_delivery
has_own [] = tt
has_own (d ∷ t) = (rw (eq_self d.event_id) refl, All-imp (λ x h. ground (arith, h)) t (has_own t))

select-none : {A : Type 0} (p : A → Bool) (t : List A) → All (λ x. p x ≡ false) t → select p t ≡ []
unfolding select
select-none p [] a = refl
select-none p (x ∷ t) a = rw (a.0) (select-none p t a.1)

select-all : {A : Type 0} (t : List A) → select (λ x. true) t ≡ t
unfolding select
select-all [] = refl
select-all (x ∷ t) = rw (select-all t) refl

no_orphan-[] : (t : List Delivery) → any_orphan [] t ≡ false
unfolding any_orphan is_orphan id_in
no_orphan-[] [] = refl
no_orphan-[] (d ∷ t) = elim (Option-cases d.replay_of) [
  | inl e ↦ rw (e, no_orphan-[] t) refl
  | inr (k, e) ↦ rw (e, no_orphan-[] t) refl
]

delete_deliveries-[] : (db : Database) → delete_deliveries [] db ≡ ok db
unfolding delete_deliveries id_in
delete_deliveries-[] db =
    rw (no_orphan-[] db.deliveries, select-all db.deliveries, select-all db.attempts) refl

nothing_along :
    (settings : Settings) (i : CleanupInput) (db : Database)
    → delivery_ids_of (event_ids settings i db) db ≡ []
unfolding delivery_ids_of event_ids
nothing_along settings i db = rw none_left refl
  where
    none_left : select (λ d. id_in d.event_id (event_ids settings i db)) db.deliveries ≡ []
    none_left = select-none _ db.deliveries (All-imp outside db.deliveries (has_own db.deliveries))
      where
        outside :
            (d : Delivery)
            → has_delivery d.event_id db.deliveries ≡ true
            → id_in d.event_id (event_ids settings i db) ≡ false
        outside d own = elim (Bool-cases (id_in d.event_id (event_ids settings i db))) [
          | inr out ↦ out
          | inl inside ↦
              let unused =
                batch_unused (i.now - days settings.metadata_retention_days) d.event_id
                  db.deliveries _ (query-All event_key _ _ i.locked_events i.batch_size db.events)
                  inside in
              absurd (ground (arith, own, unused))
        ]

-- The events of the batch go, and nothing else.
pub delete_events-alone :
    (settings : Settings) (i : CleanupInput) (db : Database)
    → delete_events (event_ids settings i db) db ≡ ok (remove_events (event_ids settings i db) db)
unfolding delete_events remove_events
delete_events-alone settings i db =
    let kept : delete_deliveries (delivery_ids_of (event_ids settings i db) db) db ≡ ok db =
      subst (λ ks. delete_deliveries ks db ≡ ok db) (sym (nothing_along settings i db))
        (delete_deliveries-[] db) in
    rw (kept, delete_events) refl
