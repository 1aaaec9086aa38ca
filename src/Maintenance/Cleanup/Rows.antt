-- ===== src/Maintenance/Cleanup/Rows.antt =====
-- What becomes of one delivery and of one attempt in a cleanup that commits.
use webhook_delivery_platfor.Base.{
  ℕ, ◌-◌, ◌≡◌, ◌⊎◌, refl, sym, subst, ◌∙◌, Bool, true, false, not, none, some, List, [], ◌∷◌, inl,
  inr, arith, Bool-cases, Option-cases, ◌==◌, find, find_key, select, Unique, update_where,
  find-update_where, update_where-Unique, if◌then◌else◌,
}
use webhook_delivery_platfor.Schema.{
  Database, Settings, Delivery, DeliveryAttempt, delivery_key, attempt_key, find_delivery,
  find_attempt,
}
use webhook_delivery_platfor.Errors.{ok}
use webhook_delivery_platfor.Maintenance.Cleanup.{
  CleanupInput, id_in, days, expire, expire_previews, delete_audits, erase_preview, preview_ids,
  has_old_preview, delivery_ids, remove_events, is_expired, cleanup_expired,
}
use webhook_delivery_platfor.Maintenance.Cleanup.Selects.{
  query_passes, find-select, find-select_was,
}
use webhook_delivery_platfor.Maintenance.Cleanup.Balance.{cleanup_expired-ok, delete_deliveries-ok}
use webhook_delivery_platfor.Maintenance.Cleanup.Blocked.{current_delivery_stays}

find-select_passes :
    {A : Type 0} (key : A → ℕ) (q : A → Bool) (k : ℕ) (t : List A) {x : A}
    → find key k (select q t) ≡ some x
    → q x ≡ true
unfolding find select
find-select_passes key q k [] h = cc
find-select_passes key q k (y ∷ t) {x} h = elim (Bool-cases (q y)) [
  | inl p ↦ elim (Bool-cases (key y == k)) [
    | inl s ↦ ground (arith, p, s, h)
    | inr s ↦ find-select_passes key q k t {x = x} (ground (arith, p, s, h))
  ]
  | inr p ↦ find-select_passes key q k t {x = x} (ground (arith, p, h))
]

module _ (settings : Settings) (i : CleanupInput) (db db' : Database) (total : ℕ)
    (unique_deliveries : Unique delivery_key db.deliveries)
    (unique_attempts : Unique attempt_key db.attempts)
    (done : cleanup_expired settings i db ≡ ok (db', total)) where
  gone : List ℕ
  gone = delivery_ids settings i db

  erased : List DeliveryAttempt
  erased = update_where (λ a. id_in a.id (preview_ids settings i db)) erase_preview db.attempts

  tables :
      (db'.deliveries ≡ select (λ d. not (id_in d.id gone)) db.deliveries)
      × (db'.attempts ≡ select (λ a. not (id_in a.delivery_id gone)) erased)
  unfolding remove_events expire expire_previews delete_audits gone erased delivery_ids
  tables =
      let c = cleanup_expired-ok settings i db done in
      let x = (expire settings i db).0 in
      let del = delete_deliveries-ok (delivery_ids settings i x) x c.deleted in
      (rw (c.purged, del.1) refl, rw (c.purged, del.1) refl)

  pub delivery_was :
      (k : ℕ) (d : Delivery)
      → find_delivery k db'.deliveries ≡ some d
      → find_delivery k db.deliveries ≡ some d
  delivery_was k d h =
      find-select_was delivery_key _ k db.deliveries unique_deliveries
        (subst (λ t. find_delivery k t ≡ some d) (tables.0) h)

  delivery_gone : (k : ℕ) → id_in k gone ≡ true → find_delivery k db'.deliveries ≡ none
  delivery_gone k h = elim (Option-cases (find_delivery k db'.deliveries)) [
    | inl e ↦ e
    | inr (d, e) ↦
        let kept =
          find-select_passes delivery_key (λ d. not (id_in d.id gone)) k db.deliveries
            (subst (λ t. find_delivery k t ≡ some d) (tables.0) e) in
        absurd (ground (arith, kept, h, find_key delivery_key k db'.deliveries e))
  ]

  -- Whether the cleanup erases the preview of the attempt.
  abbrev erases : DeliveryAttempt → Bool
  erases a = id_in a.id (preview_ids settings i db)

  erased_row :
      (k : ℕ) (a : DeliveryAttempt)
      → find_attempt k db.attempts ≡ some a
      → find_attempt k erased ≡ some (if erases a then erase_preview a else a)
  unfolding erased
  erased_row k a h =
      rw
        (
          find-update_where attempt_key k (λ a. id_in a.id (preview_ids settings i db))
              erase_preview db.attempts (λ a. refl),
          h,
        )
        refl

  -- An attempt of a delivery that stays is there, perhaps without its preview.
  attempt_there :
      (k : ℕ) (a : DeliveryAttempt)
      → find_attempt k db.attempts ≡ some a
      → id_in a.delivery_id gone ≡ false
      → find_attempt k db'.attempts ≡ some (if erases a then erase_preview a else a)
  attempt_there k a h stays =
      subst (λ t. find_attempt k t ≡ some (if erases a then erase_preview a else a))
        (sym (tables.1))
        (find-select attempt_key _ k erased (erased_row k a h) (elim (Bool-cases (erases a)) [
          | inl e ↦ rw (e, stays) refl
          | inr e ↦ rw (e, stays) refl
        ]))

  attempt_gone :
      (k : ℕ) (a : DeliveryAttempt)
      → find_attempt k db.attempts ≡ some a
      → id_in a.delivery_id gone ≡ true
      → find_attempt k db'.attempts ≡ none
  attempt_gone k a h goes = elim (Option-cases (find_attempt k db'.attempts)) [
    | inl e ↦ e
    | inr (b, e) ↦
        let found = subst (λ t. find_attempt k t ≡ some b) (tables.1) e in
        let kept =
          find-select_passes attempt_key (λ a. not (id_in a.delivery_id gone)) k erased found in
        let was =
          find-select_was attempt_key (λ a. not (id_in a.delivery_id gone)) k erased
            (unfold erased in
              update_where-Unique attempt_key _ erase_preview db.attempts (λ a. refl)
                unique_attempts)
            found in
        absurd (ground (arith, kept, was, goes, erased_row k a h, Bool-cases (erases a)))
  ]

  -- A delivery stays as it is, or it has ended, is older than the retention, and is deleted.
  pub delivery_after :
      (k : ℕ) (d : Delivery)
      → find_delivery k db.deliveries ≡ some d
      → (find_delivery k db'.deliveries ≡ some d)
        ⊎ ((is_expired (i.now - days settings.metadata_retention_days) d ≡ true)
            × (find_delivery k db'.deliveries ≡ none))
  delivery_after k d h =
      elim (Bool-cases (is_expired (i.now - days settings.metadata_retention_days) d)) [
        | inr current ↦
            inl (current_delivery_stays settings i db k d unique_deliveries h current done)
        | inl old ↦ elim (Option-cases (find_delivery k db'.deliveries)) [
          | inl e ↦ inr (old, e)
          | inr (d', e) ↦ inl (e ∙ sym (delivery_was k d' e) ∙ h)
        ]
      ]

  -- An attempt stays as it is, or loses a preview older than the retention, or is deleted with its
  -- delivery.
  pub attempt_after :
      (k : ℕ) (a : DeliveryAttempt)
      → find_attempt k db.attempts ≡ some a
      → (find_attempt k db'.attempts ≡ some a)
        ⊎ (((has_old_preview (i.now - days settings.preview_retention_days) a ≡ true)
              × (find_attempt k db'.attempts ≡ some (erase_preview a)))
            ⊎ ((find_delivery a.delivery_id db'.deliveries ≡ none)
                × (find_attempt k db'.attempts ≡ none)))
  unfolding preview_ids
  attempt_after k a h = elim (Bool-cases (id_in a.delivery_id gone)) [
    | inl goes ↦ inr (inr (delivery_gone a.delivery_id goes, attempt_gone k a h goes))
    | inr stays ↦ elim (Bool-cases (erases a)) [
      | inr e ↦ inl (attempt_there k a h stays ∙ (rw e refl))
      | inl e ↦ inr (
          inl (
            query_passes attempt_key
                (has_old_preview (i.now - days settings.preview_retention_days)) _ i.locked_attempts
                i.batch_size db.attempts a.id {x = a} unique_attempts e
                (subst (λ j. find_attempt j db.attempts ≡ some a)
                  (sym (find_key attempt_key k db.attempts h)) h),
            attempt_there k a h stays ∙ (rw e refl),
          ))
    ]
  ]

  -- An attempt of a delivery that is there afterwards is there too, of the same delivery.
  pub attempt_of :
      (k : ℕ) (a : DeliveryAttempt) {d : Delivery}
      → find_attempt k db.attempts ≡ some a
      → find_delivery a.delivery_id db'.deliveries ≡ some d
      → (b : DeliveryAttempt) × (find_attempt k db'.attempts ≡ some b)
        × (b.delivery_id ≡ a.delivery_id)
  attempt_of k a {d} h left = elim (attempt_after k a h) [
    | inl same ↦ (a, same, refl)
    | inr (inl (old, e)) ↦ (erase_preview a, e, refl)
    | inr (inr (no_delivery, e)) ↦ absurd (clash no_delivery)
  ]
    where
      clash : find_delivery a.delivery_id db'.deliveries ≡ none → ⊥
      clash n = ground (arith, n, left)
