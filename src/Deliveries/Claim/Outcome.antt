-- ===== src/Deliveries/Claim/Outcome.antt =====
-- claim_delivery (src/webhook_platform/deliveries/infrastructure/processor.py): which deliveries it
-- hands out, and that it hands out none twice.
use webhook_delivery_platfor.Base.{
  ℕ, ◌≡◌, refl, sym, ◌∙◌, subst, Bool, false, ◌||◌, ◌&&◌, not, Option, none, some, inl, inr, arith,
  leb, ltb, ◌⊎◌, Bool-cases, Option-cases, find_key, find-save, is_some, eq_self,
}
use webhook_delivery_platfor.Schema.{
  Database, Settings, Endpoint, EndpointSecret, Event, Delivery, is_queued, is_active,
  find_delivery, find_endpoint, find_event, delivery_key, save_delivery,
}
use webhook_delivery_platfor.Deliveries.Claim.{
  ClaimInput, refuse_secret, begin_attempt, claim_with_secret, claim_with_event,
  claim_with_endpoint, claim_with_delivery, claim_delivery, read_secret, active_secret, lease,
  is_refused, ClaimedDelivery,
}

-- The transaction has left the delivery with a status other than "queued".
abbrev NotQueued : ℕ → Database → Type 0
NotQueued id db =
    (d : Delivery) × (find_delivery id db.deliveries ≡ some d) × (is_queued d.status ≡ false)

module _ (settings : Settings) (i : ClaimInput) (db : Database) (id : ℕ) (d : Delivery)
    (found : find_delivery id db.deliveries ≡ some d) where
  put-NotQueued :
      (d' : Delivery)
      → d'.id ≡ d.id
      → is_queued d'.status ≡ false
      → (d'' : Delivery) × (find_delivery id (save_delivery d' db.deliveries) ≡ some d'')
        × (is_queued d''.status ≡ false)
  put-NotQueued d' same idle = (
    d',
    rw (find-save delivery_key id d' db.deliveries found')
        (ground (arith, same, find_key delivery_key id db.deliveries found, eq_self id)),
    idle,
  )
    where
      same' : d'.id ≡ id
      same' = same ∙ find_key delivery_key id db.deliveries found

      found' : find_delivery d'.id db.deliveries ≡ some d
      found' = subst (λ k. find_delivery k db.deliveries ≡ some d) (sym same') found

  secret-NotQueued :
      (e : Endpoint) (event : Event) (s : Option EndpointSecret)
      → NotQueued id (claim_with_secret settings i d e event s db).0
  unfolding claim_with_secret refuse_secret begin_attempt lease
  secret-NotQueued e event none = put-NotQueued _ refl refl
  secret-NotQueued e event (some s) = elim (Option-cases (read_secret settings i e s)) [
    | inl h ↦ rw (h, claim_with_secret) (put-NotQueued _ refl refl)
    | inr (secret, h) ↦ rw (h, claim_with_secret) (put-NotQueued _ refl refl)
  ]

  -- What a claim of the delivery comes to: it is no longer queued, or each claim is rolled back.
  Settled : Option Endpoint → Database × Option ClaimedDelivery → Type 0
  Settled e result =
      NotQueued id result.0
      ⊎ ((result ≡ (db, none))
          × ((settings' : Settings) (j : ClaimInput)
              → claim_with_endpoint settings' j d e db ≡ (db, none)))

  endpoint-Settled : (e : Option Endpoint) → Settled e (claim_with_endpoint settings i d e db)
  unfolding Settled claim_with_endpoint claim_with_event
  endpoint-Settled none = inl (put-NotQueued _ refl refl)
  endpoint-Settled (some e) = elim (Bool-cases (not (is_active e.status) || not e.enabled)) [
    | inl h ↦ rw h (inl (put-NotQueued _ refl refl))
    | inr h ↦ rw h (elim (Bool-cases (leb 3 e.active_delivery_count)) [
      | inl full ↦ rw full (inl (put-NotQueued _ refl refl))
      | inr free ↦ rw free (elim (Option-cases (find_event d.event_id db.events)) [
        | inl none_found ↦ rw none_found (inl (put-NotQueued _ refl refl))
        | inr (event, there) ↦ rw there (elim (Bool-cases (is_refused d db.attempts)) [
          | inl refused ↦ rw refused (inr (refl, λ settings' j. refl))
          | inr taken ↦ rw taken (inl (secret-NotQueued e event (active_secret e.id db.secrets)))
        ])
      ])
    ])
  ]

NotQueued-none :
    (settings : Settings) (i : ClaimInput) (id : ℕ) (db : Database)
    → NotQueued id db
    → claim_delivery settings i id db ≡ (db, none)
unfolding claim_delivery claim_with_delivery
NotQueued-none settings i id db (d, found, idle) = rw (found, idle) refl

missing_twice :
    (settings : Settings) (i j : ClaimInput) (id : ℕ) (db : Database)
    → find_delivery id db.deliveries ≡ none
    → claim_delivery settings j id (claim_with_delivery settings i none db).0
      ≡ ((claim_with_delivery settings i none db).0, none)
unfolding claim_delivery claim_with_delivery
missing_twice settings i j id db h = rw h refl

found_twice :
    (settings : Settings) (i j : ClaimInput) (id : ℕ) (db : Database) (d : Delivery)
    → find_delivery id db.deliveries ≡ some d
    → claim_delivery settings j id (claim_delivery settings i id db).0
      ≡ ((claim_delivery settings i id db).0, none)
unfolding claim_delivery claim_with_delivery Settled
found_twice settings i j id db d h = elim (Bool-cases (is_queued d.status)) [
  | inl q ↦
      let e = find_endpoint d.endpoint_id db.endpoints in
      let same : claim_delivery settings i id db ≡ claim_with_endpoint settings i d e db =
        rw (h, q) refl in
      elim (endpoint-Settled settings i db id d h e) [
        | inl idle ↦ NotQueued-none settings j id (claim_delivery settings i id db).0 (rw same idle)
        | inr (rolled_back, always) ↦
            let again : claim_delivery settings j id db ≡ (db, none) =
              rw (h, q) (always settings j) in
            rw (same ∙ rolled_back) again
      ]
  | inr q ↦ NotQueued-none settings j id (claim_delivery settings i id db).0 (rw (h, q) (d, h, q))
]

-- A delivery is not handed out twice: once a claim of it has committed, whatever it found, another
-- claim of the same delivery hands out nothing and changes nothing.
pub claim_twice :
    (settings : Settings) (i j : ClaimInput) (id : ℕ) (db : Database)
    → claim_delivery settings j id (claim_delivery settings i id db).0
      ≡ ((claim_delivery settings i id db).0, none)
unfolding claim_delivery
claim_twice settings i j id db = elim (Option-cases (find_delivery id db.deliveries)) [
  | inl h ↦ rw h (missing_twice settings i j id db h)
  | inr (d, h) ↦ found_twice settings i j id db d h
]

-- The endpoint may get another delivery.
abbrev pub accepts : Endpoint → Bool
accepts e = is_active e.status && e.enabled && ltb e.active_delivery_count 3

-- The endpoint has a secret that can be read.
abbrev pub has_secret : Settings → ClaimInput → Endpoint → Database → Bool
has_secret settings i e db = elim (active_secret e.id db.secrets) [
  | none ↦ false
  | some s ↦ is_some (read_secret settings i e s)
]

-- What a delivery needs to be handed out: it is queued, its endpoint accepts it and has a secret that
-- can be read, its event is there, and the constraints on attempts take the next one.
unfoldable pub is_claimable : Settings → ClaimInput → ℕ → Database → Bool
is_claimable settings i id db = elim (find_delivery id db.deliveries) [
  | none ↦ false
  | some d ↦ elim (find_endpoint d.endpoint_id db.endpoints) [
    | none ↦ false
    | some e ↦
        is_queued d.status
        && accepts e
        && is_some (find_event d.event_id db.events)
        && not (is_refused d db.attempts)
        && has_secret settings i e db
  ]
]

-- A delivery is handed out exactly if it is queued, its endpoint is active and enabled with fewer
-- than three deliveries in flight, its event is stored, the endpoint's active secret can be read, and
-- the table of attempts takes its next attempt: it has had fewer than six, and none has that number.
pub claim_delivery-exact :
    (settings : Settings) (i : ClaimInput) (id : ℕ) (db : Database)
    → is_some (claim_delivery settings i id db).1 ≡ is_claimable settings i id db
unfolding claim_delivery claim_with_delivery claim_with_endpoint claim_with_event claim_with_secret
    refuse_secret begin_attempt lease is_claimable is_refused
claim_delivery-exact settings i id db = ground arith
