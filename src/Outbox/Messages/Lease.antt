-- ===== src/Outbox/Messages/Lease.antt =====
-- src/webhook_platform/outbox/infrastructure/repository.py: what a claim of the dispatcher leaves in
-- the outbox.
use webhook_delivery_platfor.Base.{
  if◌then◌else◌, Bool-cases, Option-cases, ℕ, ◌+◌, ◌≤◌, ◌≡◌, refl, sym, subst, ◌∙◌, Bool, false,
  Option, none, some, List, [], ◌∷◌, inl, inr, String, arith, All, All-imp, find, find_key,
  find-save, Unique, query_found, query-Unique, query, ◌==◌, batch_rest, eq_self,
}
use webhook_delivery_platfor.Schema.{
  OutboxMessage, OutboxStatus, is_pending, outbox_key, find_message, save_message, seconds,
}
use webhook_delivery_platfor.Outbox.Messages.{
  is_claimable, outbox_before, take_lease, lease_all, claim_outbox, finished, finish_row,
  finish_outbox,
}

stands_rest :
    (until : ℕ) (outbox : List OutboxMessage) (m : OutboxMessage) (ms : List OutboxMessage)
    → find_message m.id outbox ≡ some m
    → find_message m.id ms ≡ none
    → All (λ x. (find_message x.id outbox ≡ some x) × Unit {0}) ms
    → All
        (λ x. (find_message x.id (save_message (take_lease until m) outbox) ≡ some x) × Unit {0})
        ms
unfolding take_lease
stands_rest until outbox m ms h fresh a =
    batch_rest outbox_key (λ x. Unit {0}) outbox m (take_lease until m) ms refl h fresh a

find-leased :
    (k until : ℕ) (m : OutboxMessage) (outbox : List OutboxMessage)
    → find_message m.id outbox ≡ some m
    → find_message k (save_message (take_lease until m) outbox)
      ≡ (if m.id == k then some (take_lease until m) else find_message k outbox)
unfolding take_lease
find-leased k until m outbox h = find-save outbox_key k (take_lease until m) outbox h

module _ (until : ℕ) where
  -- Messages outside the batch keep their rows.
  lease_all-other :
      (k : ℕ) (ms outbox : List OutboxMessage)
      → Unique outbox_key ms
      → All (λ x. (find_message x.id outbox ≡ some x) × Unit {0}) ms
      → find_message k ms ≡ none
      → find_message k (lease_all until ms outbox).0 ≡ find_message k outbox
  unfolding lease_all find
  lease_all-other k [] outbox u a h = refl
  lease_all-other k (m ∷ ms) outbox u a h =
      let rest : find_message k ms ≡ none = ground arith in
      let away : (m.id == k) ≡ false = ground arith in
      lease_all-other k ms _ u.1 (stands_rest until outbox m ms a.0.0 u.0 a.1) rest
      ∙ find-leased k until m outbox a.0.0
      ∙ rw away refl

  lease_all-leased :
      (ms outbox : List OutboxMessage)
      → Unique outbox_key ms
      → All (λ x. (find_message x.id outbox ≡ some x) × Unit {0}) ms
      → All
          (λ m. find_message m.id (lease_all until ms outbox).0 ≡ some (take_lease until m))
          (lease_all until ms outbox).1
  unfolding lease_all
  lease_all-leased [] outbox u a = tt
  lease_all-leased (m ∷ ms) outbox u a =
      let b = stands_rest until outbox m ms a.0.0 u.0 a.1 in
      (
        lease_all-other m.id ms _ u.1 b u.0
            ∙ find-leased m.id until m outbox a.0.0
            ∙ rw (eq_self m.id) refl,
        lease_all-leased ms _ u.1 b,
      )

not_claimable :
    (until t : ℕ) (m : OutboxMessage) → t ≤ until → is_claimable t (take_lease until m) ≡ false
unfolding is_claimable take_lease
not_claimable until t m h = ground arith

-- If the keys of the outbox are unique, every message that a claim hands out stands in the outbox,
-- and at no time up to the end of the lease is it one that a claim takes.
pub claim_outbox-exclusive :
    (now : ℕ) (locked : ℕ → Bool) (batch_size lease_seconds : ℕ) (outbox : List OutboxMessage)
    → Unique outbox_key outbox
    → (t : ℕ) → t ≤ now + seconds lease_seconds
    → All
        (λ m.
          (m' : OutboxMessage) × (find_message m.id
              (claim_outbox now locked batch_size lease_seconds outbox).0
            ≡ some m')
          × (is_claimable t m' ≡ false))
        (claim_outbox now locked batch_size lease_seconds outbox).1
unfolding claim_outbox
claim_outbox-exclusive now locked batch_size lease_seconds outbox u t early =
    All-imp (λ m h. (take_lease until m, h, not_claimable until t m early)) _
      (lease_all-leased until rows outbox
        (query-Unique outbox_key (is_claimable now) outbox_before locked batch_size outbox u)
        (All-imp (λ m h. (h.0, tt)) rows
          (query_found outbox_key (is_claimable now) outbox_before locked batch_size outbox u)))
  where
    until : ℕ
    until = now + seconds lease_seconds

    rows : List OutboxMessage
    rows = query outbox_key (is_claimable now) outbox_before locked batch_size outbox

-- The status of a message, if it is there.
abbrev pub status_of : ℕ → List OutboxMessage → Option OutboxStatus
status_of k outbox = elim (find_message k outbox) [ none ↦ none | some m ↦ some m.status ]

save-status :
    (k : ℕ) (m m' : OutboxMessage) (outbox : List OutboxMessage)
    → find_message m.id outbox ≡ some m
    → m'.id ≡ m.id
    → m'.status ≡ m.status
    → status_of k (save_message m' outbox) ≡ status_of k outbox
save-status k m m' outbox h same status =
    let found : find_message m'.id outbox ≡ some m = rw same h in
    rw (status_of, find-save outbox_key k m' outbox found) (ground (arith, h, same, status))

-- The lease changes no status.
pub lease_all-status :
    (until k : ℕ) (ms outbox : List OutboxMessage)
    → Unique outbox_key ms
    → All (λ x. (find_message x.id outbox ≡ some x) × Unit {0}) ms
    → status_of k (lease_all until ms outbox).0 ≡ status_of k outbox
unfolding lease_all take_lease
lease_all-status until k [] outbox u a = refl
lease_all-status until k (m ∷ ms) outbox u a =
    lease_all-status until k ms _ u.1 (stands_rest until outbox m ms a.0.0 u.0 a.1)
    ∙ save-status k m (take_lease until m) outbox a.0.0 refl refl

pub claim_outbox-status :
    (now k : ℕ) (locked : ℕ → Bool) (batch_size lease_seconds : ℕ) (outbox : List OutboxMessage)
    → Unique outbox_key outbox
    → status_of k (claim_outbox now locked batch_size lease_seconds outbox).0 ≡ status_of k outbox
unfolding claim_outbox
claim_outbox-status now k locked batch_size lease_seconds outbox u =
    lease_all-status _ k _ outbox
      (query-Unique outbox_key (is_claimable now) outbox_before locked batch_size outbox u)
      (All-imp (λ m h. (h.0, tt)) _
        (query_found outbox_key (is_claimable now) outbox_before locked batch_size outbox u))

-- A failed publication changes no status.
pub finish_outbox-status :
    (now id k : ℕ) (error : String) (outbox : List OutboxMessage)
    → status_of k (finish_outbox now id (some error) outbox) ≡ status_of k outbox
unfolding finish_outbox finish_row finished
finish_outbox-status now id k error outbox = elim (Option-cases (find_message id outbox)) [
  | inl h ↦ rw h refl
  | inr (m, h) ↦ rw h (elim (Bool-cases (is_pending m.status)) [
    | inl p ↦ rw p (
        save-status k m (record m { lease_until = none; last_error = some error }) outbox
          (subst (λ i. find_message i outbox ≡ some m) (sym (find_key outbox_key id outbox h)) h)
          refl refl)
    | inr p ↦ rw p refl
  ])
]
