-- ===== src/Outbox/Dispatcher/Delivered.antt =====
-- src/webhook_platform/outbox_dispatcher.py: a round in which the broker is reached.
use webhook_delivery_platfor.Base.{
  ℕ, ◌+◌, ◌≡◌, refl, sym, ap, subst, ◌∙◌, Bool, true, false, Option, none, some, List, [], ◌∷◌,
  String, inl, inr, arith, Option-cases, ◌==◌, eq_self, if◌then◌else◌, All, All-imp, find, find_key,
  find-save, Unique, query, query_found, query-Unique,
}
use webhook_delivery_platfor.Schema.{
  OutboxMessage, OutboxStatus, published, is_pending, outbox_key, find_message, seconds,
}
use webhook_delivery_platfor.Outbox.Messages.{
  claim_outbox, lease_all, is_claimable, outbox_before, finish_outbox, finish_row, finished,
}
use webhook_delivery_platfor.Outbox.Messages.Lease.{status_of, claim_outbox-status}
use webhook_delivery_platfor.Outbox.Dispatcher.{
  connected, dispatch_round, publish_batch, publish_rows,
}
use webhook_delivery_platfor.Outbox.Dispatcher.Unreachable.{fail_rows-status}

-- The status of a pending message after its publication.
abbrev pub status_after : Option String → OutboxStatus
status_after none = published
status_after (some error) = OutboxStatus.pending

finished_status :
    (now : ℕ) (e : Option String) (m : OutboxMessage)
    → is_pending m.status ≡ true
    → (finished now e m).status ≡ status_after e
unfolding finished
finished_status now none m h = refl
finished_status now (some error) m h = pending_only m.status h
  where
    pending_only : (s : OutboxStatus) → is_pending s ≡ true → s ≡ OutboxStatus.pending
    pending_only OutboxStatus.pending p = refl
    pending_only published p = cc

finished_id : (now : ℕ) (e : Option String) (m : OutboxMessage) → (finished now e m).id ≡ m.id
unfolding finished
finished_id now none m = refl
finished_id now (some error) m = refl

finish_outbox-find :
    (now id k : ℕ) (e : Option String) (outbox : List OutboxMessage) {m : OutboxMessage}
    → find_message id outbox ≡ some m
    → is_pending m.status ≡ true
    → find_message k (finish_outbox now id e outbox)
      ≡ (if id == k then some (finished now e m) else find_message k outbox)
unfolding finish_outbox finish_row
finish_outbox-find now id k e outbox {m} h p =
    let named = finished_id now e m ∙ find_key outbox_key id outbox h in
    rw (h, p, find-save outbox_key k (finished now e m) outbox {s = m} (rw named h), named) refl

is_pending_row :
    (id : ℕ) (outbox : List OutboxMessage)
    → status_of id outbox ≡ some OutboxStatus.pending
    → (m : OutboxMessage) × (find_message id outbox ≡ some m) × (is_pending m.status ≡ true)
is_pending_row id outbox h = elim (Option-cases (find_message id outbox)) [
  | inl e ↦ absurd (ground (arith, e, h))
  | inr (m, e) ↦ (m, e, ground (arith, e, h))
]

-- A publication settles the status of its own message, and of no other.
settled :
    (now id k : ℕ) (e : Option String) (outbox : List OutboxMessage)
    → status_of id outbox ≡ some OutboxStatus.pending
    → status_of k (finish_outbox now id e outbox)
      ≡ (if id == k then some (status_after e) else status_of k outbox)
settled now id k e outbox h =
    let (m, there, waits) = is_pending_row id outbox h in
    let own = finished_status now e m waits in
    rw (status_of, finish_outbox-find now id k e outbox there waits) (ground (arith, own))

still_waiting :
    (now : ℕ) (m : OutboxMessage) (e : Option String) (ms outbox : List OutboxMessage)
    → status_of m.id outbox ≡ some OutboxStatus.pending
    → find_message m.id ms ≡ none
    → All (λ x. status_of x.id outbox ≡ some OutboxStatus.pending) ms
    → All (λ x. status_of x.id (finish_outbox now m.id e outbox) ≡ some OutboxStatus.pending) ms
unfolding find
still_waiting now m e [] outbox h fresh a = tt
still_waiting now m e (x ∷ ms) outbox h fresh a = (
  settled now m.id x.id e outbox h ∙ apart (x.id == m.id) refl,
  still_waiting now m e ms outbox h (ground arith) a.1,
)
  where
    apart :
        (b : Bool)
        → (x.id == m.id) ≡ b
        → (if m.id == x.id then some (status_after e) else status_of x.id outbox)
          ≡ some OutboxStatus.pending
    apart true q = absurd (ground (arith, q, fresh))
    apart false q = ground (arith, q, a.0)

publish_rows-other :
    (now : ℕ) (publish : OutboxMessage → Option String) (k : ℕ) (rows outbox : List OutboxMessage)
    → Unique outbox_key rows
    → All (λ m. status_of m.id outbox ≡ some OutboxStatus.pending) rows
    → find_message k rows ≡ none
    → status_of k (publish_rows now publish rows outbox) ≡ status_of k outbox
unfolding publish_rows find
publish_rows-other now publish k [] outbox u a h = refl
publish_rows-other now publish k (m ∷ ms) outbox u a h =
    let rest : find_message k ms ≡ none = ground arith in
    let away : (m.id == k) ≡ false = ground arith in
    publish_rows-other now publish k ms _ u.1
      (still_waiting now m (publish m) ms outbox a.0 u.0 a.1) rest
    ∙ settled now m.id k (publish m) outbox a.0
    ∙ rw away refl

publish_rows-each :
    (now : ℕ) (publish : OutboxMessage → Option String) (rows outbox : List OutboxMessage)
    → Unique outbox_key rows
    → All (λ m. status_of m.id outbox ≡ some OutboxStatus.pending) rows
    → All
        (λ m.
          status_of m.id (publish_rows now publish rows outbox) ≡ some (status_after (publish m)))
        rows
unfolding publish_rows
publish_rows-each now publish [] outbox u a = tt
publish_rows-each now publish (m ∷ ms) outbox u a =
    let b = still_waiting now m (publish m) ms outbox a.0 u.0 a.1 in
    (
      publish_rows-other now publish m.id ms _ u.1 b u.0
          ∙ settled now m.id m.id (publish m) outbox a.0
          ∙ rw (eq_self m.id) refl,
      publish_rows-each now publish ms _ u.1 b,
    )

-- Closing the connection changes no status, even when it raises.
publish_batch-each :
    (now : ℕ) (publish : OutboxMessage → Option String) (closing : Option String)
    (rows outbox : List OutboxMessage)
    → Unique outbox_key rows
    → All (λ m. status_of m.id outbox ≡ some OutboxStatus.pending) rows
    → All
        (λ m.
          status_of m.id (publish_batch now (connected publish closing) rows outbox)
          ≡ some (status_after (publish m)))
        rows
unfolding publish_batch
publish_batch-each now publish none rows outbox u a = publish_rows-each now publish rows outbox u a
publish_batch-each now publish (some error) rows outbox u a =
    All-imp (λ m h. fail_rows-status now m.id error rows _ ∙ h) rows
      (publish_rows-each now publish rows outbox u a)

lease_all-rows :
    (until : ℕ) (rows outbox : List OutboxMessage) → (lease_all until rows outbox).1 ≡ rows
unfolding lease_all
lease_all-rows until [] outbox = refl
lease_all-rows until (m ∷ ms) outbox = ap (λ l. m ∷ l) (lease_all-rows until ms _)

claimed_rows :
    (now : ℕ) (locked : ℕ → Bool) (batch_size : ℕ) (outbox : List OutboxMessage)
    → (claim_outbox now locked batch_size 30 outbox).1
      ≡ query outbox_key (is_claimable now) outbox_before locked batch_size outbox
unfolding claim_outbox
claimed_rows now locked batch_size outbox = lease_all-rows (now + seconds 30) _ outbox

-- In an outbox whose keys are unique, a round that reaches the broker settles each message of its
-- batch, the claimable messages that the query finds: one whose publication the broker confirms is
-- published after the round, one whose publication raises is still pending, and this is so even if
-- closing the connection raises.
pub dispatch_round-delivers :
    (now later : ℕ) (locked : ℕ → Bool) (batch_size : ℕ) (publish : OutboxMessage → Option String)
    (closing : Option String) (outbox : List OutboxMessage)
    → Unique outbox_key outbox
    → All
        (λ m.
          status_of m.id
            (dispatch_round now later locked batch_size (connected publish closing) outbox)
          ≡ some (status_after (publish m)))
        (query outbox_key (is_claimable now) outbox_before locked batch_size outbox)
unfolding dispatch_round
dispatch_round-delivers now later locked batch_size publish closing outbox u =
    let rows = query outbox_key (is_claimable now) outbox_before locked batch_size outbox in
    let waiting : All
        (λ m.
          status_of m.id (claim_outbox now locked batch_size 30 outbox).0
          ≡ some OutboxStatus.pending)
        rows =
      All-imp
        (λ m h.
          claim_outbox-status now m.id locked batch_size 30 outbox u
          ∙ rw (status_of, h.0) (pending_status now m h.1))
        rows (query_found outbox_key (is_claimable now) outbox_before locked batch_size outbox u) in
    subst
      (λ batch.
        All
          (λ m.
            status_of m.id (
              publish_batch later (connected publish closing) batch
                (claim_outbox now locked batch_size 30 outbox).0)
            ≡ some (status_after (publish m)))
          rows)
      (sym (claimed_rows now locked batch_size outbox))
      (publish_batch-each later publish closing rows _
        (query-Unique outbox_key (is_claimable now) outbox_before locked batch_size outbox u)
        waiting)
  where
    pending_status :
        (t : ℕ) (m : OutboxMessage)
        → is_claimable t m ≡ true
        → some m.status ≡ some OutboxStatus.pending
    pending_status t m h = unfold is_claimable in ground (arith, h)
