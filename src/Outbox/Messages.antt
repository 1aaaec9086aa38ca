-- ===== src/Outbox/Messages.antt =====
-- src/webhook_platform/outbox/infrastructure/repository.py: claim_outbox and finish_outbox; and the
-- row OutboxMessageModel(topic="delivery.execute.v1", ...) that three parts of the program add.
pub mod Lease
use webhook_delivery_platfor.Base.{
  ℕ, ◌+◌, Bool, true, ◌&&◌, ◌||◌, Option, none, some, List, [], ◌∷◌, String, leb, ltb, ◌==◌,
  if◌then◌else◌, query,
}
use webhook_delivery_platfor.Schema.{
  OutboxMessage, OutboxStatus, published, is_pending, outbox_key, find_message, save_message,
  seconds, Delivery,
}

unfoldable pub execute_command : ℕ → ℕ → Delivery → OutboxMessage
execute_command id now d = record {
  id = id;
  created_at = now;
  topic = "delivery.execute.v1";
  aggregate_id = d.id;
  payload = record { schema_version = 1; delivery_id = d.id; correlation_id = d.event_id };
  status = OutboxStatus.pending;
  available_at = now;
  lease_until = none;
  publish_attempts = 0;
  published_at = none;
  last_error = none;
}

-- lease_until.is_(None) or lease_until < now
abbrev pub lease_free : ℕ → Option ℕ → Bool
lease_free now none = true
lease_free now (some until) = ltb until now

unfoldable pub is_claimable : ℕ → OutboxMessage → Bool
is_claimable now m = is_pending m.status && leb m.available_at now && lease_free now m.lease_until

-- ORDER BY available_at, id
abbrev pub outbox_before : OutboxMessage → OutboxMessage → Bool
outbox_before m n =
    ltb m.available_at n.available_at || (m.available_at == n.available_at && ltb m.id n.id)

unfoldable pub take_lease : ℕ → OutboxMessage → OutboxMessage
take_lease until m = record m {
  lease_until = some until;
  publish_attempts = m.publish_attempts + 1;
}

-- The loop over the rows: each gets the lease, and its id and payload go into the result.
unfoldable pub lease_all :
    ℕ → List OutboxMessage → List OutboxMessage → List OutboxMessage × List OutboxMessage
unfolding take_lease
lease_all until [] outbox = (outbox, [])
lease_all until (m ∷ ms) outbox =
    let (outbox', result) = lease_all until ms (save_message (take_lease until m) outbox) in
    (outbox', m ∷ result)

unfoldable pub claim_outbox :
    ℕ → (ℕ → Bool) → ℕ → ℕ → List OutboxMessage → List OutboxMessage × List OutboxMessage
unfolding lease_all is_claimable
claim_outbox now locked batch_size lease_seconds outbox =
    lease_all (now + seconds lease_seconds)
      (query outbox_key (is_claimable now) outbox_before locked batch_size outbox) outbox

-- The result of a publication: `none` is a confirmed one, `some error` the name of the exception.
-- A text that error[:128] cuts is a class name, which is shorter.
unfoldable pub finished : ℕ → Option String → OutboxMessage → OutboxMessage
finished now none m = record m {
  status = published;
  published_at = some now;
  lease_until = none;
  last_error = none;
}
finished now (some error) m = record m { lease_until = none; last_error = some error }

unfoldable pub finish_row :
    ℕ → Option String → Option OutboxMessage → List OutboxMessage → List OutboxMessage
unfolding finished
finish_row now error none outbox = outbox
finish_row now error (some m) outbox =
    if is_pending m.status then save_message (finished now error m) outbox else outbox

unfoldable pub finish_outbox : ℕ → ℕ → Option String → List OutboxMessage → List OutboxMessage
unfolding finish_row
finish_outbox now message_id error outbox =
    finish_row now error (find_message message_id outbox) outbox
