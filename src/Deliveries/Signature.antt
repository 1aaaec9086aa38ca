-- ===== src/Deliveries/Signature.antt =====
-- src/webhook_platform/shared/infrastructure/security.py, webhook_signature, and the headers that
-- execute_delivery of src/webhook_platform/deliveries/infrastructure/processor.py puts it into.
use webhook_delivery_platfor.Base.{
  ℕ, ◌≡◌, refl, ap, false, List, [], ◌∷◌, ◌++◌, String, arith, All, ◌==◌, append,
}
use webhook_delivery_platfor.Schema.{Bytes}
use webhook_delivery_platfor.Deliveries.Claim.{ClaimedDelivery}

-- b".".join
unfoldable pub join_dots : List Bytes → Bytes
join_dots [] = []
join_dots (part ∷ []) = part
join_dots (part ∷ next ∷ more) = part ++ (46 ∷ join_dots (next ∷ more))

abbrev pub material : Bytes → Bytes → Bytes → Bytes → Bytes
material timestamp event_id delivery_id raw_body =
    join_dots (timestamp ∷ event_id ∷ delivery_id ∷ raw_body ∷ [])

-- webhook_signature, where `hmac` is the hexadecimal HMAC with SHA-256 of the third-party code.
unfoldable pub webhook_signature :
    (Bytes → Bytes → String) → Bytes → Bytes → Bytes → Bytes → Bytes → String
unfolding join_dots
webhook_signature hmac secret timestamp event_id delivery_id raw_body =
    append "v1=" (hmac secret (material timestamp event_id delivery_id raw_body))

-- The headers of a request that depend on its delivery.
pub record Headers : Type 0 where
  pub webhook_event_id : Bytes
  pub webhook_delivery_id : Bytes
  pub webhook_timestamp : Bytes
  pub webhook_attempt : ℕ
  pub webhook_signature : String

-- `text` is the UUID of an identifier, in ASCII.
unfoldable pub headers : (Bytes → Bytes → String) → (ℕ → Bytes) → Bytes → ClaimedDelivery → Headers
headers hmac text timestamp claimed = record {
  webhook_event_id = text claimed.event_id;
  webhook_delivery_id = text claimed.delivery_id;
  webhook_timestamp = timestamp;
  webhook_attempt = claimed.attempt_number;
  webhook_signature =
      webhook_signature hmac claimed.secret timestamp (text claimed.event_id)
        (text claimed.delivery_id) claimed.raw_body;
}

-- A text without a dot.
abbrev pub Dotless : Bytes → Type 0
Dotless bytes = All (λ b. (b == 46) ≡ false) bytes

first_part :
    (a b rest rest' : Bytes)
    → Dotless a
    → Dotless b
    → a ++ (46 ∷ rest) ≡ b ++ (46 ∷ rest')
    → (a ≡ b) × (rest ≡ rest')
first_part [] [] rest rest' p q h = (refl, cons-injective h)
  where
    cons-injective : ◌≡◌ {A = Bytes} (46 ∷ rest) (46 ∷ rest') → rest ≡ rest'
    cons-injective e = cc
first_part [] (y ∷ b) rest rest' p q h = absurd (ground (arith, h, q))
first_part (x ∷ a) [] rest rest' p q h = absurd (ground (arith, h, p))
first_part (x ∷ a) (y ∷ b) rest rest' p q h =
    let (heads, tails) = both h in
    let (same, more) = first_part a b rest rest' p.1 q.1 tails in (joined heads same, more)
  where
    first_byte : Bytes → ℕ
    first_byte [] = 0
    first_byte (c ∷ cs) = c

    after_byte : Bytes → Bytes
    after_byte [] = []
    after_byte (c ∷ cs) = cs

    both :
        ◌≡◌ {A = Bytes} (x ∷ (a ++ (46 ∷ rest))) (y ∷ (b ++ (46 ∷ rest')))
        → (x ≡ y) × (a ++ (46 ∷ rest) ≡ b ++ (46 ∷ rest'))
    both e = (ap first_byte e, ap after_byte e)

    joined : x ≡ y → a ≡ b → x ∷ a ≡ y ∷ b
    joined e f = cc

-- What is signed determines its parts: where timestamps and identifiers have no dot, two requests with
-- the same signed text have the same timestamp, event, delivery and body, whatever bytes the bodies
-- are made of.
pub material-injective :
    (timestamp event_id delivery_id raw_body timestamp' event_id' delivery_id' raw_body' : Bytes)
    → Dotless timestamp
    → Dotless event_id
    → Dotless delivery_id
    → Dotless timestamp'
    → Dotless event_id'
    → Dotless delivery_id'
    → material timestamp event_id delivery_id raw_body
      ≡ material timestamp' event_id' delivery_id' raw_body'
    → (timestamp ≡ timestamp')
      × (event_id ≡ event_id')
      × (delivery_id ≡ delivery_id')
      × (raw_body ≡ raw_body')
unfolding join_dots
material-injective t e d b t' e' d' b' p q r p' q' r' h =
    let (same_t, h1) = first_part t t' _ _ p p' h in
    let (same_e, h2) = first_part e e' _ _ q q' h1 in
    let (same_d, same_b) = first_part d d' b b' r r' h2 in (same_t, same_e, same_d, same_b)
