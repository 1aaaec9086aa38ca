-- ===== src/Http/BodyLimit.antt =====
-- src/webhook_platform/shared/infrastructure/body_limit.py: RequestBodyLimitMiddleware, which lets a
-- body of at most `limit` bytes through to POST /api/v1/events.
use webhook_delivery_platfor.Base.{
  ℕ, ◌+◌, ◌≤◌, ◌<◌, ◌≡◌, refl, Bool, true, false, not, ◌||◌, Option, none, some, List, [], ◌∷◌,
  String, arith, ltb, if◌then◌else◌, str_eq, length,
}
use webhook_delivery_platfor.Schema.{Bytes}

-- An integer of Python.
pub data ℤ : Type 0 where
  pos negsuc : ℕ → ℤ

-- A message of the ASGI server: a part of the body, or another one.
pub data Message : Type 0 where
  http_request : Bytes → Message
  other : Message

-- What the middleware reads of the scope; `content_length` is the header of that name.
pub record Scope : Type 0 where
  pub is_http : Bool
  pub path : String
  pub content_length : Option Bytes

-- What the middleware does with a request: the application receives from the server itself, or from
-- limited_receive, or is not called and the client gets 413.
pub data Handling : Type 0 where
  untouched limited rejected : Handling

abbrev exceeds : ℕ → ℤ → Bool
exceeds limit (pos n) = ltb limit n
exceeds limit (negsuc n) = false

-- int(declared) > self.limit, where `parse` is int, with none for ValueError.
unfoldable pub declared_too_large : (Bytes → Option ℤ) → ℕ → Option Bytes → Bool
declared_too_large parse limit none = false
declared_too_large parse limit (some declared) = elim (parse declared) [
  | none ↦ true
  | some n ↦ exceeds limit n
]

-- RequestBodyLimitMiddleware.__call__
unfoldable pub handling : (Bytes → Option ℤ) → ℕ → Scope → Handling
unfolding declared_too_large
handling parse limit scope =
    if not scope.is_http || not (str_eq scope.path "/api/v1/events")
    then untouched
    else if declared_too_large parse limit scope.content_length
    then rejected
    else limited

abbrev body_length : Message → ℕ
body_length (http_request body) = length body
body_length other = 0

abbrev is_request : Message → Bool
is_request (http_request body) = true
is_request other = false

-- limited_receive: the new count of received bytes, and the message unless it raises.
unfoldable pub limited_receive : ℕ → ℕ → Message → ℕ × Option Message
limited_receive limit received other = (received, some other)
limited_receive limit received (http_request body) =
    let received' = received + length body in
    if ltb limit received' then (received', none) else (received', some (http_request body))

-- The messages that the application gets if it receives until one raises, and whether one does.
unfoldable pub receive_all : ℕ → ℕ → List Message → List Message × Bool
unfolding limited_receive
receive_all limit received [] = ([], false)
receive_all limit received (m ∷ ms) =
    let (received', result) = limited_receive limit received m in
    let (more, raised) = receive_all limit received' ms in
    elim result [ none ↦ ([], true) | some passed ↦ (passed ∷ more, raised) ]

-- The bytes of the body in some messages.
unfoldable pub total : List Message → ℕ
total [] = 0
total (m ∷ ms) = body_length m + total ms

bounded_from :
    (limit received : ℕ) (ms : List Message)
    → received ≤ limit
    → received + total (receive_all limit received ms).0 ≤ limit
unfolding receive_all total limited_receive
bounded_from limit received [] h = omega (arith, h)
bounded_from limit received (other ∷ ms) h = omega (arith, bounded_from limit received ms h)
bounded_from limit received (http_request body ∷ ms) h =
    ground (arith, h, bounded_from limit (received + length body) ms)

passes_from :
    (limit received : ℕ) (ms : List Message)
    → received + total ms ≤ limit
    → receive_all limit received ms ≡ (ms, false)
unfolding receive_all total limited_receive
passes_from limit received [] h = refl
passes_from limit received (other ∷ ms) h =
    rw (passes_from limit received ms (omega (arith, h))) refl
passes_from limit received (http_request body ∷ ms) h =
    ground (arith, h, passes_from limit (received + length body) ms)

raises_from :
    (limit received : ℕ) (ms : List Message)
    → received ≤ limit
    → limit < received + total ms
    → (receive_all limit received ms).1 ≡ true
unfolding receive_all total limited_receive
raises_from limit received [] s h = absurd (omega (arith, h))
raises_from limit received (other ∷ ms) s h = raises_from limit received ms s (omega (arith, h))
raises_from limit received (http_request body ∷ ms) s h =
    ground (arith, s, h, raises_from limit (received + length body) ms)

-- Whatever the server sends, the application gets at most `limit` bytes of the body; a body of at most
-- `limit` bytes reaches it unchanged; and a longer one makes its receiving raise.
pub receive_all-bounded :
    (limit : ℕ) (ms : List Message)
    → (total (receive_all limit 0 ms).0 ≤ limit)
      × (total ms ≤ limit → receive_all limit 0 ms ≡ (ms, false))
      × (limit < total ms → (receive_all limit 0 ms).1 ≡ true)
receive_all-bounded limit ms = (
  omega (arith, bounded_from limit 0 ms (omega arith)),
  λ h. passes_from limit 0 ms (omega (arith, h)),
  λ h. raises_from limit 0 ms (omega arith) (omega (arith, h)),
)
