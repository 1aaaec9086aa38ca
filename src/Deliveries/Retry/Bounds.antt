-- ===== src/Deliveries/Retry/Bounds.antt =====
-- src/webhook_platform/deliveries/domain/retry.py: the bounds of the delays, and what becomes of the
-- header Retry-After.
use webhook_delivery_platfor.Base.{
  ℕ, zero, suc, ◌+◌, ◌-◌, ◌*◌, ◌≤◌, ◌<◌, ◌≡◌, refl, subst, true, min, max, Option, none, some, List,
  [], ◌∷◌, All, arith, inl, inr, Bool-cases, Option-cases, length, get_elem?,
}
use Prim.Native.Nat.{◌/◌}
use webhook_delivery_platfor.Errors.{ok}
use webhook_delivery_platfor.Deliveries.Retry.{
  retry_delay, base_delay, jittered, time_delta, parse_retry_after, all_digits, int_of,
  int_of_digits, cap_seconds, is_decimal,
}

get_elem-within :
    {A : Type 0} (xs : List A) (i : ℕ) → i < length xs → (a : A) × (get_elem? xs i ≡ some a)
get_elem-within [] i h = absurd (omega arith)
get_elem-within (x ∷ xs) zero h = (x, refl)
get_elem-within (x ∷ xs) (suc i) h = get_elem-within xs i (omega arith)

pub get_elem-All :
    (P : ℕ → Type 0) (xs : List ℕ) (i : ℕ) {a : ℕ} → All P xs → get_elem? xs i ≡ some a → P a
get_elem-All P [] i all h = cc
get_elem-All P (x ∷ xs) zero {a} all h = subst P (ok-some h) all.0
  where
    ok-some : some x ≡ some a → x ≡ a
    ok-some e = cc
get_elem-All P (x ∷ xs) (suc i) all h = get_elem-All P xs i all.1 h

-- After a first attempt, every retry has a base delay, which is one of the settings' delays.
pub base_delay-total :
    (n : ℕ) (delays : List ℕ)
    → 0 < length delays
    → (base : ℕ) × (base_delay (suc n) delays ≡ some base)
unfolding base_delay
base_delay-total n delays h = get_elem-within delays (min n (length delays - 1)) (omega arith)

jittered-bounded :
    (jitter : ℕ → ℕ) (base : ℕ) (retry_after : Option ℕ) (low high extra : ℕ)
    → (low ≤ base) × (base ≤ high)
    → jitter base ≤ extra
    → (low ≤ jittered jitter retry_after base)
      × (jittered jitter retry_after base ≤ max (high + extra) 21600)
unfolding jittered
jittered-bounded jitter base none low high extra (from, to) h = (omega arith, omega arith)
jittered-bounded jitter base (some r) low high extra (from, to) h = (omega arith, omega arith)

retry_delay-ok :
    (jitter : ℕ → ℕ) (n : ℕ) (delays : List ℕ) (retry_after : Option ℕ) {base : ℕ}
    → base_delay (suc n) delays ≡ some base
    → jittered jitter retry_after base ≤ 86399999999999
    → retry_delay jitter (suc n) delays retry_after ≡ ok (jittered jitter retry_after base)
unfolding retry_delay base_delay time_delta
retry_delay-ok jitter n delays retry_after h small = ground (arith, h, small)

-- If the settings list at least one delay, and each lies within `low` and `high`, and the jitter
-- adds at most `extra` to a delay of at most `high`, and `high + extra` is a time that a timedelta
-- can hold, then after any failed attempt a delay of at least `low` is found, which is at most
-- `high + extra`, or 21600 seconds if the receiver asks for more than that.
pub retry_delay-bounded :
    (jitter : ℕ → ℕ) (n : ℕ) (delays : List ℕ) (retry_after : Option ℕ) (low high extra : ℕ)
    → 0 < length delays
    → All (λ d. (low ≤ d) × (d ≤ high)) delays
    → ((d : ℕ) → d ≤ high → jitter d ≤ extra)
    → high + extra ≤ 86399999999999
    → (delay : ℕ) × (retry_delay jitter (suc n) delays retry_after ≡ ok delay)
      × (low ≤ delay)
      × (delay ≤ max (high + extra) 21600)
unfolding base_delay
retry_delay-bounded jitter n delays retry_after low high extra some_delay all small fits =
    let (base, found) = base_delay-total n delays some_delay in
    let inside =
      get_elem-All (λ d. (low ≤ d) × (d ≤ high)) delays (min n (length delays - 1)) all found in
    let (from, to) =
      jittered-bounded jitter base retry_after low high extra inside (small base inside.1) in
    (
      jittered jitter retry_after base,
      retry_delay-ok jitter n delays retry_after found (omega (arith, to, fits)),
      from,
      to,
    )

-- A header of ASCII characters.
abbrev pub IsAscii : ℕ → Type 0
IsAscii c = c < 128

int_of_digits-ascii :
    (n : ℕ) (cs : List ℕ)
    → All IsAscii cs
    → all_digits cs ≡ true
    → (m : ℕ) × (int_of_digits n cs ≡ ok m)
unfolding all_digits int_of_digits
int_of_digits-ascii n [] a h = (n, refl)
int_of_digits-ascii n (c ∷ cs) a h =
    let (m, e) = int_of_digits-ascii (10 * n + (c - 48)) cs a.1 (ground (arith)) in
    let d : is_decimal c ≡ true = ground (arith, a.0) in (m, rw (d, e) refl)

int_of-ascii :
    (cs : List ℕ)
    → All IsAscii cs
    → length cs ≤ 4300
    → all_digits cs ≡ true
    → (m : ℕ) × (int_of cs ≡ ok m)
unfolding int_of
int_of-ascii cs a short h =
    let (m, e) = int_of_digits-ascii 0 cs a h in (m, ground (arith, e, short))

-- A header Retry-After of at most 4300 ASCII characters never raises an exception, whatever the date
-- parser makes of it, and what is read of it is at most 21600 seconds.
pub parse_retry_after-ascii :
    (parse_date : List ℕ → Option ℕ) (value : List ℕ) (now : ℕ)
    → All IsAscii value
    → length value ≤ 4300
    → (r : Option ℕ) × (parse_retry_after parse_date (some value) now ≡ ok r)
      × (elim r [ none ↦ 0 | some s ↦ s ] ≤ 21600)
unfolding parse_retry_after cap_seconds
parse_retry_after-ascii parse_date [] now a short = (none, refl, omega arith)
parse_retry_after-ascii parse_date (c ∷ cs) now a short = elim (Bool-cases (all_digits (c ∷ cs))) [
  | inl h ↦
      let (m, e) = int_of-ascii (c ∷ cs) a short h in
      (some (min m 21600), rw (h, e) refl, omega arith)
  | inr h ↦ elim (Option-cases (parse_date (c ∷ cs))) [
    | inl none_read ↦ (none, rw (h, none_read) refl, omega arith)
    | inr (t, e) ↦ (some (min ((t - now) / 1000000) 21600), rw (h, e) refl, omega arith)
  ]
]
