-- ===== src/Deliveries/Retry.antt =====
-- src/webhook_platform/deliveries/domain/retry.py: which responses count as a success, which are
-- tried again, and after how long.
pub mod Bounds
use webhook_delivery_platfor.Base.{
  ℕ, zero, suc, ◌+◌, ◌-◌, ◌*◌, min, max, Bool, true, false, ◌&&◌, ◌||◌, Option, none, some, List,
  [], ◌∷◌, leb, ltb, ◌==◌, if◌then◌else◌, length, get_elem?, get_last?,
}
use Prim.Native.Nat.{◌/◌}
use webhook_delivery_platfor.Errors.{Result, ok, err, value_error, index_error, overflow_error}

unfoldable pub is_success : Option ℕ → Bool
is_success none = false
is_success (some status) = leb 200 status && ltb status 300

unfoldable pub is_retryable : Option ℕ → Bool → Bool
is_retryable none network_error = network_error
is_retryable (some status) network_error =
    network_error || (status == 408 || status == 425 || status == 429) || leb 500 status

-- delays[min(failed_attempt - 1, len(delays) - 1)] with Python's negative index: at attempt 0 it
-- is the last item, and an empty tuple has none (IndexError).
unfoldable pub base_delay : ℕ → List ℕ → Option ℕ
base_delay zero delays = get_last? delays
base_delay (suc n) delays = get_elem? delays (min n (length delays - 1))

-- `jitter base` is the value of int(base * jitter_ratio * sample), a computation on floats. The
-- result is in seconds.
unfoldable pub jittered : (ℕ → ℕ) → Option ℕ → ℕ → ℕ
jittered jitter none base = base + jitter base
jittered jitter (some retry_after) base = max (base + jitter base) (min retry_after 21600)

-- timedelta(seconds=n): at most 999999999 days (OverflowError).
unfoldable pub time_delta : ℕ → Result ℕ
time_delta n = if leb n 86399999999999 then ok n else err overflow_error

unfoldable pub retry_delay : (ℕ → ℕ) → ℕ → List ℕ → Option ℕ → Result ℕ
unfolding jittered base_delay time_delta
retry_delay jitter failed_attempt delays retry_after = elim (base_delay failed_attempt delays) [
  | none ↦ err index_error
  | some base ↦ time_delta (jittered jitter retry_after base)
]

-- str.isdigit of one character of a header, which is read as iso-8859-1: the decimal digits, and
-- the superscripts two, three and one.
abbrev pub is_decimal : ℕ → Bool
is_decimal c = leb 48 c && leb c 57

abbrev pub is_digit : ℕ → Bool
is_digit c = is_decimal c || c == 178 || c == 179 || c == 185

unfoldable pub all_digits : List ℕ → Bool
all_digits [] = true
all_digits (c ∷ cs) = is_digit c && all_digits cs

-- int(value) of a text of digits, with the value of the digits read so far; a superscript is no
-- numeral (ValueError).
unfoldable pub int_of_digits : ℕ → List ℕ → Result ℕ
int_of_digits n [] = ok n
int_of_digits n (c ∷ cs) =
    let rest = int_of_digits (10 * n + (c - 48)) cs in
    if is_decimal c then rest else err value_error

-- int(value): a text of more than 4300 digits is refused too (ValueError).
unfoldable pub int_of : List ℕ → Result ℕ
unfolding int_of_digits
int_of cs = if ltb 4300 (length cs) then err value_error else int_of_digits 0 cs

unfoldable pub cap_seconds : Result ℕ → Result (Option ℕ)
cap_seconds (ok n) = ok (some (min n 21600))
cap_seconds (err e) = err e

-- `parse_date` is email.utils.parsedate_to_datetime, in microseconds since the epoch, with a date
-- that has no time zone read as UTC; none where it raises.
unfoldable pub parse_retry_after : (List ℕ → Option ℕ) → Option (List ℕ) → ℕ → Result (Option ℕ)
unfolding all_digits int_of cap_seconds
parse_retry_after parse_date none now = ok none
parse_retry_after parse_date (some []) now = ok none
parse_retry_after parse_date (some (c ∷ cs)) now =
    if all_digits (c ∷ cs) then cap_seconds (int_of (c ∷ cs)) else elim (parse_date (c ∷ cs)) [
      | none ↦ ok none
      | some retry_at ↦ ok (some (min ((retry_at - now) / 1000000) 21600))
    ]
