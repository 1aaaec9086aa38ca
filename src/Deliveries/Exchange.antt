-- ===== src/Deliveries/Exchange.antt =====
-- src/webhook_platform/deliveries/infrastructure/processor.py, the try block of execute_delivery:
-- what a worker keeps of one HTTP exchange.
pub mod Preview
use webhook_delivery_platfor.Base.{
  ℕ, ◌-◌, ◌||◌, Option, none, some, List, [], ◌∷◌, ◌++◌, ltb, ◌==◌, if◌then◌else◌, length, take,
}
use webhook_delivery_platfor.Schema.{
  Bytes, ErrorCode, unsafe_destination, network_error, http_error,
}
use webhook_delivery_platfor.Errors.{Result, ok, err}
use webhook_delivery_platfor.Deliveries.Retry.{parse_retry_after}

-- How the block is left early: TimeoutError, httpx.TimeoutException and httpx.NetworkError, or
-- another httpx.HTTPError.
pub data Failure : Type 0 where
  lost other : Failure

-- A response: its status, the chunks of its body that arrived, what broke off the body, and the
-- header Retry-After.
pub record Response : Type 0 where
  pub status : ℕ
  pub chunks : List Bytes
  pub broken_off : Option Failure
  pub retry_after : Option (List ℕ)

-- What happens between the claim and the result: the checks of the destination raise AppError, the
-- request fails before there is a response, or there is a response.
pub data Exchange : Type 0 where
  refused : Exchange
  failed : Failure → Exchange
  answered : Response → Exchange

-- The arguments that execute_delivery hands to finalize_delivery.
pub record Outcome : Type 0 where
  pub response_status : Option ℕ
  pub response_preview : Bytes
  pub error_code : Option ErrorCode
  pub retry_after : Option ℕ

-- The loop over response.aiter_bytes().
unfoldable pub collect_preview : ℕ → Bytes → List Bytes → Bytes
collect_preview limit preview [] = preview
collect_preview limit preview (chunk ∷ chunks) =
    collect_preview limit
      (if ltb 0 (limit - length preview)
        then preview ++ take (limit - length preview) chunk
        else preview)
      chunks

abbrev pub failure_code : Failure → ErrorCode
failure_code lost = network_error
failure_code other = http_error

unfoldable pub with_retry_after : ℕ → Bytes → Result (Option ℕ) → Result Outcome
with_retry_after status preview (err e) = err e
with_retry_after status preview (ok seconds) = ok (record {
  response_status = some status;
  response_preview = preview;
  error_code = none;
  retry_after = seconds;
})

-- The body arrived whole. Only 429 and 503 have their Retry-After read.
unfoldable pub complete : (List ℕ → Option ℕ) → ℕ → Response → Bytes → Result Outcome
unfolding with_retry_after
complete parse_date now r preview =
    if r.status == 429 || r.status == 503
    then with_retry_after r.status preview (parse_retry_after parse_date r.retry_after now)
    else with_retry_after r.status preview (ok none)

-- A body that breaks off leaves the status and drops the preview.
unfoldable pub read_response :
    ℕ → (List ℕ → Option ℕ) → ℕ → Response → Option Failure → Result Outcome
unfolding complete
read_response limit parse_date now r none =
    complete parse_date now r (collect_preview limit [] r.chunks)
read_response limit parse_date now r (some f) = ok (record {
  response_status = some r.status;
  response_preview = [];
  error_code = some (failure_code f);
  retry_after = none;
})

abbrev no_response : ErrorCode → Result Outcome
no_response code = ok (record {
  response_status = none;
  response_preview = [];
  error_code = some code;
  retry_after = none;
})

-- `err` is an exception that the block does not catch: the task ends before finalize_delivery.
unfoldable pub outcome_of : ℕ → (List ℕ → Option ℕ) → ℕ → Exchange → Result Outcome
unfolding read_response
outcome_of limit parse_date now refused = no_response unsafe_destination
outcome_of limit parse_date now (failed f) = no_response (failure_code f)
outcome_of limit parse_date now (answered r) = read_response limit parse_date now r r.broken_off
