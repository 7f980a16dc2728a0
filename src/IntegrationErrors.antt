-- ===== src/IntegrationErrors.antt =====
-- packages/shared/src/ports/errors.ts: the classes of a provider's failures, and their retry policies.
use multi_brand_invoicing.Prelude.{
  Bool, arith, false, if◌then◌else◌, leb, ltb, true, ℕ, ◌&&◌, ◌==◌, ◌||◌, ◌↔◌, ◌≡◌, ◌≤◌, ◌⊎◌,
}

-- ERROR_CLASSES
pub data ErrorClass : Type 0 where
  transient authentication validation conflict permanent : ErrorClass

pub record RetryPolicy : Type 0 where
  pub retryable : Bool
  pub max_attempts : ℕ
  pub halt_stream : Bool
  pub alert_immediately : Bool

-- RETRY_POLICY
unfoldable pub retry_policy : ErrorClass → RetryPolicy
retry_policy transient = record {
  retryable = true;
  max_attempts = 5;
  halt_stream = false;
  alert_immediately = false;
}
retry_policy authentication = record {
  retryable = false;
  max_attempts = 1;
  halt_stream = true;
  alert_immediately = true;
}
retry_policy validation = record {
  retryable = false;
  max_attempts = 1;
  halt_stream = false;
  alert_immediately = false;
}
retry_policy conflict = record {
  retryable = false;
  max_attempts = 1;
  halt_stream = false;
  alert_immediately = false;
}
retry_policy permanent = record {
  retryable = false;
  max_attempts = 1;
  halt_stream = false;
  alert_immediately = true;
}

unfoldable pub classify_http_status : ℕ → ErrorClass
classify_http_status status =
    if status == 401 || status == 403
    then authentication
    else if status == 404 || status == 410
    then permanent
    else if status == 409 || status == 412
    then conflict
    else if status == 422 || leb 400 status && ltb status 429
    then validation
    else if status == 429
    then transient
    else if leb 500 status
    then transient
    else permanent

-- A provider's response is retried exactly when its status is 429 or at least 500, and halts the stream
-- of its brand exactly when it is 401 or 403.
pub classify_http_status-policy :
    (status : ℕ)
    → (((retry_policy (classify_http_status status)).retryable ≡ true)
        ↔ ((status ≡ 429) ⊎ (500 ≤ status)))
      × (((retry_policy (classify_http_status status)).halt_stream ≡ true)
          ↔ ((status ≡ 401) ⊎ (status ≡ 403)))
unfolding classify_http_status retry_policy
classify_http_status-policy status = ground arith
