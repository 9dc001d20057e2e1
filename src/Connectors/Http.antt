-- ===== src/Connectors/Http.antt =====
-- connectors/http-provider.service.ts `submit`: the result of a request by what axios returns or
-- throws. Latencies, texts and raw answers are left out.
use sms_platform_backend.Base.{
  ℕ, Bool, true, false, ◌&&◌, Option, none, some, ltb, leb, ◌==◌, if◌then◌else◌, or_else, Result,
  ok, err, service_unavailable,
}
use sms_platform_backend.Database.{
  ErrorCode, throttle, http_provider_error, http_status, unknown_submit_outcome,
}
use sms_platform_backend.Workflow.Services.{DispatchResult}

-- What the call of axios ends with: a response with its status, `messageId` and `id`; an error of
-- axios, with the status of its response, if there is one, and whether its code is
-- 'ECONNABORTED'; or another exception.
pub data HttpOutcome : Type 0 where
  responded : ℕ → Option ℕ → Option ℕ → HttpOutcome
  axios_error : Option ℕ → Bool → HttpOutcome
  other_exception : HttpOutcome

abbrev pub refused : ErrorCode → Bool → Bool → DispatchResult
refused code retryable uncertain = record {
  accepted = false;
  provider_message = none;
  error_code = some code;
  retryable = retryable;
  uncertain = uncertain;
}

abbrev pub taken : Option ℕ → DispatchResult
taken message = record {
  accepted = true;
  provider_message = message;
  error_code = none;
  retryable = false;
  uncertain = false;
}

-- The result of a response by its status.
unfoldable pub status_result : ℕ → Option ℕ → Option ℕ → DispatchResult
status_result status message_id id =
    if leb 200 status && ltb status 300
    then taken (or_else message_id id)
    else if status == 429
    then refused throttle true false
    else if leb 500 status
    then refused http_provider_error true false
    else refused (http_status status) false false

-- `submit`
unfoldable pub http_result : HttpOutcome → Result DispatchResult
unfolding status_result
http_result (responded status message_id id) = ok (status_result status message_id id)
http_result (axios_error none aborted) = ok (refused unknown_submit_outcome false true)
http_result (axios_error (some status) true) = ok (refused unknown_submit_outcome false true)
http_result (axios_error (some status) false) = ok (refused http_provider_error true false)
http_result other_exception = err service_unavailable
