-- ===== src/ApiError.antt =====
-- internal/lib/apierror.go, and the errors that the other packages return beside `*APIError`.
use go_with_me.Base.{ℕ, String, Bool, true, false, List, [], Option, none, some}

abbrev pub ErrorCode : Type 0
ErrorCode = String

-- The `ErrCode…` constants.
abbrev pub code_bad_request : ErrorCode
code_bad_request = "BAD_REQUEST"

abbrev pub code_unauthorized : ErrorCode
code_unauthorized = "UNAUTHORIZED"

abbrev pub code_forbidden : ErrorCode
code_forbidden = "FORBIDDEN"

abbrev pub code_not_found : ErrorCode
code_not_found = "NOT_FOUND"

abbrev pub code_conflict : ErrorCode
code_conflict = "CONFLICT"

abbrev pub code_internal : ErrorCode
code_internal = "INTERNAL_ERROR"

abbrev pub code_too_many_requests : ErrorCode
code_too_many_requests = "TOO_MANY_REQUESTS"

abbrev pub code_unprocessable : ErrorCode
code_unprocessable = "UNPROCESSABLE_ENTITY"

abbrev pub code_validation : ErrorCode
code_validation = "VALIDATION_ERROR"

pub record ApiError : Type 0 where
  pub code : ErrorCode
  pub message : String
  pub details : List (String × String)
  pub status : ℕ

-- The package's error variables. They are compared by their address, so each is a value apart.
pub data Sentinel : Type 0 where
  bad_request unauthorized forbidden not_found conflict internal_server too_many_requests : Sentinel

abbrev pub new_api_error : ErrorCode → String → ℕ → ApiError
new_api_error code message status = record {
  code = code;
  message = message;
  details = [];
  status = status;
}

abbrev pub sentinel_value : Sentinel → ApiError
sentinel_value bad_request = new_api_error code_bad_request "invalid request" 400
sentinel_value unauthorized = new_api_error code_unauthorized "unauthorized" 401
sentinel_value forbidden = new_api_error code_forbidden "forbidden" 403
sentinel_value not_found = new_api_error code_not_found "resource not found" 404
sentinel_value conflict = new_api_error code_conflict "resource already exists" 409
sentinel_value internal_server = new_api_error code_internal "internal server error" 500
sentinel_value too_many_requests = new_api_error code_too_many_requests "too many requests" 429

-- A Go `error`: a package variable, a freshly made `*APIError`, `fmt.Errorf("…: %w", err)`,
-- `pgx.ErrNoRows`, `context.Canceled`, or an error of another package by its text.
pub data Error : Type 0 where
  sentinel : Sentinel → Error
  custom : ApiError → Error
  wrapped : String → Error → Error
  no_rows canceled : Error
  plain : String → Error

-- `BadRequest(msg)` and the other constructors with a message.
abbrev pub bad_request_error : String → Error
bad_request_error message = custom (new_api_error code_bad_request message 400)

abbrev pub bad_request_with_details : String → List (String × String) → Error
bad_request_with_details message details =
    custom (record { code = code_validation; message = message; details = details; status = 400 })

abbrev pub unauthorized_error : String → Error
unauthorized_error message = custom (new_api_error code_unauthorized message 401)

abbrev pub forbidden_error : String → Error
forbidden_error message = custom (new_api_error code_forbidden message 403)

abbrev pub not_found_error : String → Error
not_found_error message = custom (new_api_error code_not_found message 404)

abbrev pub conflict_error : String → Error
conflict_error message = custom (new_api_error code_conflict message 409)

abbrev pub internal_error : String → Error
internal_error message = custom (new_api_error code_internal message 500)

abbrev pub too_many_requests_error : String → Error
too_many_requests_error message = custom (new_api_error code_too_many_requests message 429)

abbrev pub unprocessable_entity : String → Error
unprocessable_entity message = custom (new_api_error code_unprocessable message 422)

-- `errors.Is(err, lib.ErrNotFound)`, which looks through `%w`.
abbrev pub is_not_found : Error → Bool
is_not_found (sentinel not_found) = true
is_not_found (wrapped _ e) = is_not_found e
is_not_found _ = false

-- `errors.Is(err, pgx.ErrNoRows)`.
abbrev pub is_no_rows : Error → Bool
is_no_rows no_rows = true
is_no_rows (wrapped _ e) = is_no_rows e
is_no_rows _ = false

-- `err.(*APIError)`, which does not look through `%w`.
abbrev pub as_api_error : Error → Option ApiError
as_api_error (sentinel s) = some (sentinel_value s)
as_api_error (custom e) = some e
as_api_error _ = none

-- `errors.Is(err, context.Canceled)`.
abbrev pub is_canceled : Error → Bool
is_canceled canceled = true
is_canceled (wrapped _ e) = is_canceled e
is_canceled _ = false
