-- ===== src/Http/Envelope.antt =====
-- The types of the responses that docs and clients rely on: each error has a code, and the code its status
-- (internal/lib/apierror.go).
pub mod Errors
pub mod Services
pub mod Replies
pub mod Handlers
pub mod Typed
use go_with_me.Base.{ℕ, String, Option, none, some, ◌≡◌, ◌⊎◌}
use go_with_me.ApiError.{
  Error, ErrorCode, ApiError, as_api_error, code_bad_request, code_unauthorized, code_forbidden,
  code_not_found, code_conflict, code_internal, code_too_many_requests, code_unprocessable,
  code_validation,
}
use go_with_me.Http.{Response, success, failure}

pub data Kind : Type 0 where
  bad_request unauthorized forbidden not_found conflict internal too_many_requests : Kind
  unprocessable validation : Kind

abbrev pub code_of : Kind → ErrorCode
code_of bad_request = code_bad_request
code_of unauthorized = code_unauthorized
code_of forbidden = code_forbidden
code_of not_found = code_not_found
code_of conflict = code_conflict
code_of internal = code_internal
code_of too_many_requests = code_too_many_requests
code_of unprocessable = code_unprocessable
code_of validation = code_validation

abbrev pub status_of : Kind → ℕ
status_of bad_request = 400
status_of unauthorized = 401
status_of forbidden = 403
status_of not_found = 404
status_of conflict = 409
status_of internal = 500
status_of too_many_requests = 429
status_of unprocessable = 422
status_of validation = 400

-- The code and the status of one kind.
abbrev pub IsPair : ErrorCode → ℕ → Type 0
IsPair code status = (k : Kind) × (code ≡ code_of k) × (status ≡ status_of k)

abbrev pub IsPairOf : Option ApiError → Type 0
IsPairOf none = Unit {0}
IsPairOf (some e) = IsPair e.code e.status

-- An error that is an `*APIError` has the status of its code.
pub record IsStandard (e : Error) : Type 0 where
  pub pair : IsPairOf (as_api_error e)

-- A success is a 200, a 201 or a 204; a failure has the status of its code.
abbrev pub IsReply : Response → Type 0
IsReply (success status payload) = (status ≡ 200) ⊎ ((status ≡ 201) ⊎ (status ≡ 204))
IsReply (failure status code message details) = IsPair code status
