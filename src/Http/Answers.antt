-- ===== src/Http/Answers.antt =====
-- internal/lib/response.go.
use go_with_me.Base.{Option, none, some}
use go_with_me.ApiError.{Error, ApiError, sentinel_value, internal_server, as_api_error}
use go_with_me.World.{World}
use go_with_me.Action.{Action, Result, ok, err}
use go_with_me.Http.{Response, success, failure, Payload, empty}

abbrev pub ok_response : Payload → Response
ok_response = success 200

abbrev pub created : Payload → Response
created = success 201

abbrev pub no_content : Response
no_content = success 204 empty

-- `FailStatus`'s and `Fail`'s envelope.
abbrev pub fail_with : ApiError → Response
fail_with e = failure e.status e.code e.message e.details

abbrev pub api_error_or_internal : Option ApiError → ApiError
api_error_or_internal none = sentinel_value internal_server
api_error_or_internal (some e) = e

-- `Fail`: an error that is no `*APIError` is an internal one.
unfoldable pub fail : Error → Response
fail e = fail_with (api_error_or_internal (as_api_error e))

-- `if err != nil { lib.Fail(c, err); return }`, and the response of a value.
abbrev pub respond_of : {A : Type 0} → (A → Response) → Result A × World → Response × World
respond_of f (ok a, w) = (f a, w)
respond_of f (err e, w) = (fail e, w)

abbrev pub respond : {A : Type 0} → Action A → (A → Response) → World → Response × World
respond m f w = respond_of f (m w)
