-- ===== src/Http.antt =====
-- The HTTP layer (internal/api): requests, responses and handlers. gin's routing and JSON are its
-- own; the body of a request is what the binding of JSON and its validators make of it.
pub mod Answers
pub mod Auth
pub mod Roles
pub mod Audit
pub mod Body
pub mod RateLimit
pub mod RequestId
pub mod AuthHandler
pub mod UserHandler
pub mod Routes
pub mod Panics
pub mod Envelope
pub mod Guarded
pub mod Permissions
pub mod Keeps
pub mod Calls
pub mod Refines
pub mod Managed
use go_with_me.Base.{ℕ, String, Bool, Option, List, []}
use go_with_me.Models.{User}
use go_with_me.World.{World}

-- What a handler reads of a request: "" stands for an absent header or parameter of the path.
pub record HttpRequest : Type 0 where
  pub method : String
  pub path : String
  pub raw_query : String
  pub full_path : String
  pub client_ip : String
  pub user_agent : String
  pub request_id : String
  pub header : String → String
  pub param : String → String
  pub query : String → Option String

-- The keys that the authentication sets in the context.
pub record Identity : Type 0 where
  pub user_id : ℕ
  pub user_email : String
  pub user_role : String
  pub user_permissions : List String

-- The context before it: `Get` finds nothing, and the type assertions give zero values.
abbrev pub nobody : Identity
nobody = record { user_id = 0; user_email = ""; user_role = ""; user_permissions = [] }

-- `Meta` of internal/lib/pagination.go.
pub record Meta : Type 0 where
  pub page : ℕ
  pub page_size : ℕ
  pub total : ℕ
  pub total_pages : ℕ

-- `userResponse`, with times as instants.
pub record UserResponse : Type 0 where
  pub id : String
  pub email : String
  pub name : String
  pub role : String
  pub totp_enabled : Bool
  pub is_active : Bool
  pub created_at : ℕ
  pub updated_at : ℕ

-- The data of a successful response, by the keys that the handlers write.
pub data Payload : Type 0 where
  empty : Payload
  mfa_challenge : String → Payload
  setup_challenge : String → Payload
  session : String → ℕ → Payload
  totp_key : String → String → Payload
  message : String → Payload
  reset_token : String → Payload
  onboarding : Bool → String → Payload
  profile : User → Payload
  user : UserResponse → Payload
  users : List UserResponse → Meta → Payload
  invite_token : String → Payload

-- A response: the status, and the data or the error's code, message and details.
pub data Response : Type 0 where
  success : ℕ → Payload → Response
  failure : ℕ → String → String → List (String × String) → Response

abbrev pub status : Response → ℕ
status (success code _) = code
status (failure code _ _ _) = code

abbrev pub Handler : Type 0
Handler = HttpRequest → Identity → World → Response × World
