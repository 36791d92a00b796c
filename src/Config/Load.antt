-- ===== src/Config/Load.antt =====
-- `IsDevelopment`, `ReadDSNs`, `requireURL`, `Validate` and `Load` of internal/config/config.go. An
-- error is a value that says what its text says. `url.Parse` and `env.Parse` are parameters.
use Prim.Native.String.{len}
use go_with_me.Base.{
  ℕ, suc, String, Bool, not, ◌||◌, Option, none, some, List, [], ◌∷◌, ltb, ◌=ₛ◌, if◌then◌else◌, ◌⊎◌,
  inl, inr,
}
use go_with_me.Base.Text.{trim_space}
use go_with_me.Config.{Config}

-- The scheme and the host that `url.Parse` finds.
abbrev pub ParseUrl : Type 0
ParseUrl = String → Option (String × String)

-- The settings that hold an address.
pub data Setting : Type 0 where
  database_write_url redis_url : Setting
  database_read_url : ℕ → Setting

pub data ConfigError : Type 0 where
  must_not_be_empty : Setting → ConfigError
  must_be_valid : Setting → String → ConfigError
  secret_too_short stream_is_empty : ConfigError

pub data LoadError : Type 0 where
  parse_config : String → LoadError
  validate_config : ConfigError → LoadError

-- `if err := m; err != nil { return err }`, and then the rest.
abbrev pub first_error : Option ConfigError → Option ConfigError → Option ConfigError
first_error none rest = rest
first_error (some e) rest = some e

unfoldable pub is_development : Config → Bool
is_development c = not (c.app_env =ₛ "production")

unfoldable pub trimmed_dsns : List String → List String
trimmed_dsns [] = []
trimmed_dsns (dsn ∷ dsns) =
    let rest = trimmed_dsns dsns in if trim_space dsn =ₛ "" then rest else trim_space dsn ∷ rest

unfoldable pub read_dsns : Config → List String
unfolding trimmed_dsns
read_dsns c = trimmed_dsns c.database_read_urls

module _ (parse_url : ParseUrl) where
  abbrev pub check_parsed : Setting → String → Option (String × String) → Option ConfigError
  check_parsed name raw none = some (must_be_valid name raw)
  check_parsed name raw (some (scheme, host)) =
      if scheme =ₛ "" || host =ₛ "" then some (must_be_valid name raw) else none

  unfoldable pub require_url : Setting → String → Option ConfigError
  require_url name value =
      let raw = trim_space value in
      if raw =ₛ "" then some (must_not_be_empty name) else check_parsed name raw (parse_url raw)

  -- The loop over the replicas, from the `i`th.
  unfoldable pub require_read_urls : ℕ → List String → Option ConfigError
  require_read_urls i [] = none
  require_read_urls i (dsn ∷ dsns) =
      first_error (require_url (database_read_url i) dsn) (require_read_urls (suc i) dsns)

  unfoldable pub check_secret : Config → Option ConfigError
  check_secret c = if ltb (len (trim_space c.app_secret)) 32 then some secret_too_short else none

  unfoldable pub check_stream : Config → Option ConfigError
  check_stream c = if trim_space c.event_stream =ₛ "" then some stream_is_empty else none

  unfoldable pub validate : Config → Option ConfigError
  validate c = first_error (require_url database_write_url c.database_write_url) (
      first_error (require_read_urls 0 (read_dsns c)) (
        first_error (require_url redis_url c.redis_url)
          (first_error (check_secret c) (check_stream c))))

pub data Loaded : Type 0 where
  loaded : Config → Loaded
  load_failed : LoadError → Loaded

abbrev pub validated : Config → Option ConfigError → Loaded
validated c none = loaded c
validated c (some e) = load_failed (validate_config e)

abbrev pub checked : ParseUrl → Config ⊎ String → Loaded
checked parse_url (inl c) = validated c (validate parse_url c)
checked parse_url (inr text) = load_failed (parse_config text)

-- `Load`, on what `env.Parse` makes of the environment: the settings, or the text of an error.
unfoldable pub load : ParseUrl → Config ⊎ String → Loaded
load parse_url parsed = checked parse_url parsed
