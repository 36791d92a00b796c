-- ===== src/Config/Laws.antt =====
-- Which settings are accepted.
use Prim.Native.String.{len}
use go_with_me.Base.{
  ℕ, suc, ◌≤◌, String, false, none, some, List, [], ◌∷◌, ◌≡◌, ◌≢◌, ◌↔◌, ◌⊎◌, inl, inr, refl, ap,
  arith, All, ◌=ₛ◌, =ₛ_iff, Bool-cases, Option-cases,
}
use go_with_me.Base.Text.{trim_space}
use go_with_me.Base.Text.Normal.{trim_space_idem}
use go_with_me.Config.{Config}
use go_with_me.Config.Load.{
  ParseUrl, Setting, database_write_url, redis_url, database_read_url, trimmed_dsns, read_dsns,
  require_url, require_read_urls, check_secret, check_stream, validate, load, loaded,
}

-- A text that is not empty, and parses with a scheme and a host.
abbrev pub IsUrl : ParseUrl → String → Type 0
IsUrl parse_url raw =
    (scheme : String) × (host : String) × (parse_url raw ≡ some (scheme, host))
    × (raw ≢ "")
    × (scheme ≢ "")
    × (host ≢ "")

abbrev pub IsBlank : String → Type 0
IsBlank s = trim_space s ≡ ""

-- Settings that the program can start with, spaces at either end of a text aside.
pub record IsUsable (parse_url : ParseUrl) (c : Config) : Type 0 where
  pub write_url : IsUrl parse_url (trim_space c.database_write_url)
  pub read_urls : All (λ dsn. IsBlank dsn ⊎ IsUrl parse_url (trim_space dsn)) c.database_read_urls
  pub redis : IsUrl parse_url (trim_space c.redis_url)
  pub secret : 32 ≤ len (trim_space c.app_secret)
  pub stream : trim_space c.event_stream ≢ ""

-- A test for the empty text that fails.
ne-empty : (s : String) → (s =ₛ "") ≡ false → s ≢ ""
ne-empty s h e = let same = (=ₛ_iff s "").1 e in cc

empty-ne : (s : String) → s ≢ "" → (s =ₛ "") ≡ false
empty-ne s h = elim (Bool-cases (s =ₛ "")) [
  | inl same ↦ absurd (h ((=ₛ_iff s "").0 same))
  | inr other ↦ other
]

module _ (parse_url : ParseUrl) where
  require_url-IsUrl :
      (name : Setting) (value : String)
      → require_url parse_url name value ≡ none
      → IsUrl parse_url (trim_space value)
  unfolding require_url
  require_url-IsUrl name value h = elim (Option-cases (parse_url (trim_space value))) [
    | inl bad ↦ absurd (ground arith)
    | inr ((scheme, host), good) ↦ (
      scheme,
      host,
      good,
      ne-empty (trim_space value) (ground arith),
      ne-empty scheme (ground arith),
      ne-empty host (ground arith),
    )
  ]

  IsUrl-require_url :
      (name : Setting) (value : String)
      → IsUrl parse_url (trim_space value)
      → require_url parse_url name value ≡ none
  unfolding require_url
  IsUrl-require_url name value (scheme, host, parsed, raw, s, h) =
      ground (arith, empty-ne (trim_space value) raw, empty-ne scheme s, empty-ne host h)

  -- A replica's address, which `ReadDSNs` has trimmed.
  IsUrl-trimmed :
      (dsn : String)
      → IsUrl parse_url (trim_space (trim_space dsn))
      → IsUrl parse_url (trim_space dsn)
  IsUrl-trimmed dsn h = rw (trim_space_idem dsn) at h

  read_urls_sound :
      (i : ℕ) (dsns : List String)
      → require_read_urls parse_url i (trimmed_dsns dsns) ≡ none
      → All (λ dsn. IsBlank dsn ⊎ IsUrl parse_url (trim_space dsn)) dsns
  unfolding trimmed_dsns require_read_urls
  read_urls_sound i [] h = tt
  read_urls_sound i (dsn ∷ dsns) h = elim (Bool-cases (trim_space dsn =ₛ "")) [
    | inl blank ↦
        (inl ((=ₛ_iff (trim_space dsn) "").0 blank), read_urls_sound i dsns (ground arith))
    | inr full ↦
        let first : require_url parse_url (database_read_url i) (trim_space dsn) ≡ none =
          ground arith in
        let good = require_url-IsUrl (database_read_url i) (trim_space dsn) first in
        (inr (IsUrl-trimmed dsn good), read_urls_sound (suc i) dsns (ground arith))
  ]

  read_urls_complete :
      (i : ℕ) (dsns : List String)
      → All (λ dsn. IsBlank dsn ⊎ IsUrl parse_url (trim_space dsn)) dsns
      → require_read_urls parse_url i (trimmed_dsns dsns) ≡ none
  unfolding trimmed_dsns require_read_urls
  read_urls_complete i [] h = refl
  read_urls_complete i (dsn ∷ dsns) (inl blank, rest) =
      rw ((=ₛ_iff (trim_space dsn) "").1 blank) (read_urls_complete i dsns rest)
  read_urls_complete i (dsn ∷ dsns) (inr good, rest) =
      let twice : IsUrl parse_url (trim_space (trim_space dsn)) = rw (trim_space_idem dsn) good in
      ground (
        arith,
        empty-ne (trim_space dsn) good.3,
        IsUrl-require_url (database_read_url i) (trim_space dsn) twice,
        read_urls_complete (suc i) dsns rest,
      )

  validate-IsUsable : (c : Config) → validate parse_url c ≡ none → IsUsable parse_url c
  unfolding validate read_dsns check_secret check_stream
  validate-IsUsable c h = record {
    write_url = require_url-IsUrl database_write_url c.database_write_url (ground arith);
    read_urls = read_urls_sound 0 c.database_read_urls (ground arith);
    redis = require_url-IsUrl redis_url c.redis_url (ground arith);
    secret = ground arith;
    stream = ne-empty (trim_space c.event_stream) (ground arith);
  }

  IsUsable-validate : (c : Config) → IsUsable parse_url c → validate parse_url c ≡ none
  unfolding validate read_dsns check_secret check_stream
  IsUsable-validate c u = ground (
    arith,
    IsUrl-require_url database_write_url c.database_write_url u.write_url,
    read_urls_complete 0 c.database_read_urls u.read_urls,
    IsUrl-require_url redis_url c.redis_url u.redis,
    empty-ne (trim_space c.event_stream) u.stream,
  )

  -- The settings are loaded exactly where `env.Parse` answers them and they are usable: every
  -- address has a scheme and a host, blank ones of replicas aside, the secret has at least 32 bytes
  -- and the stream has a name, all without the spaces at their ends.
  pub load_lem :
      (parsed : Config ⊎ String) (c : Config)
      → (load parse_url parsed ≡ loaded c) ↔ ((parsed ≡ inl c) × IsUsable parse_url c)
  unfolding load
  load_lem (inl d) c = elim (Option-cases (validate parse_url d)) [
    | inl fine ↦ (
      λ h. let same : d ≡ c = ground arith in (ap inl same, validate-IsUsable c (rw (← same) fine)),
      λ (p, u). ground (arith, IsUsable-validate c u),
    )
    | inr (e, bad) ↦ (λ h. absurd (ground arith), λ (p, u). ground (arith, IsUsable-validate c u))
  ]
  load_lem (inr text) c = (λ h. cc, λ (p, u). cc)
