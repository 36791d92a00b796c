-- ===== src/Token.antt =====
-- internal/auth/token.go.
use go_with_me.Base.{ℕ, ◌+◌, String, not, Option, none, some, List, [], ◌=ₛ◌, if◌then◌else◌}
use go_with_me.ApiError.{wrapped, plain}
use go_with_me.Claims.{
  Claims, SigningMethod, hmac, other, ParsedToken, purpose_session, purpose_mfa,
}
use go_with_me.World.{Env}
use go_with_me.Action.{Action, pure, gets, or_raise, ◌>>=◌}

module _ (env : Env) where
  pub sign : String → Claims → Action String
  sign secret claims = or_raise (env.sign_jwt secret claims) (wrapped "sign token" (plain "jwt"))

  -- The key function: any method but HMAC is refused.
  abbrev pub key_for : String → SigningMethod → Option String
  key_for secret hmac = some secret
  key_for secret (other _) = none

  abbrev check_token : ParsedToken → Option Claims
  check_token t = elim t.claims [
    | none ↦ none
    | some c ↦ if not t.valid then none else if c.subject =ₛ "" then none else some c
  ]

  -- `Parse` at the time `now`; every error is one and the same to its callers.
  unfoldable pub parse_at : ℕ → String → String → Option Claims
  parse_at now text secret = elim (env.parse_jwt now text (key_for secret)) [
    | none ↦ none
    | some t ↦ check_token t
  ]

  unfoldable pub parse : String → String → Action (Option Claims)
  unfolding parse_at
  parse text secret = gets (λ w. parse_at w.now text secret)

  -- The payloads, issued at `now` for `ttl`.
  abbrev pub session_claims : ℕ → ℕ → String → String → List String → ℕ → Claims
  session_claims now user_id email role perms ttl = record {
    subject = env.uuid_text user_id;
    issued_at = env.numeric_date now;
    expires_at = env.numeric_date (now + ttl);
    user_id = user_id;
    email = email;
    role = role;
    permissions = perms;
    purpose = purpose_session;
  }

  abbrev pub mfa_claims : ℕ → ℕ → ℕ → Claims
  mfa_claims now user_id ttl = record {
    subject = env.uuid_text user_id;
    issued_at = env.numeric_date now;
    expires_at = env.numeric_date (now + ttl);
    user_id = user_id;
    email = "";
    role = "";
    permissions = [];
    purpose = purpose_mfa;
  }

  abbrev pub purpose_claims : ℕ → ℕ → String → String → ℕ → Claims
  purpose_claims now user_id email purpose ttl = record {
    subject = env.uuid_text user_id;
    issued_at = env.numeric_date now;
    expires_at = env.numeric_date (now + ttl);
    user_id = user_id;
    email = email;
    role = "";
    permissions = [];
    purpose = purpose;
  }

  -- The session token and the instant at which it expires.
  unfoldable pub issue_session_token :
      String → ℕ → String → String → List String → ℕ → Action (String × ℕ)
  unfolding sign
  issue_session_token secret user_id email role perms ttl = do
    now ← gets (λ w. w.now)
    token ← sign secret (session_claims now user_id email role perms ttl)
    pure (token, now + ttl)

  unfoldable pub issue_mfa_token : String → ℕ → ℕ → Action String
  unfolding sign
  issue_mfa_token secret user_id ttl = do
    now ← gets (λ w. w.now)
    sign secret (mfa_claims now user_id ttl)

  unfoldable pub issue_purpose_token : String → ℕ → String → String → ℕ → Action String
  unfolding sign
  issue_purpose_token secret user_id email purpose ttl = do
    now ← gets (λ w. w.now)
    sign secret (purpose_claims now user_id email purpose ttl)
