-- ===== src/Config.antt =====
-- internal/config/config.go: the settings. Numbers are natural numbers, so a negative setting is
-- outside the model.
pub mod Load
pub mod Laws
use go_with_me.Base.{ℕ, String, List}

pub record Config : Type 0 where
  pub http_port : String
  pub app_env : String
  pub database_write_url : String
  pub database_read_urls : List String
  pub redis_url : String
  pub event_stream : String
  pub app_secret : String
  pub jwt_expiry_hours : ℕ
  pub mfa_expiry_minutes : ℕ
  pub totp_setup_expiry_minutes : ℕ
  pub password_reset_otp_minutes : ℕ
  pub password_reset_jwt_minutes : ℕ
  pub max_failed_attempts : ℕ
  pub invite_ttl_hours : ℕ
  pub bootstrap_admin_email : String
  pub bootstrap_admin_password : String
  pub bootstrap_admin_name : String
  pub smtp_host : String
  pub smtp_port : ℕ
  pub smtp_user : String
  pub smtp_password : String
  pub smtp_from : String
