-- ===== src/Logger.antt =====
-- internal/lib/logger.go: what zap is asked to build.
use go_with_me.Base.{String, Bool, true, false, List, [], ◌∷◌, ◌=ₛ◌, if◌then◌else◌}

-- The presets `NewProductionConfig` and `NewDevelopmentConfig`.
pub data Preset : Type 0 where
  production development : Preset

-- The preset, and what is set on top of it: `CapitalColorLevelEncoder` and the paths.
pub record ZapConfig : Type 0 where
  pub preset : Preset
  pub colored_levels : Bool
  pub output_paths : List String
  pub error_output_paths : List String

abbrev config_with : Preset → Bool → ZapConfig
config_with preset colored = record {
  preset = preset;
  colored_levels = colored;
  output_paths = "stdout" ∷ [];
  error_output_paths = "stderr" ∷ [];
}

abbrev pub zap_config : String → ZapConfig
zap_config env =
    if env =ₛ "production" then config_with production false else config_with development true
