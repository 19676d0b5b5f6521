-- ===== src/Capture/Config/Forms.antt =====
-- The dictionaries that carry a configuration of capture/config.py, and what pydantic makes of them.
use agent_debug_x.Base.{String, [], ◌∷◌, All, Dict, contains, map, ◌≡◌, refl, true, some, string_eq}
use agent_debug_x.Python.{
  Value, Fields, end, field, bool, str, int, pos, list, dict, get, to_items, Result, ok,
}
use agent_debug_x.Capture.Contracts.{PlatformCaptureConfig, CaptureConfig}
use agent_debug_x.Capture.Config.{config_payload, platform_fields, settings_value}

-- The hosts that the model of a configuration allows
abbrev pub IsHost : String × PlatformCaptureConfig → Type 0
IsHost entry = contains ("claude_code" ∷ "codex" ∷ []) entry.0 ≡ true

-- The entry of a platform in a dictionary, with the settings as its values
abbrev pub IsSettings : Value → PlatformCaptureConfig → Type 0
IsSettings value settings =
    (d : Fields) × (value ≡ dict d)
    × (get d "enabled" ≡ some (bool settings.enabled))
    × (get d "capture_events" ≡ some (list (to_items (map str settings.capture_events))))

abbrev pub ArePlatforms : Fields → Dict String PlatformCaptureConfig → Type 0
ArePlatforms end [] = Unit
ArePlatforms (field host value rest) ((name, settings) ∷ platforms) =
    (host ≡ name) × IsSettings value settings × ArePlatforms rest platforms
ArePlatforms _ _ = ⊥

-- The dictionary carries the values of the configuration, under the names of its fields. Its paths
-- are resolved ones, whose texts a `Path` keeps.
pub record IsFormOf (resolve : String → String) (d : Fields) (config : CaptureConfig) : Type 0 where
  pub version : get d "schema_version" ≡ some (int (pos config.schema_version))
  pub root : get d "project_root" ≡ some (str config.project_root)
  pub root_settled : resolve config.project_root ≡ config.project_root
  pub store : get d "store_path" ≡ some (str config.store_path)
  pub store_settled : resolve config.store_path ≡ config.store_path
  pub entries : Fields
  pub platforms : get d "platforms" ≡ some (dict entries)
  pub each : ArePlatforms entries config.platforms
  pub hosts : All IsHost config.platforms

-- What pydantic documents: a dictionary that carries the values of a configuration is validated to it.
abbrev pub IsValidation : (String → String) → (Fields → Result CaptureConfig) → Type 0
IsValidation resolve validate =
    (d : Fields) (config : CaptureConfig) → IsFormOf resolve d config → validate d ≡ ok config

platform_fields-ArePlatforms :
    (platforms : Dict String PlatformCaptureConfig)
    → ArePlatforms (platform_fields platforms) platforms
unfolding platform_fields settings_value get
platform_fields-ArePlatforms [] = tt
platform_fields-ArePlatforms ((name, settings) ∷ platforms) =
    (refl, (_, refl, refl, refl), platform_fields-ArePlatforms platforms)

-- What is written carries the values of the configuration.
pub config_payload-IsFormOf :
    (resolve : String → String)
    → (root store_path : String) (platforms : Dict String PlatformCaptureConfig)
    → resolve root ≡ root
    → resolve store_path ≡ store_path
    → All IsHost platforms
    → IsFormOf resolve (config_payload root store_path platforms) (record {
      schema_version = 2;
      project_root = root;
      store_path = store_path;
      platforms = platforms;
    })
unfolding config_payload get
config_payload-IsFormOf resolve root store_path platforms root_settled store_settled hosts =
    record {
      version = refl;
      root = refl;
      root_settled = root_settled;
      store = refl;
      store_settled = store_settled;
      entries = platform_fields platforms;
      platforms = refl;
      each = platform_fields-ArePlatforms platforms;
      hosts = hosts;
    }
