-- ===== src/Capture/Config.antt =====
-- capture/config.py. The files are a dictionary of texts by their paths; the JSON parser and printer,
-- pydantic's validation and the resolution of paths are arguments.
pub mod Migration
pub mod Forms
pub mod Switches
use agent_debug_x.Base.{
  String, ◌+++◌, Bool, true, false, Option, none, some, List, [], ◌∷◌, map, any, Dict, lookup,
  insert, if◌then◌else◌, ◌==◌, string_eq,
}
use agent_debug_x.Python.{
  Value, Items, Fields, bool, str, int, list, dict, pos, end, field, get, get_value, put, is_str,
  item_list, to_items, is_hashable, is_in, Result, ok, err, value_error, type_error,
  attribute_error, ◌>>=◌,
}
use agent_debug_x.Capture.Contracts.{PlatformCaptureConfig, CaptureConfig}

abbrev pub Files : Type 0
Files = Dict String String

-- `root / '.agentdebug' / name` of a path that is resolved
unfoldable pub project_file : String → String → String
project_file root name = (if root == "/" then "" else root) +++ "/.agentdebug/" +++ name

-- `d.pop(key, default)`: the dictionary without the key
unfoldable pub without_key : Fields → String → Fields
without_key end key = end
without_key (field k v rest) key =
    let rest' = without_key rest key in if k == key then rest else field k v rest'

-- `d.get(key, default)`
unfoldable pub get_or : Fields → String → Value → Value
get_or d key default = elim (get d key) [ none ↦ default | some v ↦ v ]

-- `key in items`
unfoldable pub has_item : String → Items → Bool
has_item key items = any (λ item. is_str item key) (item_list items)

-- The settings of one platform, as the loop renames `installed_hooks`
unfoldable pub migrate_settings : Value → Result Value
unfolding get without_key get_or
migrate_settings (dict d) = elim (get d "capture_events") [
  | some events ↦ ok (dict d)
  | none ↦ ok (
      dict (
        put (without_key d "installed_hooks") "capture_events"
          (get_or d "installed_hooks" (list Items.nil))))
]
migrate_settings (str s) =
    if is_in "capture_events" s
    then ok (str s)
    else err (attribute_error "'str' object has no attribute 'pop'")
migrate_settings (list items) =
    if has_item "capture_events" items
    then ok (list items)
    else err (type_error "pop expected at most 1 argument, got 2")
migrate_settings _ = err (type_error "argument is not iterable")

-- The loop over `payload['platforms'].values()`
unfoldable pub migrate_platforms : Fields → Result Fields
migrate_platforms end = ok end
migrate_platforms (field platform settings rest) = do
  migrated ← migrate_settings settings
  others ← migrate_platforms rest
  ok (field platform migrated others)

-- The payload of a file with one platform, in the form with several. The validation refuses a platform
-- that is no text, and one that is a list or a dictionary is no key.
unfoldable pub legacy_payload : Fields → Result Fields
unfolding get_or
legacy_payload d = elim (get_value d "platform") [
  | str platform ↦ ok (
      field "schema_version" (int (pos 2)) (
        field "project_root" (get_value d "project_root") (
          field "store_path" (get_value d "store_path") (
            field "platforms"
              (dict (
                field platform
                  (dict (
                    field "enabled" (get_or d "enabled" (bool true)) (
                      field "capture_events"
                        (get_or d "capture_events" (get_or d "installed_hooks" (list Items.nil)))
                        end)))
                  end))
              end))))
  | other ↦
      (if is_hashable other
        then err (value_error "platforms")
        else err (type_error "unhashable type"))
]

-- The payload as `load_capture_config` brings it up to date
unfoldable pub migrate : Value → Result Fields
unfolding get legacy_payload
migrate (dict d) = elim (get d "platforms") [
  | none ↦ legacy_payload d
  | some (dict platforms) ↦
      (migrate_platforms platforms >>= λ migrated. ok (put d "platforms" (dict migrated)))
  | some other ↦ err (attribute_error "object has no attribute 'values'")
]
migrate (str s) =
    if is_in "platforms" s
    then err (type_error "string indices must be integers")
    else err (attribute_error "'str' object has no attribute 'get'")
migrate (list items) =
    if has_item "platforms" items
    then err (type_error "list indices must be integers or slices, not str")
    else err (attribute_error "'list' object has no attribute 'get'")
migrate _ = err (type_error "argument is not iterable")

-- What `write_capture_config` prints for a platform
unfoldable pub settings_value : PlatformCaptureConfig → Value
settings_value settings = dict (
    field "enabled" (bool settings.enabled)
      (field "capture_events" (list (to_items (map str settings.capture_events))) end))

unfoldable pub platform_fields : Dict String PlatformCaptureConfig → Fields
platform_fields [] = end
platform_fields ((platform, settings) ∷ rest) =
    field platform (settings_value settings) (platform_fields rest)

unfoldable pub config_payload : String → String → Dict String PlatformCaptureConfig → Fields
config_payload root store_path platforms = field "schema_version" (int (pos 2)) (
    field "project_root" (str root) (
      field "store_path" (str store_path)
        (field "platforms" (dict (platform_fields platforms)) end)))

-- The configuration of a project before it has one
unfoldable pub new_config : String → CaptureConfig
new_config root = record {
  schema_version = 2;
  project_root = root;
  store_path = project_file root "agentdebug.sqlite";
  platforms = [];
}

-- `config.platforms[platform] = PlatformCaptureConfig(enabled=True, ...)`
unfoldable pub switch_on : String → List String → CaptureConfig → CaptureConfig
switch_on platform capture_events config = record config {
  platforms =
      insert config.platforms platform (record { enabled = true; capture_events = capture_events });
}

-- `settings.enabled = False` for the platform, if it is there
unfoldable pub switch_off : String → CaptureConfig → CaptureConfig
switch_off platform config = elim (lookup config.platforms platform) [
  | none ↦ config
  | some settings ↦ (record config {
    platforms = insert config.platforms platform (record settings { enabled = false });
  })
]

module _ (resolve : String → String) where
  unfoldable pub capture_config_path : String → String
  capture_config_path project_root = project_file (resolve project_root) "capture.json"

  module _ (dumps : Value → String) where
    -- `write_capture_config`: the file is replaced as a whole.
    unfoldable pub write_capture_config : CaptureConfig → Files → Files
    write_capture_config config files =
        let root = resolve config.project_root in
        insert files (capture_config_path root)
          (dumps (dict (config_payload root (resolve config.store_path) config.platforms)) +++ "\n")

    -- What `disable_capture` does with the configuration that it loads
    unfoldable pub disable_loaded :
        String → String → Files → Option CaptureConfig → Result (CaptureConfig × Files)
    disable_loaded project_root platform files none =
        err (value_error ("capture is not configured for " +++ project_root))
    disable_loaded project_root platform files (some found) =
        let config = switch_off platform found in ok (config, write_capture_config config files)

    -- What `enable_capture` does, with the configuration that it loads or a new one
    unfoldable pub enable_loaded :
        String → String → List String → Files → Option CaptureConfig → CaptureConfig × Files
    enable_loaded root platform capture_events files loaded =
        let before : CaptureConfig = elim loaded [
          | none ↦ new_config root
          | some config ↦ config
        ] in
        let config = switch_on platform capture_events before in
        (config, write_capture_config config files)

  module _ (loads : String → Result Value) (validate : Fields → Result CaptureConfig) where
    -- `load_capture_config`; no file is no configuration
    unfoldable pub load_capture_config : String → Files → Result (Option CaptureConfig)
    load_capture_config project_root files =
        elim (lookup files (capture_config_path project_root)) [
          | none ↦ ok none
          | some text ↦ (do
            payload ← loads text
            migrated ← migrate payload
            config ← validate migrated
            ok (some config))
        ]

    module _ (dumps : Value → String) where
      unfoldable pub enable_capture :
          String → String → List String → Files → Result (CaptureConfig × Files)
      enable_capture project_root platform capture_events files =
          let root = resolve project_root in
          load_capture_config root files >>= λ loaded.
          ok (enable_loaded dumps root platform capture_events files loaded)

      unfoldable pub disable_capture : String → String → Files → Result (CaptureConfig × Files)
      disable_capture project_root platform files =
          load_capture_config project_root files
          >>= disable_loaded dumps project_root platform files
