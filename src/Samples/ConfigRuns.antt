-- ===== src/Samples/ConfigRuns.antt =====
-- The theorems on the configuration of captures, applied to a project with one platform.
use agent_debug_x.Base.{
  ℕ, String, Bool, List, map, Dict, contains, ap, ◌≡◌, refl, true, false, some, [], ◌∷◌, ◌==◌,
  string_eq, if◌then◌else◌, lookup, insert,
}
use agent_debug_x.Python.{
  Value, Items, Fields, str, dict, list, end, field, get, get_value, bool, int, pos, to_items,
  Result, ok,
}
use agent_debug_x.Capture.Contracts.{PlatformCaptureConfig, CaptureConfig}
use agent_debug_x.Capture.Service.{handle}
use agent_debug_x.Capture.Outcome.{bare_result, enabled_config}
use agent_debug_x.Capture.Config.{
  Files, migrate, legacy_payload, get_or, config_payload, project_file, capture_config_path,
  load_capture_config, write_capture_config, enable_capture, enable_loaded, disable_capture,
  disable_loaded, switch_on, switch_off, new_config,
}
use agent_debug_x.Capture.Config.Migration.{migrate-migrate}
use agent_debug_x.Capture.Config.Forms.{IsSettings, ArePlatforms, IsValidation}
use agent_debug_x.Capture.Config.Switches.{
  IsReadable, resolved, write_capture_config-load_capture_config,
  enable_capture-load_capture_config, disable_capture-handle,
}
use agent_debug_x.Samples.ServiceRuns.{config, around, service, clock, notification, empty}
use agent_debug_x.Samples.Traces.{is_ok, ok_of}

-- A file of the form with one platform
abbrev old_fields : Fields
old_fields = field "platform" (str "codex") (
    field "project_root" (str "/p") (
      field "store_path" (str "/p/s")
        (field "installed_hooks" (list (Items.cons (str "Stop") Items.nil)) end)))

migrates : is_ok (migrate (dict old_fields)) ≡ true
unfolding migrate legacy_payload get get_value get_or
migrates = refl

migrate-migrate_example :
    let migrated = (ok_of (migrate (dict old_fields)) migrates).0 in
    migrate (dict migrated) ≡ ok migrated
migrate-migrate_example =
    let (migrated, e) = ok_of (migrate (dict old_fields)) migrates in
    migrate-migrate (dict old_fields) migrated e

abbrev text_value : Value → String
text_value (str s) = s
text_value _ = ""

abbrev flag_value : Value → Bool
flag_value (bool b) = b
flag_value _ = false

abbrev number_value : Value → ℕ
number_value (int (pos n)) = n
number_value _ = 0

abbrev texts_of_items : Items → List String
texts_of_items Items.nil = []
texts_of_items (Items.cons v items) = text_value v ∷ texts_of_items items

abbrev texts_value : Value → List String
texts_value (list items) = texts_of_items items
texts_value _ = []

abbrev fields_value : Value → Fields
fields_value (dict d) = d
fields_value _ = end

settings_of : Value → PlatformCaptureConfig
settings_of value = record {
  enabled = flag_value (get_value (fields_value value) "enabled");
  capture_events = texts_value (get_value (fields_value value) "capture_events");
}

platforms_of : Fields → Dict String PlatformCaptureConfig
unfolding settings_of
platforms_of end = []
platforms_of (field host value rest) = (host, settings_of value) ∷ platforms_of rest

-- A validation that reads the values of the fields
validate : Fields → Result CaptureConfig
unfolding platforms_of
validate d = ok (record {
  schema_version = number_value (get_value d "schema_version");
  project_root = text_value (get_value d "project_root");
  store_path = text_value (get_value d "store_path");
  platforms = platforms_of (fields_value (get_value d "platforms"));
})

texts_of_items-to_items : (texts : List String) → texts_of_items (to_items (map str texts)) ≡ texts
unfolding to_items
texts_of_items-to_items [] = refl
texts_of_items-to_items (text ∷ texts) = ap (λ rest. text ∷ rest) (texts_of_items-to_items texts)

get_value-some : (d : Fields) (key : String) (v : Value) → get d key ≡ some v → get_value d key ≡ v
unfolding get_value
get_value-some d key v h = rw (get_value, h) refl

settings_of-IsSettings :
    (value : Value) (settings : PlatformCaptureConfig)
    → IsSettings value settings
    → settings_of value ≡ settings
unfolding settings_of
settings_of-IsSettings value settings (d, v, enabled, events) =
    rw
      (
        v,
        get_value-some d "enabled" _ enabled,
        get_value-some d "capture_events" _ events,
        texts_of_items-to_items settings.capture_events,
      )
      refl

platforms_of-ArePlatforms :
    (entries : Fields) (platforms : Dict String PlatformCaptureConfig)
    → ArePlatforms entries platforms
    → platforms_of entries ≡ platforms
unfolding platforms_of
platforms_of-ArePlatforms end [] h = refl
platforms_of-ArePlatforms end (entry ∷ platforms) h = absurd h
platforms_of-ArePlatforms (field host value rest) [] h = absurd h
platforms_of-ArePlatforms (field host value rest) ((name, settings) ∷ platforms) (n, s, h) =
    rw (n, settings_of-IsSettings value settings s, platforms_of-ArePlatforms rest platforms h) refl

abbrev resolve : String → String
resolve path = path

validate-IsValidation : IsValidation resolve validate
unfolding validate
validate-IsValidation d config form =
    rw
      (
        validate,
        get_value-some d "schema_version" _ form.version,
        get_value-some d "project_root" _ form.root,
        get_value-some d "store_path" _ form.store,
        get_value-some d "platforms" _ form.platforms,
        platforms_of-ArePlatforms form.entries config.platforms form.each,
      )
      refl

abbrev payload_of : CaptureConfig → Fields
payload_of c = config_payload c.project_root c.store_path c.platforms

-- The printer writes one text, which is parsed to the given configuration; any other is the old file.
abbrev loads_as : CaptureConfig → String → Result Value
loads_as c text = if text == "new\n" then ok (dict (payload_of c)) else ok (dict old_fields)

abbrev dumps : Value → String
dumps value = "new"

config-IsReadable : IsReadable resolve (loads_as config) validate dumps config
unfolding contains
config-IsReadable = record {
  hosts = (refl, tt);
  settles = refl;
  settles_store = refl;
  parses = refl;
}

write_capture_config-load_capture_config_example :
    load_capture_config resolve
      (loads_as config)
      validate
      "/p"
      (write_capture_config resolve dumps config [])
    ≡ ok (some (resolved resolve (loads_as config) validate dumps config))
write_capture_config-load_capture_config_example =
    write_capture_config-load_capture_config resolve (loads_as config) validate dumps
      validate-IsValidation config "/p" [] config-IsReadable refl

abbrev off_config : CaptureConfig
off_config = record config {
  platforms = ("codex", record { enabled = false; capture_events = "Stop" ∷ [] }) ∷ [];
}

abbrev old_files : Files
old_files = ("/p/.agentdebug/capture.json", "old") ∷ []

abbrev new_files : Files
new_files = ("/p/.agentdebug/capture.json", "new\n") ∷ []

disables :
    disable_capture resolve (loads_as off_config) validate dumps "/p" "codex" old_files
    ≡ ok (off_config, new_files)
unfolding validate settings_of platforms_of disable_capture disable_loaded load_capture_config
    capture_config_path project_file lookup insert migrate legacy_payload get get_value get_or
    switch_off write_capture_config
disables = refl

off_config-IsReadable : IsReadable resolve (loads_as off_config) validate dumps off_config
unfolding contains
off_config-IsReadable = record {
  hosts = (refl, tt);
  settles = refl;
  settles_store = refl;
  parses = refl;
}

disable_capture-handle_example :
    let loaded = load_capture_config resolve (loads_as off_config) validate "/p" new_files in
    handle service (record around { config = loaded }) clock notification empty
    ≡ (ok (record bare_result { elapsed_ms = 3 }), empty)
disable_capture-handle_example =
    disable_capture-handle resolve (loads_as off_config) validate dumps validate-IsValidation
      service
      (record around {
        config = load_capture_config resolve (loads_as off_config) validate "/p" new_files;
      })
      clock notification empty "/p" off_config old_files new_files disables off_config-IsReadable
      refl refl

abbrev first_config : CaptureConfig
unfolding switch_on new_config project_file insert
first_config = switch_on "codex" ("Stop" ∷ []) (new_config "/p")

enables :
    enable_capture resolve (loads_as first_config) validate dumps "/p" "codex" ("Stop" ∷ []) []
    ≡ ok (first_config, new_files)
unfolding first_config enable_capture enable_loaded load_capture_config capture_config_path
    project_file lookup insert switch_on new_config write_capture_config
enables = refl

first_config-IsReadable : IsReadable resolve (loads_as first_config) validate dumps first_config
unfolding contains first_config
first_config-IsReadable = record {
  hosts = (refl, tt);
  settles = refl;
  settles_store = refl;
  parses = refl;
}

enable_capture-load_capture_config_example :
    (load_capture_config resolve (loads_as first_config) validate "/p" new_files
      ≡ ok (some (resolved resolve (loads_as first_config) validate dumps first_config)))
    × (enabled_config "codex"
          (some (resolved resolve (loads_as first_config) validate dumps first_config))
        ≡ some (resolved resolve (loads_as first_config) validate dumps first_config))
    × (lookup
          (resolved resolve (loads_as first_config) validate dumps first_config).platforms
          "codex"
        ≡ some (record { enabled = true; capture_events = "Stop" ∷ [] }))
unfolding first_config
enable_capture-load_capture_config_example =
    enable_capture-load_capture_config resolve (loads_as first_config) validate dumps
      validate-IsValidation "/p" "codex" ("Stop" ∷ []) first_config [] new_files enables
      first_config-IsReadable refl
