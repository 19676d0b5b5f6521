-- ===== src/Capture/Config/Switches.antt =====
-- What the service finds of a configuration that capture/config.py has written.
use agent_debug_x.Base.{
  String, List, All, ◌+++◌, ◌≡◌, refl, ap, sym, ◌∙◌, inl, inr, true, false, Option, none, some,
  lookup, lookup-insert_same, string_eq, Option-cases,
}
use mathlib.Core.Path.{subst}
use agent_debug_x.Python.{Value, Fields, dict, Result, ok, >>=-eq-ok, ok-injective}
use agent_debug_x.Capture.Tables.{HookNotification, Store}
use agent_debug_x.Capture.Contracts.{CaptureConfig, CaptureService, Surroundings, Clock}
use agent_debug_x.Capture.Service.{handle, handle_loaded}
use agent_debug_x.Capture.Outcome.{enabled_config, bare_result}
use agent_debug_x.Capture.Config.{
  Files, config_payload, capture_config_path, load_capture_config, write_capture_config,
  enable_capture, enable_loaded, disable_capture, disable_loaded, switch_on, switch_off, new_config,
}
use agent_debug_x.Capture.Config.Migration.{migrate-config_payload}
use agent_debug_x.Capture.Config.Forms.{IsHost, IsValidation, config_payload-IsFormOf}

module _ (resolve : String → String) (loads : String → Result Value)
    (validate : Fields → Result CaptureConfig) (dumps : Value → String) where
  -- The configuration with its paths resolved, in the current form
  abbrev pub resolved : CaptureConfig → CaptureConfig
  resolved config = record {
    schema_version = 2;
    project_root = resolve config.project_root;
    store_path = resolve config.store_path;
    platforms = config.platforms;
  }

  -- What the libraries promise of a configuration whose hosts are known: its printed form is parsed to
  -- the value that was printed, and a path that is resolved stays.
  pub record IsReadable (config : CaptureConfig) : Type 0 where
    pub hosts : All IsHost config.platforms
    pub settles : resolve (resolve config.project_root) ≡ resolve config.project_root
    pub settles_store : resolve (resolve config.store_path) ≡ resolve config.store_path
    pub parses :
        let r = resolved config in
        let payload = config_payload r.project_root r.store_path r.platforms in
        loads (dumps (dict payload) +++ "\n") ≡ ok (dict payload)

  lookup-write_capture_config :
      (config : CaptureConfig) (project_root : String) (files : Files)
      → IsReadable config
      → resolve project_root ≡ resolve config.project_root
      → let r = resolved config in
        lookup
          (write_capture_config resolve dumps config files)
          (capture_config_path resolve project_root)
        ≡ some (dumps (dict (config_payload r.project_root r.store_path r.platforms)) +++ "\n")
  unfolding write_capture_config capture_config_path
  lookup-write_capture_config config project_root files readable root =
      rw (root, readable.settles) (lookup-insert_same files _ _)

  -- If pydantic validates a dictionary that carries the values of a configuration of known hosts and
  -- resolved paths to that configuration, JSON parses what it has printed of this one, and a resolved path stays, then
  -- a configuration that is written is read back, from any path of its project: with its paths
  -- resolved, and every platform with its settings as they were.
  pub write_capture_config-load_capture_config :
      (validates : IsValidation resolve validate) (config : CaptureConfig) (project_root : String)
      (files : Files)
      → IsReadable config
      → resolve project_root ≡ resolve config.project_root
      → load_capture_config resolve loads validate project_root
          (write_capture_config resolve dumps config files)
        ≡ ok (some (resolved config))
  unfolding load_capture_config
  write_capture_config-load_capture_config validates config project_root files readable root =
      let r = resolved config in
      rw
        (
          load_capture_config,
          lookup-write_capture_config config project_root files readable root,
          readable.parses,
          migrate-config_payload r.project_root r.store_path r.platforms,
          validates _ _ (
              config_payload-IsFormOf resolve r.project_root r.store_path r.platforms
                readable.settles readable.settles_store readable.hosts),
        )
        refl

  switch_off-enabled_config :
      (host : String) (config : CaptureConfig)
      → enabled_config host (some (resolved (switch_off host config))) ≡ none
  unfolding enabled_config switch_off
  switch_off-enabled_config host config = elim (Option-cases (lookup config.platforms host)) [
    | inl e ↦ rw (switch_off, e) (rw (enabled_config, e) refl)
    | inr (settings, e) ↦
        rw (switch_off, e)
          (rw
            (
              enabled_config,
              lookup-insert_same config.platforms host (record settings { enabled = false }),
            )
            refl)
  ]

  switch_on-enabled_config :
      (host : String) (capture_events : List String) (config : CaptureConfig)
      → let c = resolved (switch_on host capture_events config) in
        enabled_config host (some c) ≡ some c
  unfolding enabled_config switch_on
  switch_on-enabled_config host capture_events config =
      rw
        (
          enabled_config,
          lookup-insert_same config.platforms host
              (record { enabled = true; capture_events = capture_events }),
        )
        refl

  -- Under the same promises of pydantic, JSON and paths, and if the root that the configuration names
  -- is that of the project it is switched on for (a file that was moved with its project names
  -- another), the configuration that is read from the project is the one returned with its paths
  -- resolved, and it has the platform enabled, with the events that were asked for.
  pub enable_capture-load_capture_config :
      (validates : IsValidation resolve validate) (project_root host : String)
      (capture_events : List String) (config : CaptureConfig)
      → (files next : Files)
      → enable_capture resolve loads validate dumps project_root host capture_events files
        ≡ ok (config, next)
      → IsReadable config
      → resolve project_root ≡ resolve config.project_root
      → (load_capture_config resolve loads validate project_root next ≡ ok (some (resolved config)))
        × (enabled_config host (some (resolved config)) ≡ some (resolved config))
        × (lookup (resolved config).platforms host
            ≡ some (record { enabled = true; capture_events = capture_events }))
  unfolding enable_capture enable_loaded switch_on
  enable_capture-load_capture_config validates project_root host capture_events config files next h
        readable root =
      let (loaded, e, g) =
        >>=-eq-ok (load_capture_config resolve loads validate (resolve project_root) files) _ h in
      let before : CaptureConfig = elim loaded [
        | none ↦ new_config (resolve project_root)
        | some config ↦ config
      ] in
      let same = ok-injective g in
      let on : switch_on host capture_events before ≡ config = ap (λ pair. pair.0) same in
      let written : write_capture_config resolve dumps config files ≡ next =
        ap (λ c. write_capture_config resolve dumps c files) (sym on) ∙ ap (λ pair. pair.1) same in
      (
        ap (load_capture_config resolve loads validate project_root) (sym written)
            ∙ write_capture_config-load_capture_config validates config project_root files readable
                root,
        subst (λ (c : CaptureConfig). enabled_config host (some (resolved c)) ≡ some (resolved c))
            on (switch_on-enabled_config host capture_events before),
        rw (← on) (lookup-insert_same before.platforms host _),
      )

  -- Under the same promises of pydantic, JSON and paths, and if the root that the configuration names
  -- is that of the service (a file that was moved with its project names another), a notification of
  -- a platform that was switched off is answered `disabled`, once the configuration of the project is
  -- read again, and the store stays as it is.
  pub disable_capture-handle :
      (validates : IsValidation resolve validate) (service : CaptureService) (around : Surroundings)
      (clock : Clock)
      → (notification : HookNotification) (store : Store) (project_root : String)
      → (config : CaptureConfig) (files next : Files)
      → disable_capture resolve loads validate dumps project_root notification.host files
        ≡ ok (config, next)
      → IsReadable config
      → resolve service.project_root ≡ resolve config.project_root
      → around.config ≡ load_capture_config resolve loads validate service.project_root next
      → handle service around clock notification store
        ≡ (ok (record bare_result { elapsed_ms = clock.at_end }), store)
  unfolding disable_capture disable_loaded handle handle_loaded
  disable_capture-handle validates service around clock notification store project_root config files
        next h readable root loaded =
      let (found, e, g) =
        >>=-eq-ok (load_capture_config resolve loads validate project_root files) _ h in
      disable_loaded-handle found g
    where
      disable_loaded-handle :
          (found : Option CaptureConfig)
          → disable_loaded resolve dumps project_root notification.host files found
            ≡ ok (config, next)
          → handle service around clock notification store
            ≡ (ok (record bare_result { elapsed_ms = clock.at_end }), store)
      disable_loaded-handle none g = cc
      disable_loaded-handle (some found) g =
          let same = ok-injective g in
          let off : switch_off notification.host found ≡ config = ap (λ pair. pair.0) same in
          let written : write_capture_config resolve dumps config files ≡ next =
            ap (λ c. write_capture_config resolve dumps c files) (sym off)
            ∙ ap (λ pair. pair.1) same in
          let reads : around.config ≡ ok (some (resolved config)) =
            loaded
            ∙ (ap (load_capture_config resolve loads validate service.project_root) (sym written)
                ∙ write_capture_config-load_capture_config validates config service.project_root
                    files readable root) in
          let disabled : enabled_config notification.host (some (resolved config)) ≡ none =
            ap (λ c. enabled_config notification.host (some (resolved c))) (sym off)
            ∙ switch_off-enabled_config notification.host found in
          rw (handle, reads, handle_loaded, disabled) refl
