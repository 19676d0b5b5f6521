-- ===== src/Capture/Config/Migration.antt =====
-- The migration of an older configuration file in capture/config.py.
use agent_debug_x.Base.{
  String, ◌≡◌, refl, ap, inl, inr, some, [], ◌∷◌, Dict, ◌==◌, string_eq, Bool-cases, Option-cases,
}
use mathlib.Core.Option.{some-injective}
use agent_debug_x.Python.{
  Value, Items, Fields, null, bool, str, int, float, list, tuple, dict, end, field, get, get_value,
  put, get-put, is_hashable, is_in, ok, err, ◌>>=◌, >>=-eq-ok, ok-injective,
}
use agent_debug_x.Capture.Contracts.{PlatformCaptureConfig}
use agent_debug_x.Capture.Config.{
  migrate, migrate_platforms, migrate_settings, legacy_payload, without_key, get_or, has_item,
  config_payload, platform_fields, settings_value,
}

-- Writing the value that is there changes nothing.
put-same : (d : Fields) (k : String) (v : Value) → get d k ≡ some v → put d k v ≡ d
unfolding get put
put-same end k v h = cc
put-same (field j w rest) k v h = elim (Bool-cases (j == k)) [
  | inl e ↦ (let same : some w ≡ some v = rw e at h in rw (e, some-injective w v same) refl)
  | inr e ↦ rw e (ap (field j w) (put-same rest k v (rw e at h)))
]

-- Settings that name their events are left alone.
migrate_settings-named :
    (d : Fields) (events : Value)
    → get d "capture_events" ≡ some events
    → migrate_settings (dict d) ≡ ok (dict d)
unfolding migrate_settings
migrate_settings-named d events h = rw (migrate_settings, h) refl

migrate_settings-migrate_settings :
    (settings migrated : Value)
    → migrate_settings settings ≡ ok migrated
    → migrate_settings migrated ≡ ok migrated
unfolding migrate_settings
migrate_settings-migrate_settings (dict d) migrated h =
    elim (Option-cases (get d "capture_events")) [
      | inl e ↦
          (let v = get_or d "installed_hooks" (list Items.nil) in
            let d' = put (without_key d "installed_hooks") "capture_events" v in
            let same : ok (dict d') ≡ ok migrated = rw (migrate_settings, e) at h in
            rw (← ok-injective same) (
              migrate_settings-named d' v
                (get-put (without_key d "installed_hooks") "capture_events" "capture_events" v)))
      | inr (events, e) ↦
          (let same : ok (dict d) ≡ ok migrated = rw (migrate_settings, e) at h in
            rw (← ok-injective same) (migrate_settings-named d events e))
    ]
migrate_settings-migrate_settings (str s) migrated h =
    elim (Bool-cases (is_in "capture_events" s)) [
      | inl e ↦
          (let same : ok (str s) ≡ ok migrated = rw (migrate_settings, e) at h in
            rw (← ok-injective same) (rw (migrate_settings, e) refl))
      | inr e ↦ (let bad : err _ ≡ ok migrated = rw (migrate_settings, e) at h in cc)
    ]
migrate_settings-migrate_settings (list items) migrated h =
    elim (Bool-cases (has_item "capture_events" items)) [
      | inl e ↦
          (let same : ok (list items) ≡ ok migrated = rw (migrate_settings, e) at h in
            rw (← ok-injective same) (rw (migrate_settings, e) refl))
      | inr e ↦ (let bad : err _ ≡ ok migrated = rw (migrate_settings, e) at h in cc)
    ]
migrate_settings-migrate_settings null migrated h = cc
migrate_settings-migrate_settings (bool b) migrated h = cc
migrate_settings-migrate_settings (int n) migrated h = cc
migrate_settings-migrate_settings (float t) migrated h = cc
migrate_settings-migrate_settings (tuple items) migrated h = cc

migrate_platforms-migrate_platforms :
    (platforms migrated : Fields)
    → migrate_platforms platforms ≡ ok migrated
    → migrate_platforms migrated ≡ ok migrated
unfolding migrate_platforms
migrate_platforms-migrate_platforms end migrated h = rw (← ok-injective h) refl
migrate_platforms-migrate_platforms (field platform settings rest) migrated h =
    let (first, e, h₁) = >>=-eq-ok (migrate_settings settings) _ h in
    let (others, f, h₂) = >>=-eq-ok (migrate_platforms rest) _ h₁ in
    rw (← ok-injective h₂) (
      rw
        (
          migrate_platforms,
          migrate_settings-migrate_settings settings first e,
          migrate_platforms-migrate_platforms rest others f,
        )
        refl)

-- What is written names the events of every platform.
migrate_platforms-platform_fields :
    (platforms : Dict String PlatformCaptureConfig)
    → migrate_platforms (platform_fields platforms) ≡ ok (platform_fields platforms)
unfolding platform_fields migrate_platforms settings_value migrate_settings get
migrate_platforms-platform_fields [] = refl
migrate_platforms-platform_fields ((platform, settings) ∷ rest) =
    rw (migrate_platforms-platform_fields rest) refl

pub migrate-config_payload :
    (root store_path : String) (platforms : Dict String PlatformCaptureConfig)
    → migrate (dict (config_payload root store_path platforms))
      ≡ ok (config_payload root store_path platforms)
unfolding migrate config_payload get put
migrate-config_payload root store_path platforms =
    rw (migrate_platforms-platform_fields platforms) refl

legacy_payload-migrate :
    (d migrated : Fields) (platform : Value)
    → get_value d "platform" ≡ platform
    → legacy_payload d ≡ ok migrated
    → migrate (dict migrated) ≡ ok migrated
unfolding legacy_payload migrate migrate_platforms migrate_settings get put is_hashable
legacy_payload-migrate d migrated (str platform) p h =
    let same = rw (legacy_payload, p) at h in rw (← ok-injective same) refl
legacy_payload-migrate d migrated null p h = (let bad = rw (legacy_payload, p) at h in cc)
legacy_payload-migrate d migrated (bool b) p h = (let bad = rw (legacy_payload, p) at h in cc)
legacy_payload-migrate d migrated (int n) p h = (let bad = rw (legacy_payload, p) at h in cc)
legacy_payload-migrate d migrated (float t) p h = (let bad = rw (legacy_payload, p) at h in cc)
legacy_payload-migrate d migrated (list v) p h = (let bad = rw (legacy_payload, p) at h in cc)
legacy_payload-migrate d migrated (tuple v) p h = (let bad = rw (legacy_payload, p) at h in cc)
legacy_payload-migrate d migrated (dict v) p h = (let bad = rw (legacy_payload, p) at h in cc)

platforms-migrate :
    (d migrated : Fields) (platforms : Value)
    → get d "platforms" ≡ some platforms
    → migrate (dict d) ≡ ok migrated
    → migrate (dict migrated) ≡ ok migrated
unfolding migrate
platforms-migrate d migrated (dict ps) p h =
    let h₁ : (migrate_platforms ps >>= λ qs. ok (put d "platforms" (dict qs))) ≡ ok migrated =
      rw (migrate, p) at h in
    let (qs, e, h₂) = >>=-eq-ok (migrate_platforms ps) _ h₁ in
    let found = get-put d "platforms" "platforms" (dict qs) in
    rw (← ok-injective h₂) (
      rw (migrate, found, migrate_platforms-migrate_platforms ps qs e)
        (ap ok (put-same (put d "platforms" (dict qs)) "platforms" (dict qs) found)))
platforms-migrate d migrated null p h = (let bad = rw (migrate, p) at h in cc)
platforms-migrate d migrated (bool b) p h = (let bad = rw (migrate, p) at h in cc)
platforms-migrate d migrated (int n) p h = (let bad = rw (migrate, p) at h in cc)
platforms-migrate d migrated (float t) p h = (let bad = rw (migrate, p) at h in cc)
platforms-migrate d migrated (str s) p h = (let bad = rw (migrate, p) at h in cc)
platforms-migrate d migrated (list v) p h = (let bad = rw (migrate, p) at h in cc)
platforms-migrate d migrated (tuple v) p h = (let bad = rw (migrate, p) at h in cc)

-- The migration is done once: a payload that it returned is returned unchanged, whether the one before
-- had one platform or several.
pub migrate-migrate :
    (payload : Value) (migrated : Fields)
    → migrate payload ≡ ok migrated
    → migrate (dict migrated) ≡ ok migrated
unfolding migrate
migrate-migrate (dict d) migrated h = elim (Option-cases (get d "platforms")) [
  | inl e ↦ legacy_payload-migrate d migrated (get_value d "platform") refl (rw (migrate, e) at h)
  | inr (platforms, e) ↦ platforms-migrate d migrated platforms e h
]
migrate-migrate (str s) migrated h = elim (Bool-cases (is_in "platforms" s)) [
  | inl e ↦ (let bad = rw (migrate, e) at h in cc)
  | inr e ↦ (let bad = rw (migrate, e) at h in cc)
]
migrate-migrate (list v) migrated h = elim (Bool-cases (has_item "platforms" v)) [
  | inl e ↦ (let bad = rw (migrate, e) at h in cc)
  | inr e ↦ (let bad = rw (migrate, e) at h in cc)
]
migrate-migrate null migrated h = cc
migrate-migrate (bool b) migrated h = cc
migrate-migrate (int n) migrated h = cc
migrate-migrate (float t) migrated h = cc
migrate-migrate (tuple v) migrated h = cc
