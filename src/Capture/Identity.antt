-- ===== src/Capture/Identity.antt =====
-- capture/identity.py: the identifiers of captures. SHA-256, as the hexadecimal digest of the UTF-8
-- bytes of a text, and `json.dumps` of a payload with sorted keys are arguments.
use Prim.Native.Char.{char}
use agent_debug_x.Base.{String, ◌+++◌, List, [], ◌∷◌, or_else}
use agent_debug_x.Python.{Fields, join, take_chars}
use agent_debug_x.Capture.Tables.{HookNotification, CaptureRequest, TranscriptSnapshot}

-- `b'\0'`
abbrev nul : String
nul = String.◌∷◌ (char 0 tt) ""

module _ (hexdigest : String → String) where
  unfoldable pub digest : String → List String → String
  digest kind parts = hexdigest (join nul (kind ∷ parts))

  unfoldable pub trace_id_for : String → String → String
  trace_id_for host session_id =
      "capture_" +++ take_chars 32 (digest "trace" (host ∷ session_id ∷ []))

  unfoldable pub trace_id_for_boundary : String → String → String → String
  trace_id_for_boundary host session_id boundary_id =
      "capture_" +++ take_chars 32 (digest "trace-boundary" (host ∷ session_id ∷ boundary_id ∷ []))

  unfoldable pub project_id_for : String → String
  project_id_for root = "project_" +++ take_chars 32 (digest "project" (root ∷ []))

  unfoldable pub boundary_id_for : CaptureRequest → TranscriptSnapshot → String
  boundary_id_for request snapshot =
      let notification = request.notification in
      "boundary_"
      +++ digest "boundary" (
          notification.host
          ∷ notification.session_id
          ∷ request.logical_boundary_kind
          ∷ or_else notification.native_event_id ""
          ∷ snapshot.last_record_sha256
          ∷ [])

  unfoldable pub event_id_for : String → String → List String → String
  event_id_for host session_id native_parts =
      "event_" +++ digest "event" (host ∷ session_id ∷ native_parts)

  module _ (dumps : Fields → String) where
    unfoldable pub receipt_id_for : HookNotification → String → String
    receipt_id_for notification source_version =
        "receipt_"
        +++ digest "receipt" (
            notification.host
            ∷ notification.session_id
            ∷ notification.event_name
            ∷ or_else notification.native_event_id ""
            ∷ dumps notification.native_payload
            ∷ source_version
            ∷ [])
