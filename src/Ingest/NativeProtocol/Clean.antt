-- ===== src/Ingest/NativeProtocol/Clean.antt =====
-- The wire transcripts without violations in ingest/native_protocol.py.
use agent_debug_x.Base.{
  ℕ, ◌+◌, String, ◌≡◌, refl, ap, sym, ◌∙◌, ◌↔◌, Bool, false, ◌&&◌, ◌||◌, List, [], ◌∷◌, ◌++◌,
  contains, flat_map, string_eq, nat_eq,
}
use mathlib.Core.List.{append_assoc}
use agent_debug_x.Python.{Value, ok, >>=-eq-ok, ok-injective}
use agent_debug_x.Ingest.NativeProtocol.{
  Scanned, WireScan, has_role, scan_from, orphans_from, scan_wire, native_tool_message_violations,
}
use agent_debug_x.Ingest.NativeProtocol.Transcripts.{IsClean, opens, violations_of, append-eq-nil}
use agent_debug_x.Ingest.NativeProtocol.Scans.{
  scan_message-CallsFit, CallsFit-scan_message, scan_message-claimed,
}
use agent_debug_x.Ingest.NativeProtocol.Indexes.{
  violations_of-append, Covers, Covers-step, scan_from-cons, orphan_at, orphan_at-nil,
  nil-orphan_at, claimed_here,
}

module _ (trace_uid : String) where
  scan_from-IsClean :
      (claimed : List ℕ) (inside : Bool) (index : ℕ) (messages : List Value) (scanned : Scanned)
      → Covers claimed inside index messages
      → scan_from trace_uid index messages ≡ ok scanned
      → violations_of scanned.turns ≡ []
      → orphans_from trace_uid (claimed ++ scanned.claimed) index messages ≡ []
      → IsClean inside messages
  unfolding scan_from flat_map orphans_from
  scan_from-IsClean claimed inside index [] scanned covers h v o = tt
  scan_from-IsClean claimed inside index (message ∷ messages) scanned covers h v o =
      let (first, rest, f, r, turns, claims) =
        scan_from-cons trace_uid index message messages scanned h in
      let v' : violations_of first.turns ++ violations_of rest.turns ≡ [] =
        sym (violations_of-append first.turns rest.turns) ∙ ap violations_of (sym turns) ∙ v in
      let (v₁, v₂) = append-eq-nil (violations_of first.turns) (violations_of rest.turns) v' in
      let o' : orphan_at trace_uid (claimed ++ (first.claimed ++ rest.claimed)) index message
            ++ orphans_from trace_uid (claimed ++ (first.claimed ++ rest.claimed)) (index + 1)
                messages
          ≡ [] =
        ap (λ c. orphans_from trace_uid (claimed ++ c) index (message ∷ messages)) (sym claims)
        ∙ o in
      let (o₁, o₂) =
        append-eq-nil
          (orphan_at trace_uid (claimed ++ (first.claimed ++ rest.claimed)) index message) _ o' in
      let here =
        claimed_here trace_uid claimed inside index message messages first rest covers f r in
      let covers' =
        Covers-step claimed first.claimed inside index message messages covers
          (scan_message-claimed trace_uid index messages message first f) in
      (
        orphan_at-nil trace_uid (claimed ++ (first.claimed ++ rest.claimed)) index message inside
            here o₁,
        scan_message-CallsFit trace_uid index messages message first f v₁,
        scan_from-IsClean (claimed ++ first.claimed)
            (opens message || inside && has_role "tool" message) (index + 1) messages rest covers' r
            v₂ (rw (append_assoc claimed first.claimed rest.claimed) o₂),
      )

  IsClean-scan_from :
      (claimed : List ℕ) (inside : Bool) (index : ℕ) (messages : List Value)
      → Covers claimed inside index messages
      → IsClean inside messages
      → (scanned : Scanned) × (scan_from trace_uid index messages ≡ ok scanned)
        × (violations_of scanned.turns ≡ [])
        × (orphans_from trace_uid (claimed ++ scanned.claimed) index messages ≡ [])
  unfolding scan_from flat_map orphans_from
  IsClean-scan_from claimed inside index [] covers c =
      (record { turns = []; claimed = [] }, refl, refl, refl)
  IsClean-scan_from claimed inside index (message ∷ messages) covers (tools, calls, clean) =
      let (first, f, v₁, claims) = CallsFit-scan_message trace_uid index messages message calls in
      let covers' = Covers-step claimed first.claimed inside index message messages covers claims in
      let (rest, r, v₂, o₂) =
        IsClean-scan_from (claimed ++ first.claimed)
          (opens message || inside && has_role "tool" message) (index + 1) messages covers' clean in
      let here =
        claimed_here trace_uid claimed inside index message messages first rest covers f r in
      let o₁ =
        nil-orphan_at trace_uid (claimed ++ (first.claimed ++ rest.claimed)) index message inside
          here tools in
      let o₃ : orphans_from trace_uid (claimed ++ (first.claimed ++ rest.claimed)) (index + 1)
            messages
          ≡ [] =
        rw (← append_assoc claimed first.claimed rest.claimed) o₂ in
      (
        record { turns = first.turns ++ rest.turns; claimed = first.claimed ++ rest.claimed },
        rw f (rw r refl),
        violations_of-append first.turns rest.turns ∙ rw (v₁, v₂) refl,
        rw (o₁, o₃) refl,
      )

  -- The messages alone have no violation exactly if they are clean, message by message: each tool
  -- message stands behind an assistant message with calls with only tool messages between them, and
  -- each assistant message whose `tool_calls` is not null has a list of calls that is not empty, all
  -- with ids, which are distinct texts and are answered, each exactly once, by the tool messages up
  -- to the next other message. On such messages nothing is raised.
  pub native_tool_message_violations-nil_iff :
      (messages : List Value)
      → (native_tool_message_violations messages trace_uid ≡ ok []) ↔ IsClean false messages
  unfolding native_tool_message_violations scan_wire contains
  native_tool_message_violations-nil_iff messages = (
    λ h.
        let (scan, e', h₁) = >>=-eq-ok (scan_wire messages trace_uid) _ h in
        let (scanned, e, h₂) = >>=-eq-ok (scan_from trace_uid 0 messages) _ e' in
        let all_nil : violations_of scanned.turns
              ++ orphans_from trace_uid scanned.claimed 0 messages
            ≡ [] =
          ap (λ (w : WireScan). violations_of w.turns ++ w.orphans) (ok-injective h₂)
          ∙ ok-injective h₁ in
        let (v, o) = append-eq-nil (violations_of scanned.turns) _ all_nil in
        scan_from-IsClean [] false 0 messages scanned (λ j le. refl) e v o,
    λ c.
        let (scanned, e, v, o) = IsClean-scan_from [] false 0 messages (λ j le. refl) c in
        rw e (ap ok (rw (v, o) refl)),
  )
