-- ===== src/Ingest/NativeProtocol/Scans.antt =====
-- The scan of one message in ingest/native_protocol.py: what it returns on calls that fit.
use agent_debug_x.Base.{
  ℕ, ◌+◌, String, ◌≡◌, refl, ap, sym, inl, inr, true, List, [], ◌∷◌, map, all, flat_map,
  if◌then◌else◌, string_eq, nat_eq, Bool-cases, Option-cases,
}
use agent_debug_x.Python.{
  Value, Items, null, str, list, item_list, is_hashable, ok, require->>-eq-ok, ok-injective,
}
use agent_debug_x.Ingest.NativeProtocol.{
  Scanned, has_role, message_value, tool_batch, call_ids_of, answers_once, turn_violations,
  nothing_scanned, scan_calls, scan_value, scan_message,
}
use agent_debug_x.Ingest.NativeProtocol.Transcripts.{
  IsAnswered, CallsFit, is_calls, opens, violations_of, indexes, map-tool_batch, append-eq-nil,
  turn_violations-nil, answers_once-hashable, Fine, rejected-violations,
}

module _ (trace_uid : String) (index : ℕ) (following : List Value) where
  scan_calls-IsAnswered :
      (calls : List Value) (scanned : Scanned)
      → scan_calls trace_uid index calls (tool_batch (index + 1) following) ≡ ok scanned
      → violations_of scanned.turns ≡ []
      → IsAnswered calls following
  unfolding scan_calls flat_map
  scan_calls-IsAnswered calls scanned h v =
      let batch = tool_batch (index + 1) following in
      elim (Option-cases (call_ids_of calls)) [
        | inl e ↦
            (let same = ok-injective (rw (scan_calls, e) at h) in
              let v' = rw (← same) at v in absurd (cc))
        | inr (ids, e) ↦
            (let (hashable, h') =
                require->>-eq-ok (all is_hashable (map (λ entry. entry.1) batch)) _ _
                  (rw (scan_calls, e) at h) in
              let v' = rw (← ok-injective h') at v in
              let (t, _) =
                append-eq-nil (turn_violations trace_uid index ids (map (λ entry. entry.1) batch))
                  [] v' in
              let (u, a) =
                (turn_violations-nil trace_uid index ids (map (λ entry. entry.1) batch)).0 t in
              record {
                ids = ids;
                named = e;
                unique = u;
                answered = rw (map-tool_batch (index + 1) following) at a;
              })
      ]

  IsAnswered-scan_calls :
      (calls : List Value)
      → IsAnswered calls following
      → Fine
          (scan_calls trace_uid index calls (tool_batch (index + 1) following))
          (indexes (index + 1) following)
  unfolding scan_calls flat_map
  IsAnswered-scan_calls calls a =
      let batch = tool_batch (index + 1) following in
      let answered : answers_once (map (λ entry. entry.1) batch) a.ids ≡ true =
        rw (map-tool_batch (index + 1) following) a.answered in
      let hashable = answers_once-hashable (map (λ entry. entry.1) batch) a.ids answered in
      let fine =
        (turn_violations-nil trace_uid index a.ids (map (λ entry. entry.1) batch)).1
          (a.unique, answered) in
      rw (scan_calls, a.named) (rw hashable ((_, refl, rw fine refl, refl)))

  scan_calls-claimed :
      (calls : List Value) (scanned : Scanned)
      → scan_calls trace_uid index calls (tool_batch (index + 1) following) ≡ ok scanned
      → scanned.claimed ≡ indexes (index + 1) following
  unfolding scan_calls
  scan_calls-claimed calls scanned h = elim (Option-cases (call_ids_of calls)) [
    | inl e ↦ ap (λ (s : Scanned). s.claimed) (sym (ok-injective (rw (scan_calls, e) at h)))
    | inr (ids, e) ↦
        (let (_, h') =
            require->>-eq-ok
              (all is_hashable (map (λ entry. entry.1) (tool_batch (index + 1) following))) _ _
              (rw (scan_calls, e) at h) in
          ap (λ (s : Scanned). s.claimed) (sym (ok-injective h')))
  ]

  scan_value-CallsFit :
      (value : Value) (scanned : Scanned)
      → scan_value trace_uid index value following ≡ ok scanned
      → violations_of scanned.turns ≡ []
      → CallsFit value following
  unfolding scan_value flat_map
  scan_value-CallsFit null scanned h v = tt
  scan_value-CallsFit (list (Items.cons call calls)) scanned h v =
      scan_calls-IsAnswered (call ∷ item_list calls) scanned h v
  scan_value-CallsFit (Value.bool b) scanned h v = rejected-violations _ _ [] scanned refl h v
  scan_value-CallsFit (Value.int n) scanned h v = rejected-violations _ _ [] scanned refl h v
  scan_value-CallsFit (Value.float t) scanned h v = rejected-violations _ _ [] scanned refl h v
  scan_value-CallsFit (str s) scanned h v = rejected-violations _ _ [] scanned refl h v
  scan_value-CallsFit (list Items.nil) scanned h v = rejected-violations _ _ [] scanned refl h v
  scan_value-CallsFit (Value.tuple xs) scanned h v = rejected-violations _ _ [] scanned refl h v
  scan_value-CallsFit (Value.dict d) scanned h v = rejected-violations _ _ [] scanned refl h v

  CallsFit-scan_value :
      (value : Value)
      → CallsFit value following
      → Fine
          (scan_value trace_uid index value following)
          (if is_calls value then indexes (index + 1) following else [])
  unfolding scan_value flat_map
  CallsFit-scan_value null c = (nothing_scanned, refl, refl, refl)
  CallsFit-scan_value (list (Items.cons call calls)) c =
      IsAnswered-scan_calls (call ∷ item_list calls) c
  CallsFit-scan_value (Value.bool b) c = absurd c
  CallsFit-scan_value (Value.int n) c = absurd c
  CallsFit-scan_value (Value.float t) c = absurd c
  CallsFit-scan_value (str s) c = absurd c
  CallsFit-scan_value (list Items.nil) c = absurd c
  CallsFit-scan_value (Value.tuple xs) c = absurd c
  CallsFit-scan_value (Value.dict d) c = absurd c

  scan_value-claimed :
      (value : Value) (scanned : Scanned)
      → scan_value trace_uid index value following ≡ ok scanned
      → scanned.claimed ≡ (if is_calls value then indexes (index + 1) following else [])
  unfolding scan_value
  scan_value-claimed null scanned h = ap (λ (s : Scanned). s.claimed) (sym (ok-injective h))
  scan_value-claimed (list (Items.cons call calls)) scanned h =
      scan_calls-claimed (call ∷ item_list calls) scanned h
  scan_value-claimed (Value.bool b) scanned h =
      ap (λ (s : Scanned). s.claimed) (sym (ok-injective h))
  scan_value-claimed (Value.int n) scanned h =
      ap (λ (s : Scanned). s.claimed) (sym (ok-injective h))
  scan_value-claimed (Value.float t) scanned h =
      ap (λ (s : Scanned). s.claimed) (sym (ok-injective h))
  scan_value-claimed (str s) scanned h = ap (λ (s : Scanned). s.claimed) (sym (ok-injective h))
  scan_value-claimed (list Items.nil) scanned h =
      ap (λ (s : Scanned). s.claimed) (sym (ok-injective h))
  scan_value-claimed (Value.tuple xs) scanned h =
      ap (λ (s : Scanned). s.claimed) (sym (ok-injective h))
  scan_value-claimed (Value.dict d) scanned h =
      ap (λ (s : Scanned). s.claimed) (sym (ok-injective h))

  -- The scan of one message, in the three ways
  pub scan_message-CallsFit :
      (message : Value) (scanned : Scanned)
      → scan_message trace_uid index message following ≡ ok scanned
      → violations_of scanned.turns ≡ []
      → has_role "assistant" message ≡ true
      → CallsFit (message_value "tool_calls" message) following
  unfolding scan_message
  scan_message-CallsFit message scanned h v a =
      scan_value-CallsFit (message_value "tool_calls" message) scanned (rw a at h) v

  pub CallsFit-scan_message :
      (message : Value)
      → (has_role "assistant" message ≡ true
          → CallsFit (message_value "tool_calls" message) following)
      → Fine
          (scan_message trace_uid index message following)
          (if opens message then indexes (index + 1) following else [])
  unfolding scan_message flat_map
  CallsFit-scan_message message c = elim (Bool-cases (has_role "assistant" message)) [
    | inl a ↦ rw a (CallsFit-scan_value (message_value "tool_calls" message) (c a))
    | inr a ↦ rw a ((nothing_scanned, refl, refl, refl))
  ]

  pub scan_message-claimed :
      (message : Value) (scanned : Scanned)
      → scan_message trace_uid index message following ≡ ok scanned
      → scanned.claimed ≡ (if opens message then indexes (index + 1) following else [])
  unfolding scan_message
  scan_message-claimed message scanned h = elim (Bool-cases (has_role "assistant" message)) [
    | inl a ↦ rw a (scan_value-claimed (message_value "tool_calls" message) scanned (rw a at h))
    | inr a ↦ rw a (ap (λ (s : Scanned). s.claimed) (sym (ok-injective (rw a at h))))
  ]
