-- ===== src/Ingest/NativeProtocol/Indexes.antt =====
-- The indexes of a scan in ingest/native_protocol.py: those that it claims, and the orphans among them.
use agent_debug_x.Base.{
  ℕ, ◌+◌, ◌≤◌, ◌<◌, String, ◌≡◌, refl, ap, sym, ◌∙◌, inl, inr, Bool, true, false, not, ◌&&◌, ◌||◌,
  some, List, [], ◌∷◌, ◌++◌, contains, contains-append, flat_map, if◌then◌else◌, string_eq, nat_eq,
  Bool-cases, arith,
}
use mathlib.Core.List.{append_assoc}
use agent_debug_x.Python.{Value, field, end, ok, >>=-eq-ok, ok-injective}
use agent_debug_x.Ingest.NativeProtocol.{
  Violation, AssistantTurn, Scanned, has_role, message_value, tool_batch, scan_message, scan_from,
  violation, orphan_tool_message,
}
use agent_debug_x.Ingest.NativeProtocol.Transcripts.{opens, indexes, violations_of}
use agent_debug_x.Ingest.NativeProtocol.Scans.{scan_message-claimed}

indexes-below :
    (index : ℕ) (messages : List Value) (j : ℕ)
    → j < index
    → contains (indexes index messages) j ≡ false
unfolding tool_batch contains
indexes-below index [] j h = refl
indexes-below index (message ∷ messages) j h = elim (Bool-cases (has_role "tool" message)) [
  | inl t ↦ rw t (ground (arith, indexes-below (index + 1) messages j))
  | inr t ↦ rw t refl
]

indexes-head :
    (index : ℕ) (message : Value) (messages : List Value)
    → contains (indexes index (message ∷ messages)) index ≡ has_role "tool" message
unfolding tool_batch contains
indexes-head index message messages = elim (Bool-cases (has_role "tool" message)) [
  | inl t ↦ rw (t, (nat_eq.beq_iff index index).1 refl) refl
  | inr t ↦ rw t refl
]

indexes-above :
    (index : ℕ) (message : Value) (messages : List Value) (j : ℕ)
    → index < j
    → contains (indexes index (message ∷ messages)) j
      ≡ (has_role "tool" message && contains (indexes (index + 1) messages) j)
unfolding tool_batch contains
indexes-above index message messages j h = elim (Bool-cases (has_role "tool" message)) [
  | inl t ↦ rw t (ground arith)
  | inr t ↦ rw t refl
]

first_below :
    (trace_uid : String) (index : ℕ) (message : Value) (messages : List Value) (first : Scanned)
    (j : ℕ)
    → scan_message trace_uid index message messages ≡ ok first
    → j ≤ index
    → contains first.claimed j ≡ false
unfolding contains
first_below trace_uid index message messages first j f le =
    rw (scan_message-claimed trace_uid index messages message first f)
      (elim (Bool-cases (opens message)) [
        | inl o ↦ rw (o, indexes-below (index + 1) messages j (omega arith)) refl
        | inr o ↦ rw o refl
      ])

scan_from-below :
    (trace_uid : String) (index : ℕ) (messages : List Value) (scanned : Scanned) (j : ℕ)
    → scan_from trace_uid index messages ≡ ok scanned
    → j ≤ index
    → contains scanned.claimed j ≡ false
unfolding scan_from contains
scan_from-below trace_uid index [] scanned j h le = rw (← ok-injective h) refl
scan_from-below trace_uid index (message ∷ messages) scanned j h le =
    let (first, f, h') = >>=-eq-ok (scan_message trace_uid index message messages) _ h in
    let (rest, r, h'') = >>=-eq-ok (scan_from trace_uid (index + 1) messages) _ h' in
    let below = scan_from-below trace_uid (index + 1) messages rest j r (omega arith) in
    rw (← ok-injective h'') (
      contains-append first.claimed rest.claimed j
      ∙ rw (first_below trace_uid index message messages first j f le, below) refl)

pub violations_of-append :
    (turns more : List AssistantTurn)
    → violations_of (turns ++ more) ≡ violations_of turns ++ violations_of more
unfolding flat_map
violations_of-append [] more = refl
violations_of-append (turn ∷ turns) more =
    rw (violations_of-append turns more)
      (sym (append_assoc turn.violations (violations_of turns) (violations_of more)))

-- From the index on, the claimed ones are those of the open batch.
abbrev pub Covers : List ℕ → Bool → ℕ → List Value → Type 0
Covers claimed inside index messages =
    (j : ℕ) → index ≤ j → contains claimed j ≡ (inside && contains (indexes index messages) j)

pub Covers-step :
    (claimed more : List ℕ) (inside : Bool) (index : ℕ) (message : Value) (messages : List Value)
    → Covers claimed inside index (message ∷ messages)
    → more ≡ (if opens message then indexes (index + 1) messages else [])
    → Covers
        (claimed ++ more)
        (opens message || inside && has_role "tool" message)
        (index + 1)
        messages
unfolding contains
Covers-step claimed more inside index message messages covers m j le =
    contains-append claimed more j
    ∙ rw (covers j (omega arith), indexes-above index message messages j (omega arith), m)
        (elim (Bool-cases (opens message)) [
          | inl o ↦ rw o (ground arith)
          | inr o ↦ rw o (ground arith)
        ])

pub scan_from-cons :
    (trace_uid : String) (index : ℕ) (message : Value) (messages : List Value) (scanned : Scanned)
    → scan_from trace_uid index (message ∷ messages) ≡ ok scanned
    → (first : Scanned) × (rest : Scanned) × (scan_message trace_uid index message messages
        ≡ ok first)
      × (scan_from trace_uid (index + 1) messages ≡ ok rest)
      × (scanned.turns ≡ first.turns ++ rest.turns)
      × (scanned.claimed ≡ first.claimed ++ rest.claimed)
unfolding scan_from
scan_from-cons trace_uid index message messages scanned h =
    let (first, f, h') = >>=-eq-ok (scan_message trace_uid index message messages) _ h in
    let (rest, r, h'') = >>=-eq-ok (scan_from trace_uid (index + 1) messages) _ h' in
    let same = sym (ok-injective h'') in
    (first, rest, f, r, ap (λ (s : Scanned). s.turns) same, ap (λ (s : Scanned). s.claimed) same)

-- What the second loop reports of one message
abbrev pub orphan_at : String → List ℕ → ℕ → Value → List Violation
orphan_at trace_uid claimed index message =
    if has_role "tool" message && not (contains claimed index)
    then violation trace_uid orphan_tool_message (some index)
        (field "tool_call_id" (message_value "tool_call_id" message) end)
      ∷ []
    else []

pub orphan_at-nil :
    (trace_uid : String) (claimed : List ℕ) (index : ℕ) (message : Value) (inside : Bool)
    → contains claimed index ≡ (inside && has_role "tool" message)
    → orphan_at trace_uid claimed index message ≡ []
    → has_role "tool" message ≡ true
    → inside ≡ true
orphan_at-nil trace_uid claimed index message true here o t = refl
orphan_at-nil trace_uid claimed index message false here o t =
    (let bad = rw (t, here) at o in absurd (cc))

pub nil-orphan_at :
    (trace_uid : String) (claimed : List ℕ) (index : ℕ) (message : Value) (inside : Bool)
    → contains claimed index ≡ (inside && has_role "tool" message)
    → (has_role "tool" message ≡ true → inside ≡ true)
    → orphan_at trace_uid claimed index message ≡ []
nil-orphan_at trace_uid claimed index message inside here h =
    elim (Bool-cases (has_role "tool" message)) [
      | inl t ↦ rw (t, here, h t, t) refl
      | inr t ↦ rw t refl
    ]

-- The claims of the scan from here on, behind earlier ones, cover the message at hand only if the
-- earlier ones do.
pub claimed_here :
    (trace_uid : String) (claimed : List ℕ) (inside : Bool) (index : ℕ) (message : Value)
    → (messages : List Value) (first rest : Scanned)
    → Covers claimed inside index (message ∷ messages)
    → scan_message trace_uid index message messages ≡ ok first
    → scan_from trace_uid (index + 1) messages ≡ ok rest
    → contains (claimed ++ (first.claimed ++ rest.claimed)) index
      ≡ (inside && has_role "tool" message)
claimed_here trace_uid claimed inside index message messages first rest covers f r =
    let a = first_below trace_uid index message messages first index f (omega arith) in
    let b = scan_from-below trace_uid (index + 1) messages rest index r (omega arith) in
    contains-append claimed (first.claimed ++ rest.claimed) index
    ∙ rw
        (
          contains-append first.claimed rest.claimed index,
          a,
          b,
          covers index (omega arith),
          indexes-head index message messages,
        )
        (ground arith)
