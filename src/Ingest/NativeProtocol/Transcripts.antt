-- ===== src/Ingest/NativeProtocol/Transcripts.antt =====
-- Transcripts that ingest/native_protocol.py finds nothing wrong with: a description without indexes.
use agent_debug_x.Base.{
  ℕ, ◌+◌, String, ◌≡◌, refl, ap, ◌↔◌, inl, inr, Bool, true, false, ◌&&◌, ◌||◌, some, List, [], ◌∷◌,
  ◌++◌, map, all, flat_map, if◌then◌else◌, string_eq, nat_eq, Bool-cases, Option-cases,
}
use agent_debug_x.Python.{
  Value, Items, null, str, list, item_list, is_hashable, Result, ok, ok-injective,
}
use agent_debug_x.Ingest.NativeProtocol.{
  Violation, AssistantTurn, Scanned, has_role, message_value, tool_batch, call_ids_of, is_unique,
  texts_of, answers_once, turn_violations,
}

-- The call ids of the tool messages that follow, up to the first other message
abbrev pub batch_ids : List Value → List Value
batch_ids [] = []
batch_ids (message ∷ messages) =
    if has_role "tool" message
    then message_value "tool_call_id" message ∷ batch_ids messages
    else []

-- The calls of an assistant message have ids, which are distinct texts, and are answered by the tool
-- messages that follow, each exactly once.
pub record IsAnswered (calls following : List Value) : Type 0 where
  pub ids : List String
  pub named : call_ids_of calls ≡ some ids
  pub unique : is_unique ids ≡ true
  pub answered : answers_once (batch_ids following) ids ≡ true

abbrev pub CallsFit : Value → List Value → Type 0
CallsFit null following = Unit
CallsFit (list (Items.cons call calls)) following = IsAnswered (call ∷ item_list calls) following
CallsFit _ following = ⊥

abbrev pub is_calls : Value → Bool
is_calls (list (Items.cons call calls)) = true
is_calls _ = false

-- An assistant message with calls
abbrev pub opens : Value → Bool
opens message = has_role "assistant" message && is_calls (message_value "tool_calls" message)

-- A message by message description, with whether the batch of an assistant message is open: a tool
-- message stands in an open batch, and the calls of an assistant message fit what follows.
abbrev pub IsClean : Bool → List Value → Type 0
IsClean inside [] = Unit
IsClean inside (message ∷ messages) =
    (has_role "tool" message ≡ true → inside ≡ true)
    × (has_role "assistant" message ≡ true → CallsFit (message_value "tool_calls" message) messages)
    × IsClean (opens message || inside && has_role "tool" message) messages

abbrev pub violations_of : List AssistantTurn → List Violation
violations_of turns = flat_map (λ (turn : AssistantTurn). turn.violations) turns

abbrev pub indexes : ℕ → List Value → List ℕ
indexes index messages = map (λ entry. entry.0) (tool_batch index messages)

pub map-tool_batch :
    (index : ℕ) (messages : List Value)
    → map (λ entry. entry.1) (tool_batch index messages) ≡ batch_ids messages
unfolding tool_batch
map-tool_batch index [] = refl
map-tool_batch index (message ∷ messages) = elim (Bool-cases (has_role "tool" message)) [
  | inl e ↦
      rw e
        (ap (λ l. message_value "tool_call_id" message ∷ l) (map-tool_batch (index + 1) messages))
  | inr e ↦ rw e refl
]

pub append-eq-nil {ℓ} : {A : Type ℓ} (xs ys : List A) → xs ++ ys ≡ [] → (xs ≡ []) × (ys ≡ [])
append-eq-nil [] ys h = (refl, h)
append-eq-nil (x ∷ xs) ys h = cc

pub turn_violations-nil :
    (trace_uid : String) (index : ℕ) (ids : List String) (tool_ids : List Value)
    → (turn_violations trace_uid index ids tool_ids ≡ [])
      ↔ ((is_unique ids ≡ true) × (answers_once tool_ids ids ≡ true))
unfolding turn_violations
turn_violations-nil trace_uid index ids tool_ids = elim (Bool-cases (is_unique ids)) [
  | inl u ↦ elim (Bool-cases (answers_once tool_ids ids)) [
    | inl a ↦ rw (u, a) ((λ _. (refl, refl)), (λ _. refl))
    | inr a ↦ rw (u, a) ((λ h. absurd (cc)), (λ h. absurd (cc)))
  ]
  | inr u ↦ rw u ((λ h. absurd (cc)), (λ h. absurd (cc)))
]

texts_of-hashable :
    (values : List Value) (texts : List String)
    → texts_of values ≡ some texts
    → all is_hashable values ≡ true
unfolding texts_of all is_hashable
texts_of-hashable [] texts h = refl
texts_of-hashable (str s ∷ values) texts h = elim (Option-cases (texts_of values)) [
  | inl e ↦ (let bad = rw (texts_of, e) at h in absurd (cc))
  | inr (rest, e) ↦ texts_of-hashable values rest e
]
texts_of-hashable (null ∷ values) texts h = cc
texts_of-hashable (Value.bool b ∷ values) texts h = cc
texts_of-hashable (Value.int n ∷ values) texts h = cc
texts_of-hashable (Value.float t ∷ values) texts h = cc
texts_of-hashable (list xs ∷ values) texts h = cc
texts_of-hashable (Value.tuple xs ∷ values) texts h = cc
texts_of-hashable (Value.dict d ∷ values) texts h = cc

pub answers_once-hashable :
    (values : List Value) (ids : List String)
    → answers_once values ids ≡ true
    → all is_hashable values ≡ true
unfolding answers_once
answers_once-hashable values ids h = elim (Option-cases (texts_of values)) [
  | inl e ↦ (let bad = rw (answers_once, e) at h in absurd (cc))
  | inr (texts, e) ↦ texts_of-hashable values texts e
]

-- What the scan of a message finds nothing wrong with
abbrev pub Fine : Result Scanned → List ℕ → Type 0
Fine result claimed =
    (scanned : Scanned) × (result ≡ ok scanned)
    × (violations_of scanned.turns ≡ [])
    × (scanned.claimed ≡ claimed)

-- A turn that was rejected has a violation.
pub rejected-violations {κ} :
    {P : Type κ} (violation : Violation) (turn : AssistantTurn) (claimed : List ℕ)
    (scanned : Scanned)
    → turn.violations ≡ violation ∷ []
    → ok (record { turns = turn ∷ []; claimed = claimed }) ≡ ok scanned
    → violations_of scanned.turns ≡ []
    → P
unfolding flat_map
rejected-violations violation turn claimed scanned t h v =
    let v' = rw (← ok-injective h) at v in let v'' = rw t at v' in absurd (cc)
