-- ===== src/Capture/Bounding.antt =====
-- The size limits of capture/filtering.py. The size of an event is that of the JSON text which
-- pydantic and `json` make of it, and is an argument.
pub mod Limits
use agent_debug_x.Base.{
  ℕ, ◌+◌, String, ◌+++◌, char_count, Option, none, some, List, [], ◌∷◌, if◌then◌else◌, or_else, ltb,
  string_eq, Dict, lookup, insert,
}
use agent_debug_x.Python.{
  Value, Items, Fields, str, list, tuple, dict, nil, cons, end, field, take_chars,
}
use agent_debug_x.Schema.{AgentEvent}

abbrev pub Counters : Type 0
Counters = Dict String ℕ

-- `counters[name] = counters.get(name, 0) + 1`
unfoldable pub count_one : Counters → String → Counters
count_one counters name = insert counters name (or_else (lookup counters name) 0 + 1)

unfoldable pub max_field_chars : ℕ
max_field_chars = 65536

unfoldable pub max_trajectory_chars : ℕ
max_trajectory_chars = 2000000

unfoldable pub bound_text : String → Counters → String × Counters
bound_text text counters =
    if ltb max_field_chars (char_count text)
    then (take_chars max_field_chars text +++ "<truncated>", count_one counters "payload_truncated")
    else (text, counters)

-- `_bound_value`
unfoldable mutual
  pub bound_value : Value → Counters → Value × Counters
  bound_value (str text) counters =
      let (text', counters') = bound_text text counters in (str text', counters')
  bound_value (dict d) counters =
      let (d', counters') = bound_fields d counters in (dict d', counters')
  bound_value (list xs) counters =
      let (xs', counters') = bound_items xs counters in (list xs', counters')
  bound_value (tuple xs) counters =
      let (xs', counters') = bound_items xs counters in (tuple xs', counters')
  bound_value value counters = (value, counters)

  pub bound_items : Items → Counters → Items × Counters
  bound_items nil counters = (nil, counters)
  bound_items (cons v xs) counters =
      let (v', counters') = bound_value v counters in
      let (xs', counters'') = bound_items xs counters' in (cons v' xs', counters'')

  pub bound_fields : Fields → Counters → Fields × Counters
  bound_fields end counters = (end, counters)
  bound_fields (field key v rest) counters =
      let (v', counters') = bound_value v counters in
      let (rest', counters'') = bound_fields rest counters' in (field key v' rest', counters'')

unfoldable pub bound_optional : Option String → Counters → Option String × Counters
bound_optional none counters = (none, counters)
bound_optional (some text) counters =
    let (text', counters') = bound_text text counters in (some text', counters')

-- `_bound_event`
unfoldable pub bound_event : AgentEvent → Counters → AgentEvent × Counters
unfolding bound_optional
bound_event event counters =
    let (input', counters₁) = bound_value event.input counters in
    let (output', counters₂) = bound_value event.output counters₁ in
    let (error', counters₃) = bound_optional event.error counters₂ in
    let (metadata', counters₄) = bound_fields event.metadata counters₃ in
    (
      record event { input = input'; output = output'; error = error'; metadata = metadata' },
      counters₄,
    )

module _ (payload_size : AgentEvent → ℕ) where
  -- The loop stops at the first event that does not fit.
  unfoldable pub bound_events : ℕ → List AgentEvent → Counters → List AgentEvent × Counters
  bound_events total [] counters = ([], counters)
  bound_events total (event ∷ events) counters =
      let (event', counters') = bound_event event counters in
      let size = payload_size event' in
      let rest = bound_events (total + size) events counters' in
      if ltb max_trajectory_chars (total + size)
      then ([], count_one counters' "trajectory_truncated")
      else (event' ∷ rest.0, rest.1)
