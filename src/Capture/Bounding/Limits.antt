-- ===== src/Capture/Bounding/Limits.antt =====
-- The limits that the bounding of capture/filtering.py establishes, and what it leaves alone.
use agent_debug_x.Base.{
  ℕ, ◌+◌, ◌≤◌, String, char_count, ◌≡◌, refl, ap, inl, inr, Option, none, some, List, [], ◌∷◌, ltb,
  Bool-cases, arith, length, get_elem?, zero, suc,
}
use agent_debug_x.Python.{
  Value, Items, Fields, null, bool, int, float, str, list, tuple, dict, nil, cons, end, field,
  take_chars, count-take_chars-le, AllTexts, AllTextsItems, AllTextsFields, shape, shape_items,
  shape_fields,
}
use agent_debug_x.Schema.{AgentEvent}
use agent_debug_x.Capture.Bounding.{
  Counters, max_field_chars, max_trajectory_chars, bound_text, bound_value, bound_items,
  bound_fields, bound_optional, bound_event, bound_events,
}
use mathlib.Core.Option.{some-injective}
use text.Mathlib.TextLemmas.{length-append as count-append}

-- The limit, and the eleven characters of the mark `<truncated>`
abbrev pub IsShort : String → Type 0
IsShort text = char_count text ≤ max_field_chars + 11

bound_text-IsShort : (text : String) (counters : Counters) → IsShort (bound_text text counters).0
unfolding bound_text max_field_chars
bound_text-IsShort text counters = elim (Bool-cases (ltb 65536 (char_count text))) [
  | inl e ↦ rw e (
      rw (count-append (take_chars 65536 text) "<truncated>")
        (omega (arith, count-take_chars-le 65536 text)))
  | inr e ↦ rw e (ground arith)
]

-- Every text in the bounded value is short, and its shape is that of the value.
abbrev pub IsBounded : Value → Value → Type 0
IsBounded value bounded = AllTexts IsShort bounded × (shape bounded ≡ shape value)

mutual
  unfolding bound_value bound_items bound_fields AllTexts AllTextsItems AllTextsFields shape
      shape_items shape_fields

  bound_value-IsBounded : (v : Value) (c : Counters) → IsBounded v (bound_value v c).0
  bound_value-IsBounded (str text) c = (bound_text-IsShort text c, refl)
  bound_value-IsBounded (dict d) c = let (a, b) = bound_fields-IsBounded d c in (a, ap dict b)
  bound_value-IsBounded (list xs) c = let (a, b) = bound_items-IsBounded xs c in (a, ap list b)
  bound_value-IsBounded (tuple xs) c = let (a, b) = bound_items-IsBounded xs c in (a, ap tuple b)
  bound_value-IsBounded null c = (tt, refl)
  bound_value-IsBounded (bool b) c = (tt, refl)
  bound_value-IsBounded (int n) c = (tt, refl)
  bound_value-IsBounded (float x) c = (tt, refl)

  bound_items-IsBounded :
      (xs : Items) (c : Counters)
      → AllTextsItems IsShort (bound_items xs c).0
        × (shape_items (bound_items xs c).0 ≡ shape_items xs)
  bound_items-IsBounded nil c = (tt, refl)
  bound_items-IsBounded (cons v xs) c =
      let (a, b) = bound_value-IsBounded v c in
      let (a', b') = bound_items-IsBounded xs (bound_value v c).1 in ((a, a'), rw (b, b') refl)

  bound_fields-IsBounded :
      (d : Fields) (c : Counters)
      → AllTextsFields IsShort (bound_fields d c).0
        × (shape_fields (bound_fields d c).0 ≡ shape_fields d)
  bound_fields-IsBounded end c = (tt, refl)
  bound_fields-IsBounded (field key v rest) c =
      let (a, b) = bound_value-IsBounded v c in
      let (a', b') = bound_fields-IsBounded rest (bound_value v c).1 in ((a, a'), rw (b, b') refl)

-- The payload of the events together
unfoldable pub sum_sizes : (AgentEvent → ℕ) → List AgentEvent → ℕ
sum_sizes payload_size [] = 0
sum_sizes payload_size (event ∷ events) = payload_size event + sum_sizes payload_size events

abbrev pub AllShort : Option String → Type 0
AllShort none = Unit
AllShort (some text) = IsShort text

-- The texts of a bounded event are short, and the rest of it is that of the event.
pub record IsBoundedEvent (event bounded : AgentEvent) : Type 0 where
  pub input : IsBounded event.input bounded.input
  pub output : IsBounded event.output bounded.output
  pub metadata : IsBounded (dict event.metadata) (dict bounded.metadata)
  pub error : AllShort bounded.error
  pub rest : bounded ≡ (record event {
    input = bounded.input;
    output = bounded.output;
    error = bounded.error;
    metadata = bounded.metadata;
  })

bounded_optional : (o : Option String) (c : Counters) → AllShort (bound_optional o c).0
unfolding bound_optional
bounded_optional none c = tt
bounded_optional (some t) c = bound_text-IsShort t c

-- Bounding an event leaves no text in its input, output, error or metadata longer than the limit and
-- the mark of truncation, keeps the shape of the values and changes nothing else.
pub bound_event-IsBoundedEvent :
    (event : AgentEvent) (counters : Counters) → IsBoundedEvent event (bound_event event counters).0
unfolding bound_event AllTexts shape
bound_event-IsBoundedEvent event counters =
    let after_input = (bound_value event.input counters).1 in
    let after_output = (bound_value event.output after_input).1 in
    let after_error = (bound_optional event.error after_output).1 in
    let (a, b) = bound_fields-IsBounded event.metadata after_error in
    record {
      input = bound_value-IsBounded event.input counters;
      output = bound_value-IsBounded event.output after_input;
      metadata = (a, ap dict b);
      error = bounded_optional event.error after_output;
      rest = refl;
    }

module _ (payload_size : AgentEvent → ℕ) where
  -- The payload of the bounded events, with the total so far, stays within the limit, and they are
  -- no more than the events.
  pub bound_events-le :
      (total : ℕ) (events : List AgentEvent) (counters : Counters)
      → total ≤ max_trajectory_chars
      → (total + sum_sizes payload_size (bound_events payload_size total events counters).0
          ≤ max_trajectory_chars)
        × (length (bound_events payload_size total events counters).0 ≤ length events)
  unfolding bound_events sum_sizes
  bound_events-le total [] counters h = (omega arith, omega arith)
  bound_events-le total (event ∷ events) counters h =
      let event' = (bound_event event counters).0 in
      let counters' = (bound_event event counters).1 in
      let size = payload_size event' in
      elim (Bool-cases (ltb max_trajectory_chars (total + size))) [
        | inl e ↦ rw e ((omega arith, omega arith))
        | inr e ↦
            (let fits : total + size ≤ max_trajectory_chars = ground arith in
              let (a, b) = bound_events-le (total + size) events counters' fits in
              rw e ((omega arith, omega arith)))
      ]

  -- Each event that is left is an event of the list, bounded, in the same place.
  bound_events-IsBounded :
      (total : ℕ) (events : List AgentEvent) (counters : Counters) (i : ℕ) (bounded : AgentEvent)
      → get_elem? (bound_events payload_size total events counters).0 i ≡ some bounded
      → (event : AgentEvent) × (get_elem? events i ≡ some event) × IsBoundedEvent event bounded
  unfolding bound_events
  bound_events-IsBounded total [] counters i bounded h = cc
  bound_events-IsBounded total (event ∷ events) counters zero bounded h =
      let event' = (bound_event event counters).0 in
      let valid = bound_event-IsBoundedEvent event counters in
      elim (Bool-cases (ltb max_trajectory_chars (total + payload_size event'))) [
        | inl e ↦ (let bad : none ≡ some bounded = rw e at h in cc)
        | inr e ↦
            (let same : event' ≡ bounded = some-injective event' bounded (rw e at h) in
              (event, refl, rw (← same) valid))
      ]
  bound_events-IsBounded total (event ∷ events) counters (suc i) bounded h =
      let event' = (bound_event event counters).0 in
      let counters' = (bound_event event counters).1 in
      let size = payload_size event' in
      elim (Bool-cases (ltb max_trajectory_chars (total + size))) [
        | inl e ↦ (let bad : none ≡ some bounded = rw e at h in cc)
        | inr e ↦ bound_events-IsBounded (total + size) events counters' i bounded (rw e at h)
      ]
