-- ===== src/Capture/Filtering/Turns.antt =====
-- The turns that ran this program, as capture/filtering.py finds them: every event of such a turn is
-- among the instrumentation.
use mathlib.Core.List.{append_assoc, append-nil}
use agent_debug_x.Base.{
  String, ◌≡◌, refl, true, false, not, ◌&&◌, inl, inr, List, [], ◌∷◌, ◌++◌, any, any-append_left,
  any-append_right, contains, contains-append, nat_beq, length, if◌then◌else◌, string_eq, arith,
  Bool-cases,
}
use agent_debug_x.Schema.{AgentEvent}
use agent_debug_x.Capture.Exclusion.{
  starts_turn, is_agentdebug_call, event_ids, segment_ids, instrumentation_from,
  instrumentation_ids,
}

-- The id is that of an event in a stretch of the events that no new turn cuts, and in which some
-- call runs this program.
pub record OfProgramTurn (events : List AgentEvent) (id : String) : Type 0 where
  pub before : List AgentEvent
  pub first : AgentEvent
  pub others : List AgentEvent
  pub after : List AgentEvent
  pub parts : events ≡ before ++ (first ∷ others ++ after)
  pub uncut : any starts_turn others ≡ false
  pub runs : any is_agentdebug_call (first ∷ others) ≡ true
  pub has : contains (event_ids (first ∷ others)) id ≡ true

module _ (id : String) where
  contains-left : (xs ys : List String) → contains xs id ≡ true → contains (xs ++ ys) id ≡ true
  contains-left xs ys h = ground (arith, contains-append xs ys id)

  contains-right : (xs ys : List String) → contains ys id ≡ true → contains (xs ++ ys) id ≡ true
  contains-right xs ys h = ground (arith, contains-append xs ys id)

  event_ids-left :
      (xs ys : List AgentEvent)
      → contains (event_ids xs) id ≡ true
      → contains (event_ids (xs ++ ys)) id ≡ true
  unfolding event_ids contains
  event_ids-left [] ys h = cc
  event_ids-left (x ∷ xs) ys h = elim (Bool-cases (string_eq.beq x.event_id id)) [
    | inl e ↦ rw e refl
    | inr e ↦ rw e (event_ids-left xs ys (rw e at h))
  ]

  event_ids-right :
      (xs ys : List AgentEvent)
      → contains (event_ids ys) id ≡ true
      → contains (event_ids (xs ++ ys)) id ≡ true
  unfolding event_ids contains
  event_ids-right [] ys h = h
  event_ids-right (x ∷ xs) ys h = elim (Bool-cases (string_eq.beq x.event_id id)) [
    | inl e ↦ rw e refl
    | inr e ↦ rw e (event_ids-right xs ys h)
  ]

  -- What is excluded stays so.
  instrumentation_from-keeps :
      (segment : List AgentEvent) (excluded : List String) (events : List AgentEvent)
      → contains excluded id ≡ true
      → contains (instrumentation_from segment excluded events) id ≡ true
  unfolding instrumentation_from
  instrumentation_from-keeps segment excluded [] h = contains-left excluded (segment_ids segment) h
  instrumentation_from-keeps segment excluded (event ∷ events) h =
      elim (Bool-cases (starts_turn event && not (nat_beq (length segment) 0))) [
        | inl e ↦ rw e (
            instrumentation_from-keeps (event ∷ []) (excluded ++ segment_ids segment) events
              (contains-left excluded (segment_ids segment) h))
        | inr e ↦ rw e (instrumentation_from-keeps (segment ++ event ∷ []) excluded events h)
      ]

  -- The segment at hand is excluded in the end, with what is still added to it.
  instrumentation_from-segment :
      (segment : List AgentEvent) (excluded : List String) (events : List AgentEvent)
      → any is_agentdebug_call segment ≡ true
      → contains (event_ids segment) id ≡ true
      → contains (instrumentation_from segment excluded events) id ≡ true
  unfolding instrumentation_from segment_ids
  instrumentation_from-segment segment excluded [] runs has =
      rw runs (contains-right excluded (event_ids segment) has)
  instrumentation_from-segment segment excluded (event ∷ events) runs has =
      elim (Bool-cases (starts_turn event && not (nat_beq (length segment) 0))) [
        | inl e ↦
            rw (e, runs)
              (instrumentation_from-keeps (event ∷ []) (excluded ++ event_ids segment) events
                (contains-right excluded (event_ids segment) has))
        | inr e ↦ rw e (
            instrumentation_from-segment (segment ++ event ∷ []) excluded events
              (any-append_left is_agentdebug_call segment (event ∷ []) runs)
              (event_ids-left segment (event ∷ []) has))
      ]

  -- Events that start no turn extend the segment.
  instrumentation_from-uncut :
      (segment : List AgentEvent) (excluded : List String) (others after : List AgentEvent)
      → any starts_turn others ≡ false
      → any is_agentdebug_call (segment ++ others) ≡ true
      → contains (event_ids (segment ++ others)) id ≡ true
      → contains (instrumentation_from segment excluded (others ++ after)) id ≡ true
  unfolding instrumentation_from any
  instrumentation_from-uncut segment excluded [] after uncut runs has =
      instrumentation_from-segment segment excluded after (rw (append-nil segment) at runs)
        (rw (append-nil segment) at has)
  instrumentation_from-uncut segment excluded (x ∷ others) after uncut runs has =
      let stays : starts_turn x ≡ false = ground arith in
      let uncut' : any starts_turn others ≡ false = ground arith in
      let same : (segment ++ x ∷ []) ++ others ≡ segment ++ x ∷ others =
        append_assoc segment (x ∷ []) others in
      rw (stays, instrumentation_from)
        (instrumentation_from-uncut (segment ++ x ∷ []) excluded others after uncut' (rw same runs)
          (rw same has))

  -- Wherever the turn begins
  instrumentation_from-turn :
      (segment : List AgentEvent) (excluded : List String) (before : List AgentEvent)
      → (first : AgentEvent) (others after : List AgentEvent) → any starts_turn others ≡ false
      → any is_agentdebug_call (first ∷ others) ≡ true
      → contains (event_ids (first ∷ others)) id ≡ true
      → contains (instrumentation_from segment excluded (before ++ (first ∷ others ++ after))) id
        ≡ true
  unfolding instrumentation_from
  instrumentation_from-turn segment excluded (event ∷ before) first others after uncut runs has =
      let cut = starts_turn event && not (nat_beq (length segment) 0) in
      instrumentation_from-turn ((if cut then [] else segment) ++ event ∷ [])
        (if cut then excluded ++ segment_ids segment else excluded) before first others after uncut
        runs has
  instrumentation_from-turn segment excluded [] first others after uncut runs has =
      let cut = starts_turn first && not (nat_beq (length segment) 0) in
      let open_segment = if cut then [] else segment in
      let same : (open_segment ++ first ∷ []) ++ others ≡ open_segment ++ first ∷ others =
        append_assoc open_segment (first ∷ []) others in
      instrumentation_from-uncut (open_segment ++ first ∷ [])
        (if cut then excluded ++ segment_ids segment else excluded) others after uncut
        (rw same (any-append_right is_agentdebug_call open_segment (first ∷ others) runs))
        (rw same (event_ids-right open_segment (first ∷ others) has))

-- Every id of a turn that ran this program is among the instrumentation.
pub OfProgramTurn-instrumentation_ids :
    (events : List AgentEvent) (id : String)
    → OfProgramTurn events id
    → contains (instrumentation_ids events) id ≡ true
unfolding instrumentation_ids
OfProgramTurn-instrumentation_ids events id t =
    rw t.parts
      (instrumentation_from-turn id [] [] t.before t.first t.others t.after t.uncut t.runs t.has)
