-- ===== src/Capture/Filtering/Parents.antt =====
-- The climb to the nearest kept ancestor in capture/filtering.py: it ends, and where.
use agent_debug_x.Base.{
  ℕ, zero, suc, ◌+◌, ◌≤◌, ◌<◌, String, ◌≡◌, refl, sym, ◌⊎◌, inl, inr, Bool, true, false, not,
  Option, none, some, List, [], ◌∷◌, contains, string_eq, Dict, lookup, length, count_if,
  count_if-le-length, Bool-cases, Option-cases, arith,
}
use agent_debug_x.Schema.{AgentEvent}
use agent_debug_x.Capture.Filtering.{parent_of, climb, nearest_kept_parent}

-- From the first id, by parents of events that are not kept, to the second, which is kept.
pub data Ascends (by_id : Dict String AgentEvent) (kept : List String)
    : Option String → String → Type 0 where
  here : (id : String) → contains kept id ≡ true → Ascends by_id kept (some id) id
  up :
      (id ancestor : String)
      → contains kept id ≡ false
      → Ascends by_id kept (parent_of by_id id) ancestor
      → Ascends by_id kept (some id) ancestor

-- Whether the key of an entry is yet to be seen
abbrev unseen : List String → String × AgentEvent → Bool
unseen seen entry = not (contains seen entry.0)

count-unseen-le :
    (by_id : Dict String AgentEvent) (seen : List String) (id : String)
    → count_if (unseen (id ∷ seen)) by_id ≤ count_if (unseen seen) by_id
unfolding count_if contains
count-unseen-le [] seen id = omega arith
count-unseen-le ((k, event) ∷ by_id) seen id = ground (arith, count-unseen-le by_id seen id)

-- Seeing a key for the first time leaves fewer unseen ones.
count-unseen-lt :
    (by_id : Dict String AgentEvent) (seen : List String) (id : String) (event : AgentEvent)
    → lookup by_id id ≡ some event
    → contains seen id ≡ false
    → count_if (unseen (id ∷ seen)) by_id < count_if (unseen seen) by_id
unfolding count_if contains lookup
count-unseen-lt [] seen id event h new = cc
count-unseen-lt ((k, found) ∷ by_id) seen id event h new = elim (Bool-cases (string_eq.beq k id)) [
  | inl e ↦
      (let same : k ≡ id = (string_eq.beq_iff k id).0 e in
        let mine : string_eq.beq id k ≡ true = (string_eq.beq_iff id k).1 (sym same) in
        let new' : contains seen k ≡ false = rw same new in
        rw (mine, new') (omega (arith, count-unseen-le by_id seen id)))
  | inr e ↦ (let less = count-unseen-lt by_id seen id event (rw e at h) new in ground arith)
]

parent_of-missing :
    (by_id : Dict String AgentEvent) (id : String)
    → lookup by_id id ≡ none
    → parent_of by_id id ≡ none
unfolding parent_of
parent_of-missing by_id id h = rw (parent_of, h) refl

ascend :
    (by_id : Dict String AgentEvent) (kept : List String) (id : String) (r : Option String)
    → contains kept id ≡ false
    → (r ≡ none) ⊎ ((a : String) × (r ≡ some a) × Ascends by_id kept (parent_of by_id id) a)
    → (r ≡ none) ⊎ ((a : String) × (r ≡ some a) × Ascends by_id kept (some id) a)
ascend by_id kept id r k path = elim path [
  | inl e ↦ inl e
  | inr (a, e, p) ↦ inr (a, e, up id a k p)
]

climb-ends :
    (by_id : Dict String AgentEvent) (kept : List String) (fuel : ℕ) (seen : List String)
    → (parent : Option String) → count_if (unseen seen) by_id + 1 < fuel
    → (r : Option String) × (climb by_id kept fuel seen parent ≡ some r)
      × ((r ≡ none) ⊎ ((id : String) × (r ≡ some id) × Ascends by_id kept parent id))
unfolding climb
climb-ends by_id kept fuel seen none h = (none, refl, inl refl)
climb-ends by_id kept zero seen (some id) h = ground arith
climb-ends by_id kept (suc fuel) seen (some id) h = elim (Bool-cases (contains kept id)) [
  | inl k ↦ rw k ((some id, refl, inr (id, refl, here id k)))
  | inr k ↦ elim (Bool-cases (contains seen id)) [
    | inl s ↦ rw (k, s) ((none, refl, inl refl))
    | inr s ↦ elim (Option-cases (lookup by_id id)) [
      | inl l ↦ rw (k, s, parent_of-missing by_id id l) ((none, refl, inl refl))
      | inr (event, l) ↦
          (let fewer = count-unseen-lt by_id seen id event l s in
            let (r, e, path) =
              climb-ends by_id kept fuel (id ∷ seen) (parent_of by_id id) (omega arith) in
            rw (k, s, e) ((r, refl, ascend by_id kept id r k path)))
    ]
  ]
]

-- The climb ends within the fuel it is given, whatever cycles the parents make, and its result is the
-- new parent: none, or an event that is kept and is reached through events that are not.
pub nearest_kept_parent-Ascends :
    (by_id : Dict String AgentEvent) (kept : List String) (parent : Option String)
    → (climb by_id kept (suc (suc (length by_id))) [] parent
        ≡ some (nearest_kept_parent by_id kept parent))
      × ((nearest_kept_parent by_id kept parent ≡ none)
          ⊎ ((id : String) × (nearest_kept_parent by_id kept parent ≡ some id)
              × Ascends by_id kept parent id))
unfolding nearest_kept_parent
nearest_kept_parent-Ascends by_id kept parent =
    let enough = count_if-le-length (unseen []) by_id in
    let (r, e, path) = climb-ends by_id kept (suc (suc (length by_id))) [] parent (omega arith) in
    rw e ((refl, path))

pub Ascends-kept :
    (by_id : Dict String AgentEvent) (kept : List String) (parent : Option String) (id : String)
    → Ascends by_id kept parent id
    → contains kept id ≡ true
Ascends-kept by_id kept _ _ (here id k) = k
Ascends-kept by_id kept _ _ (up id a k path) = Ascends-kept by_id kept _ a path
