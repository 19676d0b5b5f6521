-- ===== src/Detect/Anomalies/ModeCount.antt =====
-- `_mode_count` of diagnose/detect/rules/packs/core/rules.py finds a text that occurs most often.
use agent_debug_x.Base.{
  ℕ, ◌+◌, ◌≤◌, String, ◌≡◌, refl, List, [], ◌∷◌, arith, lookup, insert, lookup-insert, or_else,
  if◌then◌else◌, ltb, string_eq, Dict, count_if,
}
use agent_debug_x.Detect.Anomalies.{mode_count, mode_count_from}

-- How often a text occurs in a list
abbrev pub occurrences : String → List String → ℕ
occurrences item items = count_if (string_eq.beq item) items

abbrev count_in : Dict String ℕ → String → ℕ
count_in counts item = or_else (lookup counts item) 0

count_in-insert :
    (counts : Dict String ℕ) (item other : String) (n : ℕ)
    → count_in (insert counts item n) other
      ≡ (if string_eq.beq item other then n else count_in counts other)
count_in-insert counts item other n = ground (arith, lookup-insert counts item other n)

-- The best text so far has its count, and no count is greater.
record IsBest (counts : Dict String ℕ) (best : String × ℕ) : Type 0 where
  counted : count_in counts best.0 ≡ best.1
  greatest : (item : String) → count_in counts item ≤ best.1

abbrev next_best : Dict String ℕ → String × ℕ → String → String × ℕ
next_best counts best item =
    if ltb best.1 (count_in counts item + 1) then (item, count_in counts item + 1) else best

IsBest-next :
    (counts : Dict String ℕ) (best : String × ℕ) (item : String)
    → IsBest counts best
    → IsBest (insert counts item (count_in counts item + 1)) (next_best counts best item)
IsBest-next counts best item b =
    let n = count_in counts item + 1 in
    record {
      counted = ground (
        arith,
        b.counted,
        count_in-insert counts item item n,
        count_in-insert counts item best.0 n,
        string_eq.beq_iff item item,
        string_eq.beq_iff item best.0,
      );
      greatest = λ other. ground (
        arith,
        b.greatest other,
        count_in-insert counts item other n,
        string_eq.beq_iff item other,
      );
    }

-- The counts at the end are those of the start plus the occurrences.
record Counts (counts : Dict String ℕ) (items : List String) (found : String × ℕ) : Type 0 where
  counted : count_in counts found.0 + occurrences found.0 items ≡ found.1
  greatest : (item : String) → count_in counts item + occurrences item items ≤ found.1

mode_count_from-Counts :
    (counts : Dict String ℕ) (best : String × ℕ) (items : List String)
    → IsBest counts best
    → Counts counts items (mode_count_from counts best items)
unfolding mode_count_from count_if
mode_count_from-Counts counts best [] b = record {
  counted = omega (arith, b.counted);
  greatest = λ item. omega (arith, b.greatest item);
}
mode_count_from-Counts counts best (item ∷ items) b =
    let c =
      mode_count_from-Counts (insert counts item (count_in counts item + 1))
        (next_best counts best item) items (IsBest-next counts best item b) in
    let n = count_in counts item + 1 in
    let found = mode_count_from (insert counts item n) (next_best counts best item) items in
    record {
      counted = ground (
        arith,
        c.counted,
        count_in-insert counts item found.0 n,
        string_eq.beq_iff item found.0,
        string_eq.beq_iff found.0 item,
      );
      greatest = λ other. ground (
        arith,
        c.greatest other,
        count_in-insert counts item other n,
        string_eq.beq_iff item other,
        string_eq.beq_iff other item,
      );
    }

-- The count that `_mode_count` returns is that of the text which it returns, and no text occurs more
-- often.
pub mode_count-greatest :
    (items : List String)
    → (occurrences (mode_count items).0 items ≡ (mode_count items).1)
      × ((item : String) → occurrences item items ≤ (mode_count items).1)
unfolding mode_count lookup
mode_count-greatest items =
    let c =
      mode_count_from-Counts [] ("", 0) items
        (record { counted = refl; greatest = λ item. omega arith }) in
    (omega (arith, c.counted), λ item. omega (arith, c.greatest item))
