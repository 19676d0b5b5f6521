-- ===== src/Python/Text.antt =====
-- Python's `str` over the native texts. Case and white space are those of ASCII; characters beyond
-- it are left as they are.
use Prim.Native.Char.{Char, char, code}
use agent_debug_x.Base.{
  ℕ, zero, suc, ◌-◌, ◌/◌, ◌%◌, ◌≤◌, String, char_count, ◌+++◌, ◌≡◌, refl, Bool, true, false, ◌&&◌,
  ◌||◌, List, [], ◌∷◌, arith, leb, ltb, nat_beq, if◌then◌else◌,
}
use text.Mathlib.Text.{◌==◌}
use Prim.Native.String.count

-- The text holds the other one at its beginning.
unfoldable pub has_prefix : String → String → Bool
has_prefix String.[] s = true
has_prefix (String.◌∷◌ c p) String.[] = false
has_prefix (String.◌∷◌ c p) (String.◌∷◌ d s) = nat_beq (code c) (code d) && has_prefix p s

-- `needle in text`
unfoldable pub is_in : String → String → Bool
unfolding has_prefix
is_in needle String.[] = needle == ""
is_in needle (String.◌∷◌ c s) = has_prefix needle (String.◌∷◌ c s) || is_in needle s

-- `text[:n]`
unfoldable pub take_chars : ℕ → String → String
take_chars zero s = ""
take_chars (suc n) String.[] = ""
take_chars (suc n) (String.◌∷◌ c s) = String.◌∷◌ c (take_chars n s)

abbrev lower_letters : String
lower_letters = "abcdefghijklmnopqrstuvwxyz"

-- The character at a place of a text, or the given one past its end.
unfoldable pub nth_char : ℕ → Char → String → Char
nth_char n d String.[] = d
nth_char zero d (String.◌∷◌ c s) = c
nth_char (suc n) d (String.◌∷◌ c s) = nth_char n d s

unfoldable pub lower_char : Char → Char
unfolding nth_char
lower_char c =
    if leb 65 (code c) && leb (code c) 90 then nth_char (code c - 65) c lower_letters else c

-- `text.lower()`
unfoldable pub lower : String → String
unfolding lower_char
lower String.[] = ""
lower (String.◌∷◌ c s) = String.◌∷◌ (lower_char c) (lower s)

-- `c.isspace()`
unfoldable pub is_space : Char → Bool
is_space c = (leb 9 (code c) && leb (code c) 13) || (leb 28 (code c) && leb (code c) 32)

-- `text.split()`: the words, where `word` is what was read of the present one.
split_from : String → String → List String
unfolding is_space
split_from word String.[] = if word == "" then [] else word ∷ []
split_from word (String.◌∷◌ c s) = elim (is_space c) [
  | true ↦ (if word == "" then split_from "" s else word ∷ split_from "" s)
  | false ↦ split_from (word +++ String.◌∷◌ c "") s
]

unfoldable pub split : String → List String
unfolding split_from
split = split_from ""

-- `separator.join(texts)`
unfoldable pub join : String → List String → String
join sep [] = ""
join sep (s ∷ []) = s
join sep (s ∷ rest) = s +++ sep +++ join sep rest

-- `text.strip()`: without the white space at the beginning, then at the end.
drop_spaces : String → String
unfolding is_space
drop_spaces String.[] = ""
drop_spaces (String.◌∷◌ c s) = if is_space c then drop_spaces s else String.◌∷◌ c s

drop_end_spaces : String → String
unfolding is_space
drop_end_spaces String.[] = ""
drop_end_spaces (String.◌∷◌ c s) =
    let rest = drop_end_spaces s in if is_space c && rest == "" then "" else String.◌∷◌ c rest

unfoldable pub strip : String → String
unfolding drop_spaces drop_end_spaces
strip s = drop_end_spaces (drop_spaces s)

-- `str(n)` of a whole number that is not negative.
digits_of : ℕ → ℕ → String → String
unfolding nth_char
digits_of zero n acc = acc
digits_of (suc fuel) n acc =
    let acc' = String.◌∷◌ (nth_char (n % 10) (char 48 tt) "0123456789") acc in
    let rest = digits_of fuel (n / 10) acc' in if ltb n 10 then acc' else rest

unfoldable pub show_nat : ℕ → String
unfolding digits_of
show_nat n = digits_of (suc n) n ""

-- `text <= other`, by code points
unfoldable pub text_le : String → String → Bool
text_le String.[] other = true
text_le (String.◌∷◌ c s) String.[] = false
text_le (String.◌∷◌ c s) (String.◌∷◌ d t) =
    let rest = text_le s t in if nat_beq (code c) (code d) then rest else ltb (code c) (code d)

pub count-take_chars-le : (n : ℕ) (s : String) → char_count (take_chars n s) ≤ n
unfolding take_chars
count-take_chars-le zero s = omega arith
count-take_chars-le (suc n) String.[] = omega arith
count-take_chars-le (suc n) (String.◌∷◌ c s) =
    rw (count.cons c (take_chars n s)) (omega (arith, count-take_chars-le n s))

test_text :
    (lower "Task IS done" ≡ "task is done")
    × (is_in "is d" "task is done" ≡ true)
    × (is_in "isd" "task is done" ≡ false)
    × (join " " (split "  a  b\n c ") ≡ "a b c")
    × (strip "  a b \n" ≡ "a b")
    × (show_nat 1207 ≡ "1207")
    × (show_nat 0 ≡ "0")
    × (take_chars 3 "abcdef" ≡ "abc")
unfolding lower is_in split join strip show_nat take_chars nth_char
test_text = (refl, refl, refl, refl, refl, refl, refl, refl)
