-- ===== src/Python/Values.antt =====
-- Values of type `Any`: JSON-shaped data, with `str()`, truth, `dict.get` and `dict.update`.
use Prim.Native.Char.{Char, char, code}
use agent_debug_x.Base.{
  ℕ, zero, suc, ◌+◌, ◌/◌, ◌%◌, String, ◌+++◌, ◌≡◌, refl, Bool, true, false, not, ◌&&◌, ◌||◌, Option,
  none, some, List, [], ◌∷◌, arith, ltb, nat_beq, if◌then◌else◌,
}
use agent_debug_x.Python.Text.{is_in, join, show_nat, nth_char}
use text.Mathlib.Text.{◌==◌}
use text.Mathlib.TextEquality.{eq_iff}

-- `negsuc n` is -(n + 1).
pub data ℤ : Type 0 where
  pos : ℕ → ℤ
  negsuc : ℕ → ℤ

-- A float is kept as the text that `str()` prints for it: the program only prints it or asks
-- whether it is zero.
mutual
  -- A dictionary with its keys in the order of insertion.
  pub data Fields : Type 0 where
    end : Fields
    field : (key : String) (item : Value) (rest : Fields) → Fields

  -- The elements of a list or of a tuple.
  pub data Items : Type 0 where
    cons : (item : Value) (rest : Items) → Items
    nil : Items

  pub data Value : Type 0 where
    null : Value
    bool : Bool → Value
    int : ℤ → Value
    float str : String → Value
    list tuple : Items → Value
    dict : Fields → Value

-- `d.get(key)`
unfoldable pub get : Fields → String → Option Value
get end key = none
get (field k v rest) key = let found = get rest key in if k == key then some v else found

-- `d.get(key)`, where a missing key reads as `None`
unfoldable pub get_value : Fields → String → Value
unfolding get
get_value d key = elim (get d key) [ none ↦ null | some v ↦ v ]

-- `d[key] = value`: an old key keeps its place.
unfoldable pub put : Fields → String → Value → Fields
put end key value = field key value end
put (field k v rest) key value =
    let rest' = put rest key value in if k == key then field k value rest else field k v rest'

-- `d.update(e)`
unfoldable pub update : Fields → Fields → Fields
unfolding put
update d end = d
update d (field k v rest) = update (put d k v) rest

-- `bool(value)`
unfoldable pub truthy : Value → Bool
truthy null = false
truthy (bool b) = b
truthy (int (pos n)) = ltb 0 n
truthy (int (negsuc n)) = true
truthy (float t) = not (t == "0.0" || t == "-0.0")
truthy (str s) = not (s == "")
truthy (list nil) = false
truthy (tuple nil) = false
truthy (dict end) = false
truthy _ = true

-- `isinstance(value, dict)`, with the dictionary
abbrev pub as_dict : Value → Option Fields
as_dict (dict d) = some d
as_dict _ = none

-- `isinstance(value, list)`, with the items
abbrev pub as_list : Value → Option Items
as_list (list xs) = some xs
as_list _ = none

-- `value or other`
unfoldable pub value_or : Value → Value → Value
unfolding truthy
value_or v w = if truthy v then v else w

-- `isinstance(value, bool)`, with the truth value
abbrev pub as_bool : Value → Option Bool
as_bool (bool b) = some b
as_bool _ = none

-- `isinstance(value, int)`, with the number: a truth value is an `int` too.
abbrev pub as_int : Value → Option ℤ
as_int (int n) = some n
as_int (bool b) = some (pos (if b then 1 else 0))
as_int _ = none

-- `value == text`
abbrev pub is_str : Value → String → Bool
is_str (str s) text = s == text
is_str _ text = false

-- A value of type `Optional[str]` or `Optional[int]`
abbrev pub opt_str : Option String → Value
opt_str none = null
opt_str (some s) = str s

abbrev pub opt_int : Option ℕ → Value
opt_int none = null
opt_int (some n) = int (pos n)

unfoldable pub take_items : ℕ → Items → Items
take_items zero xs = nil
take_items (suc n) nil = nil
take_items (suc n) (cons v xs) = cons v (take_items n xs)

-- `items[0]`, `none` where the list is empty
abbrev pub first_item : Items → Option Value
first_item nil = none
first_item (cons v xs) = some v

unfoldable pub map_items : (Value → Value) → Items → Items
map_items f nil = nil
map_items f (cons v xs) = cons (f v) (map_items f xs)

unfoldable pub to_items : List Value → Items
to_items [] = nil
to_items (v ∷ rest) = cons v (to_items rest)

unfoldable pub item_list : Items → List Value
item_list nil = []
item_list (cons v xs) = v ∷ item_list xs

-- `len(d)`
unfoldable pub field_count : Fields → ℕ
field_count end = 0
field_count (field k v rest) = field_count rest + 1

-- `hash(value)` does not raise
unfoldable pub is_hashable : Value → Bool
is_hashable (list xs) = false
is_hashable (dict d) = false
is_hashable _ = true

-- The characters of a text, as the texts over which a loop runs.
unfoldable pub char_items : String → Items
char_items String.[] = nil
char_items (String.◌∷◌ c s) = cons (str (String.◌∷◌ c "")) (char_items s)

abbrev pub is_true : Value → Bool
is_true (bool true) = true
is_true _ = false

abbrev pub is_false : Value → Bool
is_false (bool false) = true
is_false _ = false

show_int : ℤ → String
show_int (pos n) = show_nat n
show_int (negsuc n) = "-" +++ show_nat (suc n)

hex_digit : ℕ → String
unfolding nth_char
hex_digit n = String.◌∷◌ (nth_char n (char 48 tt) "0123456789abcdef") ""

escape_char : ℕ → Char → String
unfolding hex_digit
escape_char quote c =
    if nat_beq (code c) quote || nat_beq (code c) 92
    then "\\" +++ String.◌∷◌ c ""
    else if nat_beq (code c) 10
    then "\\n"
    else if nat_beq (code c) 13
    then "\\r"
    else if nat_beq (code c) 9
    then "\\t"
    else if ltb (code c) 32 || nat_beq (code c) 127
    then "\\x" +++ hex_digit (code c / 16) +++ hex_digit (code c % 16)
    else String.◌∷◌ c ""

escape : ℕ → String → String
unfolding escape_char
escape quote String.[] = ""
escape quote (String.◌∷◌ c s) = escape_char quote c +++ escape quote s

-- `repr(text)`: in double quotes if the text has single ones and no double ones.
repr_text : String → String
unfolding escape
repr_text s =
    if is_in "'" s && not (is_in "\"" s)
    then "\"" +++ escape 34 s +++ "\""
    else "'" +++ escape 39 s +++ "'"

mutual
  repr : Value → String
  repr null = "None"
  repr (bool b) = if b then "True" else "False"
  repr (int n) = show_int n
  repr (float t) = t
  repr (str s) = repr_text s
  repr (list xs) = "[" +++ join ", " (repr_items xs) +++ "]"
  repr (tuple nil) = "()"
  repr (tuple (cons v nil)) = "(" +++ repr v +++ ",)"
  repr (tuple (cons v (cons w xs))) = "(" +++ join ", " (repr v ∷ repr w ∷ repr_items xs) +++ ")"
  repr (dict d) = "{" +++ join ", " (repr_fields d) +++ "}"

  repr_items : Items → List String
  repr_items nil = []
  repr_items (cons v xs) = repr v ∷ repr_items xs

  repr_fields : Fields → List String
  repr_fields end = []
  repr_fields (field k v rest) = (repr_text k +++ ": " +++ repr v) ∷ repr_fields rest

-- `f'{value!r}'`
unfoldable pub to_repr : Value → String
unfolding repr repr_text show_int
to_repr v = repr v

-- `str(value)`
unfoldable pub to_str : Value → String
unfolding repr repr_text show_int
to_str (str s) = s
to_str v = repr v

-- `str(value or '')`
unfoldable pub str_or_empty : Value → String
unfolding truthy to_str
str_or_empty v = if truthy v then to_str v else ""

-- The float that a number equals, as a text
number_text : Value → Option String
number_text (bool b) = some (if b then "1.0" else "0.0")
number_text (int n) = some (show_int n +++ ".0")
number_text (float t) = some (if t == "-0.0" then "0.0" else t)
number_text _ = none

same_number : Option String → Option String → Bool
same_number (some t) (some u) = t == u
same_number _ _ = false

-- `value == other`. Dictionaries are equal whatever the order of their keys is.
unfoldable mutual
  unfolding number_text same_number show_int field_count get

  pub value_eq : Value → Value → Bool
  value_eq null null = true
  value_eq (str s) (str t) = s == t
  value_eq (list xs) (list ys) = items_eq xs ys
  value_eq (tuple xs) (tuple ys) = items_eq xs ys
  value_eq (dict d) (dict e) = nat_beq (field_count d) (field_count e) && fields_in d e
  value_eq v w = same_number (number_text v) (number_text w)

  pub items_eq : Items → Items → Bool
  items_eq nil nil = true
  items_eq (cons v xs) (cons w ys) = value_eq v w && items_eq xs ys
  items_eq _ _ = false

  pub fields_in : Fields → Fields → Bool
  fields_in end e = true
  fields_in (field k v rest) e = elim (get e k) [
    | none ↦ false
    | some w ↦ value_eq v w && fields_in rest e
  ]

pub get-put :
    (d : Fields) (k j : String) (v : Value)
    → get (put d k v) j ≡ (if k == j then some v else get d j)
unfolding get put
get-put end k j v = refl
get-put (field i w rest) k j v =
    ground (arith, get-put rest k j v, eq_iff k j, eq_iff i k, eq_iff i j)

test_value :
    (to_str
        (dict (field "a" (str "it's") (field "b" (list (cons null (cons (int (pos 3)) nil))) end)))
      ≡ "{'a': \"it's\", 'b': [None, 3]}")
    × (to_str (tuple (cons (bool true) nil)) ≡ "(True,)")
    × (to_str (str "x\ny") ≡ "x\ny")
    × (to_str (list (cons (str "x\ny") nil)) ≡ "['x\\ny']")
    × (to_str (int (negsuc 1)) ≡ "-2")
unfolding to_str repr_text show_int join is_in show_nat
test_value = (refl, refl, refl, refl, refl)
