-- ===== src/Python/Leaves.antt =====
-- What holds of every text in a value, the shape of a value without its texts, and its size. No
-- part of the program is modelled here.
use agent_debug_x.Base.{ℕ, ◌+◌, String}
use agent_debug_x.Python.Values.{
  Value, Items, Fields, str, list, tuple, dict, nil, cons, end, field,
}

-- The predicate holds of every text in the value. The keys of dictionaries do not count.
unfoldable mutual
  pub AllTexts : (String → Type 0) → Value → Type 0
  AllTexts P (str text) = P text
  AllTexts P (list xs) = AllTextsItems P xs
  AllTexts P (tuple xs) = AllTextsItems P xs
  AllTexts P (dict d) = AllTextsFields P d
  AllTexts P value = Unit

  pub AllTextsItems : (String → Type 0) → Items → Type 0
  AllTextsItems P nil = Unit
  AllTextsItems P (cons v xs) = AllTexts P v × AllTextsItems P xs

  pub AllTextsFields : (String → Type 0) → Fields → Type 0
  AllTextsFields P end = Unit
  AllTextsFields P (field key v rest) = AllTexts P v × AllTextsFields P rest

-- The value with every text in it made empty
unfoldable mutual
  pub shape : Value → Value
  shape (str text) = str ""
  shape (list xs) = list (shape_items xs)
  shape (tuple xs) = tuple (shape_items xs)
  shape (dict d) = dict (shape_fields d)
  shape value = value

  pub shape_items : Items → Items
  shape_items nil = nil
  shape_items (cons v xs) = cons (shape v) (shape_items xs)

  pub shape_fields : Fields → Fields
  shape_fields end = end
  shape_fields (field key v rest) = field key (shape v) (shape_fields rest)

-- How many values it is made of, itself included
unfoldable mutual
  pub nodes : Value → ℕ
  nodes (list xs) = nodes_items xs + 1
  nodes (tuple xs) = nodes_items xs + 1
  nodes (dict d) = nodes_fields d + 1
  nodes value = 1

  pub nodes_items : Items → ℕ
  nodes_items nil = 0
  nodes_items (cons v xs) = nodes v + nodes_items xs

  pub nodes_fields : Fields → ℕ
  nodes_fields end = 0
  nodes_fields (field key v rest) = nodes v + nodes_fields rest
