-- ===== src/Base/Sets.antt =====
-- Python's sets, counters and duplicate removal as lists that keep the order of insertion.
use mathlib.Core.Path.{◌≡◌, refl}
use mathlib.Core.Logic.{inl, inr}
use mathlib.Core.Bool.{false, ◌||◌}
use mathlib.Core.List.{List, [], ◌∷◌, ◌++◌}
use native.Mathlib.Omega.{arith}
use agent_debug_x.Base.Tests.{if◌then◌else◌, Bool-cases}
use agent_debug_x.Base.Equality.{Eq}
use agent_debug_x.Base.Lists.{contains}

module _ {ℓ} {A : Type ℓ} ⦃e : Eq A⦄ where
  -- No element occurs twice.
  abbrev pub IsDistinct : List A → Type 0
  IsDistinct [] = Unit
  IsDistinct (x ∷ xs) = (contains xs x ≡ false) × IsDistinct xs

  pub contains-append :
      (xs ys : List A) (a : A) → contains (xs ++ ys) a ≡ (contains xs a || contains ys a)
  unfolding contains
  contains-append [] ys a = refl
  contains-append (x ∷ xs) ys a = ground (arith, contains-append xs ys a)

  beq_sym : (a b : A) → e.beq a b ≡ e.beq b a
  beq_sym a b = ground (arith, e.beq_iff a b, e.beq_iff b a)

  pub IsDistinct-snoc :
      (xs : List A) (a : A) → IsDistinct xs → contains xs a ≡ false → IsDistinct (xs ++ a ∷ [])
  unfolding contains
  IsDistinct-snoc [] a d h = (refl, tt)
  IsDistinct-snoc (x ∷ xs) a d h = (
    ground (arith, contains-append xs (a ∷ []) x, beq_sym x a),
    IsDistinct-snoc xs a d.1 (ground arith),
  )

  -- `if item not in items: items.append(item)`
  unfoldable pub append_unique : List A → A → List A
  append_unique xs a = if contains xs a then xs else xs ++ a ∷ []

  pub append_unique-IsDistinct :
      (xs : List A) (a : A) → IsDistinct xs → IsDistinct (append_unique xs a)
  unfolding append_unique
  append_unique-IsDistinct xs a d = elim (Bool-cases (contains xs a)) [
    | inl h ↦ rw h d
    | inr h ↦ rw h (IsDistinct-snoc xs a d h)
  ]

  pub contains-append_unique :
      (xs : List A) (a b : A) → contains (append_unique xs a) b ≡ (e.beq a b || contains xs b)
  unfolding append_unique contains
  contains-append_unique xs a b = ground (arith, contains-append xs (a ∷ []) b, e.beq_iff a b)
