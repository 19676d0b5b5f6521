-- ===== src/Base/Dicts.antt =====
-- Python's dictionaries, with their keys in the order of insertion.
use mathlib.Core.Path.{◌≡◌, refl, ◌∙◌}
use mathlib.Core.Option.{Option, none, some, some-injective}
use mathlib.Core.List.{List, [], ◌∷◌, map}
use mathlib.Core.Bool.{Bool, true, false, ◌||◌}
use native.Mathlib.Omega.{arith}
use mathlib.Core.Logic.{inl, inr}
use agent_debug_x.Base.Tests.{if◌then◌else◌, Bool-cases}
use agent_debug_x.Base.Lists.{
  All, All-imp, contains, flat_map, any, any-append_left, any-append_right,
}
use agent_debug_x.Base.Sets.{IsDistinct}
use agent_debug_x.Base.Equality.{Eq}

abbrev pub Dict {ℓ κ} : Type ℓ → Type κ → Type (ℓ ⊔ κ)
Dict K V = List (K × V)

module _ {ℓ κ} {K : Type ℓ} {V : Type κ} ⦃e : Eq K⦄ where
  -- `d.get(key)`
  unfoldable pub lookup : Dict K V → K → Option V
  lookup [] key = none
  lookup ((k, v) ∷ rest) key = let found = lookup rest key in if e.beq k key then some v else found

  -- `d[key] = value`
  unfoldable pub insert : Dict K V → K → V → Dict K V
  insert [] key value = (key, value) ∷ []
  insert ((k, v) ∷ rest) key value =
      let rest' = insert rest key value in if e.beq k key then (k, value) ∷ rest else (k, v) ∷ rest'

  pub lookup-insert :
      (d : Dict K V) (k j : K) (v : V)
      → lookup (insert d k v) j ≡ (if e.beq k j then some v else lookup d j)
  unfolding lookup insert
  lookup-insert [] k j v = refl
  lookup-insert ((i, w) ∷ d) k j v =
      ground (arith, lookup-insert d k j v, e.beq_iff k j, e.beq_iff i k, e.beq_iff i j)

  pub lookup-insert_same : (d : Dict K V) (k : K) (v : V) → lookup (insert d k v) k ≡ some v
  lookup-insert_same d k v = lookup-insert d k k v ∙ rw ((e.beq_iff k k).1 refl) refl

module _ {ℓ κ} {K : Type ℓ} {V : Type κ} ⦃e : Eq K⦄ where
  abbrev pub keys : Dict K V → List K
  keys d = map (λ entry. entry.0) d

  contains-keys-insert :
      (d : Dict K V) (k j : K) (v : V)
      → contains (keys (insert d k v)) j ≡ (contains (keys d) j || e.beq k j)
  unfolding insert contains
  contains-keys-insert [] k j v = ground arith
  contains-keys-insert ((i, w) ∷ d) k j v = elim (Bool-cases (e.beq i k)) [
    | inl same ↦ rw same (ground (arith, e.beq_iff i k, e.beq_iff i j, e.beq_iff k j))
    | inr other ↦ rw other (ground (arith, contains-keys-insert d k j v))
  ]

  pub IsDistinct-insert :
      (d : Dict K V) (k : K) (v : V) → IsDistinct (keys d) → IsDistinct (keys (insert d k v))
  unfolding insert contains
  IsDistinct-insert [] k v h = (refl, tt)
  IsDistinct-insert ((i, w) ∷ d) k v h = elim (Bool-cases (e.beq i k)) [
    | inl same ↦ rw same h
    | inr other ↦ rw other (
      ground (arith, contains-keys-insert d k i v, e.beq_iff i k, e.beq_iff k i),
      IsDistinct-insert d k v h.1,
    )
  ]

  contains-keys : (d : Dict K V) (k : K) (v : V) → lookup d k ≡ some v → contains (keys d) k ≡ true
  unfolding lookup contains
  contains-keys [] k v h = cc
  contains-keys ((i, w) ∷ d) k v h = elim (Bool-cases (e.beq i k)) [
    | inl same ↦ rw same refl
    | inr other ↦ rw other (contains-keys d k v (rw other at h))
  ]

  lookup-cons_absent :
      (d : Dict K V) (k j : K) (v w : V)
      → contains (keys d) k ≡ false
      → lookup d j ≡ some w
      → lookup ((k, v) ∷ d) j ≡ some w
  unfolding lookup
  lookup-cons_absent d k j v w h l = elim (Bool-cases (e.beq k j)) [
    | inl same ↦
        (let eq : k ≡ j = (e.beq_iff k j).0 same in
          let there : contains (keys d) k ≡ true = rw eq (contains-keys d j w l) in cc)
    | inr other ↦ rw other l
  ]

  -- With distinct keys every entry is the one that the look-up finds.
  pub All-lookup :
      (d : Dict K V) → IsDistinct (keys d) → All (λ entry. lookup d entry.0 ≡ some entry.1) d
  unfolding lookup
  All-lookup [] h = tt
  All-lookup ((k, v) ∷ d) h = (
    rw ((e.beq_iff k k).1 refl) refl,
    All-imp (λ entry l. lookup-cons_absent d k entry.0 v entry.1 h.0 l) d (All-lookup d h.1),
  )

  -- What holds of the image of an entry that is found holds of some image.
  pub any-flat_map-lookup {μ} :
      {B : Type μ} (p : B → Bool) (f : K × V → List B) (d : Dict K V) (k : K) (v : V)
      → lookup d k ≡ some v
      → any p (f (k, v)) ≡ true
      → any p (flat_map f d) ≡ true
  unfolding lookup flat_map
  any-flat_map-lookup p f [] k v h a = cc
  any-flat_map-lookup p f ((i, w) ∷ d) k v h a = elim (Bool-cases (e.beq i k)) [
    | inl same ↦
        (let eq : i ≡ k = (e.beq_iff i k).0 same in
          let val : some w ≡ some v = rw same at h in
          any-append_left p (f (i, w)) (flat_map f d) (rw (eq, some-injective w v val) a))
    | inr other ↦
        any-append_right p (f (i, w)) (flat_map f d)
          (any-flat_map-lookup p f d k v (rw other at h) a)
  ]
