-- ===== src/Base/Sorting.antt =====
-- Python's `sorted`: a stable sort by a total preorder on keys.
use mathlib.Core.Path.{◌≡◌, refl, ap, sym, subst, ◌∙◌}
use mathlib.Core.Option.{some, some-injective}
use mathlib.Core.Logic.{inl, inr}
use mathlib.Core.Bool.{Bool, true, false}
use mathlib.Core.List.{List, [], ◌∷◌, ◌++◌, Perm}
use mathlib.Core.List.Perm
use Prim.Native.Nat.{suc}
use agent_debug_x.Base.Tests.{if◌then◌else◌, Bool-cases}
use agent_debug_x.Base.Lists.{All, All-imp, All-append, first?, length}

module _ {ℓ} {A : Type ℓ} (le : A → A → Bool) where
  -- Before the first element that is not smaller, so equal keys keep their order.
  unfoldable pub insert_by : A → List A → List A
  insert_by x [] = x ∷ []
  insert_by x (y ∷ ys) = let rest = insert_by x ys in if le x y then x ∷ y ∷ ys else y ∷ rest

  unfoldable pub sort_by : List A → List A
  unfolding insert_by
  sort_by [] = []
  sort_by (x ∷ xs) = insert_by x (sort_by xs)

  -- Each element is at most every later one.
  abbrev pub IsSorted : List A → Type 0
  IsSorted [] = Unit
  IsSorted (x ∷ xs) = All (λ y. le x y ≡ true) xs × IsSorted xs

  insert_by-perm : (x : A) (ys : List A) → Perm (insert_by x ys) (x ∷ ys)
  unfolding insert_by
  insert_by-perm x [] = Perm.refl (x ∷ [])
  insert_by-perm x (y ∷ ys) = elim (Bool-cases (le x y)) [
    | inl h ↦ rw h (Perm.refl (x ∷ y ∷ ys))
    | inr h ↦ rw h (Perm.trans (Perm.cons y (insert_by-perm x ys)) (Perm.swap x y ys))
  ]

  pub sort_by-perm : (xs : List A) → Perm (sort_by xs) xs
  unfolding sort_by
  sort_by-perm [] = Perm.refl []
  sort_by-perm (x ∷ xs) = Perm.trans (insert_by-perm x (sort_by xs)) (Perm.cons x (sort_by-perm xs))

  insert_by-All {κ} :
      (P : A → Type κ) (x : A) (ys : List A) → P x → All P ys → All P (insert_by x ys)
  unfolding insert_by
  insert_by-All P x [] p h = (p, tt)
  insert_by-All P x (y ∷ ys) p h = elim (Bool-cases (le x y)) [
    | inl e ↦ rw e (p, h)
    | inr e ↦ rw e (h.0, insert_by-All P x ys p h.1)
  ]

  insert_by-head : (x : A) (ys : List A) → All (λ y. le x y ≡ true) ys → insert_by x ys ≡ x ∷ ys
  unfolding insert_by
  insert_by-head x [] h = refl
  insert_by-head x (y ∷ ys) h = rw h.0 refl

  -- A sorted list stays as it is.
  pub sort_by-eq : (xs : List A) → IsSorted xs → sort_by xs ≡ xs
  unfolding sort_by
  sort_by-eq [] h = refl
  sort_by-eq (x ∷ xs) h = ap (insert_by x) (sort_by-eq xs h.1) ∙ insert_by-head x xs h.0

  length-insert_by : (x : A) (ys : List A) → length (insert_by x ys) ≡ suc (length ys)
  unfolding insert_by
  length-insert_by x [] = refl
  length-insert_by x (y ∷ ys) = elim (Bool-cases (le x y)) [
    | inl h ↦ rw h refl
    | inr h ↦ rw h (ap suc (length-insert_by x ys))
  ]

  pub length-sort_by : (xs : List A) → length (sort_by xs) ≡ length xs
  unfolding sort_by
  length-sort_by [] = refl
  length-sort_by (x ∷ xs) = length-insert_by x (sort_by xs) ∙ ap suc (length-sort_by xs)

  insert_by-All_of {κ} :
      (P : A → Type κ) (x : A) (ys : List A) → All P (insert_by x ys) → P x × All P ys
  unfolding insert_by
  insert_by-All_of P x [] = (λ h. h)
  insert_by-All_of P x (y ∷ ys) = elim (Bool-cases (le x y)) [
    | inl e ↦ rw e (λ h. h)
    | inr e ↦ rw e (λ h. let (p, q) = insert_by-All_of P x ys h.1 in (p, (h.0, q)))
  ]

  -- Sorting drops no element.
  pub sort_by-All_of {κ} : (P : A → Type κ) (xs : List A) → All P (sort_by xs) → All P xs
  unfolding sort_by
  sort_by-All_of P [] h = tt
  sort_by-All_of P (x ∷ xs) h =
      let (p, q) = insert_by-All_of P x (sort_by xs) h in (p, sort_by-All_of P xs q)

  pub sort_by-All {κ} : (P : A → Type κ) (xs : List A) → All P xs → All P (sort_by xs)
  unfolding sort_by
  sort_by-All P [] h = tt
  sort_by-All P (x ∷ xs) h = insert_by-All P x (sort_by xs) h.0 (sort_by-All P xs h.1)

  module _ (total : (a b : A) → le a b ≡ false → le b a ≡ true)
      (trans : (a b c : A) → le a b ≡ true → le b c ≡ true → le a c ≡ true) where
    insert_by-IsSorted : (x : A) (ys : List A) → IsSorted ys → IsSorted (insert_by x ys)
    unfolding insert_by
    insert_by-IsSorted x [] h = (tt, tt)
    insert_by-IsSorted x (y ∷ ys) h = elim (Bool-cases (le x y)) [
      | inl e ↦ rw e ((e, All-imp (λ z k. trans x y z e k) ys h.0), h)
      | inr e ↦
          rw e
            (insert_by-All (λ z. le y z ≡ true) x ys (total x y e) h.0, insert_by-IsSorted x ys h.1)
    ]

    pub sort_by-IsSorted : (xs : List A) → IsSorted (sort_by xs)
    unfolding sort_by
    sort_by-IsSorted [] = tt
    sort_by-IsSorted (x ∷ xs) = insert_by-IsSorted x (sort_by xs) (sort_by-IsSorted xs)

module _ {ℓ} {A : Type ℓ} (le : A → A → Bool) where
  -- The leftmost of the smallest elements: all before it are greater, all behind it are not smaller.
  pub record IsFirstMin (xs : List A) (g : A) : Type ℓ where
    pub before : List A
    pub after : List A
    pub parts : xs ≡ before ++ g ∷ after
    pub greater : All (λ h. le h g ≡ false) before
    pub not_smaller : All (λ h. le g h ≡ true) after

  module _ (total : (a b : A) → le a b ≡ false → le b a ≡ true)
      (trans : (a b c : A) → le a b ≡ true → le b c ≡ true → le a c ≡ true) where
    pub IsFirstMin-le-All : (xs : List A) (g : A) → IsFirstMin xs g → All (λ h. le g h ≡ true) xs
    IsFirstMin-le-All xs g m = rw m.parts (
        All-append (λ h. le g h ≡ true) m.before (g ∷ m.after)
          (All-imp (λ h k. total h g k) m.before m.greater) (le_self, m.not_smaller))
      where
        le_self : le g g ≡ true
        le_self = elim (Bool-cases (le g g)) [ inl e ↦ e | inr e ↦ total g g e ]

    IsFirstMin-insert :
        (x m : A) (xs rest : List A)
        → IsFirstMin xs m
        → (g : A) × (first? (insert_by le x (m ∷ rest)) ≡ some g) × IsFirstMin (x ∷ xs) g
    unfolding insert_by
    IsFirstMin-insert x m xs rest min = elim (Bool-cases (le x m)) [
      | inl e ↦ rw e (
          (
            x,
            refl,
            record {
              before = [];
              after = xs;
              parts = refl;
              greater = tt;
              not_smaller = All-imp (λ h k. trans x m h e k) xs (IsFirstMin-le-All xs m min);
            },
          ))
      | inr e ↦ rw e (
          (
            m,
            refl,
            record {
              before = x ∷ min.before;
              after = min.after;
              parts = ap (λ l. x ∷ l) min.parts;
              greater = (e, min.greater);
              not_smaller = min.not_smaller;
            },
          ))
    ]

    -- `sorted(xs, key=...)[0]` is the leftmost minimum.
    pub first?-sort_by :
        (x : A) (xs : List A)
        → (g : A) × (first? (sort_by le (x ∷ xs)) ≡ some g) × IsFirstMin (x ∷ xs) g
    unfolding sort_by insert_by
    first?-sort_by x [] =
        (x, refl, record { before = []; after = []; parts = refl; greater = tt; not_smaller = tt })
    first?-sort_by x (y ∷ ys) = go (sort_by le (y ∷ ys)) (first?-sort_by y ys)
      where
        go :
            (sorted : List A)
            → (m : A) × (first? sorted ≡ some m) × IsFirstMin (y ∷ ys) m
            → (g : A) × (first? (insert_by le x sorted) ≡ some g) × IsFirstMin (x ∷ y ∷ ys) g
        go [] (m, e, min) = cc
        go (z ∷ zs) (m, e, min) =
            IsFirstMin-insert x z (y ∷ ys) zs
              (subst (λ w. IsFirstMin (y ∷ ys) w) (some-injective m z (sym e)) min)
