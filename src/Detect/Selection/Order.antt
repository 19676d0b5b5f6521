-- ===== src/Detect/Selection/Order.antt =====
-- The keys of diagnose/detect/selection.py are total preorders, and what the policies pick.
use agent_debug_x.Base.{
  ℕ, ◌≡◌, refl, Bool, true, false, some, List, [], ◌∷◌, arith, first?, All, IsFirstMin,
  first?-sort_by, leb, sort_by, insert_by, ap, ◌∙◌, sort_by-All,
}
use agent_debug_x.Schema.{FailureFinding}
use agent_debug_x.Detect.Selection.{
  missing_step, lex, step_or_last, confidence_of, earliest_le, confident_le, earliest_finding,
  most_confident_finding,
}

pub lex_total :
    (a b : ℕ) (r s : Bool) → (r ≡ false → s ≡ true) → lex a b r ≡ false → lex b a s ≡ true
unfolding lex
lex_total a b r s h e = ground arith

pub lex_trans :
    (a b c : ℕ) (r s t : Bool)
    → (r ≡ true → s ≡ true → t ≡ true)
    → lex a b r ≡ true
    → lex b c s ≡ true
    → lex a c t ≡ true
unfolding lex
lex_trans a b c r s t h p q = ground arith

pub leb_total : (a b : ℕ) → leb a b ≡ false → leb b a ≡ true
leb_total a b h = ground arith

pub leb_trans : (a b c : ℕ) → leb a b ≡ true → leb b c ≡ true → leb a c ≡ true
leb_trans a b c p q = ground arith

earliest_le_total : (f g : FailureFinding) → earliest_le f g ≡ false → earliest_le g f ≡ true
unfolding earliest_le
earliest_le_total f g =
    lex_total _ _ _ _ (lex_total _ _ _ _ (leb_total (confidence_of g) (confidence_of f)))

earliest_le_trans :
    (f g h : FailureFinding)
    → earliest_le f g ≡ true
    → earliest_le g h ≡ true
    → earliest_le f h ≡ true
unfolding earliest_le
earliest_le_trans f g h = lex_trans _ _ _ _ _ _ (
    lex_trans _ _ _ _ _ _
      (λ p q. leb_trans (confidence_of h) (confidence_of g) (confidence_of f) q p))

confident_le_total : (f g : FailureFinding) → confident_le f g ≡ false → confident_le g f ≡ true
unfolding confident_le
confident_le_total f g =
    lex_total _ _ _ _ (lex_total _ _ _ _ (leb_total (step_or_last f) (step_or_last g)))

confident_le_trans :
    (f g h : FailureFinding)
    → confident_le f g ≡ true
    → confident_le g h ≡ true
    → confident_le f h ≡ true
unfolding confident_le
confident_le_trans f g h p q =
    lex_trans (confidence_of h) (confidence_of g) (confidence_of f) _ _ _
      (λ b a.
        lex_trans (missing_step f) (missing_step g) (missing_step h) _ _ _
          (leb_trans (step_or_last f) (step_or_last g) (step_or_last h)) a b)
      q p

-- From findings that are not empty, `earliest_finding` picks one: the leftmost of those whose key
-- (step missing, step, confidence descending) is smallest.
earliest_finding-IsFirstMin :
    (f : FailureFinding) (fs : List FailureFinding)
    → (g : FailureFinding) × (earliest_finding (f ∷ fs) ≡ some g)
      × IsFirstMin earliest_le (f ∷ fs) g
unfolding earliest_finding
earliest_finding-IsFirstMin f fs =
    first?-sort_by earliest_le earliest_le_total earliest_le_trans f fs

-- From findings that are not empty, `most_confident_finding` picks one: the leftmost of those whose
-- key (confidence descending, step missing, step) is smallest.
most_confident_finding-IsFirstMin :
    (f : FailureFinding) (fs : List FailureFinding)
    → (g : FailureFinding) × (most_confident_finding (f ∷ fs) ≡ some g)
      × IsFirstMin confident_le (f ∷ fs) g
unfolding most_confident_finding
most_confident_finding-IsFirstMin f fs =
    first?-sort_by confident_le confident_le_total confident_le_trans f fs

-- With one confidence for both, the two keys order a pair in the same way.
flat_keys :
    (c : ℕ) (f g : FailureFinding)
    → confidence_of f ≡ c
    → confidence_of g ≡ c
    → confident_le f g ≡ earliest_le f g
unfolding confident_le earliest_le lex
flat_keys c f g p q = rw (p, q) (ground arith)

abbrev pub IsFlat : ℕ → List FailureFinding → Type 0
IsFlat c fs = All (λ f. confidence_of f ≡ c) fs

insert_by-flat :
    (c : ℕ) (f : FailureFinding) (fs : List FailureFinding)
    → confidence_of f ≡ c
    → IsFlat c fs
    → insert_by confident_le f fs ≡ insert_by earliest_le f fs
unfolding insert_by
insert_by-flat c f [] p h = refl
insert_by-flat c f (g ∷ gs) p h = rw (flat_keys c f g p h.0, insert_by-flat c f gs p h.1)

sort_by-flat :
    (c : ℕ) (fs : List FailureFinding)
    → IsFlat c fs
    → sort_by confident_le fs ≡ sort_by earliest_le fs
unfolding sort_by
sort_by-flat c [] h = refl
sort_by-flat c (f ∷ fs) h =
    ap (insert_by confident_le f) (sort_by-flat c fs h.1)
    ∙ insert_by-flat c f (sort_by earliest_le fs) h.0
        (sort_by-All earliest_le (λ g. confidence_of g ≡ c) fs h.1)

-- Where all findings have the same confidence, the policy `confident` picks what `earliest` picks.
most_confident_finding-flat :
    (c : ℕ) (fs : List FailureFinding)
    → IsFlat c fs
    → most_confident_finding fs ≡ earliest_finding fs
unfolding most_confident_finding earliest_finding
most_confident_finding-flat c fs h = ap first? (sort_by-flat c fs h)
