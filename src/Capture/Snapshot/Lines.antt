-- ===== src/Capture/Snapshot/Lines.antt =====
-- What a snapshot of capture/snapshot.py keeps of a growing transcript.
use agent_debug_x.Base.{
  ℕ, zero, suc, ◌+◌, ◌≤◌, ◌≡◌, refl, ap, inl, inr, Bool, false, Option, none, some, List, [], ◌∷◌,
  ◌++◌, any, take, drop, length, last?, if◌then◌else◌, ◌==◌, nat_eq, Bool-cases, Option-cases,
  arith, String, length-append, ◌⊎◌,
}
use agent_debug_x.Python.{Value, Result, ok, err, ◌>>=◌, >>=-eq-ok, ok-injective}
use mathlib.Core.Option.{some-injective}
use agent_debug_x.Capture.Tables.{TranscriptSnapshot}
use agent_debug_x.Capture.Snapshot.{
  rfind_newline, complete_size_of, read_complete_jsonl, read_records, lines_from,
}

abbrev pub is_newline : ℕ → Bool
is_newline b = b == 10

rfind_newline-none : (tail : List ℕ) → any is_newline tail ≡ false → rfind_newline tail ≡ none
unfolding rfind_newline any
rfind_newline-none [] h = refl
rfind_newline-none (b ∷ tail) h = rw (rfind_newline-none tail (ground arith)) (ground arith)

rfind_newline-append :
    (content tail : List ℕ)
    → any is_newline tail ≡ false
    → rfind_newline (content ++ tail) ≡ rfind_newline content
unfolding rfind_newline
rfind_newline-append [] tail h = rfind_newline-none tail h
rfind_newline-append (b ∷ content) tail h = rw (rfind_newline-append content tail h) refl

complete_size_of-append :
    (content tail : List ℕ)
    → any is_newline tail ≡ false
    → complete_size_of (content ++ tail) ≡ complete_size_of content
unfolding complete_size_of
complete_size_of-append content tail h =
    rw (complete_size_of, rfind_newline-append content tail h) refl

rfind_newline_absent :
    (content : List ℕ) → rfind_newline content ≡ none → any is_newline content ≡ false
unfolding rfind_newline any
rfind_newline_absent [] h = refl
rfind_newline_absent (b ∷ content) h = elim (Option-cases (rfind_newline content)) [
  | inl e ↦ elim (Bool-cases (b == 10)) [
    | inl t ↦ (let bad : ◌≡◌ {A = Option ℕ} (some 0) none = rw (rfind_newline, e, t) at h in cc)
    | inr t ↦ rw t (rfind_newline_absent content e)
  ]
  | inr (i, e) ↦ (let bad : some (suc i) ≡ none = rw (rfind_newline, e) at h in cc)
]

last?-cons_of : (b c : ℕ) (xs : List ℕ) → last? xs ≡ some c → last? (b ∷ xs) ≡ some c
last?-cons_of b c [] h = cc
last?-cons_of b c (x ∷ xs) h = h

-- The first `size` bytes are lines that are ended, and no line is ended behind them.
pub record IsCut (content : List ℕ) (size : ℕ) : Type 0 where
  pub within : size ≤ length content
  pub ended : (size ≡ 0) ⊎ (last? (take size content) ≡ some 10)
  pub open_end : any is_newline (drop size content) ≡ false

rfind_newline-IsCut :
    (content : List ℕ) (i : ℕ)
    → rfind_newline content ≡ some i
    → (suc i ≤ length content)
      × (last? (take (suc i) content) ≡ some 10)
      × (any is_newline (drop (suc i) content) ≡ false)
unfolding rfind_newline
rfind_newline-IsCut [] i h = cc
rfind_newline-IsCut (b ∷ content) i h = elim (Option-cases (rfind_newline content)) [
  | inr (j, e) ↦
      (let (le, last, rest) = rfind_newline-IsCut content j e in
        let same : suc j ≡ i = some-injective (suc j) i (rw (rfind_newline, e) at h) in
        rw (← same) ((omega arith, last?-cons_of b 10 (take (suc j) content) last, rest)))
  | inl e ↦
      (let h' : (if b == 10 then some 0 else none) ≡ some i = rw (rfind_newline, e) at h in
        let zero_ : i ≡ 0 = ground arith in
        let newline : b ≡ 10 = ground arith in
        rw zero_ ((omega arith, ap some newline, rfind_newline_absent content e)))
]

complete_size_of-IsCut : (content : List ℕ) → IsCut content (complete_size_of content)
unfolding complete_size_of
complete_size_of-IsCut content = elim (Option-cases (rfind_newline content)) [
  | inl e ↦
      rw (complete_size_of, e)
        (record {
          within = omega arith;
          ended = inl refl;
          open_end = rfind_newline_absent content e;
        })
  | inr (i, e) ↦
      (let (le, last, rest) = rfind_newline-IsCut content i e in
        rw (complete_size_of, e) (record { within = le; ended = inr last; open_end = rest }))
]

take-append_le : (n : ℕ) (xs ys : List ℕ) → n ≤ length xs → take n (xs ++ ys) ≡ take n xs
take-append_le zero xs ys h = refl
take-append_le (suc n) [] ys h = absurd (omega arith)
take-append_le (suc n) (x ∷ xs) ys h = ap (λ l. x ∷ l) (take-append_le n xs ys (omega arith))

drop-append_le : (n : ℕ) (xs ys : List ℕ) → n ≤ length xs → drop n (xs ++ ys) ≡ drop n xs ++ ys
drop-append_le zero xs ys h = refl
drop-append_le (suc n) [] ys h = absurd (omega arith)
drop-append_le (suc n) (x ∷ xs) ys h = drop-append_le n xs ys (omega arith)

take-append-drop : (n : ℕ) (xs : List ℕ) → take n xs ++ drop n xs ≡ xs
take-append-drop zero xs = refl
take-append-drop (suc n) [] = refl
take-append-drop (suc n) (x ∷ xs) = ap (λ l. x ∷ l) (take-append-drop n xs)

>>=-ok-ok {ℓ κ μ} :
    {A : Type ℓ} {B : Type κ} {C : Type μ} (call : Result A) (f : A → B) (g : B → C)
    → (call >>= λ a. ok (g (f a))) ≡ ((call >>= λ a. ok (f a)) >>= λ b. ok (g b))
>>=-ok-ok (err raised) f g = refl
>>=-ok-ok (ok a) f g = refl

module _ (loads : List ℕ → Result Value) (sha256 : List ℕ → String) (path : String) where
  -- A snapshot holds the ended lines of the transcript and no byte more: its bytes are none or end in
  -- a newline, with the ignored ones they make the content, the ignored ones hold no newline, and
  -- the sizes are theirs.
  pub record IsSnapshot (content : List ℕ) (snapshot : TranscriptSnapshot) : Type 0 where
    pub tail : List ℕ
    pub parts : snapshot.complete_bytes ++ tail ≡ content
    pub ended : (snapshot.complete_bytes ≡ []) ⊎ (last? snapshot.complete_bytes ≡ some 10)
    pub open_end : any is_newline tail ≡ false
    pub size : snapshot.complete_size ≡ length snapshot.complete_bytes
    pub ignored : snapshot.complete_size + snapshot.ignored_tail_bytes ≡ length content
    pub digest : snapshot.content_sha256 ≡ sha256 snapshot.complete_bytes

  -- The snapshot that a reading returns is one of its content: the bytes that it keeps are none or
  -- end in a newline, with the ignored ones they make the content, the ignored ones hold no newline,
  -- and the two sizes and the digest are theirs.
  pub read_complete_jsonl-IsSnapshot :
      (content : List ℕ) (snapshot : TranscriptSnapshot)
      → read_complete_jsonl loads sha256 path content ≡ ok snapshot
      → IsSnapshot content snapshot
  unfolding read_complete_jsonl
  read_complete_jsonl-IsSnapshot content snapshot h =
      let size = complete_size_of content in
      let cut = complete_size_of-IsCut content in
      let (read, _, e) =
        >>=-eq-ok (read_records loads 1 (lines_from [] false (take size content)) []) _ h in
      rw (← ok-injective e) (record {
        tail = drop size content;
        parts = take-append-drop size content;
        ended = elim cut.ended [ inl z ↦ inl (ap (λ n. take n content) z) | inr l ↦ inr l ];
        open_end = cut.open_end;
        size = refl;
        ignored = omega (
          arith,
          length-append (take size content) (drop size content),
          ap length (take-append-drop size content),
        );
        digest = refl;
      })

  -- Bytes of a record that is still being written change nothing but the count of ignored bytes: the
  -- reading returns the same snapshot, or raises the same exception.
  pub read_complete_jsonl-append :
      (content tail : List ℕ)
      → any is_newline tail ≡ false
      → read_complete_jsonl loads sha256 path (content ++ tail) ≡ (
          read_complete_jsonl loads sha256 path content >>= λ snapshot.
          ok (record snapshot { ignored_tail_bytes = snapshot.ignored_tail_bytes + length tail }))
  unfolding read_complete_jsonl
  read_complete_jsonl-append content tail h =
      let size = complete_size_of content in
      let cut = complete_size_of-IsCut content in
      let same : complete_size_of (content ++ tail) ≡ size =
        complete_size_of-append content tail h in
      rw
        (
          same,
          take-append_le size content tail cut.within,
          drop-append_le size content tail cut.within,
          length-append (drop size content) tail,
        )
        (>>=-ok-ok (read_records loads 1 (lines_from [] false (take size content)) []) _ _)
