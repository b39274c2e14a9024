-- ===== src/Ask/Renumber/Chains.antt =====
-- A run of markers that is not held back is the same run whatever text follows.
use rongo.Prelude.{
  ℕ, suc, ◌+◌, ◌≡◌, ◌≢◌, refl, sym, ap, ◌∙◌, ◌⊎◌, inl, inr, Bool, true, false, Option, none, some,
  [], ◌∷◌, ◌++◌, Text, drop, arith,
}
use mathlib.Core.Path.{subst}
use mathlib.Core.Bool.{true≢false}
use mathlib.Core.Option.{some-injective}
use rongo.Ask.Markers.{
  open_bracket, Mode, seam, bracket, digits, gap, comma, scan, chain_at_start, chain_more,
  marker_prefix, advance, all_of, in_marker,
}

-- Where the match stands behind a text, if it has not ended in it.
unfoldable pub run : Mode → Text → Option Mode
unfolding advance
run m [] = some m
run m (c ∷ s) = elim (advance m c) [
  | none ↦ none
  | some (some m') ↦ run m' s
  | some none ↦ run seam s
]

module _ (pos : ℕ) (best : Option ℕ) (s : Text) where
  abbrev then_scan : Option (Option Mode) → Option ℕ
  then_scan none = best
  then_scan (some (some m)) = scan m (suc pos) best s
  then_scan (some none) = scan seam (suc pos) (some (suc pos)) s

  abbrev then_run : Option (Option Mode) → Option Mode
  then_run none = none
  then_run (some (some m)) = run m s
  then_run (some none) = run seam s

  scan-cons : (m : Mode) (c : ℕ) → scan m pos best (c ∷ s) ≡ then_scan (advance m c)
  unfolding scan
  scan-cons m c = refl

  run-cons : (m : Mode) (c : ℕ) → run m (c ∷ s) ≡ then_run (advance m c)
  unfolding run
  run-cons m c = refl

ended-step :
    (x : Option (Option Mode)) (pos : ℕ) (best : Option ℕ) (s t : Text)
    → then_run pos best s x ≡ none
    → ((m : Mode) (b : Option ℕ)
        → run m s ≡ none
        → scan m (suc pos) b (s ++ t) ≡ scan m (suc pos) b s)
    → then_scan pos best (s ++ t) x ≡ then_scan pos best s x
ended-step none pos best s t h ih = refl
ended-step (some (some m)) pos best s t h ih = ih m best h
ended-step (some none) pos best s t h ih = ih seam (some (suc pos)) h

-- A match that has ended reads no further.
ended :
    (m : Mode) (pos : ℕ) (best : Option ℕ) (s t : Text)
    → run m s ≡ none
    → scan m pos best (s ++ t) ≡ scan m pos best s
unfolding run scan chain_more
ended m pos best [] t h = cc
ended m pos best (c ∷ s) t h =
    ended-step (advance m c) pos best s t h λ m' b k. ended m' (suc pos) b s t k

-- What the text is when the match has not ended in it, nor a group.
abbrev Rest : Mode → Text → Type 0
Rest seam s = chain_more s ≡ true
Rest bracket s = all_of in_marker s ≡ true
Rest (digits k) s = all_of in_marker s ≡ true
Rest gap s = all_of in_marker s ≡ true
Rest comma s = all_of in_marker s ≡ true

Rest-advance :
    (m m' : Mode) (c : ℕ) (s : Text) → advance m c ≡ some (some m') → Rest m' s → Rest m (c ∷ s)
unfolding advance chain_more all_of
Rest-advance seam m' c s e h = ground (arith, e, h)
Rest-advance bracket m' c s e h = ground (arith, e, h)
Rest-advance (digits k) m' c s e h = ground (arith, e, h)
Rest-advance gap m' c s e h = ground (arith, e, h)
Rest-advance comma m' c s e h = ground (arith, e, h)

-- While the match goes on: no group has ended since, or the last one ended so many characters
-- further, and what follows it may still grow.
abbrev Open : Mode → ℕ → Option ℕ → Text → Option ℕ → Type 0
Open m pos best s r =
    ((r ≡ best) × Rest m s) ⊎ ((j : ℕ) × (r ≡ some (pos + j)) × (chain_more (drop j s) ≡ true))

Open-step :
    (m : Mode) (c : ℕ) (x : Option (Option Mode)) (pos : ℕ) (best : Option ℕ) (s : Text)
    → advance m c ≡ x
    → then_run pos best s x ≢ none
    → ((m' : Mode) (b : Option ℕ) → run m' s ≢ none → Open m' (suc pos) b s (scan m' (suc pos) b s))
    → Open m pos best (c ∷ s) (then_scan pos best s x)
Open-step m c none pos best s e alive ih = absurd (alive refl)
Open-step m c (some (some m')) pos best s e alive ih = elim (ih m' best alive) [
  | inl (same, rest) ↦ inl (same, Rest-advance m m' c s e rest)
  | inr (j, at, more) ↦ inr (suc j, at ∙ ap some (omega arith), more)
]
Open-step m c (some none) pos best s e alive ih = elim (ih seam (some (suc pos)) alive) [
  | inl (same, rest) ↦ inr (1, same ∙ ap some (omega arith), rest)
  | inr (j, at, more) ↦ inr (suc j, at ∙ ap some (omega arith), more)
]

scan-Open :
    (m : Mode) (pos : ℕ) (best : Option ℕ) (s : Text)
    → run m s ≢ none
    → Open m pos best s (scan m pos best s)
unfolding run scan chain_more
scan-Open seam pos best [] h = inl (refl, refl)
scan-Open bracket pos best [] h = inl (refl, refl)
scan-Open (digits k) pos best [] h = inl (refl, refl)
scan-Open gap pos best [] h = inl (refl, refl)
scan-Open comma pos best [] h = inl (refl, refl)
scan-Open m pos best (c ∷ s) h =
    Open-step m c (advance m c) pos best s refl h λ m' b k. scan-Open m' (suc pos) b s k

none-or-not {ℓ} : {A : Type ℓ} (x : Option A) → (x ≡ none) ⊎ (x ≢ none)
none-or-not none = inl refl
none-or-not (some a) = inr λ e. cc

module _ (s t : Text) where
  -- A run behind which no other group can come is the same run in the longer text.
  pub chain_settled :
      (k : ℕ)
      → chain_at_start (open_bracket ∷ s) ≡ some k
      → chain_more (drop k (open_bracket ∷ s)) ≡ false
      → chain_at_start (open_bracket ∷ (s ++ t)) ≡ some k
  unfolding chain_at_start
  chain_settled k e closed = elim (none-or-not (run bracket s)) [
    | inl dead ↦ ended bracket 1 none s t dead ∙ e
    | inr alive ↦ elim (scan-Open bracket 1 none s alive) [
      | inl (same, rest) ↦ absurd (cc)
      | inr (j, at, more) ↦
          let same : k ≡ suc j = some-injective k (1 + j) (sym e ∙ at) ∙ omega arith in
          let back = subst (λ i. chain_more (drop i (open_bracket ∷ s)) ≡ false) same closed in
          absurd (true≢false (sym more ∙ back))
    ]
  ]

  -- A bracket that cannot begin a run cannot in the longer text.
  pub bracket_settled :
      chain_at_start (open_bracket ∷ s) ≡ none
      → marker_prefix (open_bracket ∷ s) ≡ false
      → chain_at_start (open_bracket ∷ (s ++ t)) ≡ none
  unfolding chain_at_start marker_prefix
  bracket_settled e shut = elim (none-or-not (run bracket s)) [
    | inl dead ↦ ended bracket 1 none s t dead ∙ e
    | inr alive ↦ elim (scan-Open bracket 1 none s alive) [
      | inl (same, rest) ↦ absurd (true≢false (sym rest ∙ shut))
      | inr (j, at, more) ↦ absurd (cc)
    ]
  ]

pub all_of-append : (p : ℕ → Bool) (s t : Text) → all_of p s ≡ false → all_of p (s ++ t) ≡ false
unfolding all_of
all_of-append p [] t e = cc
all_of-append p (c ∷ s) t e = let ih = all_of-append p s t in ground (arith, e, ih)

pub chain_more-append : (s t : Text) → chain_more s ≡ false → chain_more (s ++ t) ≡ false
unfolding chain_more
chain_more-append [] t e = cc
chain_more-append (c ∷ s) t e =
    let ih = chain_more-append s t in
    let jh = all_of-append in_marker s t in ground (arith, e, ih, jh)

pub marker_prefix-append :
    (s t : Text)
    → marker_prefix (open_bracket ∷ s) ≡ false
    → marker_prefix (open_bracket ∷ (s ++ t)) ≡ false
unfolding marker_prefix
marker_prefix-append s t e = all_of-append in_marker s t e
