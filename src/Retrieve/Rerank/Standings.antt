-- ===== src/Retrieve/Rerank/Standings.antt =====
-- backend/internal/retrieve/rerank.go: what the loop over the hits gathers of each module, said of the module's hits.
use rongo.Prelude.{
  ℕ, ◌≡◌, refl, sym, ap, ◌∙◌, inl, inr, true, false, List, [], ◌∷◌, filter, length, suc, ◌-◌,
  Option, none, some, ◌+◌, Text, text_eq, text_eq_iff, if◌then◌else◌, Bool-cases, arith,
}
use mathlib.Core.Bool.{true≢false}
use rongo.Prelude.Fallible.{Option-cases}
use rongo.Retrieve.Hits.{Floats, Hit}
use rongo.Retrieve.Rerank.{
  ModuleScore, score_sum, score_best, score_count, score_blend, RerankOpts, ModuleIndex, group,
  standing_from, stand, scored, Standing, standing, first_of,
}

module _ {F : Type 0} (fl : Floats F) (idx : ModuleIndex) (o : RerankOpts F) where
  -- The standing of a module by its hits alone: their best score, their number or the sum of their scores.
  abbrev pub tally : ModuleScore → List (Hit F) → F → F
  tally kind [] acc = acc
  tally score_best (h ∷ hs) acc = tally score_best hs (if fl.lt acc h.score then h.score else acc)
  tally score_count (h ∷ hs) acc = tally score_count hs (fl.add acc fl.one)
  tally score_sum (h ∷ hs) acc = tally score_sum hs (fl.add acc h.score)
  tally score_blend (h ∷ hs) acc = tally score_blend hs (fl.add acc h.score)

  abbrev pub hits_of : Text → List (Hit F) → List (Hit F)
  hits_of g hits = filter (λ h. text_eq (group idx h) g) hits

  abbrev pub module_score : List (Hit F) → Text → F
  module_score hits g = tally o.score (hits_of g hits) fl.zero

  -- The place of the module's first hit, counted from `i`.
  abbrev pub place_from : ℕ → List (Hit F) → Text → ℕ
  place_from i [] g = 0
  place_from i (h ∷ hits) g =
      let later = place_from (suc i) hits g in if text_eq (group idx h) g then i else later

  -- A hit's score, raised by what the module's other hits add.
  abbrev pub blend_of : List (Hit F) → Hit F → F
  blend_of hits h = fl.times h.score (
      fl.add fl.one
        (fl.times o.alpha (fl.log1p (fl.of_nat (length (hits_of (group idx h) hits) - 1)))))

  tally_go :
      (k : ModuleScore) (h : Hit F) (hs : List (Hit F)) (acc : F)
      → tally k (h ∷ hs) acc ≡ tally k hs (scored fl idx (record o { score = k }) h acc)
  unfolding scored
  tally_go score_sum h hs acc = refl
  tally_go score_best h hs acc = refl
  tally_go score_count h hs acc = refl
  tally_go score_blend h hs acc = refl

  key_other : (a g : Text) → text_eq a g ≡ false → text_eq g a ≡ false
  key_other a g f = elim (Bool-cases (text_eq g a)) [
    | inl t ↦ absurd (true≢false (sym ((text_eq_iff a g).1 (sym ((text_eq_iff g a).0 t))) ∙ f))
    | inr n ↦ n
  ]

  module _ (i : ℕ) (h : Hit F) (s : Standing F) (g : Text) where
    own_score :
        text_eq (group idx h) g ≡ true
        → (stand fl idx o i h s).score g ≡ scored fl idx o h (s.score g)
    unfolding stand
    own_score t =
        let e : group idx h ≡ g = (text_eq_iff (group idx h) g).0 t in
        rw (e, (text_eq_iff g g).1 refl) refl

    other_score : text_eq (group idx h) g ≡ false → (stand fl idx o i h s).score g ≡ s.score g
    unfolding stand
    other_score f = rw (key_other (group idx h) g f) refl

    own_count : text_eq (group idx h) g ≡ true → (stand fl idx o i h s).count g ≡ suc (s.count g)
    unfolding stand
    own_count t =
        let e : group idx h ≡ g = (text_eq_iff (group idx h) g).0 t in
        rw (e, (text_eq_iff g g).1 refl) refl

    other_count : text_eq (group idx h) g ≡ false → (stand fl idx o i h s).count g ≡ s.count g
    unfolding stand
    other_count f = rw (key_other (group idx h) g f) refl

  standing_score :
      (i : ℕ) (hits : List (Hit F)) (s : Standing F) (g : Text)
      → (standing_from fl idx o i hits s).score g ≡ tally o.score (hits_of g hits) (s.score g)
  unfolding standing_from
  standing_score i [] s g = refl
  standing_score i (h ∷ hits) s g = elim (Bool-cases (text_eq (group idx h) g)) [
    | inl t ↦ rw t (
        standing_score (suc i) hits (stand fl idx o i h s) g
        ∙ ap (tally o.score (hits_of g hits)) (own_score i h s g t)
        ∙ sym (tally_go o.score h (hits_of g hits) (s.score g)))
    | inr f ↦ rw f (
        standing_score (suc i) hits (stand fl idx o i h s) g
        ∙ ap (tally o.score (hits_of g hits)) (other_score i h s g f))
  ]

  standing_count :
      (i : ℕ) (hits : List (Hit F)) (s : Standing F) (g : Text)
      → (standing_from fl idx o i hits s).count g ≡ length (hits_of g hits) + s.count g
  unfolding standing_from
  standing_count i [] s g = omega arith
  standing_count i (h ∷ hits) s g = elim (Bool-cases (text_eq (group idx h) g)) [
    | inl t ↦
        let k = standing_count (suc i) hits (stand fl idx o i h s) g in
        let e = own_count i h s g t in rw t (omega (arith, k, e))
    | inr f ↦
        let k = standing_count (suc i) hits (stand fl idx o i h s) g in
        let e = other_count i h s g f in rw f (omega (arith, k, e))
  ]

  first_or : ℕ → Option ℕ → ℕ
  first_or later none = later
  first_or later (some j) = j

  own_first :
      (i : ℕ) (h : Hit F) (s : Standing F) (g : Text)
      → text_eq (group idx h) g ≡ true
      → (stand fl idx o i h s).first g ≡ some (first_or i (s.first g))
  unfolding stand first_or
  own_first i h s g t =
      let e : group idx h ≡ g = (text_eq_iff (group idx h) g).0 t in
      let q = (text_eq_iff g (group idx h)).1 (sym e) in
      elim (Option-cases (s.first g)) [
        | inl n ↦ rw (ap s.first e ∙ n, n, q) refl
        | inr (j, k) ↦ rw (ap s.first e ∙ k, k) refl
      ]

  other_first :
      (i : ℕ) (h : Hit F) (s : Standing F) (g : Text)
      → text_eq (group idx h) g ≡ false
      → (stand fl idx o i h s).first g ≡ s.first g
  unfolding stand
  other_first i h s g f = elim (Option-cases (s.first (group idx h))) [
    | inl n ↦ rw (n, key_other (group idx h) g f) refl
    | inr (j, k) ↦ rw k refl
  ]

  first_or_zero : (s : Standing F) (g : Text) → first_of fl idx o s g ≡ first_or 0 (s.first g)
  unfolding first_or
  first_or_zero s g = go (s.first g)
    where
      go : (x : Option ℕ) → (elim x [ none ↦ 0 | some i ↦ i ]) ≡ first_or 0 x
      go none = refl
      go (some j) = refl

  standing_first :
      (i : ℕ) (hits : List (Hit F)) (s : Standing F) (g : Text)
      → first_of fl idx o (standing_from fl idx o i hits s) g
        ≡ first_or (place_from i hits g) (s.first g)
  unfolding standing_from first_or
  standing_first i [] s g = first_or_zero s g
  standing_first i (h ∷ hits) s g =
      let rest = standing_first (suc i) hits (stand fl idx o i h s) g in
      elim (Bool-cases (text_eq (group idx h) g)) [
        | inl t ↦ rw t (rest ∙ ap (first_or (place_from (suc i) hits g)) (own_first i h s g t))
        | inr f ↦ rw f (rest ∙ ap (first_or (place_from (suc i) hits g)) (other_first i h s g f))
      ]

  module _ (hits : List (Hit F)) (g : Text) where
    pub score_is : (standing fl idx o hits).score g ≡ module_score hits g
    unfolding standing
    score_is =
        standing_score 0 hits (record { first = λ k. none; count = λ k. 0; score = λ k. fl.zero }) g

    pub first_is : first_of fl idx o (standing fl idx o hits) g ≡ place_from 0 hits g
    unfolding standing first_or
    first_is =
        standing_first 0 hits (record { first = λ k. none; count = λ k. 0; score = λ k. fl.zero }) g

    pub count_is : (standing fl idx o hits).count g ≡ length (hits_of g hits)
    unfolding standing
    count_is =
        let k =
          standing_count 0 hits (record { first = λ k. none; count = λ k. 0; score = λ k. fl.zero })
            g in
        omega (arith, k)
