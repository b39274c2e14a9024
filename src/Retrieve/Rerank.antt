-- ===== src/Retrieve/Rerank.antt =====
-- backend/internal/retrieve/rerank.go: RerankByModule, which brings the hits of the module with the
-- best standing to the front. The maps are functions of the module's key.
pub mod Modules
pub mod Standings
pub mod Ranked
use rongo.Prelude.{
  ℕ, zero, suc, ◌+◌, ◌-◌, Bool, true, false, Option, none, some, List, [], ◌∷◌, ◌++◌, map, Text,
  text_eq, ltb, if◌then◌else◌,
}
use rongo.Prelude.Sorting.{sort_stable}
use rongo.Retrieve.Hits.{Floats, Hit}

pub data ModuleScore : Type 0 where
  score_sum : ModuleScore
  score_best : ModuleScore
  score_count : ModuleScore
  score_blend : ModuleScore

pub record RerankOpts (F : Type 0) : Type 0 where
  pub score : ModuleScore
  pub alpha : F

unfoldable pub file_key : Text → Text → Text
file_key repo path = repo ++ 0 ∷ path

-- `ModuleIndex.byFile`; without an index nothing is found.
abbrev pub ModuleIndex : Type 0
ModuleIndex = Text → Option Text

-- `group`: a file of no module stands for itself.
unfoldable pub group : {F : Type 0} → ModuleIndex → Hit F → Text
unfolding file_key
group idx h = let own = file_key h.repo h.path in elim (idx own) [ some k ↦ k | none ↦ own ]

abbrev set_at {ℓ} : {A : Type ℓ} → Text → A → (Text → A) → Text → A
set_at g v m k = if text_eq k g then v else m k

-- `l[i]`, and `d` past the end, where no code looks.
unfoldable pub value_at {ℓ} : {A : Type ℓ} → A → List A → ℕ → A
value_at d [] i = d
value_at d (x ∷ xs) zero = x
value_at d (x ∷ xs) (suc i) = value_at d xs i

-- `order` before it is sorted.
unfoldable pub indices {ℓ} : {A : Type ℓ} → List A → List ℕ
indices [] = []
indices (x ∷ xs) = 0 ∷ map suc (indices xs)

-- `first`, `count` and `score` after some hits.
pub record Standing (F : Type 0) : Type 0 where
  pub first : Text → Option ℕ
  pub count : Text → ℕ
  pub score : Text → F

module _ {F : Type 0} (fl : Floats F) (idx : ModuleIndex) (o : RerankOpts F) where
  unfoldable pub scored : Hit F → F → F
  scored h old = elim o.score [
    | score_best ↦ if fl.lt old h.score then h.score else old
    | score_count ↦ fl.add old fl.one
    | _ ↦ fl.add old h.score
  ]

  -- One round of the first loop, for the hit in place `i`.
  unfoldable pub stand : ℕ → Hit F → Standing F → Standing F
  unfolding scored
  stand i h s =
      let g = group idx h in
      record {
        first = elim (s.first g) [ none ↦ set_at g (some i) s.first | some _ ↦ s.first ];
        count = set_at g (suc (s.count g)) s.count;
        score = set_at g (scored h (s.score g)) s.score;
      }

  unfoldable pub standing_from : ℕ → List (Hit F) → Standing F → Standing F
  unfolding stand
  standing_from i [] s = s
  standing_from i (h ∷ hits) s = standing_from (suc i) hits (stand i h s)

  unfoldable pub standing : List (Hit F) → Standing F
  unfolding standing_from
  standing hits =
      standing_from 0 hits (record { first = λ g. none; count = λ g. 0; score = λ g. fl.zero })

  abbrev pub first_of : Standing F → Text → ℕ
  first_of s g = elim (s.first g) [ none ↦ 0 | some i ↦ i ]

  -- The comparison of the wholesale variants.
  unfoldable pub module_before : Standing F → Hit F → Hit F → Bool
  module_before s a b =
      let ga = group idx a in
      let gb = group idx b in
      if text_eq ga gb
      then false
      else if fl.eq (s.score ga) (s.score gb)
      then ltb (first_of s ga) (first_of s gb)
      else fl.lt (s.score gb) (s.score ga)

  unfoldable pub boost : Standing F → Text → F
  boost s g = fl.add fl.one (fl.times o.alpha (fl.log1p (fl.of_nat (s.count g - 1))))

  abbrev pub blended : Standing F → Hit F → F
  blended s h = fl.times h.score (boost s (group idx h))

  -- `ranked`, by the sorted `order`; `h` is any of the hits.
  unfoldable pub blend_ranked : Standing F → Hit F → List (Hit F) → List (Hit F)
  unfolding boost sort_stable value_at indices
  blend_ranked s h out =
      let score = λ (i : ℕ). value_at (blended s h) (map (blended s) out) i in
      map (value_at h out) (sort_stable (λ i j. fl.lt (score j) (score i)) (indices out))

  -- The two sorts.
  unfoldable pub sorted_by : ModuleScore → Standing F → List (Hit F) → List (Hit F)
  unfolding module_before blend_ranked sort_stable
  sorted_by score_blend s [] = []
  sorted_by score_blend s (h ∷ hits) = blend_ranked s h (h ∷ hits)
  sorted_by score_sum s hits = sort_stable (module_before s) hits
  sorted_by score_best s hits = sort_stable (module_before s) hits
  sorted_by score_count s hits = sort_stable (module_before s) hits

  -- An empty list goes through the sort as it is.
  unfoldable pub rerank_by_module : List (Hit F) → List (Hit F)
  unfolding standing sorted_by
  rerank_by_module hits = sorted_by o.score (standing hits) hits
