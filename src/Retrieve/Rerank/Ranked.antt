-- ===== src/Retrieve/Rerank/Ranked.antt =====
-- backend/internal/retrieve/rerank.go: in which order the rerank puts the hits, for scores that are numbers.
use rongo.Prelude.{
  ℕ, ◌≤◌, ◌≡◌, refl, sym, ap, ◌∙◌, ◌⊎◌, inl, inr, Bool, true, false, not, ◌&&◌, List, [], ◌∷◌, map,
  zero, suc, ◌-◌, text_eq, text_eq_iff, ltb, if◌then◌else◌, Bool-cases, arith,
}
use mathlib.Core.List.{map-map, Perm, Pairwise}
use mathlib.Core.List.Pairwise
use mathlib.Core.Path.{subst}
use rongo.Prelude.Sorting.{IsOrder, insert, sort_stable, sort_stable-perm, sort_stable-IsSorted}
use rongo.Retrieve.Hits.{Floats, Hit}
use rongo.Retrieve.Rerank.{
  ModuleScore, score_sum, score_best, score_count, score_blend, RerankOpts, ModuleIndex, group,
  boost, standing, module_before, blended, value_at, indices, blend_ranked, rerank_by_module,
  sorted_by,
}
use rongo.Retrieve.Rerank.Standings.{
  module_score, place_from, blend_of, score_is, first_is, count_is,
}

-- What the comparisons of the scores do where none of them is a NaN.
pub record AreNumbers {F : Type 0} (fl : Floats F) : Type 0 where
  pub asym : (x y : F) → fl.lt x y ≡ true → fl.lt y x ≡ false
  pub ties : (x y z : F) → fl.lt y x ≡ false → fl.lt z y ≡ false → fl.lt z x ≡ false
  pub equal : (x y : F) → fl.eq x y ≡ (not (fl.lt x y) && not (fl.lt y x))

module _ {F : Type 0} (fl : Floats F) (n : AreNumbers fl) where
  -- The comparison of two modules by score and first place.
  abbrev key_before : F × ℕ → F × ℕ → Bool
  key_before a b = if fl.eq a.0 b.0 then ltb a.1 b.1 else fl.lt b.0 a.0

  key_self : (a : F × ℕ) → key_before a a ≡ false
  key_self (x, i) = let e = n.equal x x in let s = n.asym x x in ground (arith, e, s)

  key_asym : (a b : F × ℕ) → key_before a b ≡ true → key_before b a ≡ false
  key_asym (x, i) (y, j) h =
      let e = n.equal x y in
      let e' = n.equal y x in
      let s = n.asym x y in let s' = n.asym y x in ground (arith, e, e', s, s', h)

  key_ties :
      (a b c : F × ℕ) → key_before b a ≡ false → key_before c b ≡ false → key_before c a ≡ false
  key_ties (x, i) (y, j) (z, k) h h' =
      let e = n.equal y x in
      let e' = n.equal z y in
      let e'' = n.equal z x in
      let t = n.ties x y z in
      let t' = n.ties z y x in
      let u = n.ties y z x in
      let u' = n.ties x z y in
      let v = n.ties y x z in
      let v' = n.ties z x y in ground (arith, e, e', e'', t, t', u, u', v, v', h, h')

value_at-map {ℓ} :
    {A B : Type ℓ} (f : A → B) (d : A) (l : List A) (i : ℕ)
    → value_at (f d) (map f l) i ≡ f (value_at d l i)
unfolding value_at
value_at-map f d [] i = refl
value_at-map f d (x ∷ xs) zero = refl
value_at-map f d (x ∷ xs) (suc i) = value_at-map f d xs i

value_at-indices {ℓ} : {A : Type ℓ} (d : A) (l : List A) → map (value_at d l) (indices l) ≡ l
unfolding value_at indices
value_at-indices d [] = refl
value_at-indices d (x ∷ xs) =
    ap (λ t. x ∷ t) (map-map (value_at d (x ∷ xs)) suc (indices xs) ∙ value_at-indices d xs)

module _ {ℓ} {A B : Type ℓ} (f : A → B) (less : B → B → Bool) where
  insert-map :
      (x : A) (l : List A)
      → insert less (f x) (map f l) ≡ map f (insert (λ a b. less (f a) (f b)) x l)
  unfolding insert
  insert-map x [] = refl
  insert-map x (y ∷ ys) = elim (Bool-cases (less (f y) (f x))) [
    | inl t ↦ rw (insert, t) (ap (λ l. f y ∷ l) (insert-map x ys))
    | inr n ↦ rw (insert, n) refl
  ]

  sort_stable-map :
      (l : List A) → sort_stable less (map f l) ≡ map f (sort_stable (λ a b. less (f a) (f b)) l)
  unfolding sort_stable
  sort_stable-map [] = refl
  sort_stable-map (x ∷ xs) =
      ap (insert less (f x)) (sort_stable-map xs)
      ∙ insert-map x (sort_stable (λ a b. less (f a) (f b)) xs)

module _ {F : Type 0} (fl : Floats F) (idx : ModuleIndex) (o : RerankOpts F) where
  -- Of two hits the first may stand before the other: their module is one, or its module stands better, or as
  -- well and was found first.
  abbrev pub IsAhead : List (Hit F) → Hit F → Hit F → Type 0
  IsAhead hits a b =
      let ga = group idx a in
      let gb = group idx b in
      (ga ≡ gb)
      ⊎ (fl.lt (module_score fl idx o hits gb) (module_score fl idx o hits ga) ≡ true)
      ⊎ ((fl.eq (module_score fl idx o hits ga) (module_score fl idx o hits gb) ≡ true)
          × (place_from fl idx o 0 hits ga ≤ place_from fl idx o 0 hits gb))

  abbrev pub IsBlendAhead : List (Hit F) → Hit F → Hit F → Type 0
  IsBlendAhead hits a b = fl.lt (blend_of fl idx o hits a) (blend_of fl idx o hits b) ≡ false

  abbrev pub AheadBy : ModuleScore → List (Hit F) → Hit F → Hit F → Type 0
  AheadBy score_sum = IsAhead
  AheadBy score_best = IsAhead
  AheadBy score_count = IsAhead
  AheadBy score_blend = IsBlendAhead

  module _ (n : AreNumbers fl) (hits : List (Hit F)) where
    abbrev key_of : Hit F → F × ℕ
    key_of h = (module_score fl idx o hits (group idx h), place_from fl idx o 0 hits (group idx h))

    module_before_key :
        (a b : Hit F)
        → module_before fl idx o (standing fl idx o hits) a b
          ≡ key_before fl n (key_of a) (key_of b)
    unfolding module_before
    module_before_key a b = elim (Bool-cases (text_eq (group idx a) (group idx b))) [
      | inl t ↦
          let e = (text_eq_iff (group idx a) (group idx b)).0 t in
          let same : key_of a ≡ key_of b =
            ap (λ g. (module_score fl idx o hits g, place_from fl idx o 0 hits g)) e in
          rw (module_before, t)
            (sym (key_self fl n (key_of b)) ∙ ap (λ k. key_before fl n k (key_of b)) (sym same))
      | inr f ↦
          rw
            (
              module_before,
              f,
              score_is fl idx o hits (group idx a),
              score_is fl idx o hits (group idx b),
              first_is fl idx o hits (group idx a),
              first_is fl idx o hits (group idx b),
            )
            refl
    ]

    module_before-IsOrder : IsOrder (module_before fl idx o (standing fl idx o hits))
    module_before-IsOrder = record {
      asym = λ a b h.
          module_before_key b a
          ∙ key_asym fl n (key_of a) (key_of b) (sym (module_before_key a b) ∙ h);
      ties = λ a b c h k.
          module_before_key c a
          ∙ key_ties fl n (key_of a) (key_of b) (key_of c) (sym (module_before_key b a) ∙ h)
              (sym (module_before_key c b) ∙ k);
    }

    ahead :
        (a b : Hit F)
        → module_before fl idx o (standing fl idx o hits) b a ≡ false
        → IsAhead hits a b
    ahead a b h =
        let k : key_before fl n (key_of b) (key_of a) ≡ false = sym (module_before_key b a) ∙ h in
        let e =
          n.equal (module_score fl idx o hits (group idx b))
            (module_score fl idx o hits (group idx a)) in
        let e' =
          n.equal (module_score fl idx o hits (group idx a))
            (module_score fl idx o hits (group idx b)) in
        inr (ground (arith, k, e, e'))

    -- The comparison of the blend, on the hits alone.
    abbrev blend_before : Hit F → Hit F → Bool
    blend_before a b = fl.lt (blend_of fl idx o hits b) (blend_of fl idx o hits a)

    blend_before-IsOrder : IsOrder blend_before
    blend_before-IsOrder = record {
      asym = λ a b h. n.asym (blend_of fl idx o hits b) (blend_of fl idx o hits a) h;
      ties = λ a b c h k.
          n.ties (blend_of fl idx o hits c) (blend_of fl idx o hits b) (blend_of fl idx o hits a) k
            h;
    }

    blended_is :
        (h : Hit F) → blended fl idx o (standing fl idx o hits) h ≡ blend_of fl idx o hits h
    unfolding boost
    blended_is h =
        ap (λ k. fl.times h.score (fl.add fl.one (fl.times o.alpha (fl.log1p (fl.of_nat (k - 1))))))
          (count_is fl idx o hits (group idx h))

    order_is :
        (h : Hit F) (l : List (Hit F)) (i j : ℕ)
        → fl.lt
            (value_at
              (blended fl idx o (standing fl idx o hits) h)
              (map (blended fl idx o (standing fl idx o hits)) l)
              j)
            (value_at
              (blended fl idx o (standing fl idx o hits) h)
              (map (blended fl idx o (standing fl idx o hits)) l)
              i)
          ≡ blend_before (value_at h l i) (value_at h l j)
    order_is h l i j =
        rw
          (
            value_at-map (blended fl idx o (standing fl idx o hits)) h l i,
            value_at-map (blended fl idx o (standing fl idx o hits)) h l j,
            blended_is (value_at h l i),
            blended_is (value_at h l j),
          )
          refl

    blend_ranked_sorted :
        (h : Hit F) (l : List (Hit F))
        → blend_ranked fl idx o (standing fl idx o hits) h l ≡ sort_stable blend_before l
    unfolding blend_ranked
    blend_ranked_sorted h l =
        ap (λ (less : ℕ → ℕ → Bool). map (value_at h l) (sort_stable less (indices l)))
          (λ k i j. order_is h l i j k)
        ∙ sym (sort_stable-map (value_at h l) blend_before (indices l))
        ∙ ap (sort_stable blend_before) (value_at-indices h l)

    blend_sorted :
        (l : List (Hit F))
        → sorted_by fl idx o score_blend (standing fl idx o hits) l ≡ sort_stable blend_before l
    unfolding sorted_by sort_stable
    blend_sorted [] = refl
    blend_sorted (h ∷ l) = blend_ranked_sorted h (h ∷ l)

    -- What a rerank by one of the scores leaves.
    abbrev pub IsRankedBy : ModuleScore → List (Hit F) → Type 0
    IsRankedBy kind out = Perm out hits × Pairwise (AheadBy kind hits) out

    wholesale :
        IsRankedBy score_sum (sort_stable (module_before fl idx o (standing fl idx o hits)) hits)
    wholesale = (
      sort_stable-perm _ hits,
      Pairwise.imp ahead (sort_stable-IsSorted _ module_before-IsOrder hits),
    )

    sorted_by-IsRanked :
        (kind : ModuleScore)
        → IsRankedBy kind (sorted_by fl idx o kind (standing fl idx o hits) hits)
    unfolding sorted_by
    sorted_by-IsRanked score_sum = wholesale
    sorted_by-IsRanked score_best = wholesale
    sorted_by-IsRanked score_count = wholesale
    sorted_by-IsRanked score_blend =
        subst (IsRankedBy score_blend) (sym (blend_sorted hits))
          (sort_stable-perm _ hits, sort_stable-IsSorted _ blend_before-IsOrder hits)

    -- For scores that are numbers, the rerank drops no hit and adds none, and puts no hit before one that belongs
    -- before it. By sum, best or count, of two hits of different modules the first one's module stands better, or
    -- as well and was found no later, a module standing by its hits alone; by blend, the first one's score, raised
    -- by the number of its module's other hits, is not less.
    pub rerank_by_module-IsRanked : IsRankedBy o.score (rerank_by_module fl idx o hits)
    unfolding rerank_by_module
    rerank_by_module-IsRanked = sorted_by-IsRanked o.score
