-- ===== src/Retrieve/Rerank/Modules.antt =====
-- backend/internal/retrieve/rerank.go: what the rerank keeps of the order within a module.
use rongo.Prelude.{
  ◌≡◌, ◌≢◌, refl, sym, ◌∙◌, Bool, true, false, List, filter, Text, text_eq, text_eq_iff,
}
use rongo.Prelude.Sorting.{sort_stable-filter}
use rongo.Retrieve.Hits.{Floats, Hit}
use rongo.Retrieve.Rerank.{
  ModuleScore, score_sum, score_best, score_count, score_blend, RerankOpts, ModuleIndex, group,
  Standing, standing, module_before, rerank_by_module, sorted_by,
}

module _ {F : Type 0} (fl : Floats F) (idx : ModuleIndex) where
  module _ (o : RerankOpts F) where
    abbrev pub in_module : Text → Hit F → Bool
    in_module g h = text_eq (group idx h) g

    tied :
        (s : Standing F) (g : Text) (a b : Hit F)
        → in_module g a ≡ true
        → in_module g b ≡ true
        → module_before fl idx o s a b ≡ false
    unfolding module_before
    tied s g a b ha hb =
        let ga = group idx a in
        let gb = group idx b in
        let e : text_eq ga gb ≡ true =
          (text_eq_iff ga gb).1 ((text_eq_iff ga g).0 ha ∙ sym ((text_eq_iff gb g).0 hb)) in
        rw (module_before, e) refl

    sorted_by-filter :
        (kind : ModuleScore) (s : Standing F) (g : Text) (hits : List (Hit F))
        → kind ≢ score_blend
        → filter (in_module g) (sorted_by fl idx o kind s hits) ≡ filter (in_module g) hits
    unfolding sorted_by
    sorted_by-filter score_sum s g hits h = sort_stable-filter _ (in_module g) (tied s g) hits
    sorted_by-filter score_best s g hits h = sort_stable-filter _ (in_module g) (tied s g) hits
    sorted_by-filter score_count s g hits h = sort_stable-filter _ (in_module g) (tied s g) hits
    sorted_by-filter score_blend s g hits h = absurd (h refl)

    -- Whichever score it goes by, the blend apart, the rerank keeps the order of the hits of one
    -- module.
    pub rerank_by_module-filter :
        (hits : List (Hit F)) (g : Text)
        → o.score ≢ score_blend
        → filter (in_module g) (rerank_by_module fl idx o hits) ≡ filter (in_module g) hits
    unfolding rerank_by_module
    rerank_by_module-filter hits g wholesale =
        sorted_by-filter o.score (standing fl idx o hits) g hits wholesale
