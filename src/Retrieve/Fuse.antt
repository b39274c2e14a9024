-- ===== src/Retrieve/Fuse.antt =====
-- backend/internal/retrieve/hybrid.go: FuseWeightedDecayed, which makes one ranked list of the lanes'
-- lists. The map from ids to entries and the order of the ids are one list, in that order.
pub mod Order
pub mod Ids
pub mod Merged
use rongo.Prelude.{
  ℕ, zero, suc, ◌+◌, Bool, true, false, not, ◌&&◌, ◌||◌, List, [], ◌∷◌, ◌++◌, map, Text, text_eq,
  text_in, length, get_or, take, ltb, ◌==◌, if◌then◌else◌,
}
use rongo.Prelude.Int.{ℤ, pos, negsuc}
use rongo.Prelude.Sorting.{sort_stable}
use rongo.Retrieve.Paths.{is_test_path, is_doc_path}
use rongo.Retrieve.Hits.{Floats, Hit, less_by_address}

abbrev rrf_k : ℕ
rrf_k = 60

pub record Lane (F : Type 0) : Type 0 where
  pub name : Text
  pub hits : List (Hit F)
  pub weight : F

pub record Decays (F : Type 0) : Type 0 where
  pub repo : F
  pub test : F
  pub doc : F

pub record Agg (F : Type 0) : Type 0 where
  pub hit : Hit F
  pub score : F
  pub lanes : List Text

module _ {F : Type 0} (fl : Floats F) where
  -- `a.score += …`, and the lane's name once.
  unfoldable pub credit : Lane F → ℕ → Agg F → Agg F
  unfolding text_in
  credit lane rank a = record a {
    score = fl.add a.score (fl.over lane.weight (fl.of_nat (rrf_k + rank)));
    lanes =
        if not (text_eq lane.name []) && not (text_in lane.name a.lanes)
        then a.lanes ++ lane.name ∷ []
        else a.lanes;
  }

  -- A keyword lane leaves the distance at zero, a vector lane brings one.
  unfoldable pub keep_distance : Hit F → Agg F → Agg F
  keep_distance h a =
      if fl.eq a.hit.distance fl.zero && fl.lt fl.zero h.distance
      then record a { hit = record a.hit { distance = h.distance } }
      else a

  unfoldable pub add_hit : Lane F → ℕ → Hit F → List (Agg F) → List (Agg F)
  unfolding credit keep_distance
  add_hit lane rank h [] = credit lane rank (record { hit = h; score = fl.zero; lanes = [] }) ∷ []
  add_hit lane rank h (a ∷ aggs) =
      let rest = add_hit lane rank h aggs in
      if a.hit.chunk_id == h.chunk_id then credit lane rank (keep_distance h a) ∷ aggs else a ∷ rest

  unfoldable pub add_hits : Lane F → ℕ → List (Hit F) → List (Agg F) → List (Agg F)
  unfolding add_hit
  add_hits lane rank [] aggs = aggs
  add_hits lane rank (h ∷ hits) aggs = add_hits lane (suc rank) hits (add_hit lane rank h aggs)

  unfoldable pub add_lanes : List (Lane F) → List (Agg F) → List (Agg F)
  unfolding add_hits
  add_lanes [] aggs = aggs
  add_lanes (lane ∷ lanes) aggs =
      add_lanes lanes (if fl.le lane.weight fl.zero then aggs else add_hits lane 0 lane.hits aggs)

  unfoldable pub supporting_decay : Text → Decays F → F
  unfolding is_test_path is_doc_path
  supporting_decay path d =
      let f =
        if fl.lt fl.zero d.test && fl.lt d.test fl.one && is_test_path path
        then d.test
        else fl.one in
      if fl.lt fl.zero d.doc && fl.lt d.doc fl.one && is_doc_path path && fl.lt d.doc f
      then d.doc
      else f

  unfoldable pub demote : Decays F → Agg F → Agg F
  unfolding supporting_decay
  demote d a =
      let f = supporting_decay a.hit.path d in
      if fl.lt f fl.one then record a { score = fl.times a.score f } else a

  unfoldable pub before : Agg F → Agg F → Bool
  unfolding less_by_address
  before a b = if fl.eq a.score b.score then less_by_address a.hit b.hit else fl.lt b.score a.score

  abbrev pub written_back : Agg F → Hit F
  written_back a = record a.hit { score = a.score; lanes = a.lanes }

  unfoldable pub ranked : List (Lane F) → Decays F → List (Hit F)
  unfolding add_lanes demote before sort_stable
  ranked lanes d = map written_back (sort_stable before (map (demote d) (add_lanes lanes [])))

  -- How many hits of each repository were taken.
  abbrev pub Taken : Type 0
  Taken = Text → ℕ

  abbrev none_taken : Taken
  none_taken repo = 0

  abbrev take_one : Text → Taken → Taken
  take_one repo taken r = if text_eq r repo then suc (taken r) else taken r

  unfoldable pub penalised : F → Hit F → Taken → F
  penalised decay h taken = fl.times h.score (fl.power decay (fl.of_nat (taken h.repo)))

  -- The scan for the best of what remains: from place `i` on, with the best place so far.
  unfoldable pub best_place : F → Taken → List (Hit F) → ℕ → ℕ → F → ℕ
  unfolding penalised
  best_place decay taken [] i best score = best
  best_place decay taken (h ∷ hits) i best score =
      let sc = penalised decay h taken in
      let next : ℕ × F = if fl.lt score sc then (i, sc) else (best, score) in
      best_place decay taken hits (suc i) next.0 next.1

  unfoldable pub remove_at : ℕ → List (Hit F) → List (Hit F)
  remove_at i [] = []
  remove_at zero (h ∷ hits) = hits
  remove_at (suc i) (h ∷ hits) = h ∷ remove_at i hits

  -- The outer loop; each round takes one, so as many rounds as hits are enough.
  unfoldable pub diversify_loop : ℕ → F → Taken → List (Hit F) → List (Hit F)
  unfolding best_place remove_at penalised
  diversify_loop zero decay taken remaining = []
  diversify_loop (suc fuel) decay taken [] = []
  diversify_loop (suc fuel) decay taken (h ∷ hits) =
      let best = best_place decay taken hits 1 0 (penalised decay h taken) in
      let chosen = get_or (h ∷ hits) best h in
      chosen ∷ diversify_loop fuel decay (take_one chosen.repo taken) (remove_at best (h ∷ hits))

  unfoldable pub diversify_by_repo : List (Hit F) → F → List (Hit F)
  unfolding diversify_loop
  diversify_by_repo hits decay =
      if fl.le decay fl.zero || fl.le fl.one decay || ltb (length hits) 2
      then hits
      else diversify_loop (length hits) decay none_taken hits

  abbrev pub limit : ℤ → ℕ
  limit (pos zero) = 10
  limit (pos (suc k)) = suc k
  limit (negsuc k) = 10

  unfoldable pub fuse_weighted_decayed : List (Lane F) → ℤ → Decays F → List (Hit F)
  unfolding ranked diversify_by_repo
  fuse_weighted_decayed lanes k d = take (limit k) (diversify_by_repo (ranked lanes d) d.repo)
