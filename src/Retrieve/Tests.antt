-- ===== src/Retrieve/Tests.antt =====
-- Two lanes that share a chunk and a third that is muted, with whole numbers for the scores.
use rongo.Prelude.{
  ℕ, ◌+◌, ◌*◌, ◌/◌, ◌≤◌, ◌<◌, ◌≡◌, ◌≢◌, refl, sym, none, List, [], ◌∷◌, map, filter, Text, codes,
  ltb, leb, ◌==◌, length, arith,
}
use rongo.Prelude.Int.{pos}
use mathlib.Core.Path.{subst}
use mathlib.Core.List.{Mem, Nodup, Perm, Subset, mem-cons_self, mem-cons_of_mem}
use rongo.Retrieve.Hits.{Floats, Hit}
use rongo.Retrieve.Fuse.{Lane, Decays, fuse_weighted_decayed, ranked, diversify_by_repo, add_lanes}
use rongo.Retrieve.Fuse.Order.{diversify_by_repo-perm}
use rongo.Retrieve.Fuse.Ids.{lane_ids}
use rongo.Retrieve.Fuse.Merged.{ids, fuse_weighted_decayed-ids, fuse_weighted_decayed-complete}
use rongo.Retrieve.Rerank.{
  score_sum, score_blend, RerankOpts, ModuleIndex, group, boost, rerank_by_module,
}
use rongo.Retrieve.Rerank.Modules.{rerank_by_module-filter, in_module}
use rongo.Retrieve.Rerank.Ranked.{AreNumbers, IsRankedBy, rerank_by_module-IsRanked}

abbrev whole : Floats ℕ
whole = record {
  zero = 0;
  one = 1;
  of_nat = λ n. n;
  add = λ a b. a + b;
  times = λ a b. a * b;
  over = λ a b. a / b;
  power = λ a b. a;
  log1p = λ a. a;
  lt = λ a b. ltb a b;
  le = λ a b. leb a b;
  eq = λ a b. a == b;
}

abbrev hit : ℕ → Text → Text → ℕ → Hit ℕ
hit id repo path distance = record {
  chunk_id = id;
  repo = repo;
  branch = codes "main";
  path = path;
  symbol = [];
  raw_text = [];
  start_line = 1;
  end_line = 9;
  ordinal = 0;
  sha = codes "aa11";
  distance = distance;
  score = 0;
  lanes = [];
}

abbrev job : Hit ℕ
job = hit 7 (codes "shop") (codes "mail/PromoMailJob.java") 0

abbrev test : Hit ℕ
test = hit 3 (codes "shop") (codes "mail/PromoMailJobTest.java") 0

abbrev sender : Hit ℕ
sender = hit 9 (codes "post") (codes "send/Sender.java") 0

abbrev keyword : Lane ℕ
keyword = record { name = codes "keyword"; hits = test ∷ job ∷ []; weight = 60000 }

abbrev semantic : Lane ℕ
semantic = record { name = codes "semantic"; hits = sender ∷ job ∷ []; weight = 36000 }

abbrev muted : Lane ℕ
muted = record { name = codes "any"; hits = hit 4 [] [] 0 ∷ []; weight = 0 }

abbrev lanes : List (Lane ℕ)
lanes = keyword ∷ semantic ∷ muted ∷ []

abbrev decays : Decays ℕ
decays = record { repo = 1; test = 0; doc = 0 }

ids_of_lanes : lane_ids whole lanes ≡ 3 ∷ 7 ∷ 9 ∷ 7 ∷ []
unfolding lane_ids
ids_of_lanes = refl

fuse_weighted_decayed-ids_example :
    (length (fuse_weighted_decayed whole lanes (pos 2) decays) ≤ 2)
    × Nodup (ids whole (fuse_weighted_decayed whole lanes (pos 2) decays))
    × Subset (ids whole (fuse_weighted_decayed whole lanes (pos 2) decays)) (lane_ids whole lanes)
fuse_weighted_decayed-ids_example = fuse_weighted_decayed-ids whole lanes (pos 2) decays

-- The chunk of both lanes comes first, and the test is not demoted.
merged : ids whole (fuse_weighted_decayed whole lanes (pos 5) decays) ≡ 7 ∷ 3 ∷ 9 ∷ []
unfolding fuse_weighted_decayed ranked add_lanes
merged = refl

three : length (fuse_weighted_decayed whole lanes (pos 5) decays) ≡ 3
unfolding fuse_weighted_decayed ranked add_lanes
three = refl

shorter : length (fuse_weighted_decayed whole lanes (pos 5) decays) < 5
shorter = omega (arith, three)

inside : Mem 9 (lane_ids whole lanes)
inside = subst (Mem 9) (sym ids_of_lanes) (mem-cons_of_mem 3 (mem-cons_of_mem 7 mem-cons_self))

fuse_weighted_decayed-complete_example :
    Mem 9 (ids whole (fuse_weighted_decayed whole lanes (pos 5) decays))
fuse_weighted_decayed-complete_example =
    fuse_weighted_decayed-complete whole lanes (pos 5) decays 9 shorter inside

diversify_by_repo-perm_example :
    Perm (diversify_by_repo whole (test ∷ job ∷ sender ∷ []) 0) (test ∷ job ∷ sender ∷ [])
diversify_by_repo-perm_example = diversify_by_repo-perm whole (test ∷ job ∷ sender ∷ []) 0

abbrev index : ModuleIndex
index key = none

abbrev by_sum : RerankOpts ℕ
by_sum = record { score = score_sum; alpha = 0 }

whole-AreNumbers : AreNumbers whole
whole-AreNumbers = record {
  asym = λ x y h. ground (arith, h);
  ties = λ x y z h k. ground (arith, h, k);
  equal = λ x y. ground arith;
}

-- Two hits of a module beside a better one of another, whose file no other hit shares.
abbrev scored_hits : List (Hit ℕ)
scored_hits = record job { score = 4 } ∷ record sender { score = 6 } ∷ record job { score = 3 } ∷ []

by_sum_order :
    map (λ (h : Hit ℕ). h.score) (rerank_by_module whole index by_sum scored_hits) ≡ 4 ∷ 3 ∷ 6 ∷ []
unfolding rerank_by_module group
by_sum_order = refl

abbrev by_blend : RerankOpts ℕ
by_blend = record { score = score_blend; alpha = 1 }

by_blend_order :
    map (λ (h : Hit ℕ). h.score) (rerank_by_module whole index by_blend scored_hits)
    ≡ 4 ∷ 6 ∷ 3 ∷ []
unfolding rerank_by_module group boost
by_blend_order = refl

rerank_by_module-IsRanked_example :
    IsRankedBy whole index by_sum whole-AreNumbers scored_hits score_sum
      (rerank_by_module whole index by_sum scored_hits)
rerank_by_module-IsRanked_example =
    rerank_by_module-IsRanked whole index by_sum whole-AreNumbers scored_hits

not-blend : score_sum ≢ score_blend
not-blend e = cc

rerank_by_module-filter_example :
    filter
      (in_module whole index by_sum (group index job))
      (rerank_by_module whole index by_sum (job ∷ sender ∷ job ∷ []))
    ≡ filter (in_module whole index by_sum (group index job)) (job ∷ sender ∷ job ∷ [])
rerank_by_module-filter_example =
    rerank_by_module-filter whole index by_sum (job ∷ sender ∷ job ∷ []) (group index job) not-blend
