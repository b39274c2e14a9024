-- ===== src/Indexer/Pipeline/Vectors.antt =====
-- backend/internal/indexer/index.go: the vectors of a file's chunks, from the cache or from one call of the
-- embedder for those that it lacks.
use rongo.Prelude.{
  Bool, true, false, not, ◌||◌, Option, none, some, List, [], ◌∷◌, map, Text, text_eq, text_in,
  length, ◌==◌, if◌then◌else◌,
}
use rongo.Prelude.Fallible.{◌>>=◌}
use rongo.Indexer.Chunk.Assemble.{Chunk}
use rongo.Indexer.Pipeline.Sources.{Deps}

module _ {V : Type 0} where
  unfoldable pub vector_of : Text → List (Text × V) → Option V
  vector_of h [] = none
  vector_of h ((k, v) ∷ cached) =
      let rest = vector_of h cached in if text_eq h k then some v else rest

  abbrev pub is_cached : Text → List (Text × V) → Bool
  is_cached h cached = elim (vector_of h cached) [ none ↦ false | some v ↦ true ]

  -- The chunks whose texts are embedded, each hash once.
  unfoldable pub misses : List (Text × V) → List Text → List Chunk → List Chunk
  unfolding text_in vector_of
  misses cached seen [] = []
  misses cached seen (c ∷ cs) =
      let skip = misses cached seen cs in
      let take = misses cached (c.content_hash ∷ seen) cs in
      if is_cached c.content_hash cached || text_in c.content_hash seen then skip else c ∷ take

  -- `cached[h] = fresh[i]`
  unfoldable pub with_fresh : List Chunk → List V → List (Text × V) → List (Text × V)
  with_fresh [] vs cached = cached
  with_fresh (c ∷ cs) [] cached = cached
  with_fresh (c ∷ cs) (v ∷ vs) cached = with_fresh cs vs ((c.content_hash, v) ∷ cached)

  -- `out`, unless a chunk has no vector.
  unfoldable pub aligned_vectors : List (Text × V) → List Chunk → Option (List V)
  aligned_vectors cached [] = some []
  aligned_vectors cached (c ∷ cs) =
      vector_of c.content_hash cached >>= λ v. aligned_vectors cached cs >>= λ vs. some (v ∷ vs)

abbrev pub hashes : List Chunk → List Text
hashes cs = map (λ (c : Chunk). c.content_hash) cs

abbrev pub texts : List Chunk → List Text
texts cs = map (λ (c : Chunk). c.text) cs

module _ {V S : Type 0} (d : Deps V S) where
  -- The misses are embedded in one call, and put into the cache.
  unfoldable pub embed_misses : List Chunk → List (Text × V) → S → Option (List (Text × V) × S)
  embed_misses missing cached s = d.embed s (texts missing) >>= λ (fresh, s1).
      if not (length fresh == length missing)
      then none
      else d.put_all s1 (hashes missing) fresh >>= λ s2. some (with_fresh missing fresh cached, s2)

  unfoldable pub fill_cached : List Chunk → List (Text × V) → S → Option (List (Text × V) × S)
  fill_cached [] cached s = some (cached, s)
  fill_cached (m ∷ missing) cached s = embed_misses (m ∷ missing) cached s

  -- `vectors`
  unfoldable pub vectors : List Chunk → S → Option (List V × S)
  vectors chunks s = d.get s (hashes chunks) >>= λ cached.
      fill_cached (misses cached [] chunks) cached s >>= λ (filled, s1).
      aligned_vectors filled chunks >>= λ out. some (out, s1)
