-- ===== src/Indexer/Pipeline/Laws.antt =====
-- backend/internal/indexer/index.go: what a run relies on in its collaborators, and what `vectors` gives then.
use rongo.Prelude.{
  ℕ, ◌≡◌, refl, sym, ap, ◌∙◌, inl, inr, true, false, some, List, [], ◌∷◌, Text, text_in, length,
  length-map, ◌==◌, ==_iff, ==_false→≢, Bool-cases, All, ◌≢◌,
}
use mathlib.Core.Bool.{true≢false}
use mathlib.Core.Path.{subst}
use mathlib.Core.Option.{some-injective}
use rongo.Prelude.Fallible.{Outcome, Outcome-bind, Outcome-imp, Option-cases, none_or_some}
use rongo.Indexer.Chunk.Assemble.{Chunk}
use rongo.Indexer.Write.Insert.{AreWide}
use rongo.Indexer.Pipeline.Sources.{Deps, Change, unread}
use rongo.Indexer.Pipeline.Vectors.{
  is_cached, misses, with_fresh, aligned_vectors, hashes, texts, embed_misses, fill_cached, vectors,
}
use rongo.Indexer.Pipeline.Aligned.{
  IsAligned, IsRight, with_fresh-IsRight, aligned_vectors_lem, cached_still, fresh_cached,
  misses_cover,
}

module _ {V S : Type 0} (d : Deps V S) where
  -- Nothing fails: no read, no listing, no call of the cache or of the embedder, which gives a vector for
  -- each text; and nobody cancels the run.
  pub record IsReliable : Type 0 where
    pub lists : (sha : Text) → (es : List Change) × (d.list_entries sha ≡ some es)
    pub diffs : (from to : Text) → (es : List Change) × (d.changed_entries from to ≡ some es)
    pub reads : (sha path : Text) (limit : ℕ) → d.read sha path limit ≢ unread
    pub goes_on : (path : Text) → d.cancelled path ≡ false
    pub gets : (s : S) (hs : List Text) → (cached : List (Text × V)) × (d.get s hs ≡ some cached)
    pub puts : (s : S) (hs : List Text) (vs : List V) → (s' : S) × (d.put_all s hs vs ≡ some s')
    pub embeds :
        (s : S) (ts : List Text)
        → (r : List V × S) × (d.embed s ts ≡ some r) × (length (r.0) ≡ length ts)

  -- In the states that `Good` holds of, the cache has right vectors, and the embedder makes them.
  pub record IsHonest (P : Text → V → Type 0) (Good : S → Type 0) : Type 0 where
    pub get_right :
        (s : S) (hs : List Text) (cached : List (Text × V))
        → Good s
        → d.get s hs ≡ some cached
        → IsRight P cached
    pub embed_right :
        (s : S) (cs : List Chunk) (vs : List V) (s' : S)
        → Good s
        → d.embed s (texts cs) ≡ some (vs, s')
        → length vs ≡ length cs
        → IsAligned P cs vs
    pub embed_good :
        (s : S) (ts : List Text) (vs : List V) (s' : S)
        → Good s
        → d.embed s ts ≡ some (vs, s')
        → Good s'
    pub put_good :
        (s : S) (cs : List Chunk) (vs : List V) (s' : S)
        → Good s
        → IsAligned P cs vs
        → d.put_all s (hashes cs) vs ≡ some s'
        → Good s'

  -- The vectors that are right have the width of `chunks_vec`, which is that of the embedder's model.
  abbrev pub IsWide : (Text → V → Type 0) → Type 0
  IsWide P = (hash : Text) (v : V) → P hash v → d.limits.is_wide v ≡ true

  pub aligned_wide :
      (P : Text → V → Type 0)
      → IsWide P
      → (cs : List Chunk) (vs : List V) → IsAligned P cs vs
      → AreWide d.limits vs
  aligned_wide P w [] [] a = tt
  aligned_wide P w [] (v ∷ vs) a = absurd a
  aligned_wide P w (c ∷ cs) [] a = absurd a
  aligned_wide P w (c ∷ cs) (v ∷ vs) a = (w c.content_hash v a.0, aligned_wide P w cs vs a.1)

  -- Nothing fails, and repo_state has the repository.
  abbrev pub CanRun : Text → Type 0
  CanRun repo = IsReliable × (d.limits.is_registered repo ≡ true)

  module _ (P : Text → V → Type 0) (Good : S → Type 0) (honest : IsHonest P Good) where
    -- The cache as it is filled for some chunks.
    abbrev IsFilled : List Chunk → List (Text × V) × S → Type 0
    IsFilled cs r =
        IsRight P r.0 × All (λ (c : Chunk). is_cached c.content_hash r.0 ≡ true) cs × Good r.1

    embeds_all :
        IsReliable
        → (s : S) (ms : List Chunk) (f : List V × S) → d.embed s (texts ms) ≡ some f
        → length f.0 ≡ length ms
    embeds_all rel s ms f e =
        let k = rel.embeds s (texts ms) in
        let same : k.0 ≡ f = some-injective k.0 f (sym k.1 ∙ e) in
        ap (λ (x : List V × S). length x.0) (sym same) ∙ k.2 ∙ length-map (λ (c : Chunk). c.text) ms

    filled :
        (cs : List Chunk) (cached : List (Text × V)) (s : S)
        → Good s
        → IsRight P cached
        → (vs : List V) (s1 s2 : S) → d.embed s (texts (misses cached [] cs)) ≡ some (vs, s1)
        → length vs ≡ length (misses cached [] cs)
        → d.put_all s1 (hashes (misses cached [] cs)) vs ≡ some s2
        → IsFilled cs (with_fresh (misses cached [] cs) vs cached, s2)
    unfolding text_in
    filled cs cached s g r vs s1 s2 e len p =
        let ms = misses cached [] cs in
        let a = honest.embed_right s ms vs s1 g e len in
        (
          with_fresh-IsRight P ms vs cached a r,
          misses_cover cached [] cs (λ h. is_cached h (with_fresh ms vs cached))
              (fresh_cached ms vs cached len) (λ h k. cached_still h ms vs cached k)
              (λ h k. absurd (true≢false (sym k))),
          honest.put_good s1 ms vs s2 (honest.embed_good s (texts ms) vs s1 g e) a p,
        )

    embed_misses_lem :
        (cs : List Chunk) (cached : List (Text × V)) (s : S)
        → Good s
        → IsRight P cached
        → Outcome (¬ IsReliable) (IsFilled cs) (embed_misses d (misses cached [] cs) cached s)
    unfolding embed_misses
    embed_misses_lem cs cached s g r =
        let ms = misses cached [] cs in
        elim (Option-cases (d.embed s (texts ms))) [
          | inl n ↦ rw n (λ rel.
              let k = rel.embeds s (texts ms) in none_or_some (d.embed s (texts ms)) k.0 n k.1)
          | inr (f, e) ↦ rw e (elim (Bool-cases (length f.0 == length ms)) [
            | inr n ↦ rw n (λ rel. ==_false→≢ (length f.0) (length ms) n (embeds_all rel s ms f e))
            | inl t ↦ rw t (elim (Option-cases (d.put_all f.1 (hashes ms) f.0)) [
              | inl n ↦ rw n (λ rel.
                  let k = rel.puts f.1 (hashes ms) f.0 in
                  none_or_some (d.put_all f.1 (hashes ms) f.0) k.0 n k.1)
              | inr (s2, p) ↦
                  rw p
                    (filled cs cached s g r f.0 f.1 s2 e ((==_iff (length f.0) (length ms)).0 t) p)
            ])
          ])
        ]

    no_misses :
        (cs : List Chunk) (cached : List (Text × V)) (s : S)
        → Good s
        → IsRight P cached
        → misses cached [] cs ≡ []
        → IsFilled cs (cached, s)
    unfolding text_in
    no_misses cs cached s g r e = (
      r,
      misses_cover cached [] cs (λ h. is_cached h cached) (rw e tt) (λ h k. k)
          (λ h k. absurd (true≢false (sym k))),
      g,
    )

    fill_cached_lem :
        (cs : List Chunk) (cached : List (Text × V)) (s : S)
        → Good s
        → IsRight P cached
        → Outcome (¬ IsReliable) (IsFilled cs) (fill_cached d (misses cached [] cs) cached s)
    unfolding fill_cached
    fill_cached_lem cs cached s g r = go (misses cached [] cs) refl
      where
        go :
            (ms : List Chunk)
            → misses cached [] cs ≡ ms
            → Outcome (¬ IsReliable) (IsFilled cs) (fill_cached d ms cached s)
        go [] e = no_misses cs cached s g r e
        go (m ∷ ms) e =
            subst (λ l. Outcome (¬ IsReliable) (IsFilled cs) (embed_misses d l cached s)) e
              (embed_misses_lem cs cached s g r)

    -- For a cache and an embedder that are honest, `vectors` fails only if one of them does. Else it gives each
    -- chunk, in order, a vector that is right for its hash, from the cache or fresh, and leaves them honest.
    pub vectors-IsAligned :
        (cs : List Chunk) (s : S)
        → Good s
        → Outcome
            (¬ IsReliable)
            (λ (r : List V × S). IsAligned P cs r.0 × Good r.1)
            (vectors d cs s)
    unfolding vectors
    vectors-IsAligned cs s g = elim (Option-cases (d.get s (hashes cs))) [
      | inl n ↦
          rw n
            (λ rel. let k = rel.gets s (hashes cs) in none_or_some (d.get s (hashes cs)) k.0 n k.1)
      | inr (cached, e) ↦ rw e (
          Outcome-bind (¬ IsReliable) (IsFilled cs) (λ r. IsAligned P cs r.0 × Good r.1)
            (fill_cached d (misses cached [] cs) cached s) _
            (fill_cached_lem cs cached s g (honest.get_right s (hashes cs) cached g e))
            (λ (r, s1) k.
              Outcome-bind (¬ IsReliable) (IsAligned P cs) (λ r. IsAligned P cs r.0 × Good r.1)
                (aligned_vectors r cs) _
                (Outcome-imp (aligned_vectors r cs) (λ b. absurd b) (λ vs a. a)
                  (aligned_vectors_lem P r cs k.0 k.1))
                (λ vs a. (a, k.2))))
    ]
