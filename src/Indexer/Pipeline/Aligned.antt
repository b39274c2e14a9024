-- ===== src/Indexer/Pipeline/Aligned.antt =====
-- backend/internal/indexer/index.go: vectors, for a cache and an embedder that keep their word.
use rongo.Prelude.{
  ◌≡◌, refl, sym, ◌∙◌, inl, inr, Bool, true, ◌||◌, some, List, [], ◌∷◌, Text, text_eq, text_eq_iff,
  text_in, length, Bool-cases, All, arith,
}
use mathlib.Core.Bool.{true≢false}
use mathlib.Core.Path.{subst}
use mathlib.Core.Option.{some-injective}
use rongo.Prelude.Fallible.{Outcome, Outcome-bind, Option-cases}
use rongo.Indexer.Chunk.Assemble.{Chunk}
use rongo.Indexer.Pipeline.Vectors.{vector_of, is_cached, misses, with_fresh, aligned_vectors}

module _ {V : Type 0} (P : Text → V → Type 0) where
  -- Each chunk has its vector, one that is right for its hash.
  abbrev pub IsAligned : List Chunk → List V → Type 0
  IsAligned [] [] = Unit
  IsAligned [] (v ∷ vs) = ⊥
  IsAligned (c ∷ cs) [] = ⊥
  IsAligned (c ∷ cs) (v ∷ vs) = P c.content_hash v × IsAligned cs vs

  abbrev pub IsRight : List (Text × V) → Type 0
  IsRight cached = All (λ (r : Text × V). P r.0 r.1) cached

  pub aligned_length : (cs : List Chunk) (vs : List V) → IsAligned cs vs → length cs ≡ length vs
  aligned_length [] [] h = refl
  aligned_length [] (v ∷ vs) h = absurd h
  aligned_length (c ∷ cs) [] h = absurd h
  aligned_length (c ∷ cs) (v ∷ vs) h = rw (aligned_length cs vs h.1) refl

  right_vector :
      (h : Text) (cached : List (Text × V)) (v : V)
      → IsRight cached
      → vector_of h cached ≡ some v
      → P h v
  unfolding vector_of
  right_vector h [] v r e = absurd (cc e)
  right_vector h ((k, w) ∷ cached) v r e = elim (Bool-cases (text_eq h k)) [
    | inl t ↦
        let same : some w ≡ some v = rw (vector_of, t) at e in
        rw ((text_eq_iff h k).0 t) (subst (P k) (some-injective w v same) r.0)
    | inr n ↦ right_vector h cached v r.1 (rw (vector_of, n) at e)
  ]

  pub with_fresh-IsRight :
      (ms : List Chunk) (vs : List V) (cached : List (Text × V))
      → IsAligned ms vs
      → IsRight cached
      → IsRight (with_fresh ms vs cached)
  unfolding with_fresh
  with_fresh-IsRight [] vs cached a r = r
  with_fresh-IsRight (m ∷ ms) [] cached a r = absurd a
  with_fresh-IsRight (m ∷ ms) (v ∷ vs) cached a r =
      with_fresh-IsRight ms vs ((m.content_hash, v) ∷ cached) a.1 (a.0, r)

  pub aligned_vectors_lem :
      (cached : List (Text × V)) (cs : List Chunk)
      → IsRight cached
      → All (λ (c : Chunk). is_cached c.content_hash cached ≡ true) cs
      → Outcome ⊥ (IsAligned cs) (aligned_vectors cached cs)
  unfolding aligned_vectors
  aligned_vectors_lem cached [] r h = tt
  aligned_vectors_lem cached (c ∷ cs) r h = elim (Option-cases (vector_of c.content_hash cached)) [
    | inl n ↦ absurd (true≢false (sym h.0 ∙ rw (is_cached, n) refl))
    | inr (v, e) ↦ rw e (
        Outcome-bind ⊥ (IsAligned cs) (IsAligned (c ∷ cs)) (aligned_vectors cached cs)
          (λ vs. some (v ∷ vs)) (aligned_vectors_lem cached cs r h.1)
          (λ vs a. (right_vector c.content_hash cached v r e, a)))
  ]

seen_or :
    (k : Text) (seen : List Text) (has : Text → Bool)
    → has k ≡ true
    → ((h : Text) → text_in h seen ≡ true → has h ≡ true)
    → (h : Text) → text_in h (k ∷ seen) ≡ true
    → has h ≡ true
unfolding text_in
seen_or k seen has e s h t = elim (Bool-cases (text_eq h k)) [
  | inl q ↦ rw ((text_eq_iff h k).0 q) e
  | inr d ↦ s h (rw (text_in, d) at t)
]

module _ {V : Type 0} where
  cached_later :
      (h k : Text) (v : V) (cached : List (Text × V))
      → is_cached h cached ≡ true
      → is_cached h ((k, v) ∷ cached) ≡ true
  unfolding vector_of
  cached_later h k v cached e = elim (Bool-cases (text_eq h k)) [
    | inl t ↦ rw (is_cached, vector_of, t) refl
    | inr n ↦ rw (is_cached, vector_of, n) e
  ]

  pub cached_still :
      (h : Text) (ms : List Chunk) (vs : List V) (cached : List (Text × V))
      → is_cached h cached ≡ true
      → is_cached h (with_fresh ms vs cached) ≡ true
  unfolding with_fresh
  cached_still h [] vs cached e = e
  cached_still h (m ∷ ms) [] cached e = e
  cached_still h (m ∷ ms) (v ∷ vs) cached e =
      cached_still h ms vs _ (cached_later h m.content_hash v cached e)

  pub fresh_cached :
      (ms : List Chunk) (vs : List V) (cached : List (Text × V))
      → length vs ≡ length ms
      → All (λ (m : Chunk). is_cached m.content_hash (with_fresh ms vs cached) ≡ true) ms
  unfolding with_fresh vector_of
  fresh_cached [] vs cached e = tt
  fresh_cached (m ∷ ms) [] cached e = absurd (omega (arith, e))
  fresh_cached (m ∷ ms) (v ∷ vs) cached e =
      let self = (text_eq_iff m.content_hash m.content_hash).1 refl in
      (
        cached_still m.content_hash ms vs ((m.content_hash, v) ∷ cached)
            (rw (is_cached, vector_of, self) refl),
        fresh_cached ms vs _ (omega (arith, e)),
      )

  -- Every chunk's hash is cached, seen before or missed.
  pub misses_cover :
      (cached : List (Text × V)) (seen : List Text) (cs : List Chunk) (has : Text → Bool)
      → All (λ (m : Chunk). has m.content_hash ≡ true) (misses cached seen cs)
      → ((h : Text) → is_cached h cached ≡ true → has h ≡ true)
      → ((h : Text) → text_in h seen ≡ true → has h ≡ true)
      → All (λ (c : Chunk). has c.content_hash ≡ true) cs
  unfolding misses text_in
  misses_cover cached seen [] has m k s = tt
  misses_cover cached seen (c ∷ cs) has m k s =
      elim (Bool-cases (is_cached c.content_hash cached || text_in c.content_hash seen)) [
        | inl t ↦ (
          (elim (Bool-cases (is_cached c.content_hash cached)) [
            | inl e ↦ k c.content_hash e
            | inr d ↦ s c.content_hash (ground (arith, t, d))
          ]),
          misses_cover cached seen cs has (rw (misses, t) at m) k s,
        )
        | inr n ↦
            let m' : All (λ (x : Chunk). has x.content_hash ≡ true)
                (c ∷ misses cached (c.content_hash ∷ seen) cs) =
              rw (misses, n) at m in
            (
              m'.0,
              misses_cover cached (c.content_hash ∷ seen) cs has m'.1 k
                  (λ h e. seen_or c.content_hash seen has m'.0 s h e),
            )
      ]
