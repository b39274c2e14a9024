-- ===== src/Indexer/Select/Globs.antt =====
-- backend/internal/indexer/select.go: matchSegments, by which an exclusion pattern matches a path.
-- `matches` is `path.Match` on one segment.
use rongo.Prelude.{
  ◌≡◌, ◌≢◌, refl, sym, ◌∙◌, ◌↔◌, inl, inr, Bool, true, false, ◌||◌, List, [], ◌∷◌, Text, codes,
  text_eq, text_eq_iff, Bool-cases, if◌then◌else◌, arith,
}
use mathlib.Core.Bool.{true≢false}
use mathlib.Core.Path.{subst}

abbrev pub double_star : Text
double_star = codes "**"

-- Some rest of the list, the whole and the empty one included.
unfoldable pub some_rest : (List Text → Bool) → List Text → Bool
some_rest f [] = f []
some_rest f (s ∷ segs) = f (s ∷ segs) || some_rest f segs

module _ (matches : Text → Text → Bool) where
  abbrev first_matches : Text → (List Text → Bool) → List Text → Bool
  first_matches p f [] = false
  first_matches p f (s ∷ segs) = if matches p s then f segs else false

  unfoldable pub match_segments : List Text → List Text → Bool
  unfolding some_rest
  match_segments [] [] = true
  match_segments [] (s ∷ segs) = false
  match_segments (p ∷ pat) segs =
      if text_eq p double_star
      then some_rest (match_segments pat) segs
      else first_matches p (match_segments pat) segs

  -- A pattern and the segments that it stands for.
  pub data Covers : List Text → List Text → Type 0 where
    ends : Covers [] []
    segment :
        {p s : Text} {pat segs : List Text}
        → p ≢ double_star
        → matches p s ≡ true
        → Covers pat segs
        → Covers (p ∷ pat) (s ∷ segs)
    none : {pat segs : List Text} → Covers pat segs → Covers (double_star ∷ pat) segs
    more :
        {s : Text} {pat segs : List Text}
        → Covers (double_star ∷ pat) segs
        → Covers (double_star ∷ pat) (s ∷ segs)

  rest-Covers :
      (pat segs : List Text)
      → ((t : List Text) → match_segments pat t ≡ true → Covers pat t)
      → some_rest (match_segments pat) segs ≡ true
      → Covers (double_star ∷ pat) segs
  unfolding some_rest
  rest-Covers pat [] f h = none (f [] h)
  rest-Covers pat (s ∷ segs) f h = elim (Bool-cases (match_segments pat (s ∷ segs))) [
    | inl t ↦ none (f (s ∷ segs) t)
    | inr b ↦ more (rest-Covers pat segs f (rw b at h))
  ]

  star-form :
      (p : Text) (pat segs : List Text)
      → text_eq p double_star ≡ true
      → match_segments (p ∷ pat) segs ≡ some_rest (match_segments pat) segs
  unfolding match_segments
  star-form p pat segs t = rw (match_segments, t) refl

  plain-form :
      (p : Text) (pat segs : List Text)
      → text_eq p double_star ≡ false
      → match_segments (p ∷ pat) segs ≡ first_matches p (match_segments pat) segs
  unfolding match_segments
  plain-form p pat segs t = rw (match_segments, t) refl

  sound : (pat segs : List Text) → match_segments pat segs ≡ true → Covers pat segs
  unfolding match_segments
  sound [] [] h = ends
  sound [] (s ∷ segs) h = absurd (true≢false (sym h))
  sound (p ∷ pat) segs h = elim (Bool-cases (text_eq p double_star)) [
    | inl t ↦
        subst (λ q. Covers (q ∷ pat) segs) (sym ((text_eq_iff p double_star).0 t))
          (rest-Covers pat segs (sound pat) (sym (star-form p pat segs t) ∙ h))
    | inr f ↦ plain p pat segs f (sound pat) (sym (plain-form p pat segs f) ∙ h)
  ]
    where
      plain :
          (p : Text) (pat segs : List Text)
          → text_eq p double_star ≡ false
          → ((t : List Text) → match_segments pat t ≡ true → Covers pat t)
          → first_matches p (match_segments pat) segs ≡ true
          → Covers (p ∷ pat) segs
      plain p pat [] f g h = absurd (true≢false (sym h))
      plain p pat (s ∷ segs) f g h = elim (Bool-cases (matches p s)) [
        | inl t ↦
            segment (λ e. true≢false (sym ((text_eq_iff p double_star).1 e) ∙ f)) t
              (g segs (rw t at h))
        | inr n ↦ absurd (true≢false (sym (rw n at h)))
      ]

  rest_here : (f : List Text → Bool) (segs : List Text) → f segs ≡ true → some_rest f segs ≡ true
  unfolding some_rest
  rest_here f [] h = h
  rest_here f (s ∷ segs) h = rw h refl

  rest_later :
      (f : List Text → Bool) (s : Text) (segs : List Text)
      → some_rest f segs ≡ true
      → some_rest f (s ∷ segs) ≡ true
  unfolding some_rest
  rest_later f s segs h = ground (arith, h)

  is_star : text_eq double_star double_star ≡ true
  is_star = (text_eq_iff double_star double_star).1 refl

  complete : {pat segs : List Text} → Covers pat segs → match_segments pat segs ≡ true
  unfolding match_segments
  complete ends = refl
  complete (segment {p} {s} {pat} {segs} other m c) = elim (Bool-cases (text_eq p double_star)) [
    | inl t ↦ absurd (other ((text_eq_iff p double_star).0 t))
    | inr f ↦ plain-form p pat (s ∷ segs) f ∙ rw m (complete c)
  ]
  complete (none {pat} {segs} c) =
      star-form double_star pat segs is_star ∙ rest_here (match_segments pat) segs (complete c)
  complete (more {s} {pat} {segs} c) =
      star-form double_star pat (s ∷ segs) is_star
      ∙ rest_later (match_segments pat) s segs
          (sym (star-form double_star pat segs is_star) ∙ complete c)

  -- A pattern matches a path exactly when its segments cover the path's, in order: ** covers any
  -- number of them, also none, and every other one covers a single segment that it matches.
  pub match_segments-Covers :
      (pat segs : List Text) → (match_segments pat segs ≡ true) ↔ Covers pat segs
  match_segments-Covers pat segs = (sound pat segs, complete)
