-- ===== src/Ask/Rewriting.antt =====
-- backend/internal/ask/renumber.go: markerRun, rewrite and rewriteChain. `n` is how many sources the
-- prompt numbered.
pub mod Order
use rongo.Prelude.{
  ℕ, itoa, zero, suc, ◌+◌, ◌-◌, ◌*◌, Bool, true, false, ◌&&◌, ◌||◌, Option, none, some, List, [],
  ◌∷◌, ◌++◌, Text, ltb, leb, ◌==◌, if◌then◌else◌,
}
use rongo.Prelude.Sorting.{sort_stable}
use rongo.Ask.Markers.{is_digit, open_bracket, Numbering, dense_of, numbers}

module _ (n : ℕ) where
  abbrev pub is_source : ℕ → Bool
  is_source k = leb 1 k && leb k n

  unfoldable pub all_sources : List ℕ → Bool
  all_sources [] = true
  all_sources (k ∷ ks) = is_source k && all_sources ks

  unfoldable pub number_in : ℕ → List ℕ → Bool
  number_in d [] = false
  number_in d (e ∷ ds) = d == e || number_in d ds

  -- The second loop of `markerRun`; what is in `out` is what `seen` holds.
  unfoldable pub mint : List ℕ → List ℕ → Numbering → List ℕ × Numbering
  unfolding number_in dense_of
  mint [] out r = (out, r)
  mint (k ∷ ks) out r =
      let (d, r') = dense_of k r in mint ks (if number_in d out then out else out ++ d ∷ []) r'

  -- `markerRun`; `none` is `ok == false`, and then nothing was minted.
  unfoldable pub marker_run : Text → Numbering → Option (List ℕ × Numbering)
  unfolding all_sources mint sort_stable numbers
  marker_run s r =
      let ks = numbers s in
      let (ds, r') = mint ks [] r in if all_sources ks then some (sort_stable ltb ds, r') else none

  -- One number of a group that is renumbered where it stands.
  unfoldable pub renumber_one : ℕ → Text → Numbering → Text × Numbering
  unfolding dense_of itoa
  renumber_one k shown r =
      let (d, r') = dense_of k r in if is_source k then (itoa d, r') else (shown, r)

  -- `rewrite` over the groups of a run: all digits of a run stand in its groups, and everything
  -- else is kept. `shown` is the number that is being read, as it is written.
  unfoldable pub rewrite_from : (shown : Text) → ℕ → Text → Numbering → Text × Numbering
  unfolding renumber_one
  rewrite_from [] acc [] r = ([], r)
  rewrite_from (x ∷ shown) acc [] r = renumber_one acc (x ∷ shown) r
  rewrite_from [] acc (c ∷ s) r =
      let inside = rewrite_from (c ∷ []) (c - 48) s r in
      let outside = rewrite_from [] 0 s r in
      if is_digit c then inside else (c ∷ outside.0, outside.1)
  rewrite_from (x ∷ shown) acc (c ∷ s) r =
      let inside = rewrite_from (x ∷ shown ++ c ∷ []) (acc * 10 + (c - 48)) s r in
      let (num, r') = renumber_one acc (x ∷ shown) r in
      let (rest, r'') = rewrite_from [] 0 s r' in
      if is_digit c then inside else (num ++ c ∷ rest, r'')

  unfoldable pub bracketed : List ℕ → Text
  unfolding itoa
  bracketed [] = []
  bracketed (d ∷ ds) = open_bracket ∷ (itoa d ++ b']' ∷ bracketed ds)

  -- `rewriteChain`
  unfoldable pub rewrite_chain : Text → Numbering → Text × Numbering
  unfolding marker_run rewrite_from bracketed
  rewrite_chain s r = elim (marker_run s r) [
    | none ↦ rewrite_from [] 0 s r
    | some (ds, r') ↦ (bracketed ds, r')
  ]
