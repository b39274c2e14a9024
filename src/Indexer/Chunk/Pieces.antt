-- ===== src/Indexer/Chunk/Pieces.antt =====
-- What `splitOverlongLine` of chunk.go promises.
use mathlib.Core.List.{flatten, append-nil}
use rongo.Prelude.{
  ℕ, zero, suc, ◌*◌, ◌≤◌, ◌<◌, ◌≡◌, refl, ap, ◌∙◌, inl, inr, [], ◌∷◌, ◌++◌, Text, arith, leb,
  leb→le, lt→ltb, ◌==◌, false, Bool-cases, length, take, drop, length-take, length-drop,
  take-append-drop, All,
}
use rongo.Indexer.Chunk.Windows.{estimate_tokens, pieces, split_overlong_line}

flatten-pieces :
    (rounds size : ℕ) (runes : Text)
    → 0 < size
    → length runes ≤ rounds
    → flatten (pieces rounds size runes) ≡ runes
unfolding pieces flatten
flatten-pieces zero size [] h r = refl
flatten-pieces zero size (c ∷ runes) h r = absurd (omega arith)
flatten-pieces (suc rounds) size [] h r = refl
flatten-pieces (suc rounds) size (c ∷ runes) h r =
    let ih =
      flatten-pieces rounds size (drop size (c ∷ runes)) h
        (omega (arith, length-drop size (c ∷ runes))) in
    rw (lt→ltb 0 (suc (length runes)) (omega arith))
      (ap (λ t. take size (c ∷ runes) ++ t) ih ∙ take-append-drop size (c ∷ runes))

-- At most `max` tokens by the estimate.
abbrev pub IsWithin : ℕ → Text → Type 0
IsWithin max s = estimate_tokens s ≤ max

IsWithin-tokens : (max : ℕ) (s : Text) → length s ≤ max * 4 → IsWithin max s
unfolding estimate_tokens
IsWithin-tokens max s h = ground arith

pos-eq_false : (n : ℕ) → 0 < n → (n == 0) ≡ false
pos-eq_false n h = ground arith

pieces-IsWithin :
    (rounds max : ℕ) (runes : Text) → All (IsWithin max) (pieces rounds (max * 4) runes)
unfolding pieces
pieces-IsWithin zero max runes = tt
pieces-IsWithin (suc rounds) max [] = tt
pieces-IsWithin (suc rounds) max (c ∷ runes) = rw (lt→ltb 0 (suc (length runes)) (omega arith)) (
  IsWithin-tokens max (take (max * 4) (c ∷ runes))
      (omega (arith, length-take (max * 4) (c ∷ runes))),
  pieces-IsWithin rounds max (drop (max * 4) (c ∷ runes)),
)

-- With a positive limit, the pieces of a line put together are the line, and every piece is within
-- the limit.
pub split_overlong_line_lem :
    (raw : Text) (max : ℕ)
    → 0 < max
    → (flatten (split_overlong_line raw max) ≡ raw)
      × All (IsWithin max) (split_overlong_line raw max)
unfolding split_overlong_line flatten
split_overlong_line_lem raw max h =
    rw (pos-eq_false max h) (elim (Bool-cases (leb (estimate_tokens raw) max)) [
      | inl small ↦ rw small (append-nil raw, (leb→le (estimate_tokens raw) max small, tt))
      | inr big ↦ rw big (
        flatten-pieces (length raw) (max * 4) raw (omega arith) (omega arith),
        pieces-IsWithin (length raw) max raw,
      )
    ])
