-- ===== src/Retrieve/Edit.antt =====
-- backend/internal/retrieve/retrieve.go: withinOneEdit, by which a misspelt name of a repository is
-- still found. A string is the list of its runes.
pub mod Exact
mod Tests
use rongo.Prelude.{
  ℕ, ◌+◌, ◌-◌, Bool, true, false, List, [], ◌∷◌, Text, length, ltb, leb, ◌==◌, if◌then◌else◌,
}

-- The loop and its return, on what is left of the two. `same` says that their lengths were equal.
unfoldable pub walk : Bool → Text → Text → ℕ → Bool
walk same [] b edits = leb edits 1
walk same (x ∷ a) [] edits = leb (edits + length (x ∷ a)) 1
walk same (x ∷ a) (y ∷ b) edits = elim (x == y) [
  | true ↦ walk same a b edits
  | false ↦ elim (ltb 1 (edits + 1)) [
    | true ↦ false
    | false ↦ elim same [
      | true ↦ walk same a b (edits + 1)
      | false ↦ walk same a (y ∷ b) (edits + 1)
    ]
  ]
]

-- From the swap on: the first text is not the shorter one.
unfoldable pub within_ordered : Text → Text → Bool
unfolding walk
within_ordered a b =
    if ltb 1 (length a - length b) then false else walk (length a == length b) a b 0

unfoldable pub within_one_edit : Text → Text → Bool
unfolding within_ordered
within_one_edit a b = if ltb (length a) (length b) then within_ordered b a else within_ordered a b
