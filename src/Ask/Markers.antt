-- ===== src/Ask/Markers.antt =====
-- backend/internal/ask/renumber.go: what a citation marker is, and how a run of markers is written
-- back. The regular expressions are automata, one character at a time.
use rongo.Prelude.{
  ℕ, suc, ◌+◌, ◌-◌, ◌*◌, Bool, true, false, ◌&&◌, ◌||◌, Option, none, some, List, [], ◌∷◌, ◌++◌,
  Text, length, ltb, leb, ◌==◌, if◌then◌else◌,
}

abbrev pub open_bracket : ℕ
open_bracket = 91

-- `\d`
abbrev pub is_digit : ℕ → Bool
is_digit c = leb 48 c && leb c 57

-- `\s`
abbrev pub is_blank_class : ℕ → Bool
is_blank_class c = (c == 32) || (c == 9) || (c == 10) || (c == 12) || (c == 13)

-- `[ \t]`
abbrev pub is_seam : ℕ → Bool
is_seam c = (c == 32) || (c == 9)

-- Where the match of `chainAtStart` stands: behind a group, behind its bracket, behind so many
-- digits of a number, in the space before a comma, or behind a comma.
pub data Mode : Type 0 where
  seam : Mode
  bracket : Mode
  digits : ℕ → Mode
  gap : Mode
  comma : Mode

-- The next mode; `some none` is the end of a group, `none` the end of the match.
unfoldable pub advance : Mode → ℕ → Option (Option Mode)
advance seam c =
    if is_seam c then some (some seam) else if c == open_bracket then some (some bracket) else none
advance bracket c = if is_digit c then some (some (digits 1)) else none
advance (digits k) c =
    if c == b']'
    then some none
    else if is_digit c
    then (if ltb k 3 then some (some (digits (suc k))) else none)
    else if c == b','
    then some (some comma)
    else if is_blank_class c
    then some (some gap)
    else none
advance gap c =
    if c == b',' then some (some comma) else if is_blank_class c then some (some gap) else none
advance comma c =
    if is_digit c
    then some (some (digits 1))
    else if is_blank_class c
    then some (some comma)
    else none

-- How long the match is: `pos` characters are read, and `best` is the end of the last whole group.
unfoldable pub scan : Mode → (pos : ℕ) → (best : Option ℕ) → Text → Option ℕ
unfolding advance
scan m pos best [] = best
scan m pos best (c ∷ s) = elim (advance m c) [
  | none ↦ best
  | some (some m') ↦ scan m' (suc pos) best s
  | some none ↦ scan seam (suc pos) (some (suc pos)) s
]

-- `chainAtStart`: the length of the run of markers that the text begins with.
unfoldable pub chain_at_start : Text → Option ℕ
unfolding scan
chain_at_start [] = none
chain_at_start (c ∷ s) = if c == open_bracket then scan bracket 1 none s else none

unfoldable pub all_of : (ℕ → Bool) → Text → Bool
all_of p [] = true
all_of p (c ∷ s) = p c && all_of p s

-- `[\d\s,]`
abbrev pub in_marker : ℕ → Bool
in_marker c = is_digit c || is_blank_class c || (c == b',')

-- `markerPrefixRe`
unfoldable pub marker_prefix : Text → Bool
unfolding all_of
marker_prefix [] = false
marker_prefix (c ∷ s) = c == open_bracket && all_of in_marker s

-- `chainMoreRe`
unfoldable pub chain_more : Text → Bool
unfolding all_of
chain_more [] = true
chain_more (c ∷ s) =
    let rest = chain_more s in if is_seam c then rest else c == open_bracket && all_of in_marker s

-- The renumberer between two tokens, but for what is pending.
pub record Numbering : Type 0 where
  pub dense : ℕ → Option ℕ
  pub order : List ℕ
  pub in_fence : Bool

abbrev pub new_numbering : Numbering
new_numbering = record { dense = λ n. none; order = []; in_fence = false }

-- `denseOf`
unfoldable pub dense_of : ℕ → Numbering → ℕ × Numbering
dense_of n r = elim (r.dense n) [
  | some d ↦ (d, r)
  | none ↦
      let d = suc (length r.order) in
      (d, record r { order = r.order ++ n ∷ []; dense = λ k. if k == n then some d else r.dense k })
]

-- The numbers of a run, `numberRe` and `strconv.Atoi`. `reading` says that a number is being read.
unfoldable pub numbers_from : Bool → ℕ → Text → List ℕ
numbers_from reading acc [] = if reading then acc ∷ [] else []
numbers_from reading acc (c ∷ s) =
    let inside = numbers_from true (acc * 10 + (c - 48)) s in
    let outside = numbers_from false 0 s in
    if is_digit c then inside else if reading then acc ∷ outside else outside

unfoldable pub numbers : Text → List ℕ
unfolding numbers_from
numbers s = numbers_from false 0 s
