-- ===== src/Indexer/Chunk/Windows.antt =====
-- `estimateTokens`, `windows` and `splitOverlongLine` of chunk.go.
use rongo.Prelude.{
  ℕ, zero, suc, ◌+◌, ◌-◌, ◌*◌, ◌/◌, Bool, ◌&&◌, List, [], ◌∷◌, Text, leb, ltb, ◌==◌, if◌then◌else◌,
  length, get_or, take, drop,
}

-- About four characters make a token.
unfoldable pub estimate_tokens : Text → ℕ
estimate_tokens s = if length s == 0 then 0 else (length s + 3) / 4

pub record ChunkOptions : Type 0 where
  pub target_tokens : ℕ
  pub max_tokens : ℕ
  pub overlap_tokens : ℕ
  pub strip_comments : Bool

-- A window of lines, inclusive on both ends and counted from 1.
pub record Span : Type 0 where
  pub start : ℕ
  pub end : ℕ

-- The tokens of line `i`, its newline included.
unfoldable pub line_tokens : List Text → ℕ → ℕ
unfolding estimate_tokens
line_tokens lines i = estimate_tokens (get_or lines (i - 1) []) + 1

-- The inner loop of `windows`: the first line past `end` that the window does not take. The first
-- argument counts the rounds left, `to + 1 - end`.
unfoldable pub fill : ℕ → List Text → ChunkOptions → (to start end tokens : ℕ) → ℕ
fill zero lines opts to start end tokens = end
fill (suc rounds) lines opts to start end tokens =
    let t = line_tokens lines end in
    let rest = fill rounds lines opts to start (end + 1) (tokens + t) in
    if leb end to
    then if ltb start end && ltb opts.target_tokens (tokens + t) then end else rest
    else end

-- The loop that steps back over the trailing lines that the next window repeats.
unfoldable pub step_back : List Text → ChunkOptions → (start back ov : ℕ) → ℕ
step_back lines opts start zero ov = zero
step_back lines opts start (suc back) ov =
    let rest = step_back lines opts start back (ov + line_tokens lines (suc back)) in
    if ltb start (suc back) && ltb ov opts.overlap_tokens then rest else suc back

-- Where the window after `start .. end` begins: at least one line further.
unfoldable pub next_start : List Text → ChunkOptions → (start end : ℕ) → ℕ
next_start lines opts start end =
    let next = step_back lines opts start end 0 + 1 in if leb next start then start + 1 else next

-- The last line of the window that begins at `start`.
unfoldable pub window_end : List Text → ChunkOptions → (start to : ℕ) → ℕ
window_end lines opts start to = fill (to + 1 - start) lines opts to start start 0 - 1

-- The outer loop of `windows`. The first argument counts the rounds left; each round moves `start`
-- by one line at least.
unfoldable pub windows_from : ℕ → List Text → ChunkOptions → (start to : ℕ) → List Span
windows_from zero lines opts start to = []
windows_from (suc rounds) lines opts start to =
    let end = window_end lines opts start to in
    let rest = windows_from rounds lines opts (next_start lines opts start end) to in
    if leb start to
    then record { start = start; end = end } ∷ (if leb to end then [] else rest)
    else []

unfoldable pub windows : List Text → (from to : ℕ) → ChunkOptions → List Span
windows lines from to opts =
    if ltb to from then [] else windows_from (to + 1 - from) lines opts from to

-- The loop of `splitOverlongLine`, with as many rounds as there are runes.
unfoldable pub pieces : ℕ → ℕ → Text → List Text
pieces zero size runes = []
pieces (suc rounds) size runes =
    let rest = pieces rounds size (drop size runes) in
    if ltb 0 (length runes) then take size runes ∷ rest else []

unfoldable pub split_overlong_line : Text → ℕ → List Text
unfolding estimate_tokens
split_overlong_line raw max_tokens =
    if max_tokens == 0
    then raw ∷ []
    else if leb (estimate_tokens raw) max_tokens
    then raw ∷ []
    else pieces (length raw) (max_tokens * 4) raw

-- `ChunkOptions.Splits`
unfoldable pub splits : ChunkOptions → Text → Bool
splits o raw = ltb 1 (length (split_overlong_line raw o.max_tokens))
