-- ===== src/Indexer/Chunk/Regions.antt =====
-- `symbolRegions`, `anchorSymbols`, `contains`, `docStart` and `isComment` of chunk.go.
use rongo.Prelude.{
  ℕ, zero, suc, ◌+◌, ◌-◌, Bool, true, false, not, ◌&&◌, ◌||◌, List, [], ◌∷◌, ◌++◌, Text, codes,
  has_prefix, has_suffix, text_eq, trim_space, leb, ltb, ◌==◌, if◌then◌else◌, length, get_or,
}

-- symbols.Symbol; `end` is 0 where ctags reported no end line.
pub record CodeSymbol : Type 0 where
  pub name : Text
  pub kind : Text
  pub line : ℕ
  pub end : ℕ
  pub scope : Text
  pub scope_kind : Text

-- The zero value, which a region that no symbol owns carries.
abbrev pub no_symbol : CodeSymbol
no_symbol = record { name = []; kind = []; line = 0; end = 0; scope = []; scope_kind = [] }

-- One span of the file, owned by at most one symbol.
pub record Region : Type 0 where
  pub start : ℕ
  pub end : ℕ
  pub sym : CodeSymbol

abbrev comment_prefixes : List Text
comment_prefixes =
    codes "//"
    ∷ codes "/*"
    ∷ codes "*"
    ∷ codes "#"
    ∷ codes "--"
    ∷ codes ";"
    ∷ codes "%"
    ∷ codes "'''"
    ∷ codes "\"\"\""
    ∷ []

unfoldable pub has_any_prefix : Text → List Text → Bool
has_any_prefix s [] = false
has_any_prefix s (p ∷ ps) = has_prefix s p || has_any_prefix s ps

unfoldable pub is_comment : Text → Bool
is_comment trimmed = has_any_prefix trimmed comment_prefixes

-- The loop of `docStart`, from the line above `start` up to `floor`. The first argument is `l`.
unfoldable pub doc_loop : ℕ → List Text → (floor start : ℕ) → ℕ
doc_loop zero lines floor start = start
doc_loop (suc l) lines floor start =
    let t = trim_space (get_or lines l []) in
    let rest = doc_loop l lines floor (suc l) in
    if leb floor (suc l) then if text_eq t [] || not (is_comment t) then start else rest else start

unfoldable pub doc_start : List Text → (line floor : ℕ) → ℕ
unfolding doc_loop
doc_start lines line floor = doc_loop (line - 1) lines floor line

-- Whether `s` encloses another structural symbol.
unfoldable pub contains : CodeSymbol → List CodeSymbol → Bool
contains s [] = false
contains s (o ∷ all) =
    let rest = contains s all in
    if o.line == s.line && text_eq o.name s.name
    then rest
    else if ltb 0 s.end
    then (if ltb s.line o.line && leb o.line s.end then true else rest)
    else if not (text_eq o.scope [])
        && (text_eq o.scope s.name || has_suffix o.scope (codes "." ++ s.name))
    then true
    else rest

unfoldable pub structural : (Text → Bool) → ℕ → List CodeSymbol → List CodeSymbol
structural kinds line_count [] = []
structural kinds line_count (s ∷ syms) =
    let rest = structural kinds line_count syms in
    if s.line == 0 || ltb line_count s.line || not (kinds s.kind) then rest else s ∷ rest

unfoldable pub innermost : List CodeSymbol → List CodeSymbol → List CodeSymbol
innermost all [] = []
innermost all (s ∷ syms) =
    let rest = innermost all syms in if contains s all then rest else s ∷ rest

-- Every anchor stands on a later line than the one before it.
unfoldable pub in_order : List CodeSymbol → Bool
in_order [] = true
in_order (s ∷ []) = true
in_order (s ∷ t ∷ syms) = ltb s.line t.line && in_order (t ∷ syms)

unfoldable pub anchor_symbols : List CodeSymbol → ℕ → (Text → Bool) → List CodeSymbol
anchor_symbols syms line_count kinds =
    let all = structural kinds line_count syms in
    let anchors = innermost all all in if in_order anchors then anchors else []

-- The regions of the anchors from one that starts at `start` on.
unfoldable pub anchor_regions : List Text → (start : ℕ) → CodeSymbol → List CodeSymbol → List Region
anchor_regions lines start a [] =
    let end = length lines in
    if ltb end start then [] else record { start = start; end = end; sym = a } ∷ []
anchor_regions lines start a (b ∷ anchors) =
    let next = doc_start lines b.line (a.line + 1) in
    let end = next - 1 in
    let rest = anchor_regions lines next b anchors in
    if ltb end start then rest else record { start = start; end = end; sym = a } ∷ rest

unfoldable pub regions_of : List Text → List CodeSymbol → List Region
regions_of lines [] = record { start = 1; end = length lines; sym = no_symbol } ∷ []
regions_of lines (a ∷ anchors) =
    let start = doc_start lines a.line 1 in
    let rest = anchor_regions lines start a anchors in
    if ltb 1 start then record { start = 1; end = start - 1; sym = no_symbol } ∷ rest else rest

unfoldable pub symbol_regions : List Text → List CodeSymbol → (Text → Bool) → List Region
unfolding regions_of
symbol_regions lines syms kinds = regions_of lines (anchor_symbols syms (length lines) kinds)
