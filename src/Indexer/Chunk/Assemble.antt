-- ===== src/Indexer/Chunk/Assemble.antt =====
-- `ChunkFile` of chunk.go and what it builds a chunk from. The SHA-256 of the content key is a
-- parameter, `hash`.
use rongo.Prelude.{
  ℕ, ◌+◌, ◌-◌, ◌/◌, Bool, false, ◌&&◌, ◌||◌, List, [], ◌∷◌, ◌++◌, map, Text, codes, text_eq,
  has_prefix, trim_space, join, split_on, leb, ltb, ◌==◌, if◌then◌else◌, length, take, drop,
}
use rongo.Prelude.Int.{ℤ, pos, negsuc}
use rongo.Indexer.Chunk.Windows.{ChunkOptions, Span, windows, split_overlong_line}
use rongo.Indexer.Chunk.Regions.{CodeSymbol, Region, has_any_prefix, symbol_regions}
use rongo.Indexer.Chunk.Kinds.{diagram_kind, anchor_kind, strip_prefixes_for}

pub record Chunk : Type 0 where
  pub ordinal : ℕ
  pub start_line : ℕ
  pub end_line : ℕ
  pub symbol : Text
  pub text : Text
  pub raw_text : Text
  pub search_text : Text
  pub content_hash : Text

-- The options as the caller gives them, in Go's `int`.
pub record RawOptions : Type 0 where
  pub target : ℤ
  pub max : ℤ
  pub overlap : ℤ
  pub strip : Bool

abbrev pub default_chunk_options : ChunkOptions
default_chunk_options = record {
  target_tokens = 600;
  max_tokens = 800;
  overlap_tokens = 75;
  strip_comments = false;
}

abbrev max_or : ℤ → ℕ → ℕ
max_or (pos n) target = if ltb n target then target else n
max_or (negsuc n) target = target

abbrev overlap_or : ℤ → ℕ → ℕ
overlap_or (pos n) target = if leb target n then target / 8 else n
overlap_or (negsuc n) target = target / 8

abbrev options_for : ℤ → RawOptions → ChunkOptions
options_for (negsuc n) o = default_chunk_options
options_for (pos n) o = if n == 0 then default_chunk_options else record {
  target_tokens = n;
  max_tokens = max_or o.max n;
  overlap_tokens = overlap_or o.overlap n;
  strip_comments = o.strip;
}

-- The first three tests of `ChunkFile`. The defaults pass the second and the third.
unfoldable pub normalise : RawOptions → ChunkOptions
normalise o = options_for o.target o

-- `strings.TrimSpace s == ""`
unfoldable pub is_blank : Text → Bool
is_blank s = text_eq (trim_space s) []

-- `hasCommentPrefix`
unfoldable pub has_comment_prefix : Text → List Text → Bool
unfolding has_any_prefix
has_comment_prefix trimmed prefixes =
    has_any_prefix trimmed prefixes
    || text_eq trimmed (codes "*")
    || has_prefix trimmed (codes "* ")

unfoldable pub keep_code : List Text → List Text → List Text
keep_code prefixes [] = []
keep_code prefixes (l ∷ lines) =
    let t = trim_space l in
    let rest = keep_code prefixes lines in
    if (if text_eq t [] then false else has_comment_prefix t prefixes) then rest else l ∷ rest

unfoldable pub strip_comments : Text → Text → Text
strip_comments path s = join (keep_code (strip_prefixes_for path) (split_on 10 s)) (10 ∷ [])

-- One link of the enclosing-symbol chain.
pub record ChainPart : Type 0 where
  pub kind : Text
  pub name : Text

unfoldable pub symbol_chain : CodeSymbol → List ChainPart
symbol_chain s =
    (if text_eq s.scope [] then [] else record { kind = s.scope_kind; name = s.scope } ∷ [])
    ++ (if text_eq s.name [] then [] else record { kind = s.kind; name = s.name } ∷ [])

unfoldable pub render_part : ChainPart → Text
render_part p = if text_eq p.kind [] then p.name else p.kind ++ (32 ∷ p.name)

unfoldable pub render_chain : List ChainPart → Text
unfolding render_part
render_chain chain = join (map render_part chain) (codes " > ")

unfoldable pub enrich : (repo path : Text) → List ChainPart → Text → Text
enrich repo path chain raw =
    let rendered = render_chain chain in
    repo
    ++ (codes "/"
        ++ (path ++ (10 ∷ ((if text_eq rendered [] then [] else rendered ++ (10 ∷ [])) ++ raw))))

abbrev pub field_sep : ℕ
field_sep = 0x1d

abbrev pub part_sep : ℕ
part_sep = 0x1f

abbrev pub kind_sep : ℕ
kind_sep = 0x1e

unfoldable pub canon_part : ChainPart → Text
canon_part p = p.kind ++ (kind_sep ∷ p.name)

-- What `contentHash` hashes.
unfoldable pub content_key : (repo path : Text) → List ChainPart → Text → Text
unfolding canon_part
content_key repo path chain raw =
    join (repo ∷ path ∷ join (map canon_part chain) (part_sep ∷ []) ∷ raw ∷ []) (field_sep ∷ [])

-- `lines[w.start-1:w.end]`, joined
unfoldable pub raw_of : List Text → Span → Text
raw_of lines w = join (take (w.end + 1 - w.start) (drop (w.start - 1) lines)) (10 ∷ [])

-- What the loops of `ChunkFile` read and do not change.
pub record SourceFile : Type 0 where
  pub repo : Text
  pub path : Text
  pub lines : List Text
  pub opts : ChunkOptions

module _ (hash : Text → Text) (f : SourceFile) where
  unfoldable pub chunk_of : Region → Span → (part search : Text) → ℕ → Chunk
  chunk_of r w part search ordinal =
      let chain = symbol_chain r.sym in
      record {
        ordinal = ordinal;
        start_line = w.start;
        end_line = w.end;
        symbol = r.sym.name;
        text = enrich f.repo f.path chain search;
        raw_text = part;
        search_text = search;
        content_hash = hash (content_key f.repo f.path chain search);
      }

  -- The innermost loop: one chunk for each part of a window, unless stripping left it blank.
  unfoldable pub add_parts : Region → Span → List Text → List Chunk → List Chunk
  add_parts r w [] out = out
  add_parts r w (part ∷ parts) out =
      let search = if f.opts.strip_comments then strip_comments f.path part else part in
      add_parts r w parts (
        if f.opts.strip_comments && is_blank search
        then out
        else out ++ chunk_of r w part search (length out) ∷ [])

  unfoldable pub add_window : Region → Span → List Chunk → List Chunk
  add_window r w out =
      let raw = raw_of f.lines w in
      if is_blank raw then out else add_parts r w (split_overlong_line raw f.opts.max_tokens) out

  unfoldable pub add_windows : Region → List Span → List Chunk → List Chunk
  add_windows r [] out = out
  add_windows r (w ∷ ws) out = add_windows r ws (add_window r w out)

  unfoldable pub add_region : Region → List Chunk → List Chunk
  add_region r out =
      if text_eq r.sym.kind diagram_kind
      then out
      else add_windows r (windows f.lines r.start r.end f.opts) out

  unfoldable pub add_regions : List Region → List Chunk → List Chunk
  add_regions [] out = out
  add_regions (r ∷ rs) out = add_regions rs (add_region r out)

-- `strings.TrimSuffix s "\n"`
unfoldable pub trim_newline : Text → Text
trim_newline [] = []
trim_newline (c ∷ []) = if c == 10 then [] else c ∷ []
trim_newline (c ∷ d ∷ s) = c ∷ trim_newline (d ∷ s)

-- The lines of a body: one newline at its end closes the last line.
unfoldable pub lines_of : Text → List Text
unfolding trim_newline
lines_of body = split_on 10 (trim_newline body)

unfoldable pub chunk_file :
    (Text → Text) → (repo path body : Text) → List CodeSymbol → RawOptions → List Chunk
chunk_file hash repo path body syms o =
    let lines = lines_of body in
    let f : SourceFile = record { repo = repo; path = path; lines = lines; opts = normalise o } in
    if is_blank body
    then []
    else add_regions hash f (symbol_regions lines syms (anchor_kind path)) []
