-- ===== src/Indexer/Write/Schema.antt =====
-- backend/internal/indexer/write.go: the rows of the tables that hold the index, and what its statements
-- select. A table is the list of its rows, oldest first; `last_file` and `last_chunk` are the greatest
-- ids that AUTOINCREMENT has given. A vector is of any type `V`.
use rongo.Prelude.{
  ℕ, Bool, true, false, not, ◌&&◌, ◌||◌, Option, none, some, List, [], ◌∷◌, map, Text, codes,
  text_eq, text_in, filter, ◌==◌, if◌then◌else◌,
}
use rongo.Indexer.Chunk.Regions.{CodeSymbol}
use rongo.Indexer.Chunk.Assemble.{Chunk}

pub record FileRow : Type 0 where
  pub id : ℕ
  pub repo : Text
  pub path : Text
  pub sha : Text
  pub lang : Text
  pub size : ℕ
  pub skip_reason : Text

pub record ChunkRow : Type 0 where
  pub id : ℕ
  pub file_id : ℕ
  pub ordinal : ℕ
  pub start_line : ℕ
  pub end_line : ℕ
  pub symbol : Text
  pub raw_text : Text
  pub content_hash : Text

pub record SymbolRow : Type 0 where
  pub file_id : ℕ
  pub name : Text
  pub kind : Text
  pub line : ℕ
  pub scope : Text

-- `edges.Token`
pub record Token : Type 0 where
  pub kind : Text
  pub value : Text
  pub line : ℕ

pub record TokenRow : Type 0 where
  pub file_id : ℕ
  pub token : Token

pub record Tables (V : Type 0) : Type 0 where
  pub files : List FileRow
  pub chunks : List ChunkRow
  -- `chunks_vec` and `chunks_fts`, by rowid.
  pub vec : List (ℕ × V)
  pub fts : List (ℕ × Text)
  pub symbols : List SymbolRow
  pub tokens : List TokenRow
  pub last_file : ℕ
  pub last_chunk : ℕ

-- What the constraints of the tables go by beside their rows: the names that repo_state has, which
-- `files.repo` refers to, and the vectors that have the width of `chunks_vec`.
pub record Limits (V : Type 0) : Type 0 where
  pub is_registered : Text → Bool
  pub is_wide : V → Bool

-- What the caller says of a file.
pub record FileInfo : Type 0 where
  pub repo : Text
  pub path : Text
  pub sha : Text
  pub lang : Text
  pub size : ℕ

abbrev pub data_languages : List Text
data_languages = map codes ("json" ∷ "yaml" ∷ "xml" ∷ "properties" ∷ [])

abbrev pub non_definition_kinds : Text → List Text
non_definition_kinds lang =
    if text_eq lang (codes "go")
    then map codes ("member" ∷ "package" ∷ [])
    else if text_eq lang (codes "sql")
    then map codes ("field" ∷ "index" ∷ [])
    else []

-- `isDefinition`
unfoldable pub is_definition : Text → Text → Bool
unfolding text_in
is_definition lang kind =
    if text_in lang data_languages then false else not (text_in kind (non_definition_kinds lang))

abbrev pub at_key : Text → Text → FileRow → Bool
at_key repo path f = text_eq f.repo repo && text_eq f.path path

-- `SELECT … FROM files WHERE repo = ? AND path = ?`
unfoldable pub find_file : Text → Text → List FileRow → Option FileRow
find_file repo path [] = none
find_file repo path (f ∷ fs) =
    let rest = find_file repo path fs in if at_key repo path f then some f else rest

abbrev pub is_stored : Text → Text → List FileRow → Bool
is_stored repo path fs = elim (find_file repo path fs) [ none ↦ false | some f ↦ true ]

unfoldable pub set_row : FileInfo → Text → FileRow → FileRow
set_row i reason f =
    if at_key i.repo i.path f
    then record f { sha = i.sha; lang = i.lang; size = i.size; skip_reason = reason }
    else f

abbrev pub new_row : FileInfo → Text → ℕ → FileRow
new_row i reason id = record {
  id = id;
  repo = i.repo;
  path = i.path;
  sha = i.sha;
  lang = i.lang;
  size = i.size;
  skip_reason = reason;
}

-- The ids of the chunks of some files.
unfoldable pub owned : (ℕ → Bool) → List ChunkRow → List ℕ
owned mine cs = map (λ (c : ChunkRow). c.id) (filter (λ (c : ChunkRow). mine c.file_id) cs)

abbrev pub chunk_row : ℕ → ℕ → Chunk → ChunkRow
chunk_row id file c = record {
  id = id;
  file_id = file;
  ordinal = c.ordinal;
  start_line = c.start_line;
  end_line = c.end_line;
  symbol = c.symbol;
  raw_text = c.raw_text;
  content_hash = c.content_hash;
}

-- `UNIQUE (file_id, ordinal)`
unfoldable pub has_ordinal : ℕ → ℕ → List ChunkRow → Bool
has_ordinal file n [] = false
has_ordinal file n (c ∷ cs) = (c.file_id == file && c.ordinal == n) || has_ordinal file n cs

abbrev pub unsearchable : Chunk → Bool
unsearchable c = text_eq c.search_text [] && not (text_eq c.raw_text [])

abbrev pub symbol_row : ℕ → CodeSymbol → SymbolRow
symbol_row file s = record {
  file_id = file;
  name = s.name;
  kind = s.kind;
  line = s.line;
  scope = s.scope;
}

abbrev pub definitions : Text → List CodeSymbol → List CodeSymbol
definitions lang syms = filter (λ (s : CodeSymbol). is_definition lang s.kind) syms

abbrev pub token_row : ℕ → Token → TokenRow
token_row file t = record { file_id = file; token = t }

-- `SELECT id FROM files WHERE repo = ? AND path = ?`, as the test that `IN` makes of it.
unfoldable pub is_file_of : Text → Text → List FileRow → ℕ → Bool
is_file_of repo path [] n = false
is_file_of repo path (f ∷ fs) n = (at_key repo path f && n == f.id) || is_file_of repo path fs n

-- `gone` in `DeleteFilesNotIn`
unfoldable pub gone_paths : Text → List Text → List FileRow → List Text
unfolding text_in
gone_paths repo keep [] = []
gone_paths repo keep (f ∷ fs) =
    let rest = gone_paths repo keep fs in
    if text_eq f.repo repo && not (text_in f.path keep) then f.path ∷ rest else rest
