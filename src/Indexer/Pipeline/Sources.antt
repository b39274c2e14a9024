-- ===== src/Indexer/Pipeline/Sources.antt =====
-- backend/internal/indexer/index.go: what a run reads and asks of others, with LanguageOf of select.go.
use rongo.Prelude.{
  ℕ, Bool, false, not, ◌&&◌, ◌||◌, Option, none, some, List, [], ◌∷◌, map, Text, codes, text_eq,
  lower, ext, length, filter, id_in, if◌then◌else◌,
}
use rongo.Indexer.State.{Counts}
use rongo.Indexer.Chunk.Regions.{CodeSymbol}
use rongo.Indexer.Chunk.Assemble.{RawOptions}
use rongo.Indexer.Select.{
  Decision, include, skip_vendored, skip_generated, skip_binary, skip_too_large, skip_secret,
  skip_excluded, skip_data, skip_empty, SelectOptions, Readers, holds_of,
}
use rongo.Indexer.Write.Schema.{FileRow, ChunkRow, Token, Tables, Limits}

-- `gitrepo.Change`
pub record Change : Type 0 where
  pub path : Text
  pub deleted : Bool
  pub mode : Text
  pub size : ℕ

pub record Target : Type 0 where
  pub path : Text
  pub deleted : Bool
  pub mode : Text
  pub size : ℕ

-- What a read gives: the bytes, a `TooLargeError` with the size, or another error.
pub data Reading : Type 0 where
  body : Text → Reading
  too_large : ℕ → Reading
  unread : Reading

-- `Deps` but for the rows of the database and the logger. The vectors are of type `V`; `S` is the state of the embedding
-- service and of its cache. `none` is an error.
pub record Deps (V S : Type 0) : Type 0 where
  pub list_entries : Text → Option (List Change)
  pub changed_entries : (from to : Text) → Option (List Change)
  pub read : (sha path : Text) (limit : ℕ) → Reading
  -- Whether the context is cancelled when the loop comes to a path.
  pub cancelled : Text → Bool
  pub extract_bpmn : Text → Option (List CodeSymbol)
  pub extract_xsd : Text → Option (List CodeSymbol)
  pub extract_symbols : (path body : Text) → Option (List CodeSymbol)
  pub extract_tokens : (path body : Text) → List Token
  pub hash : Text → Text
  -- The runes of a body, which is the list of its bytes.
  pub runes : Text → Text
  -- The cache, as `VectorCache`, and the embedder.
  pub get : S → List Text → Option (List (Text × V))
  pub put_all : S → List Text → List V → Option S
  pub embed : S → List Text → Option (List V × S)
  -- What the database refuses a write by. SyncSpecs, which registers repositories, does not run meanwhile.
  pub limits : Limits V
  pub readers : Readers
  pub select : SelectOptions
  pub chunk : RawOptions

abbrev pub ext_lang : List (Text × Text)
ext_lang =
    (codes ".java", codes "java")
    ∷ (codes ".go", codes "go")
    ∷ (codes ".ts", codes "ts")
    ∷ (codes ".tsx", codes "tsx")
    ∷ (codes ".js", codes "js")
    ∷ (codes ".jsx", codes "jsx")
    ∷ (codes ".py", codes "py")
    ∷ (codes ".rb", codes "rb")
    ∷ (codes ".cs", codes "cs")
    ∷ (codes ".kt", codes "kt")
    ∷ (codes ".scala", codes "scala")
    ∷ (codes ".rs", codes "rs")
    ∷ (codes ".c", codes "c")
    ∷ (codes ".h", codes "c")
    ∷ (codes ".cc", codes "cpp")
    ∷ (codes ".cpp", codes "cpp")
    ∷ (codes ".hpp", codes "cpp")
    ∷ (codes ".php", codes "php")
    ∷ (codes ".sh", codes "sh")
    ∷ (codes ".sql", codes "sql")
    ∷ (codes ".md", codes "md")
    ∷ (codes ".yaml", codes "yaml")
    ∷ (codes ".yml", codes "yaml")
    ∷ (codes ".json", codes "json")
    ∷ (codes ".xml", codes "xml")
    ∷ (codes ".properties", codes "properties")
    ∷ (codes ".html", codes "html")
    ∷ (codes ".css", codes "css")
    ∷ (codes ".scss", codes "scss")
    ∷ (codes ".bpmn", codes "bpmn")
    ∷ (codes ".xsd", codes "xsd")
    ∷ (codes ".wsdl", codes "wsdl")
    ∷ []

-- `LanguageOf`
unfoldable pub language_of : Text → Text
unfolding holds_of ext
language_of p = elim (holds_of (map lower (ext p)) ext_lang) [ some l ↦ l | none ↦ [] ]

abbrev pub is_schema_lang : Text → Bool
is_schema_lang lang = text_eq lang (codes "xsd") || text_eq lang (codes "wsdl")

-- `gitrepo.Indexable`
abbrev pub indexable : Text → Bool
indexable mode = text_eq mode (codes "100644") || text_eq mode (codes "100755")

abbrev pub decision_text : Decision → Text
decision_text include = codes "include"
decision_text skip_vendored = codes "vendored"
decision_text skip_generated = codes "generated"
decision_text skip_binary = codes "binary"
decision_text skip_too_large = codes "too_large"
decision_text skip_secret = codes "secret"
decision_text skip_excluded = codes "excluded"
decision_text skip_data = codes "data"
decision_text skip_empty = codes "empty"

-- The branch of the loop that takes a path away.
abbrev pub is_gone : Target → Bool
is_gone tg = tg.deleted || (not (text_eq tg.mode []) && not (indexable tg.mode))

abbrev pub target_of : Change → Target
target_of e = record { path = e.path; deleted = false; mode = e.mode; size = e.size }

-- `changed[p]`: the last entry of the path counts, the zero value if there is none.
unfoldable pub changed_at : Text → List Change → Target → Target
changed_at p [] found = found
changed_at p (c ∷ cs) found = changed_at p cs (
    if text_eq p c.path
    then record { path = p; deleted = c.deleted; mode = c.mode; size = c.size }
    else found)

abbrev pub bare_target : Text → Target
bare_target p = record { path = p; deleted = false; mode = []; size = 0 }

module _ {V S : Type 0} (d : Deps V S) where
  -- `targets`
  unfoldable pub targets : (last_sha sha : Text) → Option (List Text) → Option (List Target)
  unfolding changed_at
  targets last_sha sha none = elim (d.list_entries sha) [
    | none ↦ none
    | some all ↦ some (map target_of all)
  ]
  targets last_sha sha (some paths) =
      elim (if text_eq last_sha [] then some [] else d.changed_entries last_sha sha) [
        | none ↦ none
        | some changes ↦ some (map (λ (p : Text). changed_at p changes (bare_target p)) paths)
      ]

-- `totals`
unfoldable pub totals : {V : Type 0} → Text → Tables V → Counts
totals repo db =
    let mine = filter (λ (f : FileRow). text_eq f.repo repo) db.files in
    record {
      files = length mine;
      chunks =
          length (
            filter (λ (c : ChunkRow). id_in c.file_id (map (λ (f : FileRow). f.id) mine))
              db.chunks);
    }
