-- ===== src/Indexer/Pipeline.antt =====
-- backend/internal/indexer/index.go: a run of the indexer over one repository. The tables of the manifests
-- (syncStructure, linkUnits), whose errors a run swallows, and the upkeep after it are left out.
pub mod Numbering
pub mod Sources
pub mod Vectors
pub mod Aligned
pub mod Laws
pub mod Plan
pub mod One
pub mod Whole
pub mod Swept
mod Tests
use rongo.Prelude.{
  ℕ, ◌+◌, Bool, true, false, not, ◌&&◌, ◌||◌, Option, none, some, List, [], ◌∷◌, ◌++◌, map, Text,
  codes, text_eq, length, ◌==◌, if◌then◌else◌,
}
use rongo.Prelude.Fallible.{◌>>=◌}
use rongo.Indexer.State.{Counts}
use rongo.Indexer.Chunk.Regions.{CodeSymbol}
use rongo.Indexer.Chunk.Assemble.{Chunk, chunk_file}
use rongo.Indexer.Select.{
  Decision, Verdict, skip_too_large, skip_empty, is_include, select_path, select_size, select_body,
  select_by_path,
}
use rongo.Indexer.Write.Schema.{FileRow, FileInfo, Tables, Limits}
use rongo.Indexer.Write.{replace_file, record_skipped, delete_file, delete_files_not_in}
use rongo.Indexer.Pipeline.Sources.{
  Target, Reading, body, too_large, unread, Deps, language_of, is_schema_lang, decision_text,
  is_gone, targets, totals,
}
use rongo.Indexer.Pipeline.Vectors.{vectors}

-- What a run changes: the tables of the index, and the state of the embedder and its cache.
abbrev pub Run : Type 0 → Type 0 → Type 0
Run V S = Tables V × S

module _ {V S : Type 0} (d : Deps V S) (repo sha : Text) where
  abbrev pub file_info : Text → ℕ → FileInfo
  file_info path size = record {
    repo = repo;
    path = path;
    sha = sha;
    lang = language_of path;
    size = size;
  }

  abbrev pub skip_file : Text → Decision → ℕ → Run V S → Option (Run V S)
  skip_file path why size run =
      record_skipped d.limits (file_info path size) (decision_text why) (run.0) >>= λ db1.
      some (db1, run.1)

  -- The symbols of a file, none if their extractor fails.
  unfoldable pub symbols_for : Text → Text → List CodeSymbol
  symbols_for path text =
      let lang = language_of path in
      elim (if text_eq lang (codes "bpmn")
        then d.extract_bpmn text
        else if is_schema_lang lang
        then d.extract_xsd text
        else d.extract_symbols path text) [ none ↦ [] | some syms ↦ syms ]

  unfoldable pub store_file :
      Text → Text → List CodeSymbol → List Chunk → Run V S → Option (Run V S)
  store_file path text syms chunks run = vectors d chunks (run.1) >>= λ (vs, s1).
      replace_file d.limits (file_info path (length text)) chunks vs syms
        (d.extract_tokens path text) (run.0)
      >>= λ db1. some (db1, s1)

  unfoldable pub index_chunks :
      Text → Text → List CodeSymbol → List Chunk → Run V S → Option (Run V S)
  index_chunks path text syms [] run = skip_file path skip_empty (length text) run
  index_chunks path text syms (c ∷ chunks) run = store_file path text syms (c ∷ chunks) run

  -- A body that was read, on what `SelectBody` says of it.
  unfoldable pub index_selected : Text → Verdict × Text → Run V S → Option (Run V S)
  index_selected path ((why, detail), text) run =
      if not (is_include why)
      then skip_file path why (length text) run
      else (let syms = symbols_for path text in
          index_chunks path text syms (chunk_file d.hash repo path (d.runes text) syms d.chunk) run)

  unfoldable pub index_read : Text → Reading → Run V S → Option (Run V S)
  index_read path (body text) run =
      index_selected path (select_body d.readers d.select path text) run
  index_read path (too_large size) run = skip_file path skip_too_large size run
  index_read path unread run = none

  unfoldable pub index_sized : Target → Option Verdict → Run V S → Option (Run V S)
  index_sized tg (some v) run = skip_file tg.path (v.0) tg.size run
  index_sized tg none run = index_read tg.path (d.read sha tg.path d.select.max_bytes) run

  unfoldable pub index_pathed : Target → Option Verdict → Run V S → Option (Run V S)
  index_pathed tg (some v) run = skip_file tg.path (v.0) 0 run
  index_pathed tg none run = index_sized tg (select_size d.readers d.select tg.path tg.size) run

  -- `indexOne`
  unfoldable pub index_one : Target → Run V S → Option (Run V S)
  index_one tg run = index_pathed tg (select_path d.readers d.select tg.path) run

  -- The body of the loop of `IndexRepo`.
  unfoldable pub index_target : Target → Run V S → Option (Run V S)
  index_target tg run =
      if d.cancelled tg.path
      then none
      else if is_gone tg
      then some (delete_file repo tg.path (run.0), run.1)
      else index_one tg run

  unfoldable pub index_targets : List Target → Run V S → Option (Run V S)
  index_targets [] run = some run
  index_targets (tg ∷ tgs) run = index_target tg run >>= λ run1. index_targets tgs run1

  -- Before the loop: a full run retires what the tree has no more.
  abbrev pub retire : Option (List Text) → List Target → Run V S → Run V S
  retire none tgs run =
      (delete_files_not_in repo (map (λ (tg : Target). tg.path) tgs) (run.0), run.1)
  retire (some paths) tgs run = run

  -- `IndexRepo`
  unfoldable pub index_repo :
      (last_sha : Text) → Option (List Text) → Run V S → Option (Run V S × Counts)
  index_repo last_sha paths run = targets d last_sha sha paths >>= λ tgs.
      index_targets tgs (retire paths tgs run) >>= λ run1. some (run1, totals repo (run1.0))

-- `hits` in `Sweep`: the rows of the repository with no reason that a rule now refuses, with its verdict.
unfoldable pub sweep_hits :
    {V S : Type 0} → Deps V S → Text → List FileRow → List (FileRow × Decision)
sweep_hits d repo [] = []
sweep_hits d repo (f ∷ fs) =
    let rest = sweep_hits d repo fs in
    let why = (select_by_path d.readers d.select f.path f.size).0 in
    if text_eq f.repo repo && text_eq f.skip_reason [] && not (is_include why)
    then (f, why) ∷ rest
    else rest

unfoldable pub sweep_rows :
    {V : Type 0} → Limits V → Text → List (FileRow × Decision) → Tables V → Option (Tables V)
sweep_rows lim repo [] db = some db
sweep_rows lim repo ((f, why) ∷ hits) db =
    record_skipped lim
      (record { repo = repo; path = f.path; sha = f.sha; lang = f.lang; size = f.size })
      (decision_text why) db
    >>= λ db1. sweep_rows lim repo hits db1

-- `Sweep` of a context that nobody cancels: how many files it changed, and the totals.
unfoldable pub sweep : {V S : Type 0} → Deps V S → Text → Tables V → Option (Tables V × ℕ × Counts)
sweep d repo db =
    let hits = sweep_hits d repo db.files in
    let swept =
      sweep_rows d.limits repo hits db >>= λ db1. some (db1, length hits, totals repo db1) in
    if length hits == 0 then some (db, 0, record { files = 0; chunks = 0 }) else swept
